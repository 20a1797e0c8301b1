-- ===== src/Parser/CreateTable.antt =====
-- src/parser/parser.cpp: CREATE TABLE with its constraints and partitions, and ALTER TABLE.
pub mod Ends
use nyxdb.Base.{
  ℕ, zero, suc, Bool, true, false, ◌||◌, List, [], ◌∷◌, ◌++◌, Option, none, some, ltb,
  if◌then◌else◌, ◌⊎◌, inl, inr,
}
use nyxdb.Base.Int.{ℤ, ltb_ℤ, pos_part}
use nyxdb.Base.Strings.{text}
use nyxdb.Value.{TypeId, Value}
use nyxdb.Parser.Token.{TokenKind, Token}
use nyxdb.Parser.Kind.{is_kind}
use nyxdb.Parser.Ast.{
  Expr, ColumnDef, ConstraintKind, TableConstraint, PartitionDefAst, CreateTableStmt,
  AlterAddPartitionStmt,
}
use nyxdb.Parser.State.{
  Parser, Outcome, Parse, ◌>>=◌, ret, peek, consume, at_kind, match, fail, expect, word_of, commas,
  opened_by, left,
}
use nyxdb.Parser.Expr.{parse_expr}
use nyxdb.Parser.Select.{parse_int_literal}
use nyxdb.Parser.Default.{Clib, parse_default_literal}
use nyxdb.Parser.Column.{name_of, column_names, parse_column_def}

-- What parse_table_constraint_ finds out before the columns.
unfoldable pub constraint_kind : Parse ConstraintKind
constraint_kind = do
  primary ← at_kind TokenKind.kw_primary
  unique ← at_kind TokenKind.kw_unique
  if primary
      then (do
        _ ← consume
        _ ← expect TokenKind.kw_key (text "expected KEY after PRIMARY")
        ret ConstraintKind.primary_key)
      else if unique
      then (do _ ← consume; _ ← match TokenKind.kw_key; ret ConstraintKind.unique)
      else fail (text "expected PRIMARY KEY or UNIQUE")

abbrev pub not_empty : TableConstraint → List (List ℕ) → Parse TableConstraint
not_empty c [] = fail (text "constraint must specify at least one column")
not_empty c (name ∷ names) = ret c

unfoldable pub parse_table_constraint : Parse TableConstraint
parse_table_constraint = do
  name ←
      opened_by TokenKind.kw_constraint []
        (name_of (text "expected constraint name after CONSTRAINT"))
  kind ← constraint_kind
  columns ← column_names
  not_empty (record { kind = kind; name = name; columns = columns }) columns

-- The constraints and the columns, in their order.
unfoldable pub constraints_of : List (TableConstraint ⊎ ColumnDef) → List TableConstraint
constraints_of [] = []
constraints_of (inl c ∷ es) = c ∷ constraints_of es
constraints_of (inr c ∷ es) = constraints_of es

unfoldable pub columns_of : List (TableConstraint ⊎ ColumnDef) → List ColumnDef
columns_of [] = []
columns_of (inl c ∷ es) = columns_of es
columns_of (inr c ∷ es) = c ∷ columns_of es

abbrev pub part_column : Option (List ℕ × List PartitionDefAst) → Option (List ℕ)
part_column none = none
part_column (some (col, defs)) = some col

abbrev pub part_defs : Option (List ℕ × List PartitionDefAst) → List PartitionDefAst
part_defs none = []
part_defs (some (col, defs)) = defs

module _ (lib : Clib) where
  unfoldable pub parse_partition_def : Parse PartitionDefAst
  parse_partition_def = do
    _ ← expect TokenKind.kw_partition (text "expected PARTITION")
    name ← name_of (text "expected partition name")
    _ ← expect TokenKind.kw_values (text "expected VALUES")
    _ ← expect TokenKind.kw_less (text "expected LESS")
    _ ← expect TokenKind.kw_than (text "expected THAN")
    _ ← expect TokenKind.lparen (text "expected '('")
    maxvalue ← match TokenKind.kw_maxvalue
    bound ← if maxvalue then ret none else (do e ← parse_expr lib.strtod; ret (some e))
    _ ← expect TokenKind.rparen (text "expected ')'")
    _ ← expect TokenKind.kw_on (text "expected ON")
    addr ← word_of TokenKind.string_literal (text "expected node address string")
    ret (record { name = name; is_maxvalue = maxvalue; upper_bound = bound; node_addr = addr.text })

  -- A constraint or a column.
  unfoldable pub parse_element : Parse (TableConstraint ⊎ ColumnDef)
  parse_element = do
    tok ← peek 0
    if is_kind tok.kind TokenKind.kw_primary
          || is_kind tok.kind TokenKind.kw_unique
          || is_kind tok.kind TokenKind.kw_constraint
        then (do c ← parse_table_constraint; ret (inl c))
        else (do c ← parse_column_def lib; ret (inr c))

  unfoldable pub parse_partitions : Parse (List ℕ × List PartitionDefAst)
  parse_partitions = do
    _ ← expect TokenKind.kw_by (text "expected BY after PARTITION")
    _ ← expect TokenKind.kw_range (text "expected RANGE")
    _ ← expect TokenKind.lparen (text "expected '(' after RANGE")
    col ← name_of (text "expected partition column name")
    _ ← expect TokenKind.rparen (text "expected ')' after partition column")
    _ ← expect TokenKind.lparen (text "expected '(' for partition list")
    defs ← commas parse_partition_def
    _ ← expect TokenKind.rparen (text "expected ')' to close partition list")
    ret (col, defs)

  unfoldable pub parse_create_table : Parse CreateTableStmt
  parse_create_table = do
    _ ← expect TokenKind.kw_create (text "expected CREATE")
    _ ← expect TokenKind.kw_table (text "expected TABLE")
    name ← name_of (text "expected table name")
    _ ← expect TokenKind.lparen (text "expected '('")
    elements ← commas parse_element
    _ ← expect TokenKind.rparen (text "expected ')'")
    parts ← opened_by TokenKind.kw_partition none (do p ← parse_partitions; ret (some p))
    ret (record {
      table_name = name;
      columns = columns_of elements;
      constraints = constraints_of elements;
      partition_col = part_column parts;
      partition_defs = part_defs parts;
    })

  unfoldable pub parse_alter_add_partition : Parse AlterAddPartitionStmt
  parse_alter_add_partition = do
    _ ← expect TokenKind.kw_alter (text "expected ALTER")
    _ ← expect TokenKind.kw_table (text "expected TABLE")
    name ← name_of (text "expected table name")
    _ ← expect TokenKind.kw_add (text "expected ADD")
    part ← parse_partition_def
    ret (record { table_name = name; partition = part })
