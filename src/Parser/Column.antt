-- ===== src/Parser/Column.antt =====
-- src/parser/parser.cpp: names, and the columns of CREATE TABLE.
pub mod Ends
use nyxdb.Base.{
  ℕ, zero, suc, Bool, true, false, ◌||◌, List, [], ◌∷◌, ◌++◌, Option, none, some, ltb,
  if◌then◌else◌, ◌⊎◌, inl, inr,
}
use nyxdb.Base.Int.{ℤ, ltb_ℤ, pos_part}
use nyxdb.Base.Strings.{text}
use nyxdb.Value.{TypeId, Value}
use nyxdb.Parser.Token.{TokenKind, Token}
use nyxdb.Parser.Kind.{is_kind}
use nyxdb.Parser.Ast.{
  Expr, ColumnDef, ConstraintKind, TableConstraint, PartitionDefAst, CreateTableStmt,
  AlterAddPartitionStmt,
}
use nyxdb.Parser.State.{
  Parser, Outcome, Parse, ◌>>=◌, ret, peek, consume, at_kind, match, fail, expect, word_of, commas,
  opened_by, left,
}
use nyxdb.Parser.Expr.{parse_expr}
use nyxdb.Parser.Select.{parse_int_literal}
use nyxdb.Parser.Default.{Clib, parse_default_literal}

-- A name, as `consume_().text` behind the test for an identifier.
unfoldable pub name_of : List ℕ → Parse (List ℕ)
name_of message = do t ← word_of TokenKind.identifier message; ret t.text

-- The names of columns between parentheses.
unfoldable pub column_names : Parse (List (List ℕ))
column_names = do
  _ ← expect TokenKind.lparen (text "expected '('")
  names ← commas (name_of (text "expected column name"))
  _ ← expect TokenKind.rparen (text "expected ')'")
  ret names

abbrev pub fresh_column : List ℕ → TypeId → ℕ → ColumnDef
fresh_column name type max_len = record {
  name = name;
  type = type;
  nullable = true;
  max_len = max_len;
  is_primary_key = false;
  is_unique = false;
  default_value = none;
}

-- The length in parentheses.
unfoldable pub varchar_len : Parse ℕ
varchar_len = do
  n ← parse_int_literal (text "VARCHAR")
  if ltb_ℤ (ℤ.pos 0) n
      then if ltb_ℤ (ℤ.pos 65535) n
        then fail (text "VARCHAR length must be between 1 and 65535")
        else (do _ ← expect TokenKind.rparen (text "expected ')'"); ret (pos_part n))
      else fail (text "VARCHAR length must be between 1 and 65535")

abbrev plain : TypeId → Parse (TypeId × ℕ)
plain type = do _ ← consume; ret (type, 255)

unfoldable pub varchar : Parse (TypeId × ℕ)
varchar = do _ ← consume; n ← opened_by TokenKind.lparen 255 varchar_len; ret (TypeId.varchar, n)

-- The `switch` over the type, with the length of the column.
unfoldable pub column_type : TokenKind → Parse (TypeId × ℕ)
column_type TokenKind.kw_int = plain TypeId.int32
column_type TokenKind.kw_integer = plain TypeId.int32
column_type TokenKind.kw_bigint = plain TypeId.int64
column_type TokenKind.kw_double = plain TypeId.double
column_type TokenKind.kw_varchar = varchar
column_type TokenKind.kw_nvarchar = varchar
column_type TokenKind.kw_bool = plain TypeId.bool
column_type TokenKind.kw_boolean = plain TypeId.bool
column_type TokenKind.kw_date = plain TypeId.date
column_type TokenKind.kw_timestamp = plain TypeId.timestamp
column_type _ = fail (text "expected column type")

module _ (lib : Clib) where
  -- The loop over the properties of a column; each takes a token.
  unfoldable pub column_flags : ℕ → ColumnDef → Parse ColumnDef
  column_flags zero c = λ _. Outcome.unfinished
  column_flags (suc fuel) c = do
    tok ← peek 0
    if is_kind tok.kind TokenKind.kw_not
        then (do
          _ ← consume
          _ ← expect TokenKind.kw_null (text "expected NULL after NOT")
          column_flags fuel (record c { nullable = false }))
        else if is_kind tok.kind TokenKind.kw_primary
        then (do
          _ ← consume
          _ ← expect TokenKind.kw_key (text "expected KEY after PRIMARY")
          column_flags fuel (record c { is_primary_key = true; nullable = false }))
        else if is_kind tok.kind TokenKind.kw_unique
        then (do _ ← consume; column_flags fuel (record c { is_unique = true }))
        else if is_kind tok.kind TokenKind.kw_default
        then (do
          _ ← consume
          v ← parse_default_literal lib
          column_flags fuel (record c { default_value = some v }))
        else ret c

  unfoldable pub parse_column_flags : ColumnDef → Parse ColumnDef
  parse_column_flags c p = column_flags (suc (left p)) c p

  unfoldable pub parse_column_def : Parse ColumnDef
  parse_column_def = do
    name ← name_of (text "expected column name")
    tok ← peek 0
    (type, max_len) ← column_type tok.kind
    parse_column_flags (fresh_column name type max_len)
