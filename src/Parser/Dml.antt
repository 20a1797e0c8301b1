-- ===== src/Parser/Dml.antt =====
-- src/parser/parser.cpp: INSERT, DELETE and UPDATE, the indexes, SHOW and DROP.
pub mod Ends
use nyxdb.Base.{ℕ, Bool, true, false, List, [], ◌∷◌, Option, none, some, if◌then◌else◌}
use nyxdb.Base.Strings.{text}
use nyxdb.Parser.Token.{TokenKind}
use nyxdb.Parser.Ast.{
  Expr, InsertStmt, DropTableStmt, DeleteStmt, Assignment, UpdateStmt, CreateIndexStmt,
  DropIndexStmt,
}
use nyxdb.Parser.State.{Parse, ◌>>=◌, ret, consume, match, expect, commas, opened_by}
use nyxdb.Parser.Expr.{parse_expr}
use nyxdb.Parser.Select.{optional_expr}
use nyxdb.Parser.Column.{name_of, column_names}

abbrev table_name : Parse (List ℕ)
table_name = name_of (text "expected table name")

unfoldable pub insert_columns : Parse (List (List ℕ))
insert_columns = do
  names ← commas (name_of (text "expected column name"))
  _ ← expect TokenKind.rparen (text "expected ')'")
  ret names

module _ (strtod : List ℕ → ℕ) where
  unfoldable pub insert_row : Parse (List Expr)
  insert_row = do
    _ ← expect TokenKind.lparen (text "expected '('")
    row ← commas (parse_expr strtod)
    _ ← expect TokenKind.rparen (text "expected ')'")
    ret row

  unfoldable pub parse_insert : Parse InsertStmt
  parse_insert = do
    _ ← expect TokenKind.kw_insert (text "expected INSERT")
    _ ← expect TokenKind.kw_into (text "expected INTO")
    table ← table_name
    names ← opened_by TokenKind.lparen [] insert_columns
    _ ← expect TokenKind.kw_values (text "expected VALUES")
    rows ← commas insert_row
    ret (record { table_name = table; columns = names; rows = rows })

  unfoldable pub parse_delete : Parse DeleteStmt
  parse_delete = do
    _ ← consume
    _ ← expect TokenKind.kw_from (text "expected FROM")
    table ← table_name
    filter ← optional_expr strtod TokenKind.kw_where
    ret (record { table_name = table; where_expr = filter })

  unfoldable pub assignment : Parse Assignment
  assignment = do
    column ← name_of (text "expected column name")
    _ ← expect TokenKind.eq (text "expected '='")
    e ← parse_expr strtod
    ret (record { column = column; value = e })

  unfoldable pub parse_update : Parse UpdateStmt
  parse_update = do
    _ ← consume
    table ← table_name
    _ ← expect TokenKind.kw_set (text "expected SET")
    sets ← commas assignment
    filter ← optional_expr strtod TokenKind.kw_where
    ret (record { table_name = table; assignments = sets; where_expr = filter })

unfoldable pub if_exists_clause : Parse Bool
if_exists_clause = do _ ← expect TokenKind.kw_exists (text "expected EXISTS after IF"); ret true

unfoldable pub parse_drop_table : Parse DropTableStmt
parse_drop_table = do
  _ ← consume
  _ ← expect TokenKind.kw_table (text "expected TABLE")
  if_exists ← opened_by TokenKind.kw_if false if_exists_clause
  table ← table_name
  ret (record { table_name = table; if_exists = if_exists })

unfoldable pub parse_create_index : Parse CreateIndexStmt
parse_create_index = do
  _ ← consume
  unique ← match TokenKind.kw_unique
  _ ← expect TokenKind.kw_index (text "expected INDEX")
  index ← name_of (text "expected index name")
  _ ← expect TokenKind.kw_on (text "expected ON")
  table ← table_name
  cols ← column_names
  ret (record { index_name = index; table_name = table; column_names = cols; unique = unique })

unfoldable pub parse_drop_index : Parse DropIndexStmt
parse_drop_index = do
  _ ← consume
  _ ← expect TokenKind.kw_index (text "expected INDEX")
  index ← name_of (text "expected index name")
  _ ← expect TokenKind.kw_on (text "expected ON")
  table ← table_name
  ret (record { index_name = index; table_name = table })

unfoldable pub parse_show_indexes : Parse (List ℕ)
parse_show_indexes = do
  _ ← consume
  _ ← expect TokenKind.kw_indexes (text "expected INDEXES")
  _ ← expect TokenKind.kw_from (text "expected FROM")
  table_name

unfoldable pub parse_show_constraints : Parse (List ℕ)
parse_show_constraints = do
  _ ← consume
  _ ← expect TokenKind.kw_constraints (text "expected CONSTRAINTS")
  _ ← expect TokenKind.kw_from (text "expected FROM")
  table_name
