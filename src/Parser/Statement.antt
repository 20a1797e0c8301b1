-- ===== src/Parser/Statement.antt =====
-- src/parser/parser.cpp: parse_one_statement_, and the two ways to call the parser.
pub mod Ends
use nyxdb.Base.{ℕ, zero, suc, Bool, true, false, ◌||◌, List, [], ◌∷◌, if◌then◌else◌}
use nyxdb.Base.Strings.{text}
use nyxdb.Common.Result.{Result}
use nyxdb.Parser.Token.{TokenKind, Token}
use nyxdb.Parser.Kind.{is_kind}
use nyxdb.Parser.Ast.{Statement}
use nyxdb.Parser.State.{
  Parser, Outcome, Parse, ◌>>=◌, ret, peek, consume, at_kind, match, fail, fail_at, expect, left,
}
use nyxdb.Parser.Select.{parse_select}
use nyxdb.Parser.Default.{Clib}
use nyxdb.Parser.Column.{name_of}
use nyxdb.Parser.CreateTable.{parse_create_table, parse_alter_add_partition}
use nyxdb.Parser.Dml.{
  parse_insert, parse_delete, parse_update, parse_drop_table, parse_create_index, parse_drop_index,
  parse_show_indexes, parse_show_constraints,
}

abbrev pub as_statement : {A : Type 0} → (A → Statement) → Parse A → Parse Statement
as_statement make m = do a ← m; ret (make a)

module _ (lib : Clib) where
  -- The statements that the token behind CREATE, DROP or SHOW decides on.
  unfoldable pub parse_create : Parse Statement
  parse_create = do
    next ← peek 1
    if is_kind next.kind TokenKind.kw_table
        then as_statement Statement.create_table (parse_create_table lib)
        else if is_kind next.kind TokenKind.kw_index || is_kind next.kind TokenKind.kw_unique
        then as_statement Statement.create_index parse_create_index
        else fail_at (text "expected TABLE or INDEX after CREATE") next

  unfoldable pub parse_drop : Parse Statement
  parse_drop = do
    next ← peek 1
    if is_kind next.kind TokenKind.kw_table
        then as_statement Statement.drop_table parse_drop_table
        else if is_kind next.kind TokenKind.kw_index
        then as_statement Statement.drop_index parse_drop_index
        else fail_at (text "expected TABLE or INDEX after DROP") next

  unfoldable pub parse_show : Parse Statement
  parse_show = do
    next ← peek 1
    if is_kind next.kind TokenKind.kw_constraints
        then as_statement Statement.show_constraints parse_show_constraints
        else as_statement Statement.show_indexes parse_show_indexes

  unfoldable pub parse_vacuum : Parse Statement
  parse_vacuum = do
    _ ← consume
    table ← name_of (text "expected table name after VACUUM")
    ret (Statement.vacuum table)

  -- The `switch` of parse_one_statement_.
  unfoldable pub statement_of : TokenKind → Parse Statement
  statement_of TokenKind.kw_select = as_statement Statement.select (parse_select lib.strtod)
  statement_of TokenKind.kw_create = parse_create
  statement_of TokenKind.kw_insert = as_statement Statement.insert (parse_insert lib.strtod)
  statement_of TokenKind.kw_drop = parse_drop
  statement_of TokenKind.kw_show = parse_show
  statement_of TokenKind.kw_delete = as_statement Statement.delete (parse_delete lib.strtod)
  statement_of TokenKind.kw_update = as_statement Statement.update (parse_update lib.strtod)
  statement_of TokenKind.kw_vacuum = parse_vacuum
  statement_of TokenKind.kw_alter =
      as_statement Statement.alter_add_partition (parse_alter_add_partition lib)
  statement_of _ = fail (text "expected statement")

  unfoldable pub parse_one_statement : Parse Statement
  parse_one_statement = do tok ← peek 0; statement_of tok.kind

  unfoldable pub parse_statement : Parse Statement
  parse_statement = do
    r ← parse_one_statement
    _ ← match TokenKind.semicolon
    ended ← at_kind TokenKind.end_of_file
    if ended then ret r else fail (text "unexpected token after statement")

  -- The `while` of parse; each round takes a token.
  unfoldable pub statements_loop : ℕ → Parse (List Statement)
  statements_loop zero = λ _. Outcome.unfinished
  statements_loop (suc fuel) = do
    ended ← at_kind TokenKind.end_of_file
    if ended then ret [] else (do
      r ← parse_one_statement
      last ← at_kind TokenKind.end_of_file
      if last then ret (r ∷ []) else (do
        _ ← expect TokenKind.semicolon (text "expected ';' between statements")
        more ← statements_loop fuel
        ret (r ∷ more)))

  unfoldable pub parse : Parse (List Statement)
  parse p = statements_loop (suc (left p)) p
