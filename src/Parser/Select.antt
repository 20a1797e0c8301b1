-- ===== src/Parser/Select.antt =====
-- src/parser/parser.cpp: SELECT, with its items, tables, joins, sort keys and limits.
pub mod Ends
use nyxdb.Base.{
  ℕ, zero, suc, Bool, true, false, ◌||◌, List, [], ◌∷◌, ◌++◌, Option, none, some, if◌then◌else◌,
}
use nyxdb.Base.Int.{ℤ}
use nyxdb.Base.Strings.{text}
use nyxdb.Parser.Token.{TokenKind, Token}
use nyxdb.Parser.Ast.{Expr, SelectItem, TableRef, JoinClause, OrderByItem, SelectStmt}
use nyxdb.Parser.State.{
  Parser, Outcome, Parse, ◌>>=◌, ret, consume, at_kind, match, expect, word_of, commas, opened_by,
  left,
}
use nyxdb.Parser.Expr.{combine_loc, strtoll, parse_expr}

-- AS and a name, or a bare name, or nothing: the token of the alias.
unfoldable pub parse_alias : Parse (Option Token)
parse_alias = do
  has_as ← match TokenKind.kw_as
  bare ← at_kind TokenKind.identifier
  if has_as
      then (do t ← word_of TokenKind.identifier (text "expected alias after AS"); ret (some t))
      else if bare
      then (do t ← consume; ret (some t))
      else ret none

abbrev alias_text : Option Token → Option (List ℕ)
alias_text none = none
alias_text (some t) = some t.text

abbrev named_by : Token → Option Token → TableRef
named_by name_tok none = record { table_name = name_tok.text; alias = none; loc = name_tok.loc }
named_by name_tok (some t) = record {
  table_name = name_tok.text;
  alias = some t.text;
  loc = combine_loc name_tok.loc t.loc;
}

unfoldable pub parse_table_ref : Parse TableRef
parse_table_ref = do
  name_tok ← word_of TokenKind.identifier (text "expected table name")
  alias ← parse_alias
  ret (named_by name_tok alias)

unfoldable pub parse_int_literal : List ℕ → Parse ℤ
parse_int_literal what = do
  tok ← word_of TokenKind.int_literal (text "expected integer after " ++ what)
  ret (strtoll tok.text)

-- BY and a list, behind GROUP or ORDER.
unfoldable pub by_list {ℓ} : {A : Type ℓ} → List ℕ → Parse A → Parse (List A)
by_list message item = do _ ← expect TokenKind.kw_by message; commas item

unfoldable pub optional_int : TokenKind → List ℕ → Parse (Option ℤ)
optional_int kind what = opened_by kind none (do n ← parse_int_literal what; ret (some n))

module _ (strtod : List ℕ → ℕ) where
  abbrev expr : Parse Expr
  expr = parse_expr strtod

  unfoldable pub optional_expr : TokenKind → Parse (Option Expr)
  optional_expr kind = opened_by kind none (do e ← expr; ret (some e))

  unfoldable pub parse_select_item : Parse SelectItem
  parse_select_item = do
    e ← expr
    alias ← parse_alias
    ret (record { expr = e; alias = alias_text alias })

  -- What stands behind JOIN.
  unfoldable pub joined : Parse JoinClause
  joined = do
    right ← parse_table_ref
    _ ← expect TokenKind.kw_on (text "expected ON after join table")
    on ← expr
    ret (record { right = right; on = on })

  unfoldable pub parse_join_clause : Parse JoinClause
  parse_join_clause = do
    _ ← match TokenKind.kw_inner
    _ ← expect TokenKind.kw_join (text "expected JOIN")
    joined

  unfoldable pub parse_order_by_item : Parse OrderByItem
  parse_order_by_item = do
    e ← expr
    desc ← match TokenKind.kw_desc
    if desc
        then ret (record { expr = e; ascending = false })
        else (do _ ← match TokenKind.kw_asc; ret (record { expr = e; ascending = true }))

  -- The loop over the joins; each takes a token.
  unfoldable pub joins_loop : ℕ → Parse (List JoinClause)
  joins_loop zero = λ _. Outcome.unfinished
  joins_loop (suc fuel) = do
    inner ← at_kind TokenKind.kw_inner
    join ← at_kind TokenKind.kw_join
    if inner || join then (do j ← parse_join_clause; js ← joins_loop fuel; ret (j ∷ js)) else ret []

  unfoldable pub parse_joins : Parse (List JoinClause)
  parse_joins p = joins_loop (suc (left p)) p

  -- The projections, or the star in place of them.
  unfoldable pub parse_projections : Parse (List SelectItem × Bool)
  parse_projections = do
    star ← match TokenKind.star
    if star then ret ([], true) else (do items ← commas parse_select_item; ret (items, false))

  unfoldable pub parse_select : Parse SelectStmt
  parse_select = do
    _ ← expect TokenKind.kw_select (text "expected SELECT")
    (projections, star) ← parse_projections
    _ ← expect TokenKind.kw_from (text "expected FROM")
    table ← parse_table_ref
    joins ← parse_joins
    filter ← optional_expr TokenKind.kw_where
    groups ← opened_by TokenKind.kw_group [] (by_list (text "expected BY after GROUP") expr)
    having ← optional_expr TokenKind.kw_having
    keys ←
        opened_by TokenKind.kw_order []
          (by_list (text "expected BY after ORDER") parse_order_by_item)
    limit ← optional_int TokenKind.kw_limit (text "LIMIT")
    offset ← optional_int TokenKind.kw_offset (text "OFFSET")
    ret (record {
      projections = projections;
      star_projection = star;
      from = table;
      joins = joins;
      where_expr = filter;
      group_by = groups;
      having = having;
      order_by = keys;
      limit = limit;
      offset = offset;
    })
