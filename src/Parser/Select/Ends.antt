-- ===== src/Parser/Select/Ends.antt =====
-- How SELECT of src/parser/parser.cpp ends.
use nyxdb.Base.{
  ℕ, zero, suc, ◌≤◌, refl, true, false, List, [], ◌∷◌, ◌++◌, arith, length, length-append, All,
}
use nyxdb.Parser.Token.{TokenKind, Token}
use nyxdb.Parser.State.{Parse, commas, left}
use nyxdb.Parser.State.Reads.{Reads, Reads-ret, Reads-bind, Reads-if, Reads-weaken}
use nyxdb.Parser.State.Tokens.{NotEnd, Reads-at_kind, Reads-match, Reads-expect}
use nyxdb.Parser.State.Ends.{
  Any, Value_is, Ends, Ends-match, Ends-if, Ends-ret, Ends-bind, Ends-commas, Ends-expect,
  ends_rules,
}
use nyxdb.Parser.WellFormed.{StarOr, NonEmpty}
use nyxdb.Parser.Expr.{parse_expr}
use nyxdb.Parser.Expr.Sound.{parse_expr-Reads}
use nyxdb.Parser.Select.{
  parse_alias, parse_table_ref, parse_int_literal, by_list, optional_int, optional_expr,
  parse_select_item, joined, parse_join_clause, parse_order_by_item, joins_loop, parse_joins,
  parse_projections, parse_select,
}

module _ {source : List ℕ} {K : Token → Type 0} {T : Type 0} where
  parse_alias-Ends : Ends source K T Any parse_alias
  unfolding parse_alias
  parse_alias-Ends = search ends_rules depth 12

  parse_table_ref-Ends : Ends source K T Any parse_table_ref
  unfolding parse_table_ref
  parse_table_ref-Ends = search (ends_rules, parse_alias-Ends) depth 20

  pub parse_int_literal-Ends : (what : List ℕ) → Ends source K T Any (parse_int_literal what)
  unfolding parse_int_literal
  parse_int_literal-Ends what = search ends_rules depth 20

  optional_int-Ends :
      (kind : TokenKind) (what : List ℕ)
      → NotEnd kind
      → Ends source K T Any (optional_int kind what)
  unfolding optional_int
  optional_int-Ends kind what n = search (ends_rules, parse_int_literal-Ends) depth 20

  by_list-Ends :
      {A : Type 0} (message : List ℕ) (item : Parse A)
      → Ends source K T Any item
      → Ends source K T Any (by_list message item)
  unfolding by_list
  by_list-Ends message item e = search ends_rules depth 20

module _ {source : List ℕ} {K : Token → Type 0} {T : Type 0} (strtod : List ℕ → ℕ) where
  pub parse_expr-Ends : Ends source K T Any (parse_expr strtod)
  parse_expr-Ends = record {
    reads = λ b t.
        Reads-weaken b b t _ _ (parse_expr strtod) (omega arith) (λ front a u q. tt)
          (parse_expr-Reads b t);
  }

  pub optional_expr-Ends :
      (kind : TokenKind) → NotEnd kind → Ends source K T Any (optional_expr strtod kind)
  unfolding optional_expr
  optional_expr-Ends kind n = search (ends_rules, parse_expr-Ends) depth 20

  parse_select_item-Ends : Ends source K T Any (parse_select_item strtod)
  unfolding parse_select_item
  parse_select_item-Ends = search (ends_rules, parse_expr-Ends, parse_alias-Ends) depth 20

  joined-Ends : Ends source K T Any (joined strtod)
  unfolding joined
  joined-Ends = search (ends_rules, parse_expr-Ends, parse_table_ref-Ends) depth 20

  -- A join takes a token.
  parse_join_clause-Reads :
      (b : ℕ) (t : Token)
      → Reads source K T b t (λ front j next. 1 ≤ length front) (parse_join_clause strtod)
  unfolding parse_join_clause
  parse_join_clause-Reads b t =
      let tail = λ (c : ℕ) (u : Token) (front : List Token) (l : 1 ≤ length front).
        Reads-weaken c c u (Value_is Any) (λ back j next. 1 ≤ length (front ++ back))
          (joined strtod) (omega arith)
          (λ back j next q. omega (arith, l, length-append front back)) (joined-Ends.reads c u) in
      Reads-match b t _ TokenKind.kw_inner _ tt
        (λ i u c ku l.
          Reads-expect c u _ TokenKind.kw_join _ _ tt
            λ j v d kv m. tail d v (t ∷ u ∷ []) (omega arith))
        (Reads-expect b t _ TokenKind.kw_join _ _ tt λ j v d kv m. tail d v (t ∷ []) (omega arith))

  parse_order_by_item-Ends : Ends source K T Any (parse_order_by_item strtod)
  unfolding parse_order_by_item
  parse_order_by_item-Ends = search (ends_rules, parse_expr-Ends) depth 20

  joins_loop-Reads :
      (n b : ℕ) (t : Token) → suc b ≤ n → Reads source K T b t (Value_is Any) (joins_loop strtod n)
  unfolding joins_loop
  joins_loop-Reads zero b t l = absurd (omega arith)
  joins_loop-Reads (suc n) b t l = Reads-at_kind b t _ TokenKind.kw_inner _ (
      Reads-at_kind b t _ TokenKind.kw_join _ (
        Reads-if b t _ _ _ _
          (λ _.
            Reads-bind b t (λ front j next. 1 ≤ length front) _ (parse_join_clause strtod) _
              (parse_join_clause-Reads b t)
              λ front j u c q ku fit.
                Reads-bind c u (Value_is Any) _ (joins_loop strtod n) _
                  (joins_loop-Reads n c u (omega arith))
                  λ back js v d r kv fit'. Reads-ret d v _ (j ∷ js) tt)
          (λ _. Reads-ret b t _ [] tt)))

  parse_joins-Ends : Ends source K T Any (parse_joins strtod)
  unfolding parse_joins
  parse_joins-Ends = record {
    reads = λ b t. record {
      at = λ p h e l.
          (joins_loop-Reads (suc (left p)) (left p) t (omega arith)).at p h e (omega arith);
    };
  }

  parse_projections-Ends : Ends source K T (λ r. StarOr r.1 r.0) (parse_projections strtod)
  unfolding parse_projections
  parse_projections-Ends = Ends-match _ TokenKind.star _ tt λ here.
      Ends-if _ here _ _ (λ _. Ends-ret _ ([], true) refl)
        (λ _.
          Ends-bind (λ xs. NonEmpty xs × All Any xs) _ (commas (parse_select_item strtod)) _
            (Ends-commas Any (parse_select_item strtod) parse_select_item-Ends)
            λ items q. Ends-ret _ (items, false) q.0)

  pub parse_select-Ends :
      Ends source K T (λ s. StarOr s.star_projection s.projections) (parse_select strtod)
  unfolding parse_select
  parse_select-Ends = Ends-expect _ TokenKind.kw_select _ _ tt (
      Ends-bind (λ r. StarOr r.1 r.0) _ (parse_projections strtod) _ parse_projections-Ends
        λ (items, star) q.
          search
            (
              ends_rules, parse_expr-Ends, parse_table_ref-Ends, parse_joins-Ends,
              optional_expr-Ends, optional_int-Ends, by_list-Ends, parse_order_by_item-Ends,
            )
            depth 40)
