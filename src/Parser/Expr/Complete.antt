-- ===== src/Parser/Expr/Complete.antt =====
-- Runs of parse_unary_ of src/parser/parser.cpp over what the grammar derives.
use nyxdb.Base.{
  ℕ, zero, suc, ◌+◌, ◌*◌, ◌≤◌, ◌≡◌, refl, ◌∙◌, Bool, false, List, [], ◌∷◌, ◌++◌, none, some, arith,
  length, length-append,
}
use nyxdb.Parser.Token.{TokenKind, Token}
use nyxdb.Parser.Kind.{kind_code, is_kind}
use nyxdb.Parser.Ast.{Expr, Exprs}
use nyxdb.Parser.State.{Parser, Outcome, ret}
use nyxdb.Parser.State.Reads.{Is}
use nyxdb.Parser.State.Tokens.{is_kind_other}
use nyxdb.Parser.Expr.{
  lookup_op, combine_loc, negate, Calls, dated, parse_args, parse_ident_or_call, parenthesised,
  primary_of, parse_primary, unary_step, parser_calls,
}
use nyxdb.Parser.Expr.Grammar.{binding, Literal}
use nyxdb.Parser.Expr.Start.{
  kind_of_Is, start, start-append, run-bind, run-peek, run-at_kind, run-consume, run-expect,
  run-word_of,
}

-- A token that does not go on with a name in front of it.
abbrev pub Follows : Token → Type 0
Follows u = (is_kind u.kind TokenKind.dot ≡ false) × (is_kind u.kind TokenKind.lparen ≡ false)

module _ (strtod : List ℕ → ℕ) (src : List ℕ) where
  abbrev pub RunsUnary : List Token → Expr → Type 0
  RunsUnary toks e =
      (u : Token) (us : List Token) (n : ℕ)
      → Follows u
      → 2 * (length toks + length us) + 1 ≤ n
      → (parser_calls strtod n).parse_unary (start src toks u us)
        ≡ Outcome.done e (start src [] u us)

  abbrev pub RunsCallArgs : List Token → Exprs → Bool → Type 0
  RunsCallArgs toks args star =
      (u : Token) (us : List Token) (n : ℕ)
      → Is TokenKind.rparen u
      → 2 * (length toks + length us) + 3 ≤ n
      → parse_args strtod (parser_calls strtod n) (start src toks u us)
        ≡ Outcome.done (args, star) (start src [] u us)

  -- An expression between parentheses or commas.
  abbrev pub RunsClosed : List Token → Expr → Type 0
  RunsClosed toks e =
      (u : Token) (us : List Token) (n : ℕ)
      → Follows u
      → binding u.kind ≡ 0
      → 2 * (length toks + length us) + 2 ≤ n
      → (parser_calls strtod n).parse_binary 1 (start src toks u us)
        ≡ Outcome.done e (start src [] u us)

-- What stands behind an expression between parentheses or commas, or at the end.
abbrev pub Ends : TokenKind → Type 0
Ends TokenKind.rparen = Unit {0}
Ends TokenKind.comma = Unit {0}
Ends TokenKind.end_of_file = Unit {0}
Ends _ = ⊥

closes-kind :
    (k : TokenKind)
    → Ends k
    → (is_kind k TokenKind.dot ≡ false) × (is_kind k TokenKind.lparen ≡ false) × (binding k ≡ 0)
unfolding is_kind kind_code lookup_op
closes-kind TokenKind.rparen h = (refl, refl, refl)
closes-kind TokenKind.comma h = (refl, refl, refl)
closes-kind TokenKind.end_of_file h = (refl, refl, refl)
closes-kind _ h = absurd h

pub closes : (k : TokenKind) (u : Token) → Ends k → Is k u → Follows u × (binding u.kind ≡ 0)
closes k u h i = let (a, b, c) = closes-kind k h in rw (kind_of_Is k u i) ((a, b), c)

module _ (strtod : List ℕ → ℕ) (src : List ℕ) where
  pub unary-minus :
      (t : Token) (toks : List Token) (e : Expr)
      → Is TokenKind.minus t
      → RunsUnary strtod src toks e
      → RunsUnary strtod src (t ∷ toks) (negate t e)
  unfolding parser_calls unary_step ret
  unary-minus t toks e i r u us zero f l = absurd (omega arith)
  unary-minus t toks e i r u us (suc n) f l =
      run-peek _ _
      ∙ rw i (run-consume src t toks u us _ ∙ run-bind _ _ _ _ e (r u us n f (omega arith)))

  pub unary-plus :
      (t : Token) (toks : List Token) (e : Expr)
      → Is TokenKind.plus t
      → RunsUnary strtod src toks e
      → RunsUnary strtod src (t ∷ toks) e
  unfolding parser_calls unary_step is_kind kind_code
  unary-plus t toks e i r u us zero f l = absurd (omega arith)
  unary-plus t toks e i r u us (suc n) f l =
      run-peek _ _
      ∙ rw (is_kind_other t.kind TokenKind.plus TokenKind.minus i refl, i)
          (run-consume src t toks u us _ ∙ r u us n f (omega arith))

  -- What starts with none of the signs.
  unary-primary :
      (calls : Calls) (k : TokenKind) (p : Parser)
      → is_kind k TokenKind.minus ≡ false
      → is_kind k TokenKind.plus ≡ false
      → Is k p.tok
      → unary_step strtod calls p ≡ primary_of strtod calls p.tok k p
  unfolding unary_step parse_primary
  unary-primary calls k p m s i =
      run-peek _ _
      ∙ rw
          (
            is_kind_other p.tok.kind k TokenKind.minus i m,
            is_kind_other p.tok.kind k TokenKind.plus i s,
          )
          (run-peek _ _ ∙ rw (kind_of_Is k p.tok i) refl)

  pub unary-Literal :
      (toks : List Token) (e : Expr) → Literal strtod toks e → RunsUnary strtod src toks e
  unfolding parser_calls primary_of dated is_kind kind_code ret
  unary-Literal toks e h u us zero f l = absurd (omega arith)
  unary-Literal toks e (Literal.int t i) u us (suc n) f l =
      unary-primary _ TokenKind.int_literal _ refl refl i ∙ run-consume src t [] u us _
  unary-Literal toks e (Literal.double t i) u us (suc n) f l =
      unary-primary _ TokenKind.double_literal _ refl refl i ∙ run-consume src t [] u us _
  unary-Literal toks e (Literal.string t i) u us (suc n) f l =
      unary-primary _ TokenKind.string_literal _ refl refl i ∙ run-consume src t [] u us _
  unary-Literal toks e (Literal.null t i) u us (suc n) f l =
      unary-primary _ TokenKind.kw_null _ refl refl i ∙ run-consume src t [] u us _
  unary-Literal toks e (Literal.truth t i) u us (suc n) f l =
      unary-primary _ TokenKind.kw_true _ refl refl i ∙ run-consume src t [] u us _
  unary-Literal toks e (Literal.falsity t i) u us (suc n) f l =
      unary-primary _ TokenKind.kw_false _ refl refl i ∙ run-consume src t [] u us _
  unary-Literal toks e (Literal.date t s i j) u us (suc n) f l =
      unary-primary _ TokenKind.kw_date _ refl refl i
      ∙ (run-consume src t (s ∷ []) u us _ ∙ run-word_of src s [] u us _ _ _ j)
  unary-Literal toks e (Literal.timestamp t s i j) u us (suc n) f l =
      unary-primary _ TokenKind.kw_timestamp _ refl refl i
      ∙ (run-consume src t (s ∷ []) u us _ ∙ run-word_of src s [] u us _ _ _ j)

  pub unary-parens :
      (t close_tok : Token) (toks : List Token) (e : Expr)
      → Is TokenKind.lparen t
      → RunsClosed strtod src toks e
      → Is TokenKind.rparen close_tok
      → RunsUnary strtod src (t ∷ (toks ++ (close_tok ∷ []))) e
  unfolding parser_calls primary_of parenthesised ret is_kind kind_code
  unary-parens t c toks e i r j u us zero f l = absurd (omega arith)
  unary-parens t c toks e i r j u us (suc n) f l =
      let ends = closes TokenKind.rparen c tt j in
      unary-primary _ TokenKind.lparen _ refl refl i
      ∙ (run-consume src t (toks ++ (c ∷ [])) u us _
          ∙ rw (start-append src toks c [] u us) (
              run-bind _ _ _ _ e
                (r c (u ∷ us) n ends.0 ends.1 (omega (arith, length-append toks (c ∷ []))))
              ∙ run-expect src c [] u us _ _ _ j))

  pub unary-column :
      (t : Token)
      → Is TokenKind.identifier t
      → RunsUnary strtod src (t ∷ []) (Expr.column_ref none t.text t.loc)
  unfolding parser_calls primary_of parse_ident_or_call ret is_kind kind_code
  unary-column t i u us zero f l = absurd (omega arith)
  unary-column t i u us (suc n) f l =
      unary-primary _ TokenKind.identifier _ refl refl i
      ∙ (run-consume src t [] u us _
          ∙ (run-at_kind _ _ _ ∙ (run-at_kind _ _ _ ∙ rw (f.0, f.1) refl)))

  pub unary-qualified :
      (t dot col : Token)
      → Is TokenKind.identifier t
      → Is TokenKind.dot dot
      → Is TokenKind.identifier col
      → RunsUnary strtod src
          (t ∷ dot ∷ col ∷ [])
          (Expr.column_ref (some t.text) col.text (combine_loc t.loc col.loc))
  unfolding parser_calls primary_of parse_ident_or_call ret is_kind kind_code
  unary-qualified t dot col i j k u us zero f l = absurd (omega arith)
  unary-qualified t dot col i j k u us (suc n) f l =
      unary-primary _ TokenKind.identifier _ refl refl i
      ∙ (run-consume src t (dot ∷ col ∷ []) u us _
          ∙ (run-at_kind _ _ _
              ∙ (run-at_kind _ _ _
                  ∙ rw j (
                      run-consume src dot (col ∷ []) u us _
                      ∙ run-word_of src col [] u us _ _ _ k))))

  pub unary-call :
      (t open_paren close_paren : Token) (toks : List Token) (args : Exprs) (star : Bool)
      → Is TokenKind.identifier t
      → Is TokenKind.lparen open_paren
      → RunsCallArgs strtod src toks args star
      → Is TokenKind.rparen close_paren
      → RunsUnary strtod src
          (t ∷ open_paren ∷ (toks ++ (close_paren ∷ [])))
          (Expr.func_call t.text args star (combine_loc t.loc close_paren.loc))
  unfolding parser_calls primary_of parse_ident_or_call ret is_kind kind_code
  unary-call t o c toks args star i j r k u us zero f l = absurd (omega arith)
  unary-call t o c toks args star i j r k u us (suc n) f l =
      unary-primary _ TokenKind.identifier _ refl refl i
      ∙ (run-consume src t (o ∷ (toks ++ (c ∷ []))) u us _
          ∙ (run-at_kind _ _ _
              ∙ (run-at_kind _ _ _
                  ∙ rw (is_kind_other o.kind TokenKind.lparen TokenKind.dot j refl, j)
                      (run-consume src o (toks ++ (c ∷ [])) u us _
                        ∙ rw (start-append src toks c [] u us) (
                            run-bind _ _ _ _ (args, star)
                              (r c (u ∷ us) n k (omega (arith, length-append toks (c ∷ []))))
                            ∙ run-word_of src c [] u us _ _ _ k)))))
