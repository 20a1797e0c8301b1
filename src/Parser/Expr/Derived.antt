-- ===== src/Parser/Expr/Derived.antt =====
-- The loop of parse_binary_ of src/parser/parser.cpp over what the grammar derives at a level.
use nyxdb.Base.{
  ℕ, zero, suc, ◌+◌, ◌*◌, ◌≤◌, ◌<◌, ◌≡◌, refl, ◌∙◌, true, false, List, [], ◌∷◌, ◌++◌, some, arith,
  leb, length, length-append,
}
use nyxdb.Parser.Token.{TokenKind, Token}
use nyxdb.Parser.Kind.{kind_code, is_kind}
use nyxdb.Parser.Ast.{NullCheckKind, Expr, Exprs, expr_loc}
use nyxdb.Parser.State.{Parser, Outcome, ret}
use nyxdb.Parser.State.Reads.{Is}
use nyxdb.Parser.State.Tokens.{is_kind_other}
use nyxdb.Parser.Expr.{OpInfo, lookup_op, combine_loc, combine, operand, binary_step, parser_calls}
use nyxdb.Parser.Expr.Grammar.{binding, NullWords}
use nyxdb.Parser.Expr.Climb.{NullWords-length, binding_op, binding_is}
use nyxdb.Parser.Expr.Start.{start, start-append, run-bind, run-peek, run-consume}
use nyxdb.Parser.Expr.Complete.{Follows, RunsUnary}
use nyxdb.Parser.Expr.Head.{NoNot}
use nyxdb.Parser.Expr.Turn.{and_false, loop-stops, loop-null, loop-operation}

-- IS, which binds by 4, comes first.
abbrev Starts : List Token → Type 0
Starts [] = ⊥
Starts (t ∷ ts) = Follows t × (binding t.kind ≡ 4)

null-Starts :
    (words : List Token) (kind : NullCheckKind) (last : Token)
    → NullWords words kind last
    → Starts words
unfolding is_kind kind_code
null-Starts words kind last (NullWords.null t n i j) = (
  (
    is_kind_other t.kind TokenKind.kw_is TokenKind.dot i refl,
    is_kind_other t.kind TokenKind.kw_is TokenKind.lparen i refl,
  ),
  binding_is t.kind i,
)
null-Starts words kind last (NullWords.not_null t k n i h j) = (
  (
    is_kind_other t.kind TokenKind.kw_is TokenKind.dot i refl,
    is_kind_other t.kind TokenKind.kw_is TokenKind.lparen i refl,
  ),
  binding_is t.kind i,
)

operator_follows :
    (k : TokenKind) (info : OpInfo)
    → lookup_op k ≡ some info
    → (is_kind k TokenKind.dot ≡ false) × (is_kind k TokenKind.lparen ≡ false)
unfolding lookup_op is_kind kind_code
operator_follows TokenKind.dot info h = absurd (cc h)
operator_follows TokenKind.lparen info h = absurd (cc h)
operator_follows _ info h = (refl, refl)

-- No token binds by 3.
binding_not_three : (k : TokenKind) → binding k ≤ 3 → binding k < 3
unfolding lookup_op
binding_not_three TokenKind.kw_is h = omega arith
binding_not_three _ h = omega arith

module _ (strtod : List ℕ → ℕ) (src : List ℕ) where
  -- parse_binary_ at a level gets into its loop with the tree, where what follows binds by `q` at
  -- most.
  abbrev pub RunsLevel : ℕ → ℕ → List Token → Expr → Type 0
  RunsLevel p q toks e =
      (u : Token) (us : List Token) (n : ℕ)
      → Follows u
      → binding u.kind ≤ q
      → 1 ≤ p
      → 2 * (length toks + length us) + 2 ≤ n
      → (m : ℕ) × (2 * length us + 1 ≤ m)
        × ((parser_calls strtod n).parse_binary p (start src toks u us)
            ≡ (parser_calls strtod m).loop p e (start src [] u us))

  abbrev pub RunsArgs : List Token → Exprs → Type 0
  RunsArgs toks es =
      (u : Token) (us : List Token) (n : ℕ)
      → Is TokenKind.rparen u
      → 2 * (length toks + length us) + 3 ≤ n
      → (parser_calls strtod n).args (start src toks u us) ≡ Outcome.done es (start src [] u us)

  -- It ends where what follows binds by less than the level.
  pub ended :
      (p q : ℕ) (toks : List Token) (e : Expr) (u : Token) (us : List Token) (n : ℕ)
      → RunsLevel p q toks e
      → Follows u
      → 1 ≤ p
      → p ≤ q
      → binding u.kind < p
      → 2 * (length toks + length us) + 2 ≤ n
      → (parser_calls strtod n).parse_binary p (start src toks u us)
        ≡ Outcome.done e (start src [] u us)
  ended p q toks e u us n r f one le b l =
      let (m, fuel, eq) = r u us n f (omega arith) one l in
      eq ∙ loop-stops strtod m p e (start src [] u us) (omega arith) one b

  pub level-operand :
      (p : ℕ) (toks : List Token) (e : Expr)
      → NoNot toks
      → RunsUnary strtod src toks e
      → RunsLevel p 7 toks e
  unfolding parser_calls binary_step operand
  level-operand p toks e h r u us zero f b one l = absurd (omega arith)
  level-operand p [] e h r u us (suc n) f b one l = absurd h
  level-operand p (t ∷ ts) e h r u us (suc n) f b one l = (
    n,
    omega arith,
    run-bind _ _ _ _ e (run-peek _ _ ∙ rw (h, and_false (leb p 3)) (r u us n f (omega arith))),
  )

  le→leb : (p k : ℕ) → p ≤ k → leb p k ≡ true
  le→leb p k l = ground arith

  pub level-negation :
      (p q : ℕ) (t : Token) (toks : List Token) (e : Expr)
      → p ≤ 3
      → 3 ≤ q
      → Is TokenKind.kw_not t
      → RunsLevel 3 q toks e
      → RunsLevel p 3 (t ∷ toks) (Expr.not_op e (combine_loc t.loc (expr_loc e)))
  unfolding parser_calls binary_step operand ret
  level-negation p q t toks e low le i r u us zero f b one l = absurd (omega arith)
  level-negation p q t toks e low le i r u us (suc n) f b one l = (
    n,
    omega arith,
    run-bind _ _ _ _ _ (
        run-peek _ _
        ∙ rw (le→leb p 3 low, i)
            (run-consume src t toks u us _
              ∙ run-bind _ _ _ _ e (
                  ended 3 q toks e u us n r f (omega arith) le (binding_not_three u.kind b)
                    (omega arith)))),
  )

  -- The two turns of the loop, from what has been read before them.
  null-turn :
      (p n m : ℕ) (words : List Token) (e : Expr) (kind : NullCheckKind) (last u : Token)
      (us : List Token) (s : Parser)
      → p ≤ 4
      → NullWords words kind last
      → 2 * (length words + length us) ≤ m
      → (parser_calls strtod n).parse_binary p s
        ≡ (parser_calls strtod m).loop p e (start src words u us)
      → (k : ℕ) × (2 * length us + 1 ≤ k)
        × ((parser_calls strtod n).parse_binary p s
            ≡ (parser_calls strtod k).loop p
                (Expr.null_check kind e (combine_loc (expr_loc e) last.loc))
                (start src [] u us))
  null-turn p n zero words e kind last u us s low w l eq =
      absurd (omega (arith, NullWords-length words kind last w))
  null-turn p n (suc m) words e kind last u us s low w l eq = (
    m,
    omega (arith, NullWords-length words kind last w),
    eq ∙ loop-null strtod src u us m p words kind last e low w,
  )

  operation-turn :
      (p r n m : ℕ) (more : List Token) (t : Token) (info : OpInfo) (a b : Expr) (u : Token)
      (us : List Token) (s : Parser)
      → p ≤ info.prec
      → lookup_op t.kind ≡ some info
      → RunsLevel (info.prec + 1) r more b
      → info.prec + 1 ≤ r
      → Follows u
      → binding u.kind ≤ info.prec
      → 2 * (length more + length us) + 3 ≤ m
      → (parser_calls strtod n).parse_binary p s
        ≡ (parser_calls strtod m).loop p a (start src (t ∷ more) u us)
      → (k : ℕ) × (2 * length us + 1 ≤ k)
        × ((parser_calls strtod n).parse_binary p s
            ≡ (parser_calls strtod k).loop p (combine info.op a b) (start src [] u us))
  operation-turn p r n zero more t info a b u us s low op h le f bound l eq = absurd (omega arith)
  operation-turn p r n (suc m) more t info a b u us s low op h le f bound l eq =
      let right =
        ended (info.prec + 1) r more b u us m h f (omega arith) le (omega arith) (omega arith) in
      (
        m,
        omega arith,
        eq ∙ loop-operation strtod src u us m p t more info a b (start src [] u us) low op right,
      )

  pub level-null_test :
      (p q : ℕ) (toks words : List Token) (e : Expr) (kind : NullCheckKind) (last : Token)
      → p ≤ 4
      → 4 ≤ q
      → RunsLevel p q toks e
      → NullWords words kind last
      → RunsLevel p 7 (toks ++ words) (Expr.null_check kind e (combine_loc (expr_loc e) last.loc))
  level-null_test p q toks words e kind last low le r w u us n f bound one l = from words w l
    where
      from :
          (ws : List Token)
          → NullWords ws kind last
          → 2 * (length (toks ++ ws) + length us) + 2 ≤ n
          → (m : ℕ) × (2 * length us + 1 ≤ m)
            × ((parser_calls strtod n).parse_binary p (start src (toks ++ ws) u us)
                ≡ (parser_calls strtod m).loop p
                    (Expr.null_check kind e (combine_loc (expr_loc e) last.loc))
                    (start src [] u us))
      from [] v k = absurd (omega (arith, NullWords-length [] kind last v))
      from (t ∷ ts) v k =
          let is = null-Starts (t ∷ ts) kind last v in
          let (m, fuel, eq) =
            r t (ts ++ (u ∷ us)) n is.0 (omega (arith, is.1)) one
              (omega (arith, length-append toks (t ∷ ts), length-append ts (u ∷ us))) in
          null-turn p n m (t ∷ ts) e kind last u us (start src (toks ++ (t ∷ ts)) u us) low v
            (omega (arith, length-append ts (u ∷ us))) (rw (start-append src toks t ts u us) eq)

  pub level-operation :
      (p q r : ℕ) (toks more : List Token) (t : Token) (info : OpInfo) (a b : Expr)
      → p ≤ info.prec
      → info.prec ≤ q
      → lookup_op t.kind ≡ some info
      → RunsLevel p q toks a
      → RunsLevel (info.prec + 1) r more b
      → info.prec + 1 ≤ r
      → RunsLevel p info.prec (toks ++ (t ∷ more)) (combine info.op a b)
  level-operation p q r toks more t info a b low high op h k le u us n f bound one l =
      let prec : binding t.kind ≡ info.prec = binding_op t.kind info op in
      let (m, fuel, eq) =
        h t (more ++ (u ∷ us)) n (operator_follows t.kind info op) (omega (arith, prec)) one
          (omega (arith, length-append toks (t ∷ more), length-append more (u ∷ us))) in
      operation-turn p r n m more t info a b u us (start src (toks ++ (t ∷ more)) u us) low op k le
        f bound (omega (arith, length-append more (u ∷ us)))
        (rw (start-append src toks t more u us) eq)
