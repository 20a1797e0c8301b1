-- ===== src/Parser/Expr/Turn.antt =====
-- The turns of the loop of parse_binary_ over tokens that are known.
use nyxdb.Base.{
  ℕ, zero, suc, ◌+◌, ◌≤◌, ◌<◌, ◌≡◌, refl, subst, ◌∙◌, Bool, true, false, ◌&&◌, List, [], ◌∷◌,
  Option, none, some, arith, ltb, lt→ltb, leb, Bool-cases, inl, inr,
}
use nyxdb.Parser.Token.{TokenKind, Token}
use nyxdb.Parser.Kind.{kind_code, is_kind}
use nyxdb.Parser.Ast.{NullCheckKind, Expr, expr_loc}
use nyxdb.Parser.State.{Parser, Outcome, ret}
use nyxdb.Parser.State.Tokens.{is_kind_other}
use nyxdb.Parser.Expr.{
  OpInfo, lookup_op, combine_loc, combine, Calls, null_test, infix_step, loop_step, parser_calls,
}
use nyxdb.Parser.Expr.Grammar.{binding, prec_of, NullWords}
use nyxdb.Parser.Expr.Climb.{binding_is, binding_other, lookup_op-not_is}
use nyxdb.Parser.Expr.Start.{
  start, run-bind, run-peek, run-match, run-match_other, run-consume, run-word_of,
}

pub and_false : (a : Bool) → (a && false) ≡ false
and_false true = refl
and_false false = refl

le→ltb_false : (m p : ℕ) → p ≤ m → ltb m p ≡ false
le→ltb_false m p l = ground arith

lookup_op-is : (k : TokenKind) → is_kind k TokenKind.kw_is ≡ true → lookup_op k ≡ none
unfolding is_kind kind_code lookup_op
lookup_op-is TokenKind.kw_is h = refl
lookup_op-is _ h = absurd (cc h)

-- A token that binds less than the level is left alone.
infix_step-stops :
    (strtod : List ℕ → ℕ) (calls : Calls) (p : ℕ) (e : Expr) (o : Option OpInfo) (s : Parser)
    → prec_of o < p
    → infix_step strtod calls p e o s ≡ Outcome.done e s
unfolding ret
infix_step-stops strtod calls p e none s l = refl
infix_step-stops strtod calls p e (some info) s l = rw (lt→ltb info.prec p l) refl

prec_of_lookup : (k : TokenKind) (p : ℕ) → 1 ≤ p → binding k < p → prec_of (lookup_op k) < p
prec_of_lookup k p one l = elim (Bool-cases (is_kind k TokenKind.kw_is)) [
  | inl i ↦ rw (lookup_op-is k i) one
  | inr i ↦ subst (λ b. b < p) (binding_other k i) l
]

is_stops : (k : TokenKind) (p : ℕ) → binding k < p → (is_kind k TokenKind.kw_is && leb p 4) ≡ false
is_stops k p l = elim (Bool-cases (is_kind k TokenKind.kw_is)) [
  | inl i ↦ let four : 4 < p = subst (λ b. b < p) (binding_is k i) l in rw i (ground (arith, four))
  | inr i ↦ rw i refl
]

pub loop-stops :
    (strtod : List ℕ → ℕ) (m p : ℕ) (e : Expr) (s : Parser)
    → 1 ≤ m
    → 1 ≤ p
    → binding s.tok.kind < p
    → (parser_calls strtod m).loop p e s ≡ Outcome.done e s
unfolding parser_calls loop_step
loop-stops strtod zero p e s l one b = absurd (omega arith)
loop-stops strtod (suc m) p e s l one b =
    run-peek _ _
    ∙ rw (is_stops s.tok.kind p b) (
        infix_step-stops strtod (parser_calls strtod m) p e (lookup_op s.tok.kind) s
          (prec_of_lookup s.tok.kind p one b))

module _ (strtod : List ℕ → ℕ) (src : List ℕ) (u : Token) (us : List Token) where
  null_test-words :
      (words : List Token) (kind : NullCheckKind) (last : Token) (e : Expr)
      → NullWords words kind last
      → null_test e (start src words u us)
        ≡ Outcome.done
            (Expr.null_check kind e (combine_loc (expr_loc e) last.loc))
            (start src [] u us)
  unfolding null_test ret is_kind kind_code
  null_test-words words kind last e (NullWords.null t n i j) =
      run-consume src t (n ∷ []) u us _
      ∙ (run-match_other _ _ _ (is_kind_other n.kind TokenKind.kw_null TokenKind.kw_not j refl)
          ∙ run-word_of src n [] u us _ _ _ j)
  null_test-words words kind last e (NullWords.not_null t k n i h j) =
      run-consume src t (k ∷ n ∷ []) u us _
      ∙ (run-match src k (n ∷ []) u us _ _ h ∙ run-word_of src n [] u us _ _ _ j)

  pub loop-null :
      (m p : ℕ) (words : List Token) (kind : NullCheckKind) (last : Token) (e : Expr)
      → p ≤ 4
      → NullWords words kind last
      → (parser_calls strtod (suc m)).loop p e (start src words u us)
        ≡ (parser_calls strtod m).loop p
            (Expr.null_check kind e (combine_loc (expr_loc e) last.loc))
            (start src [] u us)
  unfolding parser_calls loop_step
  loop-null m p words kind last e l w =
      run-peek _ _
      ∙ rw (starts_is words kind last w) (run-bind _ _ _ _ _ (null_test-words words kind last e w))
    where
      starts_is :
          (words : List Token) (kind : NullCheckKind) (last : Token)
          → NullWords words kind last
          → (is_kind (start src words u us).tok.kind TokenKind.kw_is && leb p 4) ≡ true
      starts_is words kind last (NullWords.null t n i j) = rw i (ground (arith, l))
      starts_is words kind last (NullWords.not_null t k n i h j) = rw i (ground (arith, l))

  pub loop-operation :
      (m p : ℕ) (t : Token) (ts : List Token) (info : OpInfo) (e b : Expr) (s : Parser)
      → p ≤ info.prec
      → lookup_op t.kind ≡ some info
      → (parser_calls strtod m).parse_binary (info.prec + 1) (start src ts u us) ≡ Outcome.done b s
      → (parser_calls strtod (suc m)).loop p e (start src (t ∷ ts) u us)
        ≡ (parser_calls strtod m).loop p (combine info.op e b) s
  unfolding parser_calls loop_step
  loop-operation m p t ts info e b s l op r =
      run-peek _ _
      ∙ rw (lookup_op-not_is t.kind info op, op)
          (rw (le→ltb_false info.prec p l) (run-consume src t ts u us _ ∙ run-bind _ _ _ _ b r))
