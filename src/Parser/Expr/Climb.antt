-- ===== src/Parser/Expr/Climb.antt =====
-- The loop of parse_binary_, and what stands around it.
use nyxdb.Base.{
  ℕ, ◌+◌, ◌*◌, ◌≤◌, ◌<◌, ◌≡◌, refl, subst, Bool, true, false, ◌&&◌, List, ◌∷◌, ◌++◌, none, some,
  arith, ltb, leb, leb→le, ltb→lt, length, Bool-cases, Option-cases, inl, inr,
}
use mathlib.Core.List.{append_assoc, append-nil}
use nyxdb.Parser.Token.{TokenKind, Token}
use nyxdb.Parser.Kind.{kind_code, is_kind}
use nyxdb.Parser.Ast.{NullCheckKind, Expr, Exprs, expr_loc}
use nyxdb.Parser.State.{Parse}
use nyxdb.Parser.State.Reads.{Is, Reads, Reads-ret, Reads-bind, Reads-if, Reads-weaken}
use nyxdb.Parser.State.Tokens.{
  NotEnd, of_kind, Reads-consume, Reads-peek, Reads-match, Reads-word_of,
}
use nyxdb.Parser.Expr.{
  OpInfo, lookup_op, combine_loc, combine, Calls, null_test, operand, infix_step, loop_step,
  binary_step, args_step,
}
use nyxdb.Parser.Expr.Grammar.{binding, prec_of, NullWords, Level, Args}
use nyxdb.Parser.Expr.Signs.{Infix-lookup_op}
use nyxdb.Parser.Expr.Steps.{ReadsLevel, ReadsUnary, ReadsArgs, Sound}

pub binding_is : (k : TokenKind) → is_kind k TokenKind.kw_is ≡ true → binding k ≡ 4
unfolding is_kind kind_code lookup_op
binding_is TokenKind.kw_is h = refl
binding_is _ h = absurd (cc h)

pub binding_other :
    (k : TokenKind) → is_kind k TokenKind.kw_is ≡ false → binding k ≡ prec_of (lookup_op k)
unfolding is_kind kind_code
binding_other TokenKind.kw_is h = absurd (cc h)
binding_other _ h = refl

pub binding_le : (k : TokenKind) → binding k ≤ 7
unfolding lookup_op
binding_le TokenKind.kw_is = omega arith
binding_le _ = omega arith

lookup_op-NotEnd : (k : TokenKind) (info : OpInfo) → lookup_op k ≡ some info → NotEnd k
unfolding lookup_op
lookup_op-NotEnd TokenKind.end_of_file info h = absurd (cc h)
lookup_op-NotEnd _ info h = tt

pub lookup_op-not_is :
    (k : TokenKind) (info : OpInfo) → lookup_op k ≡ some info → is_kind k TokenKind.kw_is ≡ false
unfolding lookup_op is_kind kind_code
lookup_op-not_is TokenKind.kw_is info h = absurd (cc h)
lookup_op-not_is _ info h = refl

pub binding_op : (k : TokenKind) (info : OpInfo) → lookup_op k ≡ some info → binding k ≡ info.prec
binding_op k info h = rw (binding_other k (lookup_op-not_is k info h), h) refl

-- Where the loop leaves off.
binding_stops :
    (k : TokenKind) (p : ℕ)
    → 1 ≤ p
    → lookup_op k ≡ none
    → (is_kind k TokenKind.kw_is && leb p 4) ≡ false
    → binding k < p
binding_stops k p l n h = elim (Bool-cases (is_kind k TokenKind.kw_is)) [
  | inl i ↦ rw (binding_is k i) (ground (arith, i, h))
  | inr i ↦ rw (binding_other k i, n) l
]

ltb_false→le : (m p : ℕ) → ltb m p ≡ false → p ≤ m
ltb_false→le m p h = ground arith

pub NullWords-length :
    (words : List Token) (kind : NullCheckKind) (last : Token)
    → NullWords words kind last
    → 1 ≤ length words
NullWords-length words kind last (NullWords.null a b i j) = omega arith
NullWords-length words kind last (NullWords.not_null a b c i j k) = omega arith

both_true : (a b : Bool) → (a && b) ≡ true → (a ≡ true) × (b ≡ true)
both_true true true h = (refl, refl)
both_true true false h = absurd (cc h)
both_true false b h = absurd (cc h)

module _ {source : List ℕ} {K : Token → Type 0} {T : Type 0} where
  null_test-Reads :
      (b : ℕ) (t : Token) (e : Expr)
      → Is TokenKind.kw_is t
      → Reads source K T b t
          (λ front e' next.
            (kind : NullCheckKind) × (last : Token) × NullWords front kind last
            × (e' ≡ Expr.null_check kind e (combine_loc (expr_loc e) last.loc)))
          (null_test e)
  unfolding null_test
  null_test-Reads b t e i = Reads-consume b t _ TokenKind.kw_is _ tt i λ u c ku l.
      Reads-match c u _ TokenKind.kw_not _ tt
        (λ j v d kv m. Reads-word_of d v _ TokenKind.kw_null _ _ tt λ k w f kw' m'.
          Reads-ret f w _ _ (NullCheckKind.is_not_null, v, NullWords.not_null t u v i j k, refl))
        (Reads-word_of c u _ TokenKind.kw_null _ _ tt λ k w f kw' m'.
          Reads-ret f w _ _ (NullCheckKind.is_null, u, NullWords.null t u i k, refl))

module _ {source : List ℕ} {K : Token → Type 0} {T : Type 0} {strtod : List ℕ → ℕ} where
  -- What was read before joins what the rest reads.
  regroup :
      (b p : ℕ) (t : Token) (toks front : List Token) (m : Parse Expr)
      → Reads source K T b t (λ back e next. ReadsLevel strtod p ((toks ++ front) ++ back) e next) m
      → Reads source K T b t (λ back e next. ReadsLevel strtod p (toks ++ (front ++ back)) e next) m
  regroup b p t toks front m r =
      Reads-weaken b b t _ _ m (omega arith)
        (λ back e next q.
          subst (λ ts. ReadsLevel strtod p ts e next) (append_assoc toks front back) q)
        r

  infix_step-Reads :
      (n b p q : ℕ) (t : Token) (toks : List Token) (e : Expr) (info : OpInfo) (calls : Calls)
      → Sound source K T strtod n calls
      → 2 * b ≤ n
      → 1 ≤ p
      → Level strtod p q toks e
      → binding t.kind ≤ q
      → lookup_op t.kind ≡ some info
      → Reads source K T b t
          (λ front e' next. ReadsLevel strtod p (toks ++ front) e' next)
          (infix_step strtod calls p e (some info))
  infix_step-Reads n b p q t toks e info calls s l one lev bound op =
      let prec : binding t.kind ≡ info.prec = binding_op t.kind info op in
      Reads-if b t _ _ _ _
        (λ low.
          Reads-ret b t _ _
            (rw (append-nil toks) (q, lev, omega (arith, prec, ltb→lt info.prec p low))))
        (λ high.
          Reads-consume b t _ t.kind _ (lookup_op-NotEnd t.kind info op) (of_kind t t.kind refl)
            λ u c ku m.
              Reads-bind c u (ReadsLevel strtod (info.prec + 1)) _
                (calls.parse_binary (info.prec + 1)) _
                (s.binary c (info.prec + 1) u (omega arith) (omega arith))
                λ more right v d (r, right_level, below) kv fit. regroup d p v toks (t ∷ more) _ (
                  s.loop d p info.prec v (toks ++ (t ∷ more)) (combine info.op e right) one
                    (omega arith)
                    (Level.operation p q r toks more t info e right (ltb_false→le info.prec p high)
                      (omega (arith, prec, bound)) (Infix-lookup_op t.kind info op) lev right_level)
                    (omega (arith, below))))

  pub loop_step-Reads :
      (n b p q : ℕ) (t : Token) (toks : List Token) (e : Expr) (calls : Calls)
      → Sound source K T strtod n calls
      → 2 * b ≤ n
      → 1 ≤ p
      → Level strtod p q toks e
      → binding t.kind ≤ q
      → Reads source K T b t
          (λ front e' next. ReadsLevel strtod p (toks ++ front) e' next)
          (loop_step strtod calls p e)
  unfolding loop_step
  loop_step-Reads n b p q t toks e calls s l one lev bound = Reads-peek b t _ _ (
      Reads-if b t _ _ _ _
        (λ i.
          let (is, low) = both_true (is_kind t.kind TokenKind.kw_is) (leb p 4) i in
          Reads-bind b t _ _ (null_test e) _ (null_test-Reads b t e is)
            λ words e' u c (kind, last, w, made) ku fit. rw made (
              regroup c p u toks words _ (
                s.loop c p 7 u (toks ++ words) _ one
                  (omega (arith, NullWords-length words kind last w))
                  (Level.null_test p q toks words e kind last (leb→le p 4 low)
                    (subst (λ k. k ≤ q) (binding_is t.kind is) bound) lev w)
                  (binding_le u.kind))))
        (λ no_is. elim (Option-cases (lookup_op t.kind)) [
          | inl n_op ↦ rw n_op (
              Reads-ret b t _ e
                (rw (append-nil toks) (q, lev, binding_stops t.kind p one n_op no_is)))
          | inr (info, op) ↦
              rw op (infix_step-Reads n b p q t toks e info calls s l one lev bound op)
        ]))

  operand-Reads :
      (n b p : ℕ) (t : Token) (calls : Calls)
      → Sound source K T strtod n calls
      → 2 * b + 1 ≤ n
      → Reads source K T b t
          (λ front e next. (q : ℕ) × Level strtod p q front e × (binding next.kind ≤ q))
          (operand strtod calls p)
  unfolding operand
  operand-Reads n b p t calls s l = Reads-peek b t _ _ (
      Reads-if b t _ _ _ _
        (λ i.
          let (low, is) = both_true (leb p 3) (is_kind t.kind TokenKind.kw_not) i in
          Reads-consume b t _ TokenKind.kw_not _ tt is λ u c ku m.
            Reads-bind c u (ReadsLevel strtod 3) _ (calls.parse_binary 3) _
              (s.binary c 3 u (omega arith) (omega arith))
              λ front e v d (q, lev, below) kv fit. Reads-ret d v _ _ (
                rw (append-nil front)
                  (3, Level.negation p q t front e (leb→le p 3 low) is lev, omega (arith, below))))
        (λ _.
          Reads-weaken b b t (ReadsUnary strtod) _ calls.parse_unary (omega arith)
            (λ front e next h. (7, Level.operand p front e h, binding_le next.kind))
            (s.unary b t l)))

  pub binary_step-Reads :
      (n b p : ℕ) (t : Token) (calls : Calls)
      → Sound source K T strtod n calls
      → 2 * b + 1 ≤ n
      → 1 ≤ p
      → Reads source K T b t (ReadsLevel strtod p) (binary_step strtod calls p)
  unfolding binary_step
  binary_step-Reads n b p t calls s l one =
      Reads-bind b t _ _ (operand strtod calls p) _ (operand-Reads n b p t calls s l)
        λ front e u c (q, lev, bound) ku fit. s.loop c p q u front e one (omega arith) lev bound

  pub args_step-Reads :
      (n b : ℕ) (t : Token) (calls : Calls)
      → Sound source K T strtod n calls
      → 2 * b + 2 ≤ n
      → Reads source K T b t (ReadsArgs strtod) (args_step strtod calls)
  unfolding args_step
  args_step-Reads n b t calls s l =
      Reads-bind b t (ReadsLevel strtod 1) _ (calls.parse_binary 1) _
        (s.binary b 1 t (omega arith) l)
        λ front e u c (q, lev, below) ku fit.
          Reads-match c u _ TokenKind.comma _ tt
            (λ i v d kv m.
              Reads-bind d v (ReadsArgs strtod) _ calls.args _ (s.args d v (omega arith))
                λ more es w f h kw' fit'.
                  Reads-ret f w _ (Exprs.cons e es)
                    (rw (append-nil more) (Args.another q u front more e es lev i h)))
            (Reads-ret c u _ (Exprs.cons e Exprs.nil)
              (rw (append-nil front) (Args.last q front e lev)))
