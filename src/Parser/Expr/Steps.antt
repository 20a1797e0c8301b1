-- ===== src/Parser/Expr/Steps.antt =====
-- What each of the functions for expressions reads, given those that it calls.
use nyxdb.Base.{ℕ, ◌+◌, ◌*◌, ◌≤◌, ◌<◌, refl, false, List, [], ◌∷◌, ◌++◌, arith}
use mathlib.Core.List.{append-nil}
use nyxdb.Parser.Token.{TokenKind, SourceLoc, Token}
use nyxdb.Parser.Kind.{is_kind}
use nyxdb.Parser.Ast.{Expr, Exprs}
use nyxdb.Parser.State.{◌>>=◌, ret, consume}
use nyxdb.Parser.State.Reads.{
  Is, Post, Reads, Reads-ret, Reads-fail_at, Reads-bind, Reads-if, Reads-weaken,
}
use nyxdb.Parser.State.Tokens.{
  NotEnd, of_kind, Reads-consume, Reads-at_kind, Reads-peek, Reads-expect, Reads-word_of,
}
use nyxdb.Parser.Expr.{
  combine_loc, Calls, dated, parse_args, parse_ident_or_call, parenthesised, primary_of,
  parse_primary, unary_step,
}
use nyxdb.Parser.Expr.Grammar.{binding, Literal, Level, Unary, CallArgs, Args}

module _ (strtod : List ℕ → ℕ) where
  -- Of an expression at a level, and of the token that ends it.
  abbrev pub ReadsLevel : ℕ → Post Expr
  ReadsLevel p front e next = (q : ℕ) × Level strtod p q front e × (binding next.kind < p)

  abbrev pub ReadsUnary : Post Expr
  ReadsUnary front e next = Unary strtod front e

  abbrev pub ReadsArgs : Post Exprs
  ReadsArgs front es next = Args strtod front es

module _ (source : List ℕ) (K : Token → Type 0) (T : Type 0) (strtod : List ℕ → ℕ) where
  -- The functions at fuel `n` read what they should, where the tokens left are few enough.
  pub record Sound (n : ℕ) (calls : Calls) : Type 0 where
    pub binary :
        (b p : ℕ) (t : Token)
        → 1 ≤ p
        → 2 * b + 2 ≤ n
        → Reads source K T b t (ReadsLevel strtod p) (calls.parse_binary p)
    pub loop :
        (b p q : ℕ) (t : Token) (toks : List Token) (e : Expr)
        → 1 ≤ p
        → 2 * b + 1 ≤ n
        → Level strtod p q toks e
        → binding t.kind ≤ q
        → Reads source K T b t
            (λ front e' next. ReadsLevel strtod p (toks ++ front) e' next)
            (calls.loop p e)
    pub unary :
        (b : ℕ) (t : Token)
        → 2 * b + 1 ≤ n
        → Reads source K T b t (ReadsUnary strtod) calls.parse_unary
    pub args :
        (b : ℕ) (t : Token) → 2 * b + 3 ≤ n → Reads source K T b t (ReadsArgs strtod) calls.args

module _ {source : List ℕ} {K : Token → Type 0} {T : Type 0} {strtod : List ℕ → ℕ} where
  dated-Reads :
      (b : ℕ) (t : Token) (kind : TokenKind) (make : List ℕ → SourceLoc → Expr) (message : List ℕ)
      → NotEnd kind
      → Is kind t
      → ((s : Token)
          → Is TokenKind.string_literal s
          → Literal strtod (t ∷ s ∷ []) (make s.text (combine_loc t.loc s.loc)))
      → Reads source K T b t (ReadsUnary strtod) (dated make message)
  unfolding dated
  dated-Reads b t kind make message n i k = Reads-consume b t _ kind _ n i λ u c ku l.
      Reads-word_of c u _ TokenKind.string_literal message _ tt
        λ it v d kv m. Reads-ret d v _ _ (Unary.literal _ _ (k u it))

  parse_args-Reads :
      (n b : ℕ) (t : Token) (calls : Calls)
      → Sound source K T strtod n calls
      → 2 * b + 3 ≤ n
      → Reads source K T b t
          (λ front r next. CallArgs strtod front r.0 r.1)
          (parse_args strtod calls)
  unfolding parse_args
  parse_args-Reads n b t calls s l = Reads-at_kind b t _ TokenKind.star _ (
      Reads-at_kind b t _ TokenKind.rparen _ (
        Reads-if b t _ _ _ _
          (λ i.
            Reads-consume b t _ TokenKind.star _ tt i
              λ u c ku m. Reads-ret c u _ _ (CallArgs.all t i))
          (λ _.
            Reads-if b t _ (is_kind t.kind TokenKind.rparen) _
              (calls.args >>= λ args. ret (args, false)) (λ i. Reads-ret b t _ _ CallArgs.empty)
              (λ _.
                Reads-bind b t (ReadsArgs strtod) _ calls.args _ (s.args b t l)
                  λ front es u c q ku fit.
                    Reads-ret c u _ (es, false)
                      (rw (append-nil front) (CallArgs.some_args front es q))))))

  parse_ident_or_call-Reads :
      (n b : ℕ) (t : Token) (calls : Calls)
      → Sound source K T strtod n calls
      → 2 * b ≤ n
      → Is TokenKind.identifier t
      → Reads source K T b t (ReadsUnary strtod) (parse_ident_or_call strtod calls)
  unfolding parse_ident_or_call
  parse_ident_or_call-Reads n b t calls s l i =
      Reads-consume b t _ TokenKind.identifier _ tt i λ u c ku m.
        Reads-at_kind c u _ TokenKind.dot _ (
          Reads-at_kind c u _ TokenKind.lparen _ (
            Reads-if c u _ _ _ _
              (λ j. Reads-consume c u _ TokenKind.dot _ tt j λ v d kv m'.
                Reads-word_of d v _ TokenKind.identifier _ _ tt
                  λ k w e kw' m''. Reads-ret e w _ _ (Unary.qualified t u v i j k))
              (λ _.
                Reads-if c u _ _ _ _
                  (λ j. Reads-consume c u _ TokenKind.lparen _ tt j λ v d kv m'.
                    Reads-bind d v (λ front r next. CallArgs strtod front r.0 r.1) _
                      (parse_args strtod calls) _ (parse_args-Reads n d v calls s (omega arith))
                      λ front r w e q kw' fit.
                        Reads-word_of e w _ TokenKind.rparen _ _ tt λ k x f kx m''.
                          Reads-ret f x _ _ (Unary.call t u w front r.0 r.1 i j q k))
                  (λ _. Reads-ret c u _ _ (Unary.column t i)))))

  parenthesised-Reads :
      (n b : ℕ) (t : Token) (calls : Calls)
      → Sound source K T strtod n calls
      → 2 * b ≤ n
      → Is TokenKind.lparen t
      → Reads source K T b t (ReadsUnary strtod) (parenthesised strtod calls)
  unfolding parenthesised
  parenthesised-Reads n b t calls s l i = Reads-consume b t _ TokenKind.lparen _ tt i λ u c ku m.
      Reads-bind c u (ReadsLevel strtod 1) _ (calls.parse_binary 1) _
        (s.binary c 1 u (omega arith) (omega arith))
        λ front e v d q kv fit.
          Reads-expect d v _ TokenKind.rparen _ _ tt
            λ j w f kw' m'. Reads-ret f w _ _ (Unary.parens t v q.0 front e i q.1 j)

  one_token-Reads :
      (b : ℕ) (t : Token) (kind : TokenKind) (make : Token → Expr)
      → NotEnd kind
      → Is kind t
      → Literal strtod (t ∷ []) (make t)
      → Reads source K T b t (ReadsUnary strtod) (consume >>= λ tok. ret (make tok))
  one_token-Reads b t kind make n i h =
      Reads-consume b t _ kind _ n i λ u c ku m. Reads-ret c u _ _ (Unary.literal _ _ h)

  primary_of-Reads :
      (n b : ℕ) (t : Token) (calls : Calls)
      → Sound source K T strtod n calls
      → 2 * b ≤ n
      → K t
      → (kind : TokenKind) → Is kind t
      → Reads source K T b t (ReadsUnary strtod) (primary_of strtod calls t kind)
  unfolding primary_of
  primary_of-Reads n b t calls s l k TokenKind.int_literal i =
      one_token-Reads b t TokenKind.int_literal _ tt i (Literal.int t i)
  primary_of-Reads n b t calls s l k TokenKind.double_literal i =
      one_token-Reads b t TokenKind.double_literal _ tt i (Literal.double t i)
  primary_of-Reads n b t calls s l k TokenKind.string_literal i =
      one_token-Reads b t TokenKind.string_literal _ tt i (Literal.string t i)
  primary_of-Reads n b t calls s l k TokenKind.kw_null i =
      one_token-Reads b t TokenKind.kw_null _ tt i (Literal.null t i)
  primary_of-Reads n b t calls s l k TokenKind.kw_true i =
      one_token-Reads b t TokenKind.kw_true _ tt i (Literal.truth t i)
  primary_of-Reads n b t calls s l k TokenKind.kw_false i =
      one_token-Reads b t TokenKind.kw_false _ tt i (Literal.falsity t i)
  primary_of-Reads n b t calls s l k TokenKind.kw_date i =
      dated-Reads b t TokenKind.kw_date Expr.date_lit _ tt i (λ u j. Literal.date t u i j)
  primary_of-Reads n b t calls s l k TokenKind.kw_timestamp i =
      dated-Reads b t TokenKind.kw_timestamp Expr.timestamp_lit _ tt i
        (λ u j. Literal.timestamp t u i j)
  primary_of-Reads n b t calls s l k TokenKind.lparen i = parenthesised-Reads n b t calls s l i
  primary_of-Reads n b t calls s l k TokenKind.identifier i =
      parse_ident_or_call-Reads n b t calls s l i
  primary_of-Reads n b t calls s l k _ i = Reads-fail_at b t t _ _ k

  pub unary_step-Reads :
      (n b : ℕ) (t : Token) (calls : Calls)
      → Sound source K T strtod n calls
      → 2 * b ≤ n
      → K t
      → Reads source K T b t (ReadsUnary strtod) (unary_step strtod calls)
  unfolding unary_step parse_primary
  unary_step-Reads n b t calls s l k = Reads-peek b t _ _ (
      Reads-if b t _ _ _ _
        (λ i. Reads-consume b t _ TokenKind.minus _ tt i λ u c ku m.
          Reads-bind c u (ReadsUnary strtod) _ calls.parse_unary _ (s.unary c u (omega arith))
            λ front e v d q kv fit.
              Reads-ret d v _ _ (rw (append-nil front) (Unary.minus t front e i q)))
        (λ _.
          Reads-if b t _ _ _ _
            (λ i. Reads-consume b t _ TokenKind.plus _ tt i λ u c ku m.
              Reads-weaken c c u (ReadsUnary strtod) _ calls.parse_unary (omega arith)
                (λ front e v q. Unary.plus t front e i q) (s.unary c u (omega arith)))
            (λ _.
              Reads-peek b t _ _
                (primary_of-Reads n b t calls s l k t.kind (of_kind t t.kind refl)))))
