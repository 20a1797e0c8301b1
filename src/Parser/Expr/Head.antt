-- ===== src/Parser/Expr/Head.antt =====
-- How the expressions of the grammar start, and how far an operator behind them reaches.
use nyxdb.Base.{ℕ, ◌≤◌, ◌≡◌, refl, false, List, [], ◌∷◌, ◌++◌}
use nyxdb.Parser.Token.{TokenKind, Token}
use nyxdb.Parser.Kind.{kind_code, is_kind}
use nyxdb.Parser.Ast.{Expr, Exprs}
use nyxdb.Parser.State.Reads.{Is}
use nyxdb.Parser.State.Tokens.{is_kind_other}
use nyxdb.Parser.Expr.Grammar.{Literal, Level, Unary, Args}

-- There is a first token, and it is none of these.
abbrev pub Head : List Token → Type 0
Head [] = ⊥
Head (t ∷ ts) = (is_kind t.kind TokenKind.star ≡ false) × (is_kind t.kind TokenKind.rparen ≡ false)

abbrev pub NoNot : List Token → Type 0
NoNot [] = ⊥
NoNot (t ∷ ts) = is_kind t.kind TokenKind.kw_not ≡ false

abbrev OtherKind : TokenKind → Type 0
OtherKind k =
    (is_kind k TokenKind.star ≡ false)
    × (is_kind k TokenKind.rparen ≡ false)
    × (is_kind k TokenKind.kw_not ≡ false)

first :
    (k : TokenKind) (t : Token) (ts : List Token)
    → OtherKind k
    → Is k t
    → Head (t ∷ ts) × NoNot (t ∷ ts)
first k t ts o i = (
  (is_kind_other t.kind k TokenKind.star i o.0, is_kind_other t.kind k TokenKind.rparen i o.1),
  is_kind_other t.kind k TokenKind.kw_not i o.2,
)

Head-append : (a b : List Token) → Head a → Head (a ++ b)
Head-append [] b h = absurd h
Head-append (t ∷ a) b h = h

module _ (strtod : List ℕ → ℕ) where
  Head-Literal : (toks : List Token) (e : Expr) → Literal strtod toks e → Head toks × NoNot toks
  unfolding is_kind kind_code
  Head-Literal toks e (Literal.int t i) = first TokenKind.int_literal t [] (refl, refl, refl) i
  Head-Literal toks e (Literal.double t i) =
      first TokenKind.double_literal t [] (refl, refl, refl) i
  Head-Literal toks e (Literal.string t i) =
      first TokenKind.string_literal t [] (refl, refl, refl) i
  Head-Literal toks e (Literal.null t i) = first TokenKind.kw_null t [] (refl, refl, refl) i
  Head-Literal toks e (Literal.truth t i) = first TokenKind.kw_true t [] (refl, refl, refl) i
  Head-Literal toks e (Literal.falsity t i) = first TokenKind.kw_false t [] (refl, refl, refl) i
  Head-Literal toks e (Literal.date t s i j) =
      first TokenKind.kw_date t (s ∷ []) (refl, refl, refl) i
  Head-Literal toks e (Literal.timestamp t s i j) =
      first TokenKind.kw_timestamp t (s ∷ []) (refl, refl, refl) i

  pub Head-Unary : (toks : List Token) (e : Expr) → Unary strtod toks e → Head toks × NoNot toks
  unfolding is_kind kind_code
  Head-Unary toks e (Unary.minus t ts a i h) = first TokenKind.minus t ts (refl, refl, refl) i
  Head-Unary toks e (Unary.plus t ts a i h) = first TokenKind.plus t ts (refl, refl, refl) i
  Head-Unary toks e (Unary.literal ts a h) = Head-Literal ts a h
  Head-Unary toks e (Unary.parens t u q ts a i h j) =
      first TokenKind.lparen t (ts ++ (u ∷ [])) (refl, refl, refl) i
  Head-Unary toks e (Unary.column t i) = first TokenKind.identifier t [] (refl, refl, refl) i
  Head-Unary toks e (Unary.qualified t dot col i j k) =
      first TokenKind.identifier t (dot ∷ col ∷ []) (refl, refl, refl) i
  Head-Unary toks e (Unary.call t o c ts args star i j h k) =
      first TokenKind.identifier t (o ∷ (ts ++ (c ∷ []))) (refl, refl, refl) i

  pub Head-Level : (p q : ℕ) (toks : List Token) (e : Expr) → Level strtod p q toks e → Head toks
  unfolding is_kind kind_code
  Head-Level p q toks e (Level.operand r ts a h) = (Head-Unary ts a h).0
  Head-Level p q toks e (Level.negation r s t ts a l i h) = (
    is_kind_other t.kind TokenKind.kw_not TokenKind.star i refl,
    is_kind_other t.kind TokenKind.kw_not TokenKind.rparen i refl,
  )
  Head-Level p q toks e (Level.null_test r s ts words a kind last l m h w) =
      Head-append ts words (Head-Level r s ts a h)
  Head-Level p q toks e (Level.operation r s v ts more t info a b l m op h k) =
      Head-append ts (t ∷ more) (Head-Level r s ts a h)

  pub Head-Args : (toks : List Token) (es : Exprs) → Args strtod toks es → Head toks
  Head-Args toks es (Args.last q ts e h) = Head-Level 1 q ts e h
  Head-Args toks es (Args.another q t ts more e fs h i k) =
      Head-append ts (t ∷ more) (Head-Level 1 q ts e h)

  pub Level-le : (p q : ℕ) (toks : List Token) (e : Expr) → p ≤ 7 → Level strtod p q toks e → p ≤ q
  Level-le p q toks e s (Level.operand r ts a h) = s
  Level-le p q toks e s (Level.negation r x t ts a l i h) = l
  Level-le p q toks e s (Level.null_test r x ts words a kind last l m h w) = s
  Level-le p q toks e s (Level.operation r x v ts more t info a b l m op h k) = l
