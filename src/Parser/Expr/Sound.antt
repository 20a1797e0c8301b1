-- ===== src/Parser/Expr/Sound.antt =====
-- The expressions that parse_expr_ and parse_expression of src/parser/parser.cpp read.
use nyxdb.Base.{ℕ, zero, suc, ◌+◌, ◌*◌, ◌≡◌, refl, sym, ◌∙◌, All, List, [], ◌∷◌, ◌++◌, arith}
use mathlib.Core.List.{append-nil, append_assoc}
use nyxdb.Parser.Token.{TokenKind, Token}
use nyxdb.Parser.State.{Parser, left}
use nyxdb.Parser.State.Reads.{
  Is, tokens, Closed, Inside, Good, Reads, Reads-ret, Reads-fail, Reads-bind, Reads-if, Reads-known,
}
use nyxdb.Parser.State.Tokens.{Reads-at_kind}
use nyxdb.Parser.Expr.{parser_calls, parse_expr, parse_expression}
use nyxdb.Parser.Expr.Grammar.{Level}
use nyxdb.Parser.Expr.Steps.{ReadsLevel, Sound, unary_step-Reads}
use nyxdb.Parser.Expr.Climb.{loop_step-Reads, binary_step-Reads, args_step-Reads}

module _ (source : List ℕ) (K : Token → Type 0) (T : Type 0) (strtod : List ℕ → ℕ) where
  parser_calls-Sound : (n : ℕ) → Sound source K T strtod n (parser_calls strtod n)
  unfolding parser_calls
  parser_calls-Sound zero = record {
    binary = λ b p t one l. absurd (omega arith);
    loop = λ b p q t toks e one l lev bound. absurd (omega arith);
    unary = λ b t l. absurd (omega arith);
    args = λ b t l. absurd (omega arith);
  }
  parser_calls-Sound (suc n) =
      let s : Sound source K T strtod n (parser_calls strtod n) = parser_calls-Sound n in
      record {
        binary =
            λ b p t one l. binary_step-Reads n b p t (parser_calls strtod n) s (omega arith) one;
        loop = λ b p q t toks e one l lev bound.
            loop_step-Reads n b p q t toks e (parser_calls strtod n) s (omega arith) one lev bound;
        unary = λ b t l.
            Reads-known b t _ _ (unary_step-Reads n b t (parser_calls strtod n) s (omega arith));
        args = λ b t l. args_step-Reads n b t (parser_calls strtod n) s (omega arith);
      }

module _ {source : List ℕ} {K : Token → Type 0} {T : Type 0} {strtod : List ℕ → ℕ} where
  pub parse_expr-Reads :
      (b : ℕ) (t : Token) → Reads source K T b t (ReadsLevel strtod 1) (parse_expr strtod)
  unfolding parse_expr
  parse_expr-Reads b t = record {
    at = λ p h e l.
        ((parser_calls-Sound source K T strtod (2 * left p + 2)).binary (left p) 1 t (omega arith)
            (omega arith)).at
          p h e (omega arith);
  }

  parse_expression-Reads :
      (b : ℕ) (t : Token)
      → Reads source K T b t
          (λ front e next. (q : ℕ) × Level strtod 1 q front e × Is TokenKind.end_of_file next)
          (parse_expression strtod)
  unfolding parse_expression
  parse_expression-Reads b t =
      Reads-bind b t (ReadsLevel strtod 1) _ (parse_expr strtod) _ (parse_expr-Reads b t)
        λ front e u c (q, lev, below) ku fit. Reads-at_kind c u _ TokenKind.end_of_file _ (
          Reads-if c u _ _ _ _ (λ i. Reads-ret c u _ e (rw (append-nil front) (q, lev, i)))
            (λ _. Reads-fail c u _ _))

-- A token of a list.
abbrev pub Among : List Token → Token → Type 0
Among ts t = (before : List Token) × (after : List Token) × (ts ≡ before ++ (t ∷ after))

All-Among : (before ts all : List Token) → all ≡ before ++ ts → All (Among all) ts
All-Among before [] all e = tt
All-Among before (t ∷ ts) all e = (
  (before, ts, e),
  All-Among (before ++ (t ∷ [])) ts all (e ∙ sym (append_assoc before (t ∷ []) ts)),
)

pub Inside-Among : (p : Parser) → Closed p.tok p.rest → Inside p.source (Among (tokens p)) p
Inside-Among p h = record {
  over = refl;
  known = All-Among [] (tokens p) (tokens p) refl;
  closed = h;
}

-- On tokens of which the last is the end of the file, parse_expression ends. It returns a tree only
-- where the tokens up to an end of the file stand for that tree by the grammar of `Level`, which
-- gives every operator its precedence and groups equal ones to the left; otherwise it returns an
-- error, whose message is rendered at one of the tokens, and it throws nothing.
pub parse_expression-Level :
    (strtod : List ℕ → ℕ) (p : Parser)
    → Closed p.tok p.rest
    → Good p.source
        (Among (tokens p))
        ⊥
        (λ front e next. (q : ℕ) × Level strtod 1 q front e × Is TokenKind.end_of_file next)
        p
        (parse_expression strtod p)
parse_expression-Level strtod p h =
    (parse_expression-Reads (left p) p.tok).at p (Inside-Among p h) refl (omega arith)
