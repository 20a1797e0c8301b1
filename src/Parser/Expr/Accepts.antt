-- ===== src/Parser/Expr/Accepts.antt =====
-- Runs of parse_expression of src/parser/parser.cpp over what the grammar derives.
use nyxdb.Base.{
  ℕ, zero, suc, ◌+◌, ◌≤◌, ◌≡◌, refl, sym, ◌∙◌, Bool, true, false, List, [], ◌∷◌, ◌++◌, some, arith,
  length-append,
}
use nyxdb.Parser.Token.{TokenKind, Token}
use nyxdb.Parser.Kind.{kind_code, is_kind}
use nyxdb.Parser.Ast.{Expr, Exprs}
use nyxdb.Parser.State.{Parser, Outcome, ret}
use nyxdb.Parser.State.Reads.{Is}
use nyxdb.Parser.State.Tokens.{is_kind_other}
use nyxdb.Parser.Expr.{
  OpInfo, lookup_op, parse_args, args_step, parser_calls, parse_expr, parse_expression,
}
use nyxdb.Parser.Expr.Grammar.{binding, Level, Unary, CallArgs, Args}
use nyxdb.Parser.Expr.Climb.{binding_op}
use nyxdb.Parser.Expr.Start.{
  start, start-append, left-start, run-bind, run-at_kind, run-match, run-match_other, run-consume,
}
use nyxdb.Parser.Expr.Complete.{
  closes, RunsUnary, RunsCallArgs, RunsClosed, unary-minus, unary-plus, unary-Literal, unary-parens,
  unary-column, unary-qualified, unary-call,
}
use nyxdb.Parser.Expr.Head.{Head, Head-Unary, Head-Args, Level-le}
use nyxdb.Parser.Expr.Signs.{lookup_op-Infix}
use nyxdb.Parser.Expr.Derived.{
  RunsLevel, RunsArgs, ended, level-operand, level-negation, level-null_test, level-operation,
}

binding_at_most : (k : TokenKind) → binding k ≤ 6
unfolding lookup_op
binding_at_most TokenKind.kw_is = omega arith
binding_at_most _ = omega arith

prec_at_most : (t : Token) (info : OpInfo) → lookup_op t.kind ≡ some info → info.prec + 1 ≤ 7
prec_at_most t info op = omega (arith, binding_at_most t.kind, binding_op t.kind info op)

module _ (strtod : List ℕ → ℕ) (src : List ℕ) where
  closed :
      (q : ℕ) (toks : List Token) (e : Expr)
      → Level strtod 1 q toks e
      → RunsLevel strtod src 1 q toks e
      → RunsClosed strtod src toks e
  closed q toks e h r u us n f b l =
      ended strtod src 1 q toks e u us n r f (omega arith)
        (Level-le strtod 1 q toks e (omega arith) h) (omega (arith, b)) l

  args-last :
      (toks : List Token) (e : Expr)
      → RunsClosed strtod src toks e
      → RunsArgs strtod src toks (Exprs.cons e Exprs.nil)
  unfolding parser_calls args_step ret is_kind kind_code
  args-last toks e r u us zero i l = absurd (omega arith)
  args-last toks e r u us (suc n) i l =
      let ends = closes TokenKind.rparen u tt i in
      run-bind _ _ _ _ e (r u us n ends.0 ends.1 (omega arith))
      ∙ run-match_other _ _ _ (is_kind_other u.kind TokenKind.rparen TokenKind.comma i refl)

  args-another :
      (t : Token) (toks more : List Token) (e : Expr) (es : Exprs)
      → RunsClosed strtod src toks e
      → Is TokenKind.comma t
      → RunsArgs strtod src more es
      → RunsArgs strtod src (toks ++ (t ∷ more)) (Exprs.cons e es)
  unfolding parser_calls args_step ret
  args-another t toks more e es r i rs u us zero j l = absurd (omega arith)
  args-another t toks more e es r i rs u us (suc n) j l =
      let ends = closes TokenKind.comma t tt i in
      let sizes = length-append toks (t ∷ more) in
      rw (start-append src toks t more u us) (
        run-bind _ _ _ _ e (
          r t (more ++ (u ∷ us)) n ends.0 ends.1
            (omega (arith, sizes, length-append more (u ∷ us))))
        ∙ (run-match src t more u us _ _ i
            ∙ run-bind _ _ _ _ es (rs u us n j (omega (arith, sizes)))))

  call_args-all :
      (t : Token) → Is TokenKind.star t → RunsCallArgs strtod src (t ∷ []) Exprs.nil true
  unfolding parse_args ret
  call_args-all t i u us n j l =
      run-at_kind _ _ _ ∙ (run-at_kind _ _ _ ∙ rw i (run-consume src t [] u us _))

  call_args-empty : RunsCallArgs strtod src [] Exprs.nil false
  unfolding parse_args ret is_kind kind_code
  call_args-empty u us n j l =
      run-at_kind _ _ _
      ∙ (run-at_kind _ _ _
          ∙ rw (is_kind_other u.kind TokenKind.rparen TokenKind.star j refl, j) refl)

  call_args-some :
      (toks : List Token) (args : Exprs)
      → Head toks
      → RunsArgs strtod src toks args
      → RunsCallArgs strtod src toks args false
  unfolding parse_args ret
  call_args-some [] args h r u us n j l = absurd h
  call_args-some (t ∷ ts) args h r u us n j l =
      run-at_kind _ _ _ ∙ (run-at_kind _ _ _ ∙ rw (h.0, h.1) (run-bind _ _ _ _ args (r u us n j l)))

  mutual
    Level-runs :
        (p q : ℕ) (toks : List Token) (e : Expr)
        → Level strtod p q toks e
        → RunsLevel strtod src p q toks e
    Level-runs p q toks e (Level.operand r ts a h) =
        level-operand strtod src r ts a (Head-Unary strtod ts a h).1 (Unary-runs ts a h)
    Level-runs p q toks e (Level.negation r s t ts a l i h) =
        level-negation strtod src r s t ts a l (Level-le strtod 3 s ts a (omega arith) h) i
          (Level-runs 3 s ts a h)
    Level-runs p q toks e (Level.null_test r s ts words a kind last l m h w) =
        level-null_test strtod src r s ts words a kind last l m (Level-runs r s ts a h) w
    Level-runs p q toks e (Level.operation r s v ts more t info a b l m sign h k) =
        let op = lookup_op-Infix t.kind info sign in
        level-operation strtod src r s v ts more t info a b l m op (Level-runs r s ts a h)
          (Level-runs (info.prec + 1) v more b k)
          (Level-le strtod (info.prec + 1) v more b (prec_at_most t info op) k)

    Unary-runs : (toks : List Token) (e : Expr) → Unary strtod toks e → RunsUnary strtod src toks e
    Unary-runs toks e (Unary.minus t ts a i h) = unary-minus strtod src t ts a i (Unary-runs ts a h)
    Unary-runs toks e (Unary.plus t ts a i h) = unary-plus strtod src t ts a i (Unary-runs ts a h)
    Unary-runs toks e (Unary.literal ts a h) = unary-Literal strtod src ts a h
    Unary-runs toks e (Unary.parens t u q ts a i h j) =
        unary-parens strtod src t u ts a i (closed q ts a h (Level-runs 1 q ts a h)) j
    Unary-runs toks e (Unary.column t i) = unary-column strtod src t i
    Unary-runs toks e (Unary.qualified t dot col i j k) = unary-qualified strtod src t dot col i j k
    Unary-runs toks e (Unary.call t o c ts args star i j h k) =
        unary-call strtod src t o c ts args star i j (CallArgs-runs ts args star h) k

    CallArgs-runs :
        (toks : List Token) (args : Exprs) (star : Bool)
        → CallArgs strtod toks args star
        → RunsCallArgs strtod src toks args star
    CallArgs-runs toks args star (CallArgs.all t i) = call_args-all t i
    CallArgs-runs toks args star CallArgs.empty = call_args-empty
    CallArgs-runs toks args star (CallArgs.some_args ts es h) =
        call_args-some ts es (Head-Args strtod ts es h) (Args-runs ts es h)

    Args-runs : (toks : List Token) (es : Exprs) → Args strtod toks es → RunsArgs strtod src toks es
    Args-runs toks es (Args.last q ts e h) =
        args-last ts e (closed q ts e h (Level-runs 1 q ts e h))
    Args-runs toks es (Args.another q t ts more e fs h i k) =
        args-another t ts more e fs (closed q ts e h (Level-runs 1 q ts e h)) i
          (Args-runs more fs k)

-- Whatever tokens the grammar of `Level` derives, with the end of the file behind them,
-- parse_expression reads, and it returns the tree of the derivation.
pub parse_expression-start :
    (strtod : List ℕ → ℕ) (src : List ℕ) (q : ℕ) (toks : List Token) (e : Expr) (u : Token)
    (us : List Token)
    → Level strtod 1 q toks e
    → Is TokenKind.end_of_file u
    → parse_expression strtod (start src toks u us) ≡ Outcome.done e (start src [] u us)
unfolding parse_expression parse_expr ret
parse_expression-start strtod src q toks e u us h i =
    let ends = closes TokenKind.end_of_file u tt i in
    run-bind _ _ _ _ e (
      closed strtod src q toks e h (Level-runs strtod src 1 q toks e h) u us _ ends.0 ends.1
        (omega (arith, left-start src toks u us)))
    ∙ (run-at_kind _ _ _ ∙ rw i refl)

done-injective : (e f : Expr) (s p : Parser) → Outcome.done e s ≡ Outcome.done f p → e ≡ f
done-injective e f s p h = cc h

-- So the grammar is unambiguous: the tokens of an expression have one tree.
pub Level-unique :
    (strtod : List ℕ → ℕ) (q r : ℕ) (toks : List Token) (e f : Expr) (u : Token)
    → Is TokenKind.end_of_file u
    → Level strtod 1 q toks e
    → Level strtod 1 r toks f
    → e ≡ f
Level-unique strtod q r toks e f u i h k = done-injective e f _ _ (
    sym (parse_expression-start strtod [] q toks e u [] h i)
    ∙ parse_expression-start strtod [] r toks f u [] k i)
