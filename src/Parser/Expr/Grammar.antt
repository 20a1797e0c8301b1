-- ===== src/Parser/Expr/Grammar.antt =====
-- The expressions of src/parser/parser.cpp as a grammar: which tokens a tree stands for.
use nyxdb.Base.{ℕ, ◌+◌, ◌≤◌, ◌≡◌, Bool, true, false, List, [], ◌∷◌, ◌++◌, Option, none, some}
use nyxdb.Shard.Defs.{BinaryOpKind}
use nyxdb.Parser.Token.{TokenKind, Token}
use nyxdb.Parser.Ast.{LogicalOpKind, NullCheckKind, Expr, Exprs, expr_loc}
use nyxdb.Parser.Expr.{Operator, OpInfo, lookup_op, combine_loc, combine, strtoll, negate}
use nyxdb.Parser.State.Reads.{Is}

abbrev pub prec_of : Option OpInfo → ℕ
prec_of none = 0
prec_of (some info) = info.prec

-- How tightly a token binds the expression in front of it: an operator by its precedence, IS by 4,
-- any other token not at all.
abbrev pub binding : TokenKind → ℕ
binding TokenKind.kw_is = 4
binding kind = prec_of (lookup_op kind)

-- How tightly an operator binds: OR, AND, the comparisons, then sums, then products.
abbrev pub level_of : Operator → ℕ
level_of (Operator.logical LogicalOpKind.or) = 1
level_of (Operator.logical LogicalOpKind.and) = 2
level_of (Operator.binary BinaryOpKind.add) = 5
level_of (Operator.binary BinaryOpKind.sub) = 5
level_of (Operator.binary BinaryOpKind.mul) = 6
level_of (Operator.binary BinaryOpKind.div) = 6
level_of (Operator.binary op) = 4

-- The token that an operator is written as.
abbrev pub sign_of : Operator → TokenKind
sign_of (Operator.logical LogicalOpKind.or) = TokenKind.kw_or
sign_of (Operator.logical LogicalOpKind.and) = TokenKind.kw_and
sign_of (Operator.binary BinaryOpKind.eq) = TokenKind.eq
sign_of (Operator.binary BinaryOpKind.ne) = TokenKind.ne
sign_of (Operator.binary BinaryOpKind.lt) = TokenKind.lt
sign_of (Operator.binary BinaryOpKind.le) = TokenKind.le
sign_of (Operator.binary BinaryOpKind.gt) = TokenKind.gt
sign_of (Operator.binary BinaryOpKind.ge) = TokenKind.ge
sign_of (Operator.binary BinaryOpKind.add) = TokenKind.plus
sign_of (Operator.binary BinaryOpKind.sub) = TokenKind.minus
sign_of (Operator.binary BinaryOpKind.mul) = TokenKind.star
sign_of (Operator.binary BinaryOpKind.div) = TokenKind.slash

-- The token is the operator's, and its precedence is the operator's.
abbrev pub Infix : TokenKind → OpInfo → Type 0
Infix kind info = (kind ≡ sign_of info.op) × (info.prec ≡ level_of info.op)

-- IS NULL or IS NOT NULL, with its last token.
pub data NullWords : List Token → NullCheckKind → Token → Type 0 where
  null :
      (is_tok null_tok : Token)
      → Is TokenKind.kw_is is_tok
      → Is TokenKind.kw_null null_tok
      → NullWords (is_tok ∷ null_tok ∷ []) NullCheckKind.is_null null_tok
  not_null :
      (is_tok not_tok null_tok : Token)
      → Is TokenKind.kw_is is_tok
      → Is TokenKind.kw_not not_tok
      → Is TokenKind.kw_null null_tok
      → NullWords (is_tok ∷ not_tok ∷ null_tok ∷ []) NullCheckKind.is_not_null null_tok

-- A constant of one token, or of two.
pub data Literal (strtod : List ℕ → ℕ) : List Token → Expr → Type 0 where
  int :
      (t : Token)
      → Is TokenKind.int_literal t
      → Literal strtod (t ∷ []) (Expr.int_lit (strtoll t.text) t.loc)
  double :
      (t : Token)
      → Is TokenKind.double_literal t
      → Literal strtod (t ∷ []) (Expr.double_lit (strtod t.text) t.loc)
  string :
      (t : Token)
      → Is TokenKind.string_literal t
      → Literal strtod (t ∷ []) (Expr.string_lit t.text t.loc)
  null : (t : Token) → Is TokenKind.kw_null t → Literal strtod (t ∷ []) (Expr.null_lit t.loc)
  truth : (t : Token) → Is TokenKind.kw_true t → Literal strtod (t ∷ []) (Expr.bool_lit true t.loc)
  falsity :
      (t : Token) → Is TokenKind.kw_false t → Literal strtod (t ∷ []) (Expr.bool_lit false t.loc)
  date :
      (t s : Token)
      → Is TokenKind.kw_date t
      → Is TokenKind.string_literal s
      → Literal strtod (t ∷ s ∷ []) (Expr.date_lit s.text (combine_loc t.loc s.loc))
  timestamp :
      (t s : Token)
      → Is TokenKind.kw_timestamp t
      → Is TokenKind.string_literal s
      → Literal strtod (t ∷ s ∷ []) (Expr.timestamp_lit s.text (combine_loc t.loc s.loc))

-- `Level p q toks e`: an expression whose operators outside parentheses all bind by `p` or more,
-- and which an operator behind it takes as its left operand if it binds by `q` or less. An operator
-- takes its right operand from a level above its own; NOT reaches over what binds by 3 or more.
mutual
  pub data Level (strtod : List ℕ → ℕ) : ℕ → ℕ → List Token → Expr → Type 0 where
    operand : (p : ℕ) (toks : List Token) (e : Expr) → Unary strtod toks e → Level strtod p 7 toks e
    negation :
        (p q : ℕ) (t : Token) (toks : List Token) (e : Expr)
        → p ≤ 3
        → Is TokenKind.kw_not t
        → Level strtod 3 q toks e
        → Level strtod p 3 (t ∷ toks) (Expr.not_op e (combine_loc t.loc (expr_loc e)))
    null_test :
        (p q : ℕ) (toks words : List Token) (e : Expr) (kind : NullCheckKind) (last : Token)
        → p ≤ 4
        → 4 ≤ q
        → Level strtod p q toks e
        → NullWords words kind last
        → Level strtod p 7
            (toks ++ words)
            (Expr.null_check kind e (combine_loc (expr_loc e) last.loc))
    operation :
        (p q r : ℕ) (toks more : List Token) (t : Token) (info : OpInfo) (a b : Expr)
        → p ≤ info.prec
        → info.prec ≤ q
        → Infix t.kind info
        → Level strtod p q toks a
        → Level strtod (info.prec + 1) r more b
        → Level strtod p info.prec (toks ++ (t ∷ more)) (combine info.op a b)

  pub data Unary (strtod : List ℕ → ℕ) : List Token → Expr → Type 0 where
    minus :
        (t : Token) (toks : List Token) (e : Expr)
        → Is TokenKind.minus t
        → Unary strtod toks e
        → Unary strtod (t ∷ toks) (negate t e)
    plus :
        (t : Token) (toks : List Token) (e : Expr)
        → Is TokenKind.plus t
        → Unary strtod toks e
        → Unary strtod (t ∷ toks) e
    literal : (toks : List Token) (e : Expr) → Literal strtod toks e → Unary strtod toks e
    parens :
        (t u : Token) (q : ℕ) (toks : List Token) (e : Expr)
        → Is TokenKind.lparen t
        → Level strtod 1 q toks e
        → Is TokenKind.rparen u
        → Unary strtod (t ∷ (toks ++ (u ∷ []))) e
    column :
        (t : Token)
        → Is TokenKind.identifier t
        → Unary strtod (t ∷ []) (Expr.column_ref none t.text t.loc)
    qualified :
        (t dot col : Token)
        → Is TokenKind.identifier t
        → Is TokenKind.dot dot
        → Is TokenKind.identifier col
        → Unary strtod
            (t ∷ dot ∷ col ∷ [])
            (Expr.column_ref (some t.text) col.text (combine_loc t.loc col.loc))
    call :
        (t open_paren close_paren : Token) (toks : List Token) (args : Exprs) (star : Bool)
        → Is TokenKind.identifier t
        → Is TokenKind.lparen open_paren
        → CallArgs strtod toks args star
        → Is TokenKind.rparen close_paren
        → Unary strtod
            (t ∷ open_paren ∷ (toks ++ (close_paren ∷ [])))
            (Expr.func_call t.text args star (combine_loc t.loc close_paren.loc))

  -- A star, nothing, or a list.
  pub data CallArgs (strtod : List ℕ → ℕ) : List Token → Exprs → Bool → Type 0 where
    all : (t : Token) → Is TokenKind.star t → CallArgs strtod (t ∷ []) Exprs.nil true
    empty : CallArgs strtod [] Exprs.nil false
    some_args :
        (toks : List Token) (args : Exprs) → Args strtod toks args → CallArgs strtod toks args false

  pub data Args (strtod : List ℕ → ℕ) : List Token → Exprs → Type 0 where
    last :
        (q : ℕ) (toks : List Token) (e : Expr)
        → Level strtod 1 q toks e
        → Args strtod toks (Exprs.cons e Exprs.nil)
    another :
        (q : ℕ) (t : Token) (toks more : List Token) (e : Expr) (es : Exprs)
        → Level strtod 1 q toks e
        → Is TokenKind.comma t
        → Args strtod more es
        → Args strtod (toks ++ (t ∷ more)) (Exprs.cons e es)
