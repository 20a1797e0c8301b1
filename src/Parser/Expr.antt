-- ===== src/Parser/Expr.antt =====
-- src/parser/parser.cpp: expressions, by precedence climbing.
pub mod Grammar
mod Steps
mod Signs
mod Climb
pub mod Sound
pub mod Start
pub mod Complete
mod Head
mod Turn
mod Derived
pub mod Accepts
use nyxdb.Base.{
  ℕ, zero, suc, ◌+◌, ◌-◌, ◌*◌, ◌%◌, ◌^◌, min, Bool, true, false, ◌&&◌, List, [], ◌∷◌, Option, none,
  some, ltb, leb, if◌then◌else◌, length,
}
use nyxdb.Base.Int.{ℤ, neg_ℤ}
use nyxdb.Base.Strings.{text}
use nyxdb.Base.Words.{u32_mod, u64_mod}
use nyxdb.Shard.Defs.{BinaryOpKind}
use nyxdb.Parser.Token.{TokenKind, SourceLoc, Token}
use nyxdb.Parser.Kind.{is_kind}
use nyxdb.Parser.Ast.{LogicalOpKind, NullCheckKind, Expr, Exprs, expr_loc}
use nyxdb.Parser.State.{
  Parser, Outcome, Parse, ◌>>=◌, ret, peek, consume, at_kind, match, fail, fail_at, expect, word_of,
  left,
}

-- What an operator makes of its operands: `is_logical` with `logop`, or `binop`.
pub data Operator : Type 0 where
  logical : LogicalOpKind → Operator
  binary : BinaryOpKind → Operator

pub record OpInfo : Type 0 where
  pub prec : ℕ
  pub op : Operator

abbrev compares : BinaryOpKind → Option OpInfo
compares op = some (record { prec = 4; op = Operator.binary op })

unfoldable pub lookup_op : TokenKind → Option OpInfo
lookup_op TokenKind.kw_or = some (record { prec = 1; op = Operator.logical LogicalOpKind.or })
lookup_op TokenKind.kw_and = some (record { prec = 2; op = Operator.logical LogicalOpKind.and })
lookup_op TokenKind.lt = compares BinaryOpKind.lt
lookup_op TokenKind.le = compares BinaryOpKind.le
lookup_op TokenKind.eq = compares BinaryOpKind.eq
lookup_op TokenKind.ne = compares BinaryOpKind.ne
lookup_op TokenKind.ge = compares BinaryOpKind.ge
lookup_op TokenKind.gt = compares BinaryOpKind.gt
lookup_op TokenKind.plus = some (record { prec = 5; op = Operator.binary BinaryOpKind.add })
lookup_op TokenKind.minus = some (record { prec = 5; op = Operator.binary BinaryOpKind.sub })
lookup_op TokenKind.star = some (record { prec = 6; op = Operator.binary BinaryOpKind.mul })
lookup_op TokenKind.slash = some (record { prec = 6; op = Operator.binary BinaryOpKind.div })
lookup_op _ = none

-- The ends wrap as `u32`.
unfoldable pub combine_loc : SourceLoc → SourceLoc → SourceLoc
combine_loc a b =
    let start = min a.offset b.offset in
    let end_a = (a.offset + a.length) % u32_mod in
    let end_b = (b.offset + b.length) % u32_mod in
    let end = if ltb end_b end_a then end_a else end_b in
    record { offset = start; length = (end + (u32_mod - start)) % u32_mod }

unfoldable pub combine : Operator → Expr → Expr → Expr
combine (Operator.logical op) a b = Expr.logical_op op a b (combine_loc (expr_loc a) (expr_loc b))
combine (Operator.binary op) a b = Expr.binary_op op a b (combine_loc (expr_loc a) (expr_loc b))

-- `strtoll` to the base 10 on a text that starts with a digit: up to the first other character.
unfoldable pub decimal_loop : List ℕ → ℕ → ℕ
decimal_loop [] n = n
decimal_loop (c ∷ cs) n =
    let further = decimal_loop cs (n * 10 + (c - b'0')) in
    if leb b'0' c && leb c b'9' then further else n

abbrev pub i64_max : ℕ
i64_max = 2 ^ 63 - 1

unfoldable pub strtoll : List ℕ → ℤ
strtoll cs = let n = decimal_loop cs 0 in ℤ.pos (if ltb i64_max n then i64_max else n)

-- The unary minus; a double changes its sign bit.
unfoldable pub negate : Token → Expr → Expr
negate minus (Expr.int_lit v loc) = Expr.int_lit (neg_ℤ v) (combine_loc minus.loc loc)
negate minus (Expr.double_lit v loc) =
    Expr.double_lit ((v + 2 ^ 63) % u64_mod) (combine_loc minus.loc loc)
negate minus child =
    Expr.binary_op BinaryOpKind.sub (Expr.int_lit (ℤ.pos 0) minus.loc) child
      (combine_loc minus.loc (expr_loc child))

-- A literal of one token.
abbrev one_token : (Token → Expr) → Parse Expr
one_token make = do tok ← consume; ret (make tok)

-- DATE or TIMESTAMP in front of a string.
unfoldable pub dated : (List ℕ → SourceLoc → Expr) → List ℕ → Parse Expr
dated make message = do
  tok ← consume
  str_tok ← word_of TokenKind.string_literal message
  ret (make str_tok.text (combine_loc tok.loc str_tok.loc))

-- IS NULL and IS NOT NULL, behind the expression that they test.
unfoldable pub null_test : Expr → Parse Expr
null_test tested = do
  _ ← consume
  is_not ← match TokenKind.kw_not
  null_tok ← word_of TokenKind.kw_null (text "expected NULL after IS")
  ret (
      Expr.null_check (if is_not then NullCheckKind.is_not_null else NullCheckKind.is_null) tested
        (combine_loc (expr_loc tested) null_tok.loc))

-- The functions that call each other, at the fuel that is left. `loop` is the `while` of
-- parse_binary_ and `args` that of parse_ident_or_call_.
pub record Calls : Type 0 where
  pub parse_binary : ℕ → Parse Expr
  pub loop : ℕ → Expr → Parse Expr
  pub parse_unary : Parse Expr
  pub args : Parse Exprs

-- `strtod` is the C library's, on bit patterns.
module _ (strtod : List ℕ → ℕ) (calls : Calls) where
  unfoldable pub parse_args : Parse (Exprs × Bool)
  parse_args = do
    star ← at_kind TokenKind.star
    closed ← at_kind TokenKind.rparen
    if star
        then (do _ ← consume; ret (Exprs.nil, true))
        else if closed
        then ret (Exprs.nil, false)
        else (do args ← calls.args; ret (args, false))

  unfoldable pub parse_ident_or_call : Parse Expr
  parse_ident_or_call = do
    ident ← consume
    dotted ← at_kind TokenKind.dot
    called ← at_kind TokenKind.lparen
    if dotted
        then (do
          _ ← consume
          col ← word_of TokenKind.identifier (text "expected identifier after '.'")
          ret (Expr.column_ref (some ident.text) col.text (combine_loc ident.loc col.loc)))
        else if called
        then (do
          _ ← consume
          (args, star) ← parse_args
          rparen ← word_of TokenKind.rparen (text "expected ')'")
          ret (Expr.func_call ident.text args star (combine_loc ident.loc rparen.loc)))
        else ret (Expr.column_ref none ident.text ident.loc)

  unfoldable pub parenthesised : Parse Expr
  parenthesised = do
    _ ← consume
    e ← calls.parse_binary 1
    _ ← expect TokenKind.rparen (text "expected ')'")
    ret e

  -- The `switch` of parse_primary_.
  unfoldable pub primary_of : Token → TokenKind → Parse Expr
  primary_of tok TokenKind.int_literal = one_token λ t. Expr.int_lit (strtoll t.text) t.loc
  primary_of tok TokenKind.double_literal = one_token λ t. Expr.double_lit (strtod t.text) t.loc
  primary_of tok TokenKind.string_literal = one_token λ t. Expr.string_lit t.text t.loc
  primary_of tok TokenKind.kw_null = one_token λ t. Expr.null_lit t.loc
  primary_of tok TokenKind.kw_true = one_token λ t. Expr.bool_lit true t.loc
  primary_of tok TokenKind.kw_false = one_token λ t. Expr.bool_lit false t.loc
  primary_of tok TokenKind.kw_date = dated Expr.date_lit (text "expected date string after DATE")
  primary_of tok TokenKind.kw_timestamp =
      dated Expr.timestamp_lit (text "expected timestamp string after TIMESTAMP")
  primary_of tok TokenKind.lparen = parenthesised
  primary_of tok TokenKind.identifier = parse_ident_or_call
  primary_of tok _ = fail_at (text "expected expression") tok

  unfoldable pub parse_primary : Parse Expr
  parse_primary = do tok ← peek 0; primary_of tok tok.kind

  unfoldable pub unary_step : Parse Expr
  unary_step = do
    tok ← peek 0
    if is_kind tok.kind TokenKind.minus
        then (do _ ← consume; child ← calls.parse_unary; ret (negate tok child))
        else if is_kind tok.kind TokenKind.plus
        then (do _ ← consume; calls.parse_unary)
        else parse_primary

  -- What stands in front of the loop of parse_binary_.
  unfoldable pub operand : ℕ → Parse Expr
  operand min_prec = do
    tok ← peek 0
    if leb min_prec 3 && is_kind tok.kind TokenKind.kw_not
        then (do
          not_tok ← consume
          r ← calls.parse_binary 3
          ret (Expr.not_op r (combine_loc not_tok.loc (expr_loc r))))
        else calls.parse_unary

  abbrev pub infix_step : ℕ → Expr → Option OpInfo → Parse Expr
  infix_step min_prec e none = ret e
  infix_step min_prec e (some info) = if ltb info.prec min_prec then ret e else (do
    _ ← consume
    right ← calls.parse_binary (info.prec + 1)
    calls.loop min_prec (combine info.op e right))

  unfoldable pub loop_step : ℕ → Expr → Parse Expr
  loop_step min_prec e = do
    tok ← peek 0
    if is_kind tok.kind TokenKind.kw_is && leb min_prec 4
        then (do e' ← null_test e; calls.loop min_prec e')
        else infix_step min_prec e (lookup_op tok.kind)

  unfoldable pub binary_step : ℕ → Parse Expr
  binary_step min_prec = do e ← operand min_prec; calls.loop min_prec e

  unfoldable pub args_step : Parse Exprs
  args_step = do
    a ← calls.parse_binary 1
    more ← match TokenKind.comma
    if more then (do as_ ← calls.args; ret (Exprs.cons a as_)) else ret (Exprs.cons a Exprs.nil)

module _ (strtod : List ℕ → ℕ) where
  unfoldable pub parser_calls : ℕ → Calls
  parser_calls zero = record {
    parse_binary = λ min_prec _. Outcome.unfinished;
    loop = λ min_prec e _. Outcome.unfinished;
    parse_unary = λ _. Outcome.unfinished;
    args = λ _. Outcome.unfinished;
  }
  parser_calls (suc fuel) =
      let calls = parser_calls fuel in
      record {
        parse_binary = binary_step strtod calls;
        loop = loop_step strtod calls;
        parse_unary = unary_step strtod calls;
        args = args_step strtod calls;
      }

  -- Each call two deeper stands behind a token more.
  unfoldable pub parse_expr : Parse Expr
  parse_expr p = (parser_calls (2 * left p + 2)).parse_binary 1 p

  unfoldable pub parse_expression : Parse Expr
  parse_expression = do
    r ← parse_expr
    ended ← at_kind TokenKind.end_of_file
    if ended then ret r else fail (text "unexpected token after expression")
