-- ===== src/Parser/Expr/Signs.antt =====
-- The table of operators of src/parser/parser.cpp against the signs and precedences of the grammar.
use nyxdb.Base.{◌≡◌, refl, sym, ◌∙◌, some}
use nyxdb.Shard.Defs.{BinaryOpKind}
use nyxdb.Parser.Token.{TokenKind}
use nyxdb.Parser.Ast.{LogicalOpKind}
use nyxdb.Parser.Expr.{Operator, OpInfo, lookup_op}
use nyxdb.Parser.Expr.Grammar.{Infix, sign_of, level_of}

some_injective : (a b : OpInfo) → some a ≡ some b → a ≡ b
some_injective a b e = cc

Infix-some : (k : TokenKind) (a info : OpInfo) → some a ≡ some info → Infix k a → Infix k info
Infix-some k a info e h = rw (sym (some_injective a info e)) h

pub Infix-lookup_op : (k : TokenKind) (info : OpInfo) → lookup_op k ≡ some info → Infix k info
unfolding lookup_op
Infix-lookup_op TokenKind.kw_or info h = Infix-some _ _ info h (refl, refl)
Infix-lookup_op TokenKind.kw_and info h = Infix-some _ _ info h (refl, refl)
Infix-lookup_op TokenKind.lt info h = Infix-some _ _ info h (refl, refl)
Infix-lookup_op TokenKind.le info h = Infix-some _ _ info h (refl, refl)
Infix-lookup_op TokenKind.eq info h = Infix-some _ _ info h (refl, refl)
Infix-lookup_op TokenKind.ne info h = Infix-some _ _ info h (refl, refl)
Infix-lookup_op TokenKind.ge info h = Infix-some _ _ info h (refl, refl)
Infix-lookup_op TokenKind.gt info h = Infix-some _ _ info h (refl, refl)
Infix-lookup_op TokenKind.plus info h = Infix-some _ _ info h (refl, refl)
Infix-lookup_op TokenKind.minus info h = Infix-some _ _ info h (refl, refl)
Infix-lookup_op TokenKind.star info h = Infix-some _ _ info h (refl, refl)
Infix-lookup_op TokenKind.slash info h = Infix-some _ _ info h (refl, refl)
Infix-lookup_op _ info h = absurd (cc h)

lookup_op-sign_of :
    (op : Operator) → lookup_op (sign_of op) ≡ some (record { prec = level_of op; op = op })
unfolding lookup_op
lookup_op-sign_of (Operator.logical LogicalOpKind.or) = refl
lookup_op-sign_of (Operator.logical LogicalOpKind.and) = refl
lookup_op-sign_of (Operator.binary BinaryOpKind.eq) = refl
lookup_op-sign_of (Operator.binary BinaryOpKind.ne) = refl
lookup_op-sign_of (Operator.binary BinaryOpKind.lt) = refl
lookup_op-sign_of (Operator.binary BinaryOpKind.le) = refl
lookup_op-sign_of (Operator.binary BinaryOpKind.gt) = refl
lookup_op-sign_of (Operator.binary BinaryOpKind.ge) = refl
lookup_op-sign_of (Operator.binary BinaryOpKind.add) = refl
lookup_op-sign_of (Operator.binary BinaryOpKind.sub) = refl
lookup_op-sign_of (Operator.binary BinaryOpKind.mul) = refl
lookup_op-sign_of (Operator.binary BinaryOpKind.div) = refl

pub lookup_op-Infix : (k : TokenKind) (info : OpInfo) → Infix k info → lookup_op k ≡ some info
lookup_op-Infix k info (sign, level) = rw sign (lookup_op-sign_of info.op ∙ rw level refl)
