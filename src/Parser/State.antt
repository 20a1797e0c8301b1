-- ===== src/Parser/State.antt =====
-- src/parser/parser.h: the parser over its tokens, with peek_, consume_, match_ and err_msg_ of
-- src/parser/parser.cpp, and the ways a parse ends.
pub mod Reads
pub mod Tokens
pub mod Ends
use nyxdb.Base.{ℕ, zero, suc, ◌+◌, Bool, true, false, List, [], ◌∷◌, if◌then◌else◌, length}
use nyxdb.Base.Strings.{text}
use nyxdb.Parser.Token.{TokenKind, Token}
use nyxdb.Parser.Kind.{is_kind}
use nyxdb.Common.SourceError.{render_source_error}

-- The tokens from `pos_` on: the one at `pos_` and those behind it. The source never goes back,
-- and `tokens_` is not empty when `peek_` looks at it.
pub record Parser : Type 0 where
  pub source : List ℕ
  pub tok : Token
  pub rest : List Token

-- `thrown` is an exception of a library call, `undefined` an overflow of a signed integer or a
-- read outside an array; `unfinished` is the end of the fuel.
pub data Outcome {ℓ} (A : Type ℓ) : Type ℓ where
  done : A → Parser → Outcome A
  failed : List ℕ → Outcome A
  thrown : Outcome A
  undefined : Outcome A
  unfinished : Outcome A

abbrev pub Parse {ℓ} : Type ℓ → Type ℓ
Parse A = Parser → Outcome A

abbrev pub continue {ℓ κ} : {A : Type ℓ} {B : Type κ} → Outcome A → (A → Parse B) → Outcome B
continue (Outcome.done a rest) f = f a rest
continue (Outcome.failed message) f = Outcome.failed message
continue Outcome.thrown f = Outcome.thrown
continue Outcome.undefined f = Outcome.undefined
continue Outcome.unfinished f = Outcome.unfinished

infixl 5 ◌>>=◌ ◌>>◌
unfoldable pub ◌>>=◌ {ℓ κ} : {A : Type ℓ} {B : Type κ} → Parse A → (A → Parse B) → Parse B
◌>>=◌ m f p = continue (m p) f

abbrev pub ◌>>◌ {ℓ κ} : {A : Type ℓ} {B : Type κ} → Parse A → Parse B → Parse B
m >> n = m >>= λ _. n

unfoldable pub ret {ℓ} : {A : Type ℓ} → A → Parse A
ret a p = Outcome.done a p

-- The last token stands for all the positions behind it.
unfoldable pub token_at : Token → List Token → ℕ → Token
token_at t ts zero = t
token_at t [] (suc ahead) = t
token_at t (u ∷ ts) (suc ahead) = token_at u ts ahead

unfoldable pub peek : ℕ → Parse Token
peek ahead p = Outcome.done (token_at p.tok p.rest ahead) p

abbrev moved_on : Parser → List Token → Parser
moved_on p [] = p
moved_on p (t ∷ ts) = record p { tok = t; rest = ts }

unfoldable pub consume : Parse Token
consume p = Outcome.done p.tok (moved_on p p.rest)

-- The test `peek_().kind == kind`.
unfoldable pub at_kind : TokenKind → Parse Bool
at_kind kind p = Outcome.done (is_kind p.tok.kind kind) p

unfoldable pub match : TokenKind → Parse Bool
match kind = do here ← at_kind kind; if here then (do _ ← consume; ret true) else ret false

-- An error at a token: `err(err_msg_(msg, tok))`.
unfoldable pub fail_at {ℓ} : {A : Type ℓ} → List ℕ → Token → Parse A
fail_at message tok p =
    Outcome.failed (render_source_error p.source tok.loc (text "parse error") message)

-- The same at `peek_()`.
unfoldable pub fail {ℓ} : {A : Type ℓ} → List ℕ → Parse A
fail message p = fail_at message p.tok p

-- `if (!match_(kind)) return err(…)`.
unfoldable pub expect : TokenKind → List ℕ → Parse (Unit {0})
expect kind message = do here ← match kind; if here then ret tt else fail message

-- `if (peek_().kind != kind) return err(…)`, then the text of `consume_()`.
unfoldable pub word_of : TokenKind → List ℕ → Parse Token
word_of kind message = do here ← at_kind kind; if here then consume else fail message

-- The loops that read an element, and go on behind a comma. Each round takes a token, so that the
-- tokens left are rounds enough.
unfoldable pub commas_loop {ℓ} : {A : Type ℓ} → ℕ → Parse A → Parse (List A)
commas_loop zero item = λ _. Outcome.unfinished
commas_loop (suc fuel) item = do
  a ← item
  more ← match TokenKind.comma
  if more then (do as_ ← commas_loop fuel item; ret (a ∷ as_)) else ret (a ∷ [])

abbrev pub left : Parser → ℕ
left p = length p.rest

unfoldable pub commas {ℓ} : {A : Type ℓ} → Parse A → Parse (List A)
commas item p = commas_loop (suc (left p)) item p

-- A clause that a keyword opens, and what stands for it where it is missing.
unfoldable pub opened_by {ℓ} : {A : Type ℓ} → TokenKind → A → Parse A → Parse A
opened_by kind missing clause = do here ← match kind; if here then clause else ret missing
