-- ===== src/Common/Result.antt =====
-- src/common/result.h: a value or a message.
use nyxdb.Base.{ℕ, List}

pub data Result {ℓ} (A : Type ℓ) : Type ℓ where
  ok : A → Result A
  err : List ℕ → Result A

-- The value passed on, or the error returned.
infixl 5 ◌>>=◌
abbrev pub ◌>>=◌ {ℓ κ} : {A : Type ℓ} {B : Type κ} → Result A → (A → Result B) → Result B
Result.ok a >>= f = f a
Result.err m >>= f = Result.err m
