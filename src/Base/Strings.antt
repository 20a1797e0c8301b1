-- ===== src/Base/Strings.antt =====
-- `std::string` as the list of its bytes, with its `==`.
use mathlib.Core.Path.{◌≡◌, refl}
use mathlib.Core.Bool.{Bool, true, false, ◌&&◌}
use mathlib.Core.List.{List, [], ◌∷◌}
use Prim.Native.Nat.{ℕ, zero, suc, ◌+◌, ◌/◌, ◌%◌}
use native.Mathlib.Omega.{arith}
use Prim.Native.Char.{code}
use Prim.Native.String.{String}
use nyxdb.Base.Tests.{◌==◌, ltb, if◌then◌else◌}

-- An ASCII literal.
abbrev pub text : String → List ℕ
text String.[] = []
text (String.◌∷◌ c cs) = code c ∷ text cs

abbrev pub is_empty {ℓ} : {A : Type ℓ} → List A → Bool
is_empty [] = true
is_empty (x ∷ xs) = false

unfoldable pub str_eq : List ℕ → List ℕ → Bool
str_eq [] [] = true
str_eq (x ∷ xs) (y ∷ ys) = x == y && str_eq xs ys
str_eq _ _ = false

pub str_eq_refl : (xs : List ℕ) → str_eq xs xs ≡ true
unfolding str_eq
str_eq_refl [] = refl
str_eq_refl (x ∷ xs) = ground (arith, str_eq_refl xs)

pub str_eq→eq : (xs ys : List ℕ) → str_eq xs ys ≡ true → xs ≡ ys
unfolding str_eq
str_eq→eq [] [] h = refl
str_eq→eq [] (y ∷ ys) h = cc
str_eq→eq (x ∷ xs) [] h = cc
str_eq→eq (x ∷ xs) (y ∷ ys) h = ground (arith, str_eq→eq xs ys)

-- `std::to_string` of an unsigned word: `fuel` digits are enough.
unfoldable pub digits_loop : ℕ → ℕ → List ℕ → List ℕ
digits_loop zero n more = more
digits_loop (suc fuel) n more =
    let head : List ℕ = (48 + n % 10) ∷ more in
    let longer = digits_loop fuel (n / 10) head in if ltb n 10 then head else longer

unfoldable pub to_string : ℕ → List ℕ
unfolding digits_loop
to_string n = digits_loop (suc n) n []
