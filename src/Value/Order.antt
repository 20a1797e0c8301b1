-- ===== src/Value/Order.antt =====
-- The three-way comparison of src/storage/disk/shard_map_file.cpp over a strict order.
use Prim.Native.Nat.{Ordering}
use nyxdb.Base.{
  ℕ, ◌≡◌, refl, ◌⊎◌, inl, inr, Bool, true, false, List, [], ◌∷◌, arith, ltb, if◌then◌else◌,
}
use nyxdb.Base.Int.{ltb_ℤ}

-- `cmp_val`: -1, 1 and 0 are `Ordering.lt`, `Ordering.gt` and `Ordering.eq`.
unfoldable pub cmp_val {ℓ} : {A : Type ℓ} → (A → A → Bool) → A → A → Ordering
cmp_val lt a b = if lt a b then Ordering.lt else if lt b a then Ordering.gt else Ordering.eq

-- What a comparison by `<` relies on, for the values in `P`: no two are below one another, and
-- of two that are apart a third value is above the one or below the other.
pub record StrictWeak {ℓ} {A : Type ℓ} (P : A → Type 0) (lt : A → A → Bool) : Type ℓ where
  pub asymm : (a b : A) → lt a b ≡ true → lt b a ≡ false
  pub cotrans : (a b c : A) → P b → lt a c ≡ true → (lt a b ≡ true) ⊎ (lt b c ≡ true)

abbrev pub Any {ℓ} : {A : Type ℓ} → A → Type 0
Any a = Unit {0}

pub ltb_ℤ-StrictWeak : StrictWeak Any ltb_ℤ
ltb_ℤ-StrictWeak = record { asymm = λ a b h. ground arith; cotrans = λ a b c p h. ground arith }

unfoldable pub bool_lt : Bool → Bool → Bool
bool_lt false true = true
bool_lt _ _ = false

-- `std::string::operator<`: bytes compared in order, a proper prefix below.
unfoldable pub bytes_lt : List ℕ → List ℕ → Bool
bytes_lt xs [] = false
bytes_lt [] (y ∷ ys) = true
bytes_lt (x ∷ xs) (y ∷ ys) = if ltb x y then true else if ltb y x then false else bytes_lt xs ys

pub bool_lt-StrictWeak : StrictWeak Any bool_lt
unfolding bool_lt
bool_lt-StrictWeak = record { asymm = λ a b h. ground arith; cotrans = λ a b c p h. ground arith }

bytes_lt_asymm : (xs ys : List ℕ) → bytes_lt xs ys ≡ true → bytes_lt ys xs ≡ false
unfolding bytes_lt
bytes_lt_asymm [] [] h = refl
bytes_lt_asymm [] (y ∷ ys) h = refl
bytes_lt_asymm (x ∷ xs) [] h = cc
bytes_lt_asymm (x ∷ xs) (y ∷ ys) h = ground (arith, bytes_lt_asymm xs ys)

bytes_lt_cotrans :
    (xs ys zs : List ℕ) → bytes_lt xs zs ≡ true → (bytes_lt xs ys ≡ true) ⊎ (bytes_lt ys zs ≡ true)
unfolding bytes_lt
bytes_lt_cotrans xs [] [] h = inl h
bytes_lt_cotrans [] [] (z ∷ zs) h = inr refl
bytes_lt_cotrans (x ∷ xs) [] (z ∷ zs) h = inr refl
bytes_lt_cotrans [] (y ∷ ys) zs h = inl refl
bytes_lt_cotrans (x ∷ xs) (y ∷ ys) [] h = cc
bytes_lt_cotrans (x ∷ xs) (y ∷ ys) (z ∷ zs) h = ground (arith, bytes_lt_cotrans xs ys zs)

pub bytes_lt-StrictWeak : StrictWeak Any bytes_lt
bytes_lt-StrictWeak = record {
  asymm = bytes_lt_asymm;
  cotrans = λ xs ys zs p. bytes_lt_cotrans xs ys zs;
}
