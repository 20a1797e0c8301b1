-- ===== src/Executor/SelectionVector/Bits.antt =====
-- The set bits of a byte, as the loops of src/executor/selection_vector.h and selection_vector.cpp
-- take them, checked over all 256 bytes.
use Prim.Native.Nat.{bit_or, bit_and}
use nyxdb.Base.{
  ℕ, zero, suc, ◌+◌, ◌-◌, ◌/◌, ◌%◌, ◌^◌, ◌<◌, ◌≤◌, ◌≡◌, refl, Bool, true, List, [], ◌∷◌, ◌++◌, ◌==◌,
  ◌&&◌, arith, ltb, if◌then◌else◌, length, take, ==_iff,
}
use nyxdb.Base.Strings.{str_eq, str_eq→eq}

-- `__builtin_ctz` and `__builtin_popcount` of a byte.
unfoldable pub ctz_loop : ℕ → ℕ → ℕ
ctz_loop zero b = 0
ctz_loop (suc n) b = let more = ctz_loop n (b / 2) in if b % 2 == 1 then 0 else 1 + more

unfoldable pub popcount_loop : ℕ → ℕ → ℕ
popcount_loop zero b = 0
popcount_loop (suc n) b = b % 2 + popcount_loop n (b / 2)

unfoldable pub popcount : ℕ → ℕ
unfolding popcount_loop
popcount b = popcount_loop 8 b

-- `while (b)`: a byte has at most eight set bits, and each round clears the lowest.
unfoldable pub bits_loop : ℕ → ℕ → List ℕ
unfolding ctz_loop
bits_loop zero b = []
bits_loop (suc n) b =
    let rest = bits_loop n (bit_and b (b - 1)) in if b == 0 then [] else ctz_loop 8 b ∷ rest

unfoldable pub bits : ℕ → List ℕ
unfolding bits_loop
bits b = bits_loop 8 b

-- `while (cur && taken < need)`: the byte of the lowest `need` set bits.
unfoldable pub keep_loop : ℕ → ℕ → ℕ → ℕ → ℕ → ℕ
unfolding ctz_loop
keep_loop zero cur taken need kept_bits = kept_bits
keep_loop (suc n) cur taken need kept_bits =
    let rest =
      keep_loop n (bit_and cur (cur - 1)) (taken + 1) need
        (bit_or kept_bits (2 ^ ctz_loop 8 cur)) in
    if cur == 0 then kept_bits else if ltb taken need then rest else kept_bits

unfoldable pub keep_bits : ℕ → ℕ → ℕ
unfolding keep_loop
keep_bits b need = keep_loop 8 b 0 need 0

-- A test passed by every number under a bound, and what a table of it tells of one number.
tabulated : (ℕ → Bool) → ℕ → Bool
tabulated test zero = true
tabulated test (suc last) = tabulated test last && test last

tabulated_at :
    (test : ℕ → Bool) (bound : ℕ)
    → tabulated test bound ≡ true
    → (i : ℕ) → i < bound
    → test i ≡ true
unfolding tabulated
tabulated_at test zero passed i below = absurd (omega arith)
tabulated_at test (suc last) passed i below =
    ground (arith, tabulated_at test last (ground arith) i)

popcount_table : tabulated (λ b. length (bits b) == popcount b) 256 ≡ true
unfolding tabulated bits popcount
popcount_table = refl

pub length-bits : (b : ℕ) → b < 256 → length (bits b) ≡ popcount b
length-bits b h = (==_iff _ _).0 (tabulated_at _ 256 popcount_table b h)

kept_row : ℕ → ℕ → Bool
kept_row b k = ltb (keep_bits b k) 256 && str_eq (bits (keep_bits b k)) (take k (bits b))

keep_table : tabulated (λ b. tabulated (kept_row b) 8) 256 ≡ true
unfolding tabulated kept_row bits keep_bits str_eq
keep_table = refl

pub bits-keep_bits :
    (b k : ℕ) → b < 256 → k < 8 → (keep_bits b k < 256) × (bits (keep_bits b k) ≡ take k (bits b))
unfolding kept_row
bits-keep_bits b k hb hk =
    let row : tabulated (kept_row b) 8 ≡ true = tabulated_at _ 256 keep_table b hb in
    let e : kept_row b k ≡ true = tabulated_at (kept_row b) 8 row k hk in
    ground (arith, str_eq→eq (bits (keep_bits b k)) (take k (bits b)))

popcount_bound : tabulated (λ b. ltb (popcount b) 9) 256 ≡ true
unfolding tabulated popcount
popcount_bound = refl

pub popcount-le : (b : ℕ) → b < 256 → popcount b ≤ 8
popcount-le b h = let e = tabulated_at _ 256 popcount_bound b h in ground arith

-- A bit set above all others is the last of the byte.
set_row : ℕ → ℕ → Bool
set_row r b = if ltb b (2 ^ r) then str_eq (bits (bit_or b (2 ^ r))) (bits b ++ r ∷ []) else true

set_table : tabulated (λ r. tabulated (set_row r) 256) 8 ≡ true
unfolding tabulated set_row bits str_eq
set_table = refl

pow_bound : tabulated (λ r. ltb (2 ^ r) 256 && ltb 0 (2 ^ r)) 8 ≡ true
unfolding tabulated
pow_bound = refl

pub pow-lt : (r : ℕ) → r < 8 → (2 ^ r < 256) × (0 < 2 ^ r)
pow-lt r h = let e = tabulated_at _ 8 pow_bound r h in ground arith

pub bits-bit_or : (r b : ℕ) → r < 8 → b < 2 ^ r → bits (bit_or b (2 ^ r)) ≡ bits b ++ r ∷ []
unfolding set_row
bits-bit_or r b hr hb =
    let (p, _) = pow-lt r hr in
    let row : tabulated (set_row r) 256 ≡ true = tabulated_at _ 8 set_table r hr in
    let e : set_row r b ≡ true = tabulated_at (set_row r) 256 row b (omega arith) in
    ground (arith, str_eq→eq (bits (bit_or b (2 ^ r))) (bits b ++ r ∷ []))

bound_row : ℕ → ℕ → ℕ → Bool
bound_row r t b =
    if ltb r t then if ltb b (2 ^ r) then ltb (bit_or b (2 ^ r)) (2 ^ t) else true else true

bound_table : tabulated (λ r. tabulated (λ t. tabulated (bound_row r t) 256) 8) 8 ≡ true
unfolding tabulated bound_row
bound_table = refl

pub bit_or-lt_pow : (r t b : ℕ) → r < t → t < 8 → b < 2 ^ r → bit_or b (2 ^ r) < 2 ^ t
unfolding bound_row
bit_or-lt_pow r t b hr ht hb =
    let (p, _) = pow-lt r (omega arith) in
    let outer = tabulated_at _ 8 bound_table r (omega arith) in
    let inner = tabulated_at _ 8 outer t ht in
    let e : bound_row r t b ≡ true = tabulated_at (bound_row r t) 256 inner b (omega arith) in
    ground arith

byte_row : ℕ → ℕ → Bool
byte_row r b = ltb (bit_or b (2 ^ r)) 256

byte_table : tabulated (λ r. tabulated (byte_row r) 256) 8 ≡ true
unfolding tabulated byte_row
byte_table = refl

pub bit_or-lt : (r b : ℕ) → r < 8 → b < 256 → bit_or b (2 ^ r) < 256
unfolding byte_row
bit_or-lt r b hr hb =
    let row = tabulated_at _ 8 byte_table r hr in
    let e : byte_row r b ≡ true = tabulated_at (byte_row r) 256 row b hb in ground arith
