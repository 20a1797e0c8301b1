-- ===== src/Executor/SelectionVector/ToBitmap.antt =====
-- `indices_to_bitmap` of src/executor/selection_vector.cpp, read back.
use nyxdb.Base.{
  ℕ, zero, suc, ◌+◌, ◌*◌, ◌/◌, ◌%◌, ◌^◌, ◌≤◌, ◌<◌, ◌≡◌, refl, sym, ap, subst, ◌∙◌, List, [], ◌∷◌,
  ◌++◌, arith, length, get_or, set, replicate, All, All-set, All-get_or, length-set,
  length-replicate,
}
use mathlib.Core.List.{append-nil, append_assoc}
use Prim.Native.Nat.{bit_or}
use nyxdb.Base.Words.{u32_mod}
use nyxdb.Executor.SelectionVector.{byte_rows, rows_of_bitmap, set_bits, indices_to_bitmap}
use nyxdb.Executor.SelectionVector.Bits.{bits, bits-bit_or, bit_or-lt_pow, bit_or-lt, pow-lt}
use nyxdb.Executor.SelectionVector.Cut.{IsByte}
use nyxdb.Executor.SelectionVector.ToRanges.{IsRow}

-- Every row of the bitmap is below row `q * 8 + r`.
abbrev AllZero : List ℕ → Type 0
AllZero [] = Unit {0}
AllZero (b ∷ bs) = (b ≡ 0) × AllZero bs

abbrev Below : List ℕ → ℕ → ℕ → Type 0
Below [] q r = Unit {0}
Below (b ∷ bs) zero r = (b < 2 ^ r) × AllZero bs
Below (b ∷ bs) (suc q) r = (b < 256) × Below bs q r

AllZero-Below : (bs : List ℕ) (q r : ℕ) → r < 8 → AllZero bs → Below bs q r
AllZero-Below [] q r h z = tt
AllZero-Below (b ∷ bs) zero r h (z, zs) = (omega (arith, (pow-lt r h).1), zs)
AllZero-Below (b ∷ bs) (suc q) r h (z, zs) = (omega arith, AllZero-Below bs q r h zs)

abbrev set_bit : List ℕ → ℕ → ℕ → List ℕ
set_bit bm q r = set bm q (bit_or (get_or bm q 0) (2 ^ r))

set_bit-Below :
    (bm : List ℕ) (q r q' r' : ℕ)
    → r < 8
    → r' < 8
    → Below bm q r
    → q * 8 + r < q' * 8 + r'
    → Below (set_bit bm q r) q' r'
set_bit-Below [] q r q' r' hr hr' b l = tt
set_bit-Below (b ∷ bs) zero r zero r' hr hr' (h, z) l =
    (bit_or-lt_pow r r' b (omega arith) hr' h, z)
set_bit-Below (b ∷ bs) zero r (suc q') r' hr hr' (h, z) l =
    (bit_or-lt r b hr (omega (arith, (pow-lt r hr).0)), AllZero-Below bs q' r' hr' z)
set_bit-Below (b ∷ bs) (suc q) r zero r' hr hr' (h, z) l = absurd (omega arith)
set_bit-Below (b ∷ bs) (suc q) r (suc q') r' hr hr' (h, z) l =
    (h, set_bit-Below bs q r q' r' hr hr' z (omega arith))

bits_zero : bits 0 ≡ []
unfolding bits
bits_zero = refl

AllZero-rows : (j : ℕ) (bs : List ℕ) → AllZero bs → rows_of_bitmap j bs ≡ []
unfolding rows_of_bitmap
AllZero-rows j [] z = refl
AllZero-rows j (b ∷ bs) (z, zs) = rw (z, bits_zero) (AllZero-rows (j + 1) bs zs)

byte_rows-append :
    (j : ℕ) (xs ys : List ℕ) → byte_rows j (xs ++ ys) ≡ byte_rows j xs ++ byte_rows j ys
unfolding byte_rows
byte_rows-append j [] ys = refl
byte_rows-append j (x ∷ xs) ys = ap (λ z. (j * 8 + x) % u32_mod ∷ z) (byte_rows-append j xs ys)

set_bit-rows :
    (j : ℕ) (bm : List ℕ) (q r : ℕ)
    → r < 8
    → q < length bm
    → Below bm q r
    → rows_of_bitmap j (set_bit bm q r) ≡ rows_of_bitmap j bm ++ (((j + q) * 8 + r) % u32_mod) ∷ []
unfolding rows_of_bitmap byte_rows
set_bit-rows j [] q r hr hq b = absurd (omega arith)
set_bit-rows j (b ∷ bs) zero r hr hq (h, z) =
    let rows : List ℕ = byte_rows j (bits b) in
    let e : j * 8 + r ≡ (j + 0) * 8 + r = omega arith in
    rw (bits-bit_or r b hr h, AllZero-rows (j + 1) bs z)
      (append-nil (byte_rows j (bits b ++ r ∷ []))
        ∙ (byte_rows-append j (bits b) (r ∷ [])
            ∙ (ap (λ k. rows ++ (k % u32_mod) ∷ []) e
                ∙ ap (λ x. x ++ (((j + 0) * 8 + r) % u32_mod) ∷ []) (sym (append-nil rows)))))
set_bit-rows j (b ∷ bs) (suc q) r hr hq (h, z) =
    let rows : List ℕ = byte_rows j (bits b) in
    let e : (j + 1 + q) * 8 + r ≡ (j + suc q) * 8 + r = omega arith in
    ap (λ x. rows ++ x) (set_bit-rows (j + 1) bs q r hr (omega arith) z)
    ∙ (sym (append_assoc rows (rows_of_bitmap (j + 1) bs) _)
        ∙ ap (λ k. (rows ++ rows_of_bitmap (j + 1) bs) ++ (k % u32_mod) ∷ []) e)

-- In ascending order, each above the one before.
abbrev pub Above : ℕ → List ℕ → Type 0
Above x [] = Unit {0}
Above x (y ∷ ys) = (x < y) × Above y ys

abbrev pub IsAscending : List ℕ → Type 0
IsAscending [] = Unit {0}
IsAscending (x ∷ xs) = Above x xs

set_bit_at : (bm : List ℕ) (x : ℕ) → List ℕ
set_bit_at bm x = set_bit bm (x / 8) (x % 8)

set_bit_at-rows :
    (bm : List ℕ) (x : ℕ)
    → x < 8 * length bm
    → x < u32_mod
    → Below bm (x / 8) (x % 8)
    → rows_of_bitmap 0 (set_bit_at bm x) ≡ rows_of_bitmap 0 bm ++ x ∷ []
unfolding set_bit_at
set_bit_at-rows bm x h m b =
    let e : ((0 + x / 8) * 8 + x % 8) % u32_mod ≡ x = omega arith in
    set_bit-rows 0 bm (x / 8) (x % 8) (omega arith) (omega arith) b
    ∙ ap (λ k. rows_of_bitmap 0 bm ++ k ∷ []) e

set_bits-rows :
    (bm : List ℕ) (x : ℕ) (xs : List ℕ)
    → Above x xs
    → Below bm (x / 8) (x % 8)
    → All (λ i. i < 8 * length bm) (x ∷ xs)
    → All IsRow (x ∷ xs)
    → rows_of_bitmap 0 (set_bits bm (x ∷ xs)) ≡ rows_of_bitmap 0 bm ++ x ∷ xs
unfolding set_bits set_bit_at
set_bits-rows bm x [] h b (l, _) (m, _) = set_bit_at-rows bm x l m b
set_bits-rows bm x (y ∷ ys) (h, hs) b (l, ls) (m, ms) =
    let bm' : List ℕ = set_bit bm (x / 8) (x % 8) in
    let n : length bm' ≡ length bm = length-set bm (x / 8) _ in
    let b' : Below bm' (y / 8) (y % 8) =
      set_bit-Below bm (x / 8) (x % 8) (y / 8) (y % 8) (omega arith) (omega arith) b
        (omega arith) in
    set_bits-rows bm' y ys hs b' (subst (λ k. All (λ i. i < 8 * k) (y ∷ ys)) (sym n) ls) ms
    ∙ (ap (λ z. z ++ y ∷ ys) (set_bit_at-rows bm x l m b)
        ∙ append_assoc (rows_of_bitmap 0 bm) (x ∷ []) (y ∷ ys))

set_bits-IsByte : (bm xs : List ℕ) → All IsByte bm → All IsByte (set_bits bm xs)
unfolding set_bits
set_bits-IsByte bm [] h = h
set_bits-IsByte bm (x ∷ xs) h = set_bits-IsByte (set_bit bm (x / 8) (x % 8)) xs (
    All-set IsByte bm (x / 8) _ h (
      bit_or-lt (x % 8) (get_or bm (x / 8) 0) (omega arith)
        (All-get_or IsByte bm (x / 8) 0 h (omega arith))))

AllZero-replicate : (n : ℕ) → AllZero (replicate n 0)
AllZero-replicate zero = tt
AllZero-replicate (suc n) = (refl, AllZero-replicate n)

IsByte-replicate : (n : ℕ) → All IsByte (replicate n 0)
IsByte-replicate zero = tt
IsByte-replicate (suc n) = (omega arith, IsByte-replicate n)

pub indices_to_bitmap-IsByte :
    (xs : List ℕ) (row_count : ℕ) → All IsByte (indices_to_bitmap xs row_count)
unfolding indices_to_bitmap
indices_to_bitmap-IsByte xs row_count = set_bits-IsByte _ xs (IsByte-replicate _)

pub All-lt : (n m : ℕ) (xs : List ℕ) → n ≤ m → All (λ i. i < n) xs → All (λ i. i < m) xs
All-lt n m [] h f = tt
All-lt n m (x ∷ xs) h (f, fs) = (omega arith, All-lt n m xs h fs)

pub indices_to_bitmap-rows :
    (xs : List ℕ) (row_count : ℕ)
    → row_count + 7 < u32_mod
    → IsAscending xs
    → All (λ i. i < row_count) xs
    → rows_of_bitmap 0 (indices_to_bitmap xs row_count) ≡ xs
unfolding indices_to_bitmap
indices_to_bitmap-rows [] row_count h a f = AllZero-rows 0 _ (AllZero-replicate _)
indices_to_bitmap-rows (x ∷ xs) row_count h a f =
    let n : ℕ = (row_count + 7) % u32_mod / 8 in
    let bm : List ℕ = replicate n 0 in
    let l : length bm ≡ n = length-replicate n 0 in
    let z : AllZero bm = AllZero-replicate n in
    set_bits-rows bm x xs a (AllZero-Below bm (x / 8) (x % 8) (omega arith) z)
      (All-lt row_count (8 * length bm) (x ∷ xs) (omega (arith, l)) f)
      (All-lt row_count u32_mod (x ∷ xs) (omega arith) f)
    ∙ ap (λ r. r ++ x ∷ xs) (AllZero-rows 0 bm z)
