-- ===== src/Executor/SelectionVector/Cut.antt =====
-- `truncate` and `drop_prefix` of src/executor/selection_vector.cpp cut the list of the rows.
use nyxdb.Base.{
  ℕ, zero, suc, ◌+◌, ◌-◌, ◌*◌, ◌%◌, ◌≤◌, ◌<◌, ◌≡◌, refl, sym, ap, ◌∙◌, List, [], ◌∷◌, ◌++◌, arith,
  leb, length, take, drop, All, Bool-cases, inl, inr, take-append_le, take-append_ge,
  drop-append_le, drop-append_ge, take-nil, drop-nil,
}
use mathlib.Core.List.{append-nil}
use nyxdb.Base.Words.{u32_mod}
use nyxdb.Executor.SelectionVector.{
  range_rows, rows_of_ranges, byte_rows, rows_of_bitmap, zeros, truncate_bitmap, truncate_ranges,
  rows_from, drop_ranges,
}
use nyxdb.Executor.SelectionVector.Bits.{bits, popcount, length-bits, bits-keep_bits, popcount-le}

pub length-range_rows : (s n i : ℕ) → length (range_rows s n i) ≡ n
unfolding range_rows
length-range_rows s zero i = refl
length-range_rows s (suc n) i = ap suc (length-range_rows s n (i + 1))

take-range_rows : (k s n i : ℕ) → k ≤ n → take k (range_rows s n i) ≡ range_rows s k i
unfolding range_rows
take-range_rows zero s n i h = refl
take-range_rows (suc k) s zero i h = absurd (omega arith)
take-range_rows (suc k) s (suc n) i h =
    ap (λ x. (s + i) % u32_mod ∷ x) (take-range_rows k s n (i + 1) (omega arith))

pub range_rows_shift :
    (k s n i j : ℕ) → j ≡ i + k → range_rows ((s + k) % u32_mod) n i ≡ range_rows s n j
unfolding range_rows
range_rows_shift k s zero i j e = refl
range_rows_shift k s (suc n) i j e =
    ground (arith, range_rows_shift k s n (i + 1) (j + 1) (omega arith))

drop-range_rows : (k s n i : ℕ) → k ≤ n → drop k (range_rows s n i) ≡ range_rows s (n - k) (i + k)
unfolding range_rows
drop-range_rows zero s n i h = ground arith
drop-range_rows (suc k) s zero i h = absurd (omega arith)
drop-range_rows (suc k) s (suc n) i h = ground (arith, drop-range_rows k s n (i + 1) (omega arith))

-- Ranges whose lengths are 32-bit words.
abbrev pub RangeFits : ℕ × ℕ → Type 0
RangeFits (start, len) = len < u32_mod

pub truncate_ranges-take :
    (k c : ℕ) (rs : List (ℕ × ℕ))
    → c ≤ k
    → All RangeFits rs
    → rows_of_ranges (truncate_ranges k c rs) ≡ take (k - c) (rows_of_ranges rs)
unfolding rows_of_ranges truncate_ranges
truncate_ranges-take k c [] h f = sym (take-nil (k - c))
truncate_ranges-take k c ((s, n) ∷ rs) h (f, fs) =
    let rows : List ℕ = range_rows s n 0 in
    let l : length rows ≡ n = length-range_rows s n 0 in
    elim (Bool-cases (leb (c + n) k)) [
      | inl t ↦
          let e : k - c - length rows ≡ k - (c + n) = omega (arith, l) in
          let le : c + n ≤ k = ground arith in
          rw t (
            ap (λ x. rows ++ x) (truncate_ranges-take k (c + n) rs le fs)
            ∙ (ap (λ m. rows ++ take m (rows_of_ranges rs)) (sym e)
                ∙ sym (take-append_ge (k - c) rows (rows_of_ranges rs) (omega (arith, l)))))
      | inr t ↦
          let lt : k < c + n = ground arith in
          let e : (k - c) % u32_mod ≡ k - c = omega arith in
          rw (t, e)
            (append-nil (range_rows s (k - c) 0)
              ∙ (sym (take-range_rows (k - c) s n 0 (omega arith))
                  ∙ sym (take-append_le (k - c) rows (rows_of_ranges rs) (omega (arith, l)))))
    ]

pub drop_ranges-drop :
    (n : ℕ) (rs : List (ℕ × ℕ))
    → All RangeFits rs
    → rows_of_ranges (drop_ranges n rs) ≡ drop n (rows_of_ranges rs)
unfolding rows_of_ranges drop_ranges
drop_ranges-drop n [] f = sym (drop-nil n)
drop_ranges-drop n ((s, len) ∷ rs) (f, fs) =
    let rows : List ℕ = range_rows s len 0 in
    let l : length rows ≡ len = length-range_rows s len 0 in
    elim (Bool-cases (leb len n)) [
      | inl t ↦
          let e : n - length rows ≡ n - len = omega (arith, l) in
          let le : len ≤ n = ground arith in
          rw t (
            drop_ranges-drop (n - len) rs fs
            ∙ (ap (λ m. drop m (rows_of_ranges rs)) (sym e)
                ∙ sym (drop-append_ge n rows (rows_of_ranges rs) (omega (arith, l)))))
      | inr t ↦
          let lt : n < len = ground arith in
          let e : (len + u32_mod - n % u32_mod) % u32_mod ≡ len - n = omega arith in
          rw (t, e)
            (ap (λ x. x ++ rows_of_ranges rs)
                (range_rows_shift n s (len - n) 0 (0 + n) refl
                  ∙ sym (drop-range_rows n s len 0 (omega arith)))
              ∙ sym (drop-append_le n rows (rows_of_ranges rs) (omega (arith, l))))
    ]

length-byte_rows : (j : ℕ) (bs : List ℕ) → length (byte_rows j bs) ≡ length bs
unfolding byte_rows
length-byte_rows j [] = refl
length-byte_rows j (b ∷ bs) = ap suc (length-byte_rows j bs)

byte_rows-take : (j k : ℕ) (bs : List ℕ) → byte_rows j (take k bs) ≡ take k (byte_rows j bs)
unfolding byte_rows
byte_rows-take j zero bs = refl
byte_rows-take j (suc k) [] = refl
byte_rows-take j (suc k) (b ∷ bs) = ap (λ x. (j * 8 + b) % u32_mod ∷ x) (byte_rows-take j k bs)

rows_of_bitmap-zeros : (j : ℕ) (bs : List ℕ) → rows_of_bitmap j (zeros bs) ≡ []
unfolding rows_of_bitmap zeros bits
rows_of_bitmap-zeros j [] = refl
rows_of_bitmap-zeros j (b ∷ bs) = rows_of_bitmap-zeros (j + 1) bs

abbrev pub IsByte : ℕ → Type 0
IsByte b = b < 256

length_of_byte : (j b : ℕ) → IsByte b → length (byte_rows j (bits b)) ≡ popcount b
length_of_byte j b h = length-byte_rows j (bits b) ∙ length-bits b h

pub truncate_bitmap-take :
    (k c j : ℕ) (bs : List ℕ)
    → c ≤ k
    → All IsByte bs
    → rows_of_bitmap j (truncate_bitmap k c bs) ≡ take (k - c) (rows_of_bitmap j bs)
unfolding truncate_bitmap rows_of_bitmap
truncate_bitmap-take k c j [] h f = sym (take-nil (k - c))
truncate_bitmap-take k c j (b ∷ bs) h (f, fs) =
    let rows : List ℕ = byte_rows j (bits b) in
    let later : List ℕ = rows_of_bitmap (j + 1) bs in
    let l : length rows ≡ popcount b = length_of_byte j b f in
    elim (Bool-cases (leb (c + popcount b) k)) [
      | inl t ↦
          let e : k - c - length rows ≡ k - (c + popcount b) = omega (arith, l) in
          let le : c + popcount b ≤ k = ground arith in
          rw t (
            ap (λ x. rows ++ x) (truncate_bitmap-take k (c + popcount b) (j + 1) bs le fs)
            ∙ (ap (λ m. rows ++ take m later) (sym e)
                ∙ sym (take-append_ge (k - c) rows later (omega (arith, l)))))
      | inr t ↦
          let lt : k < c + popcount b = ground arith in
          let (_, e) = bits-keep_bits b (k - c) f (omega (arith, popcount-le b f)) in
          rw (t, e, rows_of_bitmap-zeros (j + 1) bs)
            (append-nil (byte_rows j (take (k - c) (bits b)))
              ∙ (byte_rows-take j (k - c) (bits b)
                  ∙ sym (take-append_le (k - c) rows later (omega (arith, l)))))
    ]

All-zeros : (bs : List ℕ) → All IsByte (zeros bs)
unfolding zeros
All-zeros [] = tt
All-zeros (b ∷ bs) = (omega arith, All-zeros bs)

pub truncate_bitmap-IsByte :
    (k c : ℕ) (bs : List ℕ) → c ≤ k → All IsByte bs → All IsByte (truncate_bitmap k c bs)
unfolding truncate_bitmap
truncate_bitmap-IsByte k c [] h f = tt
truncate_bitmap-IsByte k c (b ∷ bs) h (f, fs) = elim (Bool-cases (leb (c + popcount b) k)) [
  | inl t ↦
      let le : c + popcount b ≤ k = ground arith in
      rw t (f, truncate_bitmap-IsByte k (c + popcount b) bs le fs)
  | inr t ↦
      let lt : k < c + popcount b = ground arith in
      let kept = bits-keep_bits b (k - c) f (omega (arith, popcount-le b f)) in
      rw t (kept.0, All-zeros bs)
]

pub truncate_ranges-RangeFits :
    (k c : ℕ) (rs : List (ℕ × ℕ)) → All RangeFits rs → All RangeFits (truncate_ranges k c rs)
unfolding truncate_ranges
truncate_ranges-RangeFits k c [] f = tt
truncate_ranges-RangeFits k c ((s, n) ∷ rs) (f, fs) = elim (Bool-cases (leb (c + n) k)) [
  | inl t ↦ rw t (f, truncate_ranges-RangeFits k (c + n) rs fs)
  | inr t ↦ rw t (omega arith, tt)
]

pub drop_ranges-RangeFits :
    (n : ℕ) (rs : List (ℕ × ℕ)) → All RangeFits rs → All RangeFits (drop_ranges n rs)
unfolding drop_ranges
drop_ranges-RangeFits n [] f = tt
drop_ranges-RangeFits n ((s, len) ∷ rs) (f, fs) = elim (Bool-cases (leb len n)) [
  | inl t ↦ rw t (drop_ranges-RangeFits (n - len) rs fs)
  | inr t ↦ rw t (omega arith, fs)
]

pub rows_from-drop : (n seen : ℕ) (rows : List ℕ) → rows_from n seen rows ≡ drop (n - seen) rows
unfolding rows_from
rows_from-drop n seen [] = sym (drop-nil (n - seen))
rows_from-drop n seen (r ∷ rs) = elim (Bool-cases (leb n seen)) [
  | inl t ↦
      let z : n - seen ≡ 0 = ground arith in
      let z' : n - (seen + 1) ≡ 0 = ground arith in
      rw (t, z) (ap (λ x. r ∷ x) (rows_from-drop n (seen + 1) rs ∙ ap (λ m. drop m rs) z'))
  | inr t ↦
      let z : n - seen ≡ suc (n - (seen + 1)) = ground arith in
      rw (t, z) (rows_from-drop n (seen + 1) rs)
]
