-- ===== src/Executor/SelectionVector/Views.antt =====
-- `truncate`, `drop_prefix`, `to_dense` and `at` of src/executor/selection_vector.cpp, against the rows
-- that `for_each` visits.
use nyxdb.Base.{
  ℕ, zero, suc, ◌+◌, ◌-◌, ◌%◌, ◌≤◌, ◌<◌, ◌≡◌, refl, sym, ap, ◌∙◌, false, List, [], ◌∷◌, arith, ◌==◌,
  ltb, leb, length, take, drop, get_or, All, Bool-cases, inl, inr, ◌≢◌, take_of_length-le,
  get_or-append_lt, get_or-append_ge, length-take, length-drop,
}
use mathlib.Core.List.{append-nil}
use nyxdb.Base.Words.{u32_mod}
use nyxdb.Executor.SelectionVector.{
  Repr, SelectionVector, range_rows, rows_of_ranges, rows_of_bitmap, rows_of, for_each, truncate_of,
  truncate, drop_of, drop_prefix,
}
use nyxdb.Executor.SelectionVector.{at_range, at_of, at, dense_of, to_dense, from_dense}
use nyxdb.Executor.SelectionVector.Cut.{
  RangeFits, IsByte, truncate_ranges-take, drop_ranges-drop, truncate_bitmap-take,
  truncate_bitmap-IsByte, truncate_ranges-RangeFits, drop_ranges-RangeFits, rows_from-drop,
  length-range_rows,
}

-- `size` counts the rows, the bitmap is of bytes, and the lengths of the ranges are 32-bit words.
pub record IsValid (sv : SelectionVector) : Type 0 where
  pub counts : sv.size ≡ length (for_each sv)
  pub bytes : All IsByte sv.bitmap_bytes
  pub lengths : All RangeFits sv.range_list

rows_of-truncate_of :
    (r : Repr) (k : ℕ) (sv : SelectionVector)
    → k ≤ length (rows_of r sv)
    → All IsByte sv.bitmap_bytes
    → All RangeFits sv.range_list
    → rows_of r (truncate_of r k sv) ≡ take k (rows_of r sv)
unfolding rows_of truncate_of
rows_of-truncate_of Repr.dense k sv h fb fr =
    let z : k - length sv.dense_rows ≡ 0 = omega arith in rw z (append-nil (take k sv.dense_rows))
rows_of-truncate_of Repr.bitmap k sv h fb fr =
    truncate_bitmap-take k 0 0 sv.bitmap_bytes (omega arith) fb
    ∙ ap (λ m. take m (rows_of_bitmap 0 sv.bitmap_bytes)) (omega arith)
rows_of-truncate_of Repr.ranges k sv h fb fr =
    truncate_ranges-take k 0 sv.range_list (omega arith) fr
    ∙ ap (λ m. take m (rows_of_ranges sv.range_list)) (omega arith)

truncate_of-fits :
    (r : Repr) (k : ℕ) (sv : SelectionVector)
    → IsValid sv
    → All IsByte (truncate_of r k sv).bitmap_bytes
      × All RangeFits (truncate_of r k sv).range_list
      × ((truncate_of r k sv).size ≡ k)
      × ((truncate_of r k sv).repr ≡ sv.repr)
unfolding truncate_of
truncate_of-fits Repr.dense k sv v = (v.bytes, v.lengths, refl, refl)
truncate_of-fits Repr.bitmap k sv v =
    (truncate_bitmap-IsByte k 0 sv.bitmap_bytes (omega arith) v.bytes, v.lengths, refl, refl)
truncate_of-fits Repr.ranges k sv v =
    (v.bytes, truncate_ranges-RangeFits k 0 sv.range_list v.lengths, refl, refl)

-- On a valid vector, `truncate k` keeps the first k rows, whatever the representation, and the
-- vector stays valid.
pub for_each-truncate :
    (k : ℕ) (sv : SelectionVector)
    → IsValid sv
    → (for_each (truncate k sv) ≡ take k (for_each sv)) × IsValid (truncate k sv)
unfolding for_each truncate
for_each-truncate k sv v = elim (Bool-cases (leb sv.size k)) [
  | inl t ↦
      let le : sv.size ≤ k = ground arith in
      rw t (sym (take_of_length-le k (for_each sv) (omega (arith, v.counts))), v)
  | inr t ↦
      let lt : k < sv.size = ground arith in
      let (fb, fr, fs, fe) = truncate_of-fits sv.repr k sv v in
      let rows : for_each (truncate_of sv.repr k sv) ≡ take k (for_each sv) =
        ap (λ r. rows_of r (truncate_of sv.repr k sv)) fe
        ∙ rows_of-truncate_of sv.repr k sv (omega (arith, v.counts)) v.bytes v.lengths in
      rw t (
        rows,
        record {
          counts =
              fs
              ∙ sym
                  (ap (λ x. length x) rows ∙ length-take k (for_each sv) (omega (arith, v.counts)));
          bytes = fb;
          lengths = fr;
        },
      )
]

for_each-drop_of :
    (r : Repr) (n : ℕ) (sv : SelectionVector)
    → sv.repr ≡ r
    → IsValid sv
    → (for_each (drop_of r n sv) ≡ drop n (rows_of r sv))
      × All IsByte (drop_of r n sv).bitmap_bytes
      × All RangeFits (drop_of r n sv).range_list
      × ((drop_of r n sv).size ≡ sv.size - n)
unfolding for_each drop_of
for_each-drop_of Repr.dense n sv e v = (rw e refl, v.bytes, v.lengths, refl)
for_each-drop_of Repr.bitmap n sv e v = (
  rows_from-drop n 0 (rows_of_bitmap 0 sv.bitmap_bytes)
      ∙ ap (λ m. drop m (rows_of_bitmap 0 sv.bitmap_bytes)) (omega arith),
  tt,
  v.lengths,
  refl,
)
for_each-drop_of Repr.ranges n sv e v = (
  rw e (drop_ranges-drop n sv.range_list v.lengths),
  v.bytes,
  drop_ranges-RangeFits n sv.range_list v.lengths,
  refl,
)

-- On a valid vector of at least n rows, `drop_prefix n` leaves the rows behind the first n, whatever
-- the representation, and the vector stays valid.
pub for_each-drop_prefix :
    (n : ℕ) (sv : SelectionVector)
    → IsValid sv
    → n ≤ sv.size
    → (for_each (drop_prefix n sv) ≡ drop n (for_each sv)) × IsValid (drop_prefix n sv)
unfolding drop_prefix for_each
for_each-drop_prefix zero sv v h = (refl, v)
for_each-drop_prefix (suc n) sv v h =
    let (rows, fb, fr, fs) = for_each-drop_of sv.repr (suc n) sv refl v in
    let z : (suc n == 0) ≡ false = ground arith in
    rw z (
      rows,
      record {
        counts =
            fs
            ∙ omega (arith, ap (λ x. length x) rows, length-drop (suc n) (for_each sv), v.counts);
        bytes = fb;
        lengths = fr;
      },
    )

for_each-dense_of :
    (r : Repr) (sv : SelectionVector) → sv.repr ≡ r → for_each (dense_of r sv) ≡ for_each sv
unfolding dense_of from_dense
for_each-dense_of Repr.dense sv e = refl
for_each-dense_of _ sv e = refl

pub for_each-to_dense : (sv : SelectionVector) → for_each (to_dense sv) ≡ for_each sv
unfolding to_dense
for_each-to_dense sv = for_each-dense_of sv.repr sv refl

get_or-range_rows :
    (k s n i d : ℕ) → k < n → get_or (range_rows s n i) k d ≡ (s + (i + k)) % u32_mod
unfolding range_rows
get_or-range_rows k s zero i d h = absurd (omega arith)
get_or-range_rows zero s (suc n) i d h = omega arith
get_or-range_rows (suc k) s (suc n) i d h =
    get_or-range_rows k s n (i + 1) d (omega arith) ∙ omega arith

at_range-get_or :
    (k c : ℕ) (rs : List (ℕ × ℕ)) → c ≤ k → at_range k c rs ≡ get_or (rows_of_ranges rs) (k - c) 0
unfolding at_range rows_of_ranges
at_range-get_or k c [] h = refl
at_range-get_or k c ((s, n) ∷ rs) h =
    let rows : List ℕ = range_rows s n 0 in
    let l : length rows ≡ n = length-range_rows s n 0 in
    elim (Bool-cases (ltb k (c + n))) [
      | inl t ↦
          let lt : k < c + n = ground arith in
          rw t (
            omega (arith, get_or-range_rows (k - c) s n 0 0 (omega arith))
            ∙ sym (get_or-append_lt (k - c) rows (rows_of_ranges rs) 0 (omega (arith, l))))
      | inr t ↦
          let ge : c + n ≤ k = ground arith in
          let e : k - c - length rows ≡ k - (c + n) = omega (arith, l) in
          rw t (
            at_range-get_or k (c + n) rs ge
            ∙ (ap (λ m. get_or (rows_of_ranges rs) m 0) (sym e)
                ∙ sym (get_or-append_ge (k - c) rows (rows_of_ranges rs) 0 (omega (arith, l)))))
    ]

-- `at k` is the k-th row that `for_each` visits, where k is below the size and the vector is no
-- bitmap.
pub at-for_each :
    (k : ℕ) (sv : SelectionVector)
    → k < sv.size
    → sv.repr ≢ Repr.bitmap
    → at k sv ≡ get_or (for_each sv) k 0
unfolding at for_each
at-for_each k sv _ h = at_of_rows sv.repr h
  where
    at_of_rows : (r : Repr) → r ≢ Repr.bitmap → at_of r k sv ≡ get_or (rows_of r sv) k 0
    at_of_rows Repr.dense h = refl
    at_of_rows Repr.bitmap h = absurd (h refl)
    at_of_rows Repr.ranges h =
        at_range-get_or k 0 sv.range_list (omega arith)
        ∙ ap (λ m. get_or (rows_of_ranges sv.range_list) m 0) (omega arith)
