-- ===== src/Executor/SelectionVector/Build.antt =====
-- `finalize` of src/executor/selection_vector.cpp, for each representation it may choose.
use nyxdb.Base.{
  ℕ, ◌+◌, ◌*◌, ◌<◌, ◌≡◌, ◌⊎◌, inl, inr, refl, sym, ap, Bool, true, false, List, [], arith, ◌==◌,
  ◌||◌, ltb, if◌then◌else◌, length, All,
}
use Prim.Native.Nat.{max}
use nyxdb.Base.Words.{u32_mod}
use nyxdb.Executor.SelectionVector.{
  Repr, SelectionVector, rows_of_ranges, rows_of_bitmap, for_each, from_dense, from_bitmap, Builder,
  indices_to_bitmap, indices_to_ranges, finalize,
}
use nyxdb.Executor.SelectionVector.Views.{IsValid}
use nyxdb.Executor.SelectionVector.ToRanges.{IsRow, indices_to_ranges-rows, All-indices_to_ranges}
use nyxdb.Executor.SelectionVector.ToBitmap.{
  IsAscending, indices_to_bitmap-rows, indices_to_bitmap-IsByte, All-lt,
}

abbrev Shows : SelectionVector → List ℕ → Type 0
Shows sv rows = (for_each sv ≡ rows) × IsValid sv

Shows-if :
    (t : Bool) (x y : SelectionVector) (rows : List ℕ)
    → Shows x rows
    → Shows y rows
    → Shows (if t then x else y) rows
Shows-if true x y rows p q = p
Shows-if false x y rows p q = q

Shows-from_dense : (rows : List ℕ) (row_count : ℕ) → Shows (from_dense rows row_count) rows
unfolding for_each from_dense
Shows-from_dense rows row_count = (refl, record { counts = refl; bytes = tt; lengths = tt })

Shows-from_bitmap :
    (rows : List ℕ) (row_count : ℕ)
    → row_count + 7 < u32_mod
    → IsAscending rows
    → All (λ i. i < row_count) rows
    → Shows (from_bitmap (indices_to_bitmap rows row_count) row_count (length rows)) rows
unfolding for_each from_bitmap
Shows-from_bitmap rows row_count h a f =
    let e : rows_of_bitmap 0 (indices_to_bitmap rows row_count) ≡ rows =
      indices_to_bitmap-rows rows row_count h a f in
    (
      e,
      record {
        counts = sym (ap (λ x. length x) e);
        bytes = indices_to_bitmap-IsByte rows row_count;
        lengths = tt;
      },
    )

Shows-ranges :
    (rows : List ℕ) (row_count : ℕ)
    → length rows < u32_mod
    → All IsRow rows
    → Shows
        (record (from_dense [] row_count) {
          repr = Repr.ranges;
          size = length rows;
          range_list = indices_to_ranges rows;
        })
        rows
unfolding for_each from_dense
Shows-ranges rows row_count h f =
    let e : rows_of_ranges (indices_to_ranges rows) ≡ rows = indices_to_ranges-rows rows f h in
    (
      e,
      record {
        counts = sym (ap (λ x. length x) e);
        bytes = tt;
        lengths = All-indices_to_ranges rows;
      },
    )

-- A selection built from ascending rows of a chunk shows those rows, whatever `finalize` chooses, and
-- so does one built from any rows where the order matters; and it is valid. The comparisons of
-- doubles may give anything.
pub for_each-finalize :
    (is_dense has_long_runs : ℕ → ℕ → Bool) (row_count : ℕ) (order_matters : Bool) (b : Builder)
    → row_count + 7 < u32_mod
    → length b.indices < u32_mod
    → (order_matters ≡ true) ⊎ (IsAscending b.indices × All (λ i. i < row_count) b.indices)
    → (for_each (finalize is_dense has_long_runs row_count order_matters b) ≡ b.indices)
      × IsValid (finalize is_dense has_long_runs row_count order_matters b)
unfolding finalize
for_each-finalize is_dense has_long_runs row_count order_matters b h l (inl e) =
    let dense : Shows (from_dense b.indices row_count) b.indices =
      Shows-from_dense b.indices row_count in
    rw e dense
for_each-finalize is_dense has_long_runs row_count order_matters b h l (inr (a, f)) =
    let rows : List ℕ = b.indices in
    let dense : Shows (from_dense rows row_count) rows = Shows-from_dense rows row_count in
    let rs : List (ℕ × ℕ) = indices_to_ranges rows in
    Shows-if (order_matters || length rows == 0) _ _ rows dense (
      Shows-if (is_dense (length rows) row_count) _ _ rows (Shows-from_bitmap rows row_count h a f)
        (Shows-if (has_long_runs (length rows) (max 1 b.run_count)) _ _ rows
          (Shows-if (ltb (length rs * 8) (length rows * 4)) _ _ rows
            (Shows-ranges rows row_count l (All-lt row_count u32_mod rows (omega arith) f)) dense)
          dense))
