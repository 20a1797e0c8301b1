-- ===== src/Executor/SelectionVector/Tests.antt =====
-- Selections of src/executor/selection_vector.cpp on small inputs.
use nyxdb.Base.{◌≡◌, refl, false, [], ◌∷◌, ◌*◌, arith, inr, take, drop, get_or, ltb}
use nyxdb.Executor.SelectionVector.{
  Repr, SelectionVector, for_each, at, truncate, drop_prefix, Builder, new_builder, append,
  finalize,
}
use nyxdb.Executor.SelectionVector.Bits.{bits, keep_bits, popcount}
use nyxdb.Executor.SelectionVector.Views.{
  IsValid, for_each-truncate, for_each-drop_prefix, at-for_each,
}
use nyxdb.Executor.SelectionVector.Build.{for_each-finalize}

abbrev as_ranges : SelectionVector
as_ranges = record {
  repr = Repr.ranges;
  row_count = 16;
  size = 5;
  dense_rows = [];
  bitmap_bytes = [];
  range_list = (2, 3) ∷ (10, 2) ∷ [];
}

abbrev as_bitmap : SelectionVector
as_bitmap = record {
  repr = Repr.bitmap;
  row_count = 16;
  size = 5;
  dense_rows = [];
  bitmap_bytes = 28 ∷ 12 ∷ [];
  range_list = [];
}

as_ranges-IsValid : IsValid as_ranges
unfolding for_each
as_ranges-IsValid = record { counts = refl; bytes = tt; lengths = (omega arith, (omega arith, tt)) }

as_bitmap-IsValid : IsValid as_bitmap
unfolding for_each bits
as_bitmap-IsValid = record { counts = refl; bytes = (omega arith, (omega arith, tt)); lengths = tt }

bitmap_rows_test : for_each as_bitmap ≡ for_each as_ranges
unfolding for_each bits
bitmap_rows_test = refl

truncate_test : for_each (truncate 3 as_bitmap) ≡ 2 ∷ 3 ∷ 4 ∷ []
unfolding for_each truncate bits popcount keep_bits
truncate_test = refl

for_each-truncate_example :
    (for_each (truncate 4 as_bitmap) ≡ take 4 (for_each as_bitmap)) × IsValid (truncate 4 as_bitmap)
for_each-truncate_example = for_each-truncate 4 as_bitmap as_bitmap-IsValid

for_each-drop_prefix_example :
    (for_each (drop_prefix 4 as_ranges) ≡ drop 4 (for_each as_ranges))
    × IsValid (drop_prefix 4 as_ranges)
for_each-drop_prefix_example = for_each-drop_prefix 4 as_ranges as_ranges-IsValid (omega arith)

at-for_each_example : at 3 as_ranges ≡ get_or (for_each as_ranges) 3 0
at-for_each_example = at-for_each 3 as_ranges (omega arith) (λ e. cc)

abbrev built : Builder
built = append 11 (append 10 (append 4 (append 3 (append 2 new_builder))))

for_each-finalize_example :
    (for_each (finalize (λ n m. ltb m (n * 2)) (λ n runs. ltb runs n) 16 false built)
      ≡ built.indices)
    × IsValid (finalize (λ n m. ltb m (n * 2)) (λ n runs. ltb runs n) 16 false built)
unfolding append
for_each-finalize_example =
    for_each-finalize (λ n m. ltb m (n * 2)) (λ n runs. ltb runs n) 16 false built (omega arith)
      (omega arith)
      (inr (
        (omega arith, (omega arith, (omega arith, (omega arith, tt)))),
        (omega arith, (omega arith, (omega arith, (omega arith, (omega arith, tt))))),
      ))
