-- ===== src/Executor/SelectionVector.antt =====
-- src/executor/selection_vector.h and selection_vector.cpp: the rows of a chunk that are selected, in
-- one of three representations.
pub mod Bits
pub mod Cut
pub mod Views
pub mod ToRanges
pub mod ToBitmap
pub mod Build
mod Tests
use Prim.Native.Nat.{bit_or, max}
use nyxdb.Base.{
  ℕ, zero, suc, ◌+◌, ◌-◌, ◌*◌, ◌/◌, ◌%◌, ◌^◌, Bool, true, false, List, [], ◌∷◌, ◌++◌, map, ◌==◌,
  ◌||◌, not, ltb, leb, if◌then◌else◌, length, take, drop, get_or, set, replicate,
}
use nyxdb.Base.Strings.{is_empty}
use nyxdb.Base.Words.{u32_mod}
use nyxdb.Executor.SelectionVector.Bits.{bits, popcount, keep_bits}

pub data Repr : Type 0 where
  dense bitmap ranges : Repr

pub record SelectionVector : Type 0 where
  pub repr : Repr
  pub row_count : ℕ
  pub size : ℕ
  pub dense_rows : List ℕ
  pub bitmap_bytes : List ℕ
  pub range_list : List (ℕ × ℕ)

-- The inner loop of `for_each` over a range: `n` rounds from `i`.
unfoldable pub range_rows : ℕ → ℕ → ℕ → List ℕ
range_rows start zero i = []
range_rows start (suc n) i = (start + i) % u32_mod ∷ range_rows start n (i + 1)

unfoldable pub rows_of_ranges : List (ℕ × ℕ) → List ℕ
unfolding range_rows
rows_of_ranges [] = []
rows_of_ranges ((start, len) ∷ rs) = range_rows start len 0 ++ rows_of_ranges rs

unfoldable pub byte_rows : ℕ → List ℕ → List ℕ
byte_rows j [] = []
byte_rows j (bit ∷ rest) = (j * 8 + bit) % u32_mod ∷ byte_rows j rest

unfoldable pub rows_of_bitmap : ℕ → List ℕ → List ℕ
unfolding byte_rows
rows_of_bitmap j [] = []
rows_of_bitmap j (b ∷ bs) = byte_rows j (bits b) ++ rows_of_bitmap (j + 1) bs

unfoldable pub rows_of : Repr → SelectionVector → List ℕ
unfolding rows_of_bitmap rows_of_ranges
rows_of Repr.dense sv = sv.dense_rows
rows_of Repr.bitmap sv = rows_of_bitmap 0 sv.bitmap_bytes
rows_of Repr.ranges sv = rows_of_ranges sv.range_list

-- The rows that `for_each` calls `fn` with, in order.
unfoldable pub for_each : SelectionVector → List ℕ
unfolding rows_of
for_each sv = rows_of sv.repr sv

unfoldable pub from_dense : List ℕ → ℕ → SelectionVector
from_dense indices row_count = record {
  repr = Repr.dense;
  row_count = row_count;
  size = length indices;
  dense_rows = indices;
  bitmap_bytes = [];
  range_list = [];
}

unfoldable pub from_bitmap : List ℕ → ℕ → ℕ → SelectionVector
from_bitmap bytes row_count size = record {
  repr = Repr.bitmap;
  row_count = row_count;
  size = size;
  dense_rows = [];
  bitmap_bytes = bytes;
  range_list = [];
}

-- The sum of the lengths.
unfoldable pub total : List (ℕ × ℕ) → ℕ
total [] = 0
total ((start, len) ∷ rs) = len + total rs

unfoldable pub from_ranges : List (ℕ × ℕ) → ℕ → SelectionVector
unfolding total
from_ranges rs row_count = record {
  repr = Repr.ranges;
  row_count = row_count;
  size = total rs;
  dense_rows = [];
  bitmap_bytes = [];
  range_list = rs;
}

-- The loop of `at` over the ranges; 0 where it runs out.
unfoldable pub at_range : ℕ → ℕ → List (ℕ × ℕ) → ℕ
at_range k cumulative [] = 0
at_range k cumulative ((start, len) ∷ rs) =
    let rest = at_range k (cumulative + len) rs in
    if ltb k (cumulative + len) then (start + (k - cumulative)) % u32_mod else rest

unfoldable pub at_of : Repr → ℕ → SelectionVector → ℕ
unfolding at_range
at_of Repr.dense k sv = get_or sv.dense_rows k 0
at_of Repr.ranges k sv = at_range k 0 sv.range_list
at_of Repr.bitmap k sv = 0

unfoldable pub at : ℕ → SelectionVector → ℕ
unfolding at_of
at k sv = at_of sv.repr k sv

-- `std::vector::resize`.
unfoldable pub resize : ℕ → List ℕ → List ℕ
resize k xs = take k xs ++ replicate (k - length xs) 0

unfoldable pub zeros : List ℕ → List ℕ
zeros [] = []
zeros (b ∷ bs) = 0 ∷ zeros bs

unfoldable pub truncate_bitmap : ℕ → ℕ → List ℕ → List ℕ
unfolding zeros
truncate_bitmap k kept [] = []
truncate_bitmap k kept (b ∷ bs) =
    let rest = truncate_bitmap k (kept + popcount b) bs in
    if leb (kept + popcount b) k then b ∷ rest else keep_bits b (k - kept) ∷ zeros bs

unfoldable pub truncate_ranges : ℕ → ℕ → List (ℕ × ℕ) → List (ℕ × ℕ)
truncate_ranges k cumulative [] = []
truncate_ranges k cumulative ((start, len) ∷ rs) =
    let rest = truncate_ranges k (cumulative + len) rs in
    if leb (cumulative + len) k
    then (start, len) ∷ rest
    else (start, (k - cumulative) % u32_mod) ∷ []

unfoldable pub truncate_of : Repr → ℕ → SelectionVector → SelectionVector
unfolding resize truncate_bitmap truncate_ranges
truncate_of Repr.dense k sv = record sv { size = k; dense_rows = resize k sv.dense_rows }
truncate_of Repr.bitmap k sv = record sv {
  size = k;
  bitmap_bytes = truncate_bitmap k 0 sv.bitmap_bytes;
}
truncate_of Repr.ranges k sv = record sv {
  size = k;
  range_list = truncate_ranges k 0 sv.range_list;
}

unfoldable pub truncate : ℕ → SelectionVector → SelectionVector
unfolding truncate_of
truncate k sv = if leb sv.size k then sv else truncate_of sv.repr k sv

-- The loops over the set bits with the count `seen`, which stop at nothing: the rows from the n-th on.
unfoldable pub rows_from : ℕ → ℕ → List ℕ → List ℕ
rows_from n seen [] = []
rows_from n seen (r ∷ rs) =
    let rest = rows_from n (seen + 1) rs in if leb n seen then r ∷ rest else rest

unfoldable pub drop_ranges : ℕ → List (ℕ × ℕ) → List (ℕ × ℕ)
drop_ranges to_skip [] = []
drop_ranges to_skip ((start, len) ∷ rs) =
    let rest = drop_ranges (to_skip - len) rs in
    if leb len to_skip
    then rest
    else ((start + to_skip) % u32_mod, (len + u32_mod - to_skip % u32_mod) % u32_mod) ∷ rs

unfoldable pub drop_of : Repr → ℕ → SelectionVector → SelectionVector
unfolding rows_of_bitmap rows_from drop_ranges
drop_of Repr.dense n sv = record sv { size = sv.size - n; dense_rows = drop n sv.dense_rows }
drop_of Repr.bitmap n sv = record sv {
  repr = Repr.dense;
  size = sv.size - n;
  bitmap_bytes = [];
  dense_rows = rows_from n 0 (rows_of_bitmap 0 sv.bitmap_bytes);
}
drop_of Repr.ranges n sv = record sv {
  size = sv.size - n;
  range_list = drop_ranges n sv.range_list;
}

-- The caller drops no more than `size`.
unfoldable pub drop_prefix : ℕ → SelectionVector → SelectionVector
unfolding drop_of
drop_prefix n sv = if n == 0 then sv else drop_of sv.repr n sv

unfoldable pub dense_of : Repr → SelectionVector → SelectionVector
unfolding for_each from_dense
dense_of Repr.dense sv = sv
dense_of _ sv = from_dense (for_each sv) sv.row_count

unfoldable pub to_dense : SelectionVector → SelectionVector
unfolding dense_of
to_dense sv = dense_of sv.repr sv

pub record Builder : Type 0 where
  pub indices : List ℕ
  pub run_count : ℕ
  pub last : ℕ

abbrev pub new_builder : Builder
new_builder = record { indices = []; run_count = 0; last = u32_mod - 1 }

unfoldable pub append : ℕ → Builder → Builder
append idx b = record {
  indices = b.indices ++ idx ∷ [];
  run_count =
      if is_empty b.indices || not (idx == (b.last + 1) % u32_mod)
      then (b.run_count + 1) % u32_mod
      else b.run_count;
  last = idx;
}

unfoldable pub set_bits : List ℕ → List ℕ → List ℕ
set_bits bm [] = bm
set_bits bm (idx ∷ rest) =
    set_bits (set bm (idx / 8) (bit_or (get_or bm (idx / 8) 0) (2 ^ (idx % 8)))) rest

unfoldable pub indices_to_bitmap : List ℕ → ℕ → List ℕ
unfolding set_bits
indices_to_bitmap indices row_count = set_bits (replicate ((row_count + 7) % u32_mod / 8) 0) indices

-- The loop of `indices_to_ranges`, with the index before.
unfoldable pub ranges_loop : ℕ → ℕ → ℕ → List ℕ → List (ℕ × ℕ)
ranges_loop start len prev [] = (start, len) ∷ []
ranges_loop start len prev (idx ∷ rest) =
    let longer = ranges_loop start ((len + 1) % u32_mod) idx rest in
    let next = (start, len) ∷ ranges_loop idx 1 idx rest in
    if idx == (prev + 1) % u32_mod then longer else next

unfoldable pub indices_to_ranges : List ℕ → List (ℕ × ℕ)
unfolding ranges_loop
indices_to_ranges [] = []
indices_to_ranges (idx ∷ rest) = ranges_loop idx 1 idx rest

-- The comparisons of quotients of doubles are parameters: `is_dense size row_count` is
-- `density > 0.9`, `has_long_runs size runs` is `avg_run > 32.0`.
unfoldable pub finalize : (ℕ → ℕ → Bool) → (ℕ → ℕ → Bool) → ℕ → Bool → Builder → SelectionVector
unfolding from_dense from_bitmap indices_to_bitmap indices_to_ranges
finalize is_dense has_long_runs row_count order_matters b =
    let size = length b.indices in
    let rs = indices_to_ranges b.indices in
    if order_matters || size == 0
    then from_dense b.indices row_count
    else if is_dense size row_count
    then from_bitmap (indices_to_bitmap b.indices row_count) row_count size
    else if has_long_runs size (max 1 b.run_count)
    then (if ltb (length rs * 8) (size * 4)
        then record (from_dense [] row_count) { repr = Repr.ranges; size = size; range_list = rs }
        else from_dense b.indices row_count)
    else from_dense b.indices row_count
