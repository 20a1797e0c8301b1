-- ===== src/Storage/BTree/Tests.antt =====
-- Searches and scans of src/storage/disk/btree_index.cpp over keys of one INT32 column.
use nyxdb.Base.{ℕ, ◌≡◌, refl, Bool, true, false, List, [], ◌∷◌, none, some, arith, take}
use nyxdb.Bytes.{get_u32, to_i32}
use nyxdb.Value.{TypeId, type_size}
use nyxdb.Storage.BTree.{
  IndexColSpec, Entry, keys_of, key_le, key_lt, key_eq, compare_keys, search, find_leaf_insert_slot,
  find_child_slot, find_leaf_scan_start, scan_leaves, past_hi,
}
use nyxdb.Storage.BTree.Search.{count_while, slots-count_while}
use nyxdb.Storage.BTree.Scan.{scan_leaves_keeps_equal, scan_leaves_gives_null}

abbrev f64_lt : ℕ → ℕ → Bool
f64_lt a b = false

abbrev specs : List IndexColSpec
specs = record { type = TypeId.int32; reserved = 0; max_len = 0 } ∷ []

abbrev key_of : ℕ → List ℕ
key_of n = 1 ∷ n ∷ 0 ∷ 0 ∷ 0 ∷ []

abbrev entry : ℕ → ℕ → Entry
entry n row = record { key = key_of n; row_id = row }

abbrev leaf : List Entry
leaf = entry 3 30 ∷ entry 5 50 ∷ entry 5 51 ∷ entry 9 90 ∷ []

insert_test : find_leaf_insert_slot f64_lt specs leaf (key_of 5) ≡ 3
unfolding find_leaf_insert_slot search key_le compare_keys get_u32 to_i32 type_size
insert_test = refl

slots-count_while_example :
    (find_leaf_insert_slot f64_lt specs leaf (key_of 5)
      ≡ count_while (key_le f64_lt specs (key_of 5)) (keys_of leaf))
    × (find_child_slot f64_lt specs (keys_of leaf) (key_of 5)
        ≡ count_while (key_le f64_lt specs (key_of 5)) (keys_of leaf))
    × (find_leaf_scan_start f64_lt specs leaf (key_of 5)
        ≡ count_while (key_lt f64_lt specs (key_of 5)) (keys_of leaf))
unfolding key_le key_lt compare_keys get_u32 to_i32 type_size
slots-count_while_example =
    slots-count_while f64_lt specs leaf (keys_of leaf) (key_of 5) (omega arith) (omega arith)
      (
        λ e. absurd (ground arith),
        (λ e. absurd (ground arith), (λ e. absurd (ground arith), (λ e. tt, tt))),
      )
      (
        λ e. absurd (ground arith),
        (λ e. absurd (ground arith), (λ e. absurd (ground arith), (λ e. tt, tt))),
      )
      (λ e. absurd (ground arith), (λ e. (refl, (refl, tt)), (λ e. (refl, tt), (λ e. tt, tt))))

-- `k > 5` gives the row 51, whose key is 5.
scan_leaves_keeps_equal_example :
    take 1 (scan_leaves f64_lt specs (some (key_of 5)) false none false (λ row. true) leaf [])
    ≡ 51 ∷ []
unfolding find_leaf_scan_start search key_lt key_eq compare_keys get_u32 to_i32 type_size past_hi
scan_leaves_keeps_equal_example =
    scan_leaves_keeps_equal f64_lt specs (key_of 5) none false (λ row. true) leaf (entry 9 90 ∷ [])
      [] (entry 5 50) (entry 5 51) refl refl refl refl refl

abbrev null_key : List ℕ
null_key = 0 ∷ 0 ∷ 0 ∷ 0 ∷ 0 ∷ []

-- `k < 5` gives the row 7, whose key is NULL.
scan_leaves_gives_null_example :
    take 1 (
      scan_leaves f64_lt specs none false
        (some (key_of 5))
        false
        (λ row. true)
        (record { key = null_key; row_id = 7 } ∷ leaf)
        [])
    ≡ 7 ∷ []
scan_leaves_gives_null_example =
    scan_leaves_gives_null f64_lt (record { type = TypeId.int32; reserved = 0; max_len = 0 }) []
      (5 ∷ 0 ∷ 0 ∷ 0 ∷ []) false false (λ row. true) (record { key = null_key; row_id = 7 }) leaf []
      refl refl
