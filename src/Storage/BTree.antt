-- ===== src/Storage/BTree.antt =====
-- src/storage/disk/btree_index.cpp: the order of the encoded keys, the searches in a node, and the
-- scan over the leaves. A leaf is its entries in order, in place of the bytes of its page; the order
-- of doubles is a parameter.
pub mod Search
pub mod Scan
mod Tests
use Prim.Native.Nat.{Ordering}
use nyxdb.Base.{
  ℕ, zero, suc, ◌+◌, ◌/◌, ◌%◌, Bool, true, false, not, ◌&&◌, List, [], ◌∷◌, ◌++◌, map, Option, none,
  some, ◌==◌, ltb, if◌then◌else◌, length, take, drop, get_or, min,
}
use nyxdb.Base.Int.{ltb_ℤ}
use nyxdb.Base.Words.{u16_mod}
use nyxdb.Bytes.{get_u16, get_u32, get_u64, to_i32, to_i64}
use nyxdb.Value.{TypeId, type_size}
use nyxdb.Value.Order.{cmp_val}

pub record IndexColSpec : Type 0 where
  pub type : TypeId
  pub reserved : ℕ
  pub max_len : ℕ

pub record Entry : Type 0 where
  pub key : List ℕ
  pub row_id : ℕ

unfoldable pub memcmp : ℕ → List ℕ → List ℕ → Ordering
memcmp zero a b = Ordering.eq
memcmp (suc n) a b =
    let rest = memcmp n (drop 1 a) (drop 1 b) in
    if ltb (get_or a 0 0) (get_or b 0 0)
    then Ordering.lt
    else if ltb (get_or b 0 0) (get_or a 0 0)
    then Ordering.gt
    else rest

-- The first comparison that tells two keys apart.
abbrev pub or_else : Ordering → Ordering → Ordering
or_else Ordering.eq rest = rest
or_else o rest = o

-- The binary search of the three functions; `test` is the comparison of the key at `mid`.
unfoldable pub search_loop : (ℕ → Bool) → ℕ → ℕ → ℕ → ℕ
search_loop test zero lo hi = lo
search_loop test (suc n) lo hi =
    let mid = (lo + hi) / 2 % u16_mod in
    let right = search_loop test n ((mid + 1) % u16_mod) hi in
    let left = search_loop test n lo mid in
    if ltb lo hi then (if test mid then right else left) else lo

unfoldable pub search : (List ℕ → Bool) → List (List ℕ) → ℕ
unfolding search_loop
search test keys = search_loop (λ i. test (get_or keys i [])) (length keys) 0 (length keys)

abbrev pub keys_of : List Entry → List (List ℕ)
keys_of = map (λ (e : Entry). e.key)

-- The entries behind the slot move up by one.
unfoldable pub insert_leaf_entry : ℕ → List ℕ → ℕ → List Entry → List Entry
insert_leaf_entry slot key row_id entries =
    take slot entries ++ record { key = key; row_id = row_id } ∷ drop slot entries

module _ (f64_lt : ℕ → ℕ → Bool) where
  -- The comparison of one column's bytes.
  unfoldable pub compare_column : TypeId → List ℕ → List ℕ → Ordering
  unfolding cmp_val memcmp
  compare_column TypeId.int32 a b = cmp_val ltb_ℤ (to_i32 (get_u32 a)) (to_i32 (get_u32 b))
  compare_column TypeId.date a b = cmp_val ltb_ℤ (to_i32 (get_u32 a)) (to_i32 (get_u32 b))
  compare_column TypeId.int64 a b = cmp_val ltb_ℤ (to_i64 (get_u64 a)) (to_i64 (get_u64 b))
  compare_column TypeId.timestamp a b = cmp_val ltb_ℤ (to_i64 (get_u64 a)) (to_i64 (get_u64 b))
  compare_column TypeId.double a b = cmp_val f64_lt (get_u64 a) (get_u64 b)
  compare_column TypeId.varchar a b =
      or_else (memcmp (min (get_u16 a) (get_u16 b)) (drop 2 a) (drop 2 b))
        (cmp_val ltb (get_u16 a) (get_u16 b))
  compare_column _ a b = Ordering.eq

  unfoldable pub compare_keys : List IndexColSpec → List ℕ → List ℕ → Ordering
  unfolding compare_column
  compare_keys [] a b = Ordering.eq
  compare_keys (s ∷ specs) a b =
      let vb = type_size s.type s.max_len in
      let rest = compare_keys specs (drop (1 + vb) a) (drop (1 + vb) b) in
      let an = get_or a 0 0 in
      let bn = get_or b 0 0 in
      if not (an == bn)
      then (if ltb an bn then Ordering.lt else Ordering.gt)
      else if an == 0
      then rest
      else or_else (compare_column s.type (drop 1 a) (drop 1 b)) rest

  -- `compare_keys(k, key) <= 0`, `< 0` and `== 0`.
  unfoldable pub key_le : List IndexColSpec → List ℕ → List ℕ → Bool
  key_le specs key k = elim (compare_keys specs k key) [ Ordering.gt ↦ false | _ ↦ true ]

  unfoldable pub key_lt : List IndexColSpec → List ℕ → List ℕ → Bool
  key_lt specs key k = elim (compare_keys specs k key) [ Ordering.lt ↦ true | _ ↦ false ]

  unfoldable pub key_eq : List IndexColSpec → List ℕ → List ℕ → Bool
  key_eq specs key k = elim (compare_keys specs k key) [ Ordering.eq ↦ true | _ ↦ false ]

  unfoldable pub find_leaf_insert_slot : List IndexColSpec → List Entry → List ℕ → ℕ
  find_leaf_insert_slot specs entries key = search (key_le specs key) (keys_of entries)

  unfoldable pub find_child_slot : List IndexColSpec → List (List ℕ) → List ℕ → ℕ
  find_child_slot specs keys key = search (key_le specs key) keys

  unfoldable pub find_leaf_scan_start : List IndexColSpec → List Entry → List ℕ → ℕ
  find_leaf_scan_start specs entries lo = search (key_lt specs lo) (keys_of entries)

  -- Whether the scan ends at a key.
  unfoldable pub past_hi : List IndexColSpec → Option (List ℕ) → Bool → List ℕ → Bool
  past_hi specs none hi_incl k = false
  past_hi specs (some hi) hi_incl k = elim (compare_keys specs k hi) [
    | Ordering.gt ↦ true
    | Ordering.eq ↦ not hi_incl
    | Ordering.lt ↦ false
  ]

  -- The row numbers that `cb` is called with in one leaf, and whether the scan goes on behind it.
  unfoldable pub scan_leaf :
      List IndexColSpec → Option (List ℕ) → Bool → (ℕ → Bool) → List Entry → List ℕ × Bool
  scan_leaf specs hi hi_incl cb [] = ([], true)
  scan_leaf specs hi hi_incl cb (e ∷ es) =
      let (rows, more) = scan_leaf specs hi hi_incl cb es in
      if past_hi specs hi hi_incl e.key
      then ([], false)
      else if cb e.row_id
      then (e.row_id ∷ rows, more)
      else (e.row_id ∷ [], false)

  -- The first entry of the scan is left out where the lower bound is exclusive and equal to it.
  unfoldable pub skip_lo : List IndexColSpec → Option (List ℕ) → Bool → List Entry → List Entry
  skip_lo specs none lo_incl es = es
  skip_lo specs (some lo) lo_incl [] = []
  skip_lo specs (some lo) lo_incl (e ∷ es) =
      if not lo_incl && key_eq specs lo e.key then es else e ∷ es

  unfoldable pub scan_start : List IndexColSpec → Option (List ℕ) → List Entry → ℕ
  scan_start specs none entries = 0
  scan_start specs (some lo) entries = find_leaf_scan_start specs entries lo

  unfoldable pub scan_siblings :
      List IndexColSpec → Option (List ℕ) → Bool → (ℕ → Bool) → List (List Entry) → List ℕ
  unfolding scan_leaf
  scan_siblings specs hi hi_incl cb [] = []
  scan_siblings specs hi hi_incl cb (leaf ∷ leaves) =
      let rest = scan_siblings specs hi hi_incl cb leaves in
      let (rows, more) = scan_leaf specs hi hi_incl cb leaf in if more then rows ++ rest else rows

  -- The scan from the leaf that it descends to, over that leaf's right siblings.
  unfoldable pub scan_leaves :
      List IndexColSpec
      → Option (List ℕ)
      → Bool
      → Option (List ℕ)
      → Bool
      → (ℕ → Bool)
      → List Entry
      → List (List Entry)
      → List ℕ
  unfolding scan_leaf scan_siblings skip_lo
  scan_leaves specs lo lo_incl hi hi_incl cb leaf leaves =
      let from = skip_lo specs lo lo_incl (drop (scan_start specs lo leaf) leaf) in
      let (rows, more) = scan_leaf specs hi hi_incl cb from in
      if more then rows ++ scan_siblings specs hi hi_incl cb leaves else rows
