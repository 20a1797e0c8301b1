-- ===== src/Storage/BTree/Scan.antt =====
-- Scans over the leaves of src/storage/disk/btree_index.cpp whose lower bound is exclusive.
use Prim.Native.Nat.{Ordering}
use nyxdb.Base.{
  ℕ, ◌≡◌, refl, Bool, true, false, List, [], ◌∷◌, Option, none, some, take, drop, get_or,
  Bool-cases, inl, inr,
}
use nyxdb.Storage.BTree.{
  IndexColSpec, Entry, key_eq, past_hi, scan_leaf, scan_start, compare_keys, scan_leaves,
  find_leaf_scan_start,
}

-- Where the scan starts at two entries that equal an exclusive lower bound, the first row that it
-- gives is that of the second, if the upper bound does not end it there and the callback goes on.
pub scan_leaves_keeps_equal :
    (f64_lt : ℕ → ℕ → Bool) (specs : List IndexColSpec) (lo : List ℕ) (hi : Option (List ℕ))
    (hi_incl : Bool) (cb : ℕ → Bool) (leaf rest : List Entry) (leaves : List (List Entry))
    (a b : Entry)
    → drop (find_leaf_scan_start f64_lt specs leaf lo) leaf ≡ a ∷ b ∷ rest
    → key_eq f64_lt specs lo a.key ≡ true
    → key_eq f64_lt specs lo b.key ≡ true
    → past_hi f64_lt specs hi hi_incl b.key ≡ false
    → cb b.row_id ≡ true
    → take 1 (scan_leaves f64_lt specs (some lo) false hi hi_incl cb leaf leaves) ≡ b.row_id ∷ []
unfolding scan_leaves scan_start
scan_leaves_keeps_equal f64_lt specs lo hi hi_incl cb leaf rest leaves a b e ea eb p c =
    elim (Bool-cases (scan_leaf f64_lt specs hi hi_incl cb rest).1) [
      | inl t ↦ rw (e, ea, p, c, t) refl
      | inr t ↦ rw (e, ea, p, c, t) refl
    ]

null_below :
    (f64_lt : ℕ → ℕ → Bool) (s : IndexColSpec) (specs : List IndexColSpec) (k hi : List ℕ)
    → get_or k 0 0 ≡ 0
    → compare_keys f64_lt (s ∷ specs) k (1 ∷ hi) ≡ Ordering.lt
unfolding compare_keys
null_below f64_lt s specs k hi n = rw n refl

null_not_past :
    (f64_lt : ℕ → ℕ → Bool) (s : IndexColSpec) (specs : List IndexColSpec) (k hi : List ℕ)
    (hi_incl : Bool)
    → get_or k 0 0 ≡ 0
    → past_hi f64_lt (s ∷ specs) (some (1 ∷ hi)) hi_incl k ≡ false
unfolding past_hi
null_not_past f64_lt s specs k hi hi_incl n = rw (null_below f64_lt s specs k hi n, past_hi) refl

-- A scan with only an upper bound that is not NULL gives, from a leaf whose first entry has the key
-- NULL, that entry's row first, if the callback goes on.
pub scan_leaves_gives_null :
    (f64_lt : ℕ → ℕ → Bool) (s : IndexColSpec) (specs : List IndexColSpec) (hi : List ℕ)
    (lo_incl hi_incl : Bool) (cb : ℕ → Bool) (e : Entry) (es : List Entry)
    (leaves : List (List Entry))
    → get_or e.key 0 0 ≡ 0
    → cb e.row_id ≡ true
    → take 1
        (scan_leaves f64_lt (s ∷ specs) none lo_incl (some (1 ∷ hi)) hi_incl cb (e ∷ es) leaves)
      ≡ e.row_id ∷ []
unfolding scan_leaves scan_start
scan_leaves_gives_null f64_lt s specs hi lo_incl hi_incl cb e es leaves n c =
    let p = null_not_past f64_lt s specs e.key hi hi_incl n in
    elim (Bool-cases (scan_leaf f64_lt (s ∷ specs) (some (1 ∷ hi)) hi_incl cb es).1) [
      | inl t ↦ rw (p, c, t) refl
      | inr t ↦ rw (p, c, t) refl
    ]
