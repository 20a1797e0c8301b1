-- ===== src/Storage/BTree/Search.antt =====
-- The binary searches of src/storage/disk/btree_index.cpp against a linear scan.
use nyxdb.Base.{
  ℕ, zero, suc, ◌+◌, ◌/◌, ◌%◌, ◌<◌, ◌≤◌, ◌≡◌, Bool, true, false, List, [], ◌∷◌, arith, ltb,
  if◌then◌else◌, length, get_or, All, Bool-cases, inl, inr,
}
use nyxdb.Base.Words.{u16_mod}
use nyxdb.Storage.BTree.{
  IndexColSpec, Entry, search_loop, search, keys_of, key_le, key_lt, find_leaf_insert_slot,
  find_child_slot, find_leaf_scan_start,
}

-- How many keys from the first on pass a test.
abbrev pub count_while : (List ℕ → Bool) → List (List ℕ) → ℕ
count_while test [] = 0
count_while test (k ∷ ks) = if test k then suc (count_while test ks) else 0

-- Behind a key that fails the test no key passes it, as in keys in order.
abbrev pub StaysFalse : (List ℕ → Bool) → List (List ℕ) → Type 0
StaysFalse test [] = Unit {0}
StaysFalse test (k ∷ ks) = (test k ≡ false → All (λ x. test x ≡ false) ks) × StaysFalse test ks

count_while-le : (test : List ℕ → Bool) (ks : List (List ℕ)) → count_while test ks ≤ length ks
count_while-le test [] = omega arith
count_while-le test (k ∷ ks) = ground (arith, count_while-le test ks)

passes_below :
    (test : List ℕ → Bool) (ks : List (List ℕ)) (i : ℕ)
    → i < count_while test ks
    → test (get_or ks i []) ≡ true
passes_below test [] i h = absurd (omega arith)
passes_below test (k ∷ ks) zero h = ground arith
passes_below test (k ∷ ks) (suc i) h = ground (arith, passes_below test ks i)

fails_everywhere :
    (test : List ℕ → Bool) (ks : List (List ℕ)) (i : ℕ)
    → All (λ x. test x ≡ false) ks
    → i < length ks
    → test (get_or ks i []) ≡ false
fails_everywhere test [] i a h = absurd (omega arith)
fails_everywhere test (k ∷ ks) zero (a, _) h = a
fails_everywhere test (k ∷ ks) (suc i) (_, rest) h = fails_everywhere test ks i rest (omega arith)

fails_from :
    (test : List ℕ → Bool) (ks : List (List ℕ)) (i : ℕ)
    → StaysFalse test ks
    → count_while test ks ≤ i
    → i < length ks
    → test (get_or ks i []) ≡ false
fails_from test [] i s c h = absurd (omega arith)
fails_from test (k ∷ ks) zero s c h = ground arith
fails_from test (k ∷ ks) (suc i) (s, ss) c h = elim (Bool-cases (test k)) [
  | inl t ↦ fails_from test ks i ss (ground (arith, t)) (omega arith)
  | inr t ↦ fails_everywhere test ks i (s t) (omega arith)
]

search_loop_finds :
    (test : ℕ → Bool) (p n fuel lo hi : ℕ)
    → ((i : ℕ) → i < p → test i ≡ true)
    → ((i : ℕ) → p ≤ i → i < n → test i ≡ false)
    → n < u16_mod
    → lo ≤ p
    → p ≤ hi
    → hi ≤ n
    → hi ≤ lo + fuel
    → search_loop test fuel lo hi ≡ p
unfolding search_loop
search_loop_finds test p n zero lo hi below above s a b c d = omega arith
search_loop_finds test p n (suc fuel) lo hi below above s a b c d = elim (Bool-cases (ltb lo hi)) [
  | inr t ↦ let ge : hi ≤ lo = ground arith in rw t (omega arith)
  | inl t ↦
      let lt : lo < hi = ground arith in
      let mid : ℕ = (lo + hi) / 2 % u16_mod in
      let low : lo ≤ mid = omega arith in
      let high : mid < hi = omega arith in
      elim (Bool-cases (test mid)) [
        | inl u ↦
            let left : mid < p = below_p mid (omega arith) u in
            let step : (mid + 1) % u16_mod ≡ mid + 1 = omega arith in
            rw (t, u, step)
              (search_loop_finds test p n fuel (mid + 1) hi below above s (omega arith) b c
                (omega arith))
        | inr u ↦
            let right : p ≤ mid = from_p mid u in
            rw (t, u)
              (search_loop_finds test p n fuel lo mid below above s a right (omega arith)
                (omega arith))
      ]
]
  where
    below_p : (i : ℕ) → i < n → test i ≡ true → i < p
    below_p i h e = elim (Bool-cases (ltb i p)) [
      | inl t ↦ ground arith
      | inr t ↦ let k : p ≤ i = ground arith in absurd (ground (arith, above i k h, e))
    ]

    from_p : (i : ℕ) → test i ≡ false → p ≤ i
    from_p i e = elim (Bool-cases (ltb i p)) [
      | inl t ↦ let k : i < p = ground arith in absurd (ground (arith, below i k, e))
      | inr t ↦ ground arith
    ]

search-count_while :
    (test : List ℕ → Bool) (ks : List (List ℕ))
    → length ks < u16_mod
    → StaysFalse test ks
    → search test ks ≡ count_while test ks
unfolding search
search-count_while test ks h s =
    search_loop_finds (λ i. test (get_or ks i [])) (count_while test ks) (length ks) (length ks) 0
      (length ks) (passes_below test ks) (λ i. fails_from test ks i s) h (omega arith)
      (count_while-le test ks) (omega arith) (omega arith)

-- In a node of fewer than 65536 keys that the key splits in two, the three searches give the slot
-- that a linear scan finds: the insertion behind all keys up to the key, the child behind all
-- separators up to it, and the start of a scan behind all keys below it.
pub slots-count_while :
    (f64_lt : ℕ → ℕ → Bool) (specs : List IndexColSpec) (entries : List Entry)
    (keys : List (List ℕ)) (key : List ℕ)
    → length (keys_of entries) < u16_mod
    → length keys < u16_mod
    → StaysFalse (key_le f64_lt specs key) (keys_of entries)
    → StaysFalse (key_le f64_lt specs key) keys
    → StaysFalse (key_lt f64_lt specs key) (keys_of entries)
    → (find_leaf_insert_slot f64_lt specs entries key
        ≡ count_while (key_le f64_lt specs key) (keys_of entries))
      × (find_child_slot f64_lt specs keys key ≡ count_while (key_le f64_lt specs key) keys)
      × (find_leaf_scan_start f64_lt specs entries key
          ≡ count_while (key_lt f64_lt specs key) (keys_of entries))
unfolding find_leaf_insert_slot find_child_slot find_leaf_scan_start
slots-count_while f64_lt specs entries keys key h l a b c = (
  search-count_while (key_le f64_lt specs key) (keys_of entries) h a,
  search-count_while (key_le f64_lt specs key) keys l b,
  search-count_while (key_lt f64_lt specs key) (keys_of entries) h c,
)
