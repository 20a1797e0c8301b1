-- ===== src/Server/ReplicaCoordinator/Reads.antt =====
-- How src/server/replica_coordinator.cpp spreads reads.
use nyxdb.Base.{
  ℕ, zero, suc, ◌+◌, ◌-◌, ◌%◌, ◌<◌, ◌≤◌, ◌≡◌, refl, sym, ap, subst, ◌∙◌, true, false, List, [], ◌∷◌,
  ◌++◌, map, Bool-cases, inl, inr, arith, length, take, drop, get_or, All, ltb, take-append-drop,
}
use native.Mathlib.Nat.{mod-add-mod, mod-lt, mod-eq_of_lt, add-mod_right}
use nyxdb.Base.Strings.{is_empty, str_eq→eq, text}
use nyxdb.Server.ReplicaCoordinator.{
  Coordinator, is_blank, to_upper, skip_blanks, is_write, pick_replica,
}

module _ {P : Type 0} where
  -- The state after a number of reads.
  abbrev pub after_reads : ℕ → Coordinator P → Coordinator P
  after_reads zero s = s
  after_reads (suc k) s = after_reads k (pick_replica s).1

  pick_replica_next :
      (s : Coordinator P)
      → 0 < length s.replicas
      → ((pick_replica s).0 ≡ get_or s.replicas (s.rr_idx % length s.replicas) [])
        × ((pick_replica s).1.replicas ≡ s.replicas)
        × ((pick_replica s).1.rr_idx ≡ (s.rr_idx + 1) % length s.replicas)
  unfolding pick_replica
  pick_replica_next s h =
      let e : is_empty s.replicas ≡ false = not_empty s.replicas h in rw e (refl, refl, refl)
    where
      not_empty : (rs : List (List ℕ)) → 0 < length rs → is_empty rs ≡ false
      not_empty [] h = absurd (omega arith)
      not_empty (r ∷ rs) h = refl

  after_reads_replicas :
      (k : ℕ) (s : Coordinator P)
      → 0 < length s.replicas
      → ((after_reads k s).replicas ≡ s.replicas)
        × ((after_reads k s).rr_idx % length s.replicas ≡ (s.rr_idx + k) % length s.replicas)
  after_reads_replicas zero s h = (refl, ap (λ m. m % length s.replicas) (omega arith))
  after_reads_replicas (suc k) s h =
      let next : Coordinator P = (pick_replica s).1 in
      let (_, same, step) = pick_replica_next s h in
      let n : ℕ = length s.replicas in
      let len : length next.replicas ≡ n = ap (λ (r : List (List ℕ)). length r) same in
      let (a, b) = after_reads_replicas k next (omega (arith, len)) in
      let moved : next.rr_idx + k ≡ (s.rr_idx + 1) % n + k = ap (λ m. m + k) step in
      (
        a ∙ same,
        subst (λ m. (after_reads k next).rr_idx % m ≡ (next.rr_idx + k) % m) len b
            ∙ (ap (λ m. m % n) moved
                ∙ (mod-add-mod (s.rr_idx + 1) n k ∙ ap (λ m. m % n) (omega arith))),
      )

-- The reads until the turn of a place.
turn_of : (i n j : ℕ) → j < n → (k : ℕ) × (k < n) × ((i + k) % n ≡ j)
turn_of i n j h =
    let r : ℕ = i % n in
    let below : r < n = mod-lt i (omega arith) in
    elim (Bool-cases (ltb j r)) [
      | inl t ↦
          let less : j < r = ground arith in
          let around : r + (j + n - r) ≡ j + n = omega arith in
          (
            j + n - r,
            omega arith,
            sym (mod-add-mod i n (j + n - r))
                ∙ (ap (λ m. m % n) around ∙ (add-mod_right j n ∙ mod-eq_of_lt h)),
          )
      | inr t ↦
          let more : r ≤ j = ground arith in
          let around : r + (j - r) ≡ j = omega arith in
          (
            j - r,
            omega arith,
            sym (mod-add-mod i n (j - r)) ∙ (ap (λ m. m % n) around ∙ mod-eq_of_lt h),
          )
    ]

-- No replica starves: of any as many reads in a row as there are replicas, one goes to it.
pub pick_replica_fair :
    {P : Type 0} (s : Coordinator P) (j : ℕ)
    → j < length s.replicas
    → (k : ℕ) × (k < length s.replicas)
      × ((pick_replica (after_reads k s)).0 ≡ get_or s.replicas j [])
pick_replica_fair s j h =
    let n : ℕ = length s.replicas in
    let (k, below, turn) = turn_of s.rr_idx n j h in
    let (same, place) = after_reads_replicas k s (omega arith) in
    let len : length (after_reads k s).replicas ≡ n = ap (λ (r : List (List ℕ)). length r) same in
    let picks = (pick_replica_next (after_reads k s) (omega (arith, len))).0 in
    (
      k,
      below,
      picks
          ∙ (ap (λ (r : List (List ℕ)). get_or r ((after_reads k s).rr_idx % length r) []) same
              ∙ ap (λ m. get_or s.replicas m []) (place ∙ turn)),
    )

skip_blanks_takes :
    (sql : List ℕ) → (w : List ℕ) × All (λ c. is_blank c ≡ true) w × (sql ≡ w ++ skip_blanks sql)
unfolding skip_blanks
skip_blanks_takes [] = ([], tt, refl)
skip_blanks_takes (c ∷ cs) = elim (Bool-cases (is_blank c)) [
  | inl t ↦ let (w, a, e) = skip_blanks_takes cs in rw t (c ∷ w, (t, a), ap (λ k. c ∷ k) e)
  | inr t ↦ rw t ([], tt, refl)
]

-- Only a statement whose first word starts with SELECT, in any case and behind white space, is
-- taken for a read.
pub is_write-read :
    (sql : List ℕ)
    → is_write sql ≡ false
    → (w word rest : List ℕ) × All (λ c. is_blank c ≡ true) w
      × (sql ≡ w ++ (word ++ rest))
      × (map to_upper word ≡ text "SELECT")
unfolding is_write
is_write-read sql h =
    let (w, a, e) = skip_blanks_takes sql in
    let r : List ℕ = skip_blanks sql in
    let split : take 6 r ++ drop 6 r ≡ r = take-append-drop 6 r in
    (
      w,
      take 6 r,
      drop 6 r,
      a,
      e ∙ ap (λ k. w ++ k) (sym split),
      str_eq→eq (map to_upper (take 6 r)) (text "SELECT") (ground arith),
    )
