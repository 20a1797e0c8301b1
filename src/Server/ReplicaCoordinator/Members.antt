-- ===== src/Server/ReplicaCoordinator/Members.antt =====
-- The replicas that src/server/replica_coordinator.cpp knows, and where it sends a statement.
use native.Mathlib.Nat.{mod-lt}
use nyxdb.Base.{
  ℕ, zero, suc, ◌%◌, ◌<◌, ◌≡◌, ◌⊎◌, refl, sym, subst, ◌∙◌, Bool, true, false, ◌||◌, List, [], ◌∷◌,
  ◌++◌, Bool-cases, inl, inr, arith, length, get_or,
}
use nyxdb.Base.Strings.{is_empty, str_eq, str_eq→eq, str_eq_refl}
use nyxdb.Common.Result.{Result}
use nyxdb.Server.ReplicaCoordinator.{
  Coordinator, has_addr, erase_addr, is_write, make, register_node, notify_leader, pick_replica,
  execute,
}

abbrev pub Distinct : List (List ℕ) → Type 0
Distinct [] = Unit {0}
Distinct (r ∷ rs) = (has_addr r rs ≡ false) × Distinct rs

str_eq_comm : (xs ys : List ℕ) → str_eq xs ys ≡ str_eq ys xs
unfolding str_eq
str_eq_comm [] [] = refl
str_eq_comm [] (y ∷ ys) = refl
str_eq_comm (x ∷ xs) [] = refl
str_eq_comm (x ∷ xs) (y ∷ ys) = ground (arith, str_eq_comm xs ys)

or_false : (a b : Bool) → (a || b) ≡ false → (a ≡ false) × (b ≡ false)
or_false true b h = absurd (ground arith)
or_false false b h = (refl, h)

has_addr-append :
    (addr r : List ℕ) (rs : List (List ℕ))
    → has_addr r rs ≡ false
    → str_eq addr r ≡ false
    → has_addr r (rs ++ addr ∷ []) ≡ false
unfolding has_addr
has_addr-append addr r [] h e = rw e refl
has_addr-append addr r (q ∷ rs) h e =
    let (a, b) = or_false (str_eq q r) (has_addr r rs) h in rw a (has_addr-append addr r rs b e)

Distinct-append :
    (addr : List ℕ) (rs : List (List ℕ))
    → has_addr addr rs ≡ false
    → Distinct rs
    → Distinct (rs ++ addr ∷ [])
unfolding has_addr
Distinct-append addr [] h d = (refl, tt)
Distinct-append addr (r ∷ rs) h (d, ds) =
    let (a, b) = or_false (str_eq r addr) (has_addr addr rs) h in
    (has_addr-append addr r rs d (str_eq_comm addr r ∙ a), Distinct-append addr rs b ds)

has_addr-erase_addr :
    (addr r : List ℕ) (rs : List (List ℕ))
    → has_addr r rs ≡ false
    → has_addr r (erase_addr addr rs) ≡ false
unfolding has_addr erase_addr
has_addr-erase_addr addr r [] h = refl
has_addr-erase_addr addr r (q ∷ rs) h =
    let (a, b) = or_false (str_eq q r) (has_addr r rs) h in
    elim (Bool-cases (str_eq q addr)) [
      | inl t ↦ rw t b
      | inr t ↦ rw (t, a) (has_addr-erase_addr addr r rs b)
    ]

erase_addr_gone :
    (addr : List ℕ) (rs : List (List ℕ))
    → Distinct rs
    → (has_addr addr (erase_addr addr rs) ≡ false) × Distinct (erase_addr addr rs)
unfolding has_addr erase_addr
erase_addr_gone addr [] d = (refl, tt)
erase_addr_gone addr (r ∷ rs) (d, ds) = elim (Bool-cases (str_eq r addr)) [
  | inl t ↦ rw t (subst (λ k. has_addr k rs ≡ false) (str_eq→eq r addr t) d, ds)
  | inr t ↦
      let (gone, left) = erase_addr_gone addr rs ds in
      rw t (rw t gone, (has_addr-erase_addr addr r rs d, left))
]

pick_replica_keeps : {P : Type 0} (s : Coordinator P) → (pick_replica s).1.replicas ≡ s.replicas
unfolding pick_replica
pick_replica_keeps s = elim (Bool-cases (is_empty s.replicas)) [
  | inl t ↦ rw t refl
  | inr t ↦ rw t refl
]

-- The calls that change what the coordinator knows.
pub data Call : Type 0 where
  register : List ℕ → Bool → Call
  promote : List ℕ → List ℕ → Call
  read : Call

module _ {P : Type 0} (evict : P → List ℕ → P) where
  abbrev pub call : Call → Coordinator P → Coordinator P
  call (Call.register addr is_leader) s = register_node addr is_leader s
  call (Call.promote old_addr new_addr) s = notify_leader evict old_addr new_addr s
  call Call.read s = (pick_replica s).1

  abbrev pub run : List Call → Coordinator P → Coordinator P
  run [] s = s
  run (c ∷ cs) s = run cs (call c s)

  Distinct-call :
      (c : Call) (s : Coordinator P) → Distinct s.replicas → Distinct (call c s).replicas
  unfolding register_node notify_leader pick_replica
  Distinct-call (Call.register addr is_leader) s d = elim (Bool-cases (has_addr addr s.replicas)) [
    | inl t ↦ rw t d
    | inr t ↦ rw t (Distinct-append addr s.replicas t d)
  ]
  Distinct-call (Call.promote old_addr new_addr) s d = (erase_addr_gone old_addr s.replicas d).1
  Distinct-call Call.read s d = subst Distinct (sym (pick_replica_keeps s)) d

  Distinct-run :
      (cs : List Call) (s : Coordinator P) → Distinct s.replicas → Distinct (run cs s).replicas
  Distinct-run [] s d = d
  Distinct-run (c ∷ cs) s d = Distinct-run cs (call c s) (Distinct-call c s d)

-- After any calls on a new coordinator it knows each replica once, and a leader that another one
-- replaces is no replica of it any more.
pub notify_leader-run :
    {P : Type 0} (evict : P → List ℕ → P) (token : List ℕ) (pool : P) (cs : List Call)
    (old_addr new_addr : List ℕ)
    → Distinct (run evict cs (make token pool)).replicas
      × (has_addr old_addr
            (notify_leader evict old_addr new_addr (run evict cs (make token pool))).replicas
          ≡ false)
unfolding notify_leader
notify_leader-run evict token pool cs old_addr new_addr =
    let d = Distinct-run evict cs (make token pool) tt in (d, (erase_addr_gone old_addr _ d).0)

has_addr-get_or : (rs : List (List ℕ)) (i : ℕ) → i < length rs → has_addr (get_or rs i []) rs ≡ true
unfolding has_addr
has_addr-get_or [] i h = absurd (omega arith)
has_addr-get_or (r ∷ rs) zero h = rw (str_eq_refl r) refl
has_addr-get_or (r ∷ rs) (suc i) h = let e = has_addr-get_or rs i (omega arith) in ground (arith, e)

-- What `execute` does: an error without a call of the pool, or one call, whose answer it passes on.
abbrev pub Routed {ℓ} :
    {P : Type 0} {R : Type ℓ}
    → (P → List ℕ → List ℕ → List ℕ → Result R × P)
    → List ℕ
    → Coordinator P
    → Result R × Coordinator P
    → Type ℓ
Routed {R = R} pool_execute sql s (answer, next) =
    ((message : List ℕ) × (answer ≡ Result.err message)
      × (next.pool ≡ s.pool)
      × (next.replicas ≡ s.replicas)
      × (((is_write sql ≡ true) × (is_empty s.leader_addr ≡ true))
          ⊎ ((is_write sql ≡ false) × (is_empty (pick_replica s).0 ≡ true))))
    ⊎ ((addr : List ℕ) × (answer ≡ (pool_execute s.pool addr s.token sql).0)
        × (next.pool ≡ (pool_execute s.pool addr s.token sql).1)
        × (next.replicas ≡ s.replicas)
        × (((is_write sql ≡ true) × (addr ≡ s.leader_addr))
            ⊎ ((is_write sql ≡ false) × (has_addr addr s.replicas ≡ true))))

picked_known :
    {P : Type 0} (s : Coordinator P)
    → is_empty s.replicas ≡ false
    → has_addr (get_or s.replicas (s.rr_idx % length s.replicas) []) s.replicas ≡ true
picked_known s e = has_addr-get_or s.replicas _ (mod-lt s.rr_idx (not_empty s.replicas e))
  where
    not_empty : (rs : List (List ℕ)) → is_empty rs ≡ false → 0 < length rs
    not_empty [] h = absurd (ground arith)
    not_empty (r ∷ rs) h = omega arith

-- `execute` sends a write to the leader, or fails if none is known; it sends a read to a registered
-- replica, or fails if the round gives none. It makes one call of the pool, whose answer it returns,
-- or none when it fails, and the replicas stay as they are.
pub execute-Routed {ℓ} :
    {P : Type 0} {R : Type ℓ} (pool_execute : P → List ℕ → List ℕ → List ℕ → Result R × P)
    (sql : List ℕ) (s : Coordinator P)
    → Routed pool_execute sql s (execute pool_execute sql s)
unfolding execute
execute-Routed pool_execute sql s = elim (Bool-cases (is_write sql)) [
  | inl w ↦ elim (Bool-cases (is_empty s.leader_addr)) [
    | inl t ↦ rw (w, t, Routed) (inl (_, refl, refl, refl, inl (refl, refl)))
    | inr t ↦ rw (w, t, Routed) (inr (s.leader_addr, refl, refl, refl, inl (refl, refl)))
  ]
  | inr w ↦ elim (Bool-cases (is_empty s.replicas)) [
    | inl t ↦ rw (w, t, Routed) (inl (_, refl, refl, refl, inr (refl, refl)))
    | inr t ↦
        let addr : List ℕ = get_or s.replicas (s.rr_idx % length s.replicas) [] in
        elim (Bool-cases (is_empty addr)) [
          | inl u ↦ rw (w, t, u, Routed) (inl (_, refl, refl, refl, inr (refl, refl)))
          | inr u ↦
              rw (w, t, u, Routed) (inr (addr, refl, refl, refl, inr (refl, picked_known s t)))
        ]
  ]
]
