-- ===== src/Memory/LruK/Calls.antt =====
-- The replacer as its clients see it: any sequence of calls.
use nyxdb.Base.{
  ℕ, ◌+◌, ◌≤◌, ◌<◌, ◌≡◌, refl, ◌∙◌, true, false, List, [], ◌∷◌, some, none, arith, length, ◌==◌,
  All, Bool-cases, ◌⊎◌, inl, inr, length-set,
}
use nyxdb.Base.Words.{u32_mod, u64_mod}
use nyxdb.Memory.LruK.{
  LruKReplacer, blank_frame, frame, make, pin, unpin, record_access, remove, size, victim,
}
use nyxdb.Memory.LruK.Counting.{is_candidate, count, count-blank}
use nyxdb.Memory.LruK.Invariant.{
  IsValid, pin-IsValid, unpin-IsValid, remove-IsValid, record_access-IsValid, make-IsValid,
}
use nyxdb.Memory.LruK.Victim.{Precedes, victim-Precedes, victim_cases}

pub data Call : Type 0 where
  pins unpins accesses removes : ℕ → Call
  evicts : Call

unfoldable pub step : LruKReplacer → Call → LruKReplacer
step r (Call.pins id) = pin r id
step r (Call.unpins id) = unpin r id
step r (Call.accesses id) = record_access r id
step r (Call.removes id) = remove r id
step r Call.evicts = (victim r).1

unfoldable pub run : LruKReplacer → List Call → LruKReplacer
run r [] = r
run r (c ∷ cs) = run (step r c) cs

abbrev pub InRange : ℕ → Call → Type 0
InRange n (Call.accesses id) = id < n
InRange n _ = Unit {0}

make_shape : (n k : ℕ) → (length (make n k).frames ≡ n) × ((make n k).counter ≡ 0)
unfolding make
make_shape n k = ((count-blank n).1, refl)

victim_empty : (r : LruKReplacer) → r.evictable_count ≡ 0 → victim r ≡ (none, r)
unfolding victim
victim_empty r e = ground arith

victim-IsValid : (r : LruKReplacer) → IsValid r → IsValid (victim r).1
victim-IsValid r v = elim (Bool-cases (r.evictable_count == 0)) [
  | inl e ↦ rw (victim_empty r (ground arith)) v
  | inr e ↦ let (i, out, _, _) = victim-Precedes r v (ground arith) in rw out (remove-IsValid r i v)
]

step-IsValid :
    (r : LruKReplacer) (c : Call)
    → IsValid r
    → InRange (length r.frames) c
    → r.counter + 1 < u64_mod
    → IsValid (step r c)
unfolding step
step-IsValid r (Call.pins id) v h w = pin-IsValid r id v
step-IsValid r (Call.unpins id) v h w = unpin-IsValid r id v
step-IsValid r (Call.accesses id) v h w = record_access-IsValid r id v h w
step-IsValid r (Call.removes id) v h w = remove-IsValid r id v
step-IsValid r Call.evicts v h w = victim-IsValid r v

remove_shape :
    (r : LruKReplacer) (id : ℕ)
    → (length (remove r id).frames ≡ length r.frames) × ((remove r id).counter ≡ r.counter)
unfolding remove
remove_shape r id = ground (arith, length-set r.frames id blank_frame)

-- A call keeps the number of frames and counts at most one access.
abbrev Follows : LruKReplacer → LruKReplacer → Type 0
Follows r r' = (length r'.frames ≡ length r.frames) × (r'.counter ≤ r.counter + 1)

pin-Follows : (r : LruKReplacer) (id : ℕ) → Follows r (pin r id)
unfolding pin
pin-Follows r id =
    ground (arith, length-set r.frames id (record (frame r id) { evictable = false }))

unpin-Follows : (r : LruKReplacer) (id : ℕ) → Follows r (unpin r id)
unfolding unpin
unpin-Follows r id =
    ground (arith, length-set r.frames id (record (frame r id) { evictable = true }))

record_access-Follows : (r : LruKReplacer) (id : ℕ) → Follows r (record_access r id)
unfolding record_access
record_access-Follows r id = (length-set r.frames id _, omega arith)

step-Follows : (r : LruKReplacer) (c : Call) → Follows r (step r c)
unfolding step
step-Follows r (Call.pins id) = pin-Follows r id
step-Follows r (Call.unpins id) = unpin-Follows r id
step-Follows r (Call.accesses id) = record_access-Follows r id
step-Follows r (Call.removes id) = let (a, b) = remove_shape r id in (a, omega arith)
step-Follows r Call.evicts = elim (victim_cases r) [
  | inl e ↦ rw (e, step) (refl, omega arith)
  | inr (i, e) ↦ let (a, b) = remove_shape r i in rw (e, step) (a, omega arith)
]

run-IsValid :
    (n : ℕ) (r : LruKReplacer) (cs : List Call)
    → IsValid r
    → length r.frames ≡ n
    → All (InRange n) cs
    → r.counter + length cs < u64_mod
    → IsValid (run r cs)
unfolding run
run-IsValid n r [] v e h w = v
run-IsValid n r (c ∷ cs) v e h w =
    let (same, more) = step-Follows r c in
    run-IsValid n (step r c) cs (step-IsValid r c v (rw e h.0) (omega arith)) (same ∙ e) h.1
      (omega arith)

-- After any calls on a new replacer, with k above 0, frames in its range and fewer than 2^64 calls,
-- each frame remembers at most k accesses and `size` is the
-- number of the frames that are tracked and not pinned; `victim` then gives nothing if there is
-- no such frame, and otherwise removes one of them that precedes all the others.
pub run-victim :
    (n k : ℕ) (cs : List Call)
    → 0 < k
    → n < u32_mod
    → All (InRange n) cs
    → length cs < u64_mod
    → let r = run (make n k) cs in
      IsValid r
      × (size r ≡ count r.frames)
      × (((size r ≡ 0) × (victim r ≡ (none, r)))
          ⊎ ((i : ℕ) × (victim r ≡ (some i, remove r i))
              × (is_candidate (frame r i) ≡ true)
              × ((j : ℕ) → is_candidate (frame r j) ≡ true → Precedes r.k (frame r i) (frame r j))))
unfolding size
run-victim n k cs p h a w =
    let r = run (make n k) cs in
    let v : IsValid r =
      run-IsValid n (make n k) cs (make-IsValid n k p h) (make_shape n k).0 a
        (omega (arith, (make_shape n k).1)) in
    (
      v,
      v.counted,
      elim (Bool-cases (r.evictable_count == 0)) [
        | inl e ↦ inl (ground arith, victim_empty r (ground arith))
        | inr e ↦ inr (victim-Precedes r v (ground arith))
      ],
    )
