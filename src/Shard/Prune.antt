-- ===== src/Shard/Prune.antt =====
-- The loops of `prune_partitions` and `shard_for_value` side by side, over a total comparison.
use Prim.Native.Nat.{Ordering}
use nyxdb.Base.{
  ℕ, suc, ◌+◌, ◌≤◌, ◌<◌, ◌≡◌, refl, ◌≢◌, ◌⊎◌, inl, inr, Bool, true, false, List, [], ◌∷◌, Option,
  none, some, arith, if◌then◌else◌, length, contains, Bool-cases,
}
use nyxdb.Value.{Value, is_null}
use nyxdb.Shard.Defs.{
  BinaryOpKind, PartitionDef, compare_values, is_lt, prune_loop, indices, shard_loop,
}
use nyxdb.Shard.Typed.{Compares}
use nyxdb.Shard.Kept.{Holds, Clear, OnBound, kept, keeps-kept, kept_found, kept_next}

-- Every bound that is not MAXVALUE is of the column's type.
abbrev pub BoundsOf : (Value → Type 0) → List PartitionDef → Type 0
BoundsOf P [] = Unit {0}
BoundsOf P (p ∷ ps) = ((p.is_maxvalue ≡ true) ⊎ P p.upper_bound) × BoundsOf P ps

module _ (f64_lt : ℕ → ℕ → Bool) where
  -- No bound equals the literal, where the operator is `<=`.
  abbrev pub ClearOf : BinaryOpKind → Value → List PartitionDef → Type 0
  ClearOf op l [] = Unit {0}
  ClearOf op l (p ∷ ps) =
      ((p.is_maxvalue ≡ true) ⊎ Clear op (compare_values f64_lt p.upper_bound l)) × ClearOf op l ps

  -- No bound is below the one before it.
  abbrev pub Ascending : List PartitionDef → Type 0
  Ascending [] = Unit {0}
  Ascending (p ∷ []) = Unit {0}
  Ascending (p ∷ q ∷ r) =
      ((q.is_maxvalue ≡ true)
        ⊎ (compare_values f64_lt q.upper_bound p.upper_bound ≢ some Ordering.lt))
      × Ascending (q ∷ r)

abbrev pub or_last : ℕ → Option ℕ → ℕ
or_last last none = last
or_last last (some i) = i

abbrev pub last_of : ℕ → List PartitionDef → ℕ
last_of i [] = i
last_of i (p ∷ []) = i
last_of i (p ∷ q ∷ r) = last_of (suc i) (q ∷ r)

module _ (f64_lt : ℕ → ℕ → Bool) {P : Value → Type 0} (C : Compares (compare_values f64_lt) P) where
  open C use {order, total}

  -- The loops with the exceptions gone.
  pub pruned : BinaryOpKind → Value → ℕ → Option Value → List PartitionDef → List ℕ
  pruned op l i prev [] = []
  pruned op l i prev (p ∷ ps) =
      let rest = pruned op l (suc i) (some p.upper_bound) ps in
      if p.is_maxvalue
      then i ∷ []
      else (if kept f64_lt C op prev p.upper_bound l then i ∷ rest else rest)

  pub found : Value → ℕ → List PartitionDef → Option ℕ
  found v i [] = none
  found v i (p ∷ ps) =
      let rest = found v (suc i) ps in
      if p.is_maxvalue then some i else (if is_lt (order v p.upper_bound) then some i else rest)

  pub prune_loop-pruned :
      (op : BinaryOpKind) (l : Value) (i : ℕ) (prev : Option Value) (ps : List PartitionDef)
      → P l
      → OnBound P prev
      → BoundsOf P ps
      → prune_loop f64_lt op l i prev ps ≡ some (pruned op l i prev ps)
  unfolding prune_loop pruned
  prune_loop-pruned op l i prev [] pl pp b = refl
  prune_loop-pruned op l i prev (p ∷ ps) pl pp (inl e, b) = rw e
  prune_loop-pruned op l i prev (p ∷ ps) pl pp (inr q, b) = ground (
    arith,
    keeps-kept f64_lt C op prev p.upper_bound l pp q pl,
    prune_loop-pruned op l (suc i) (some p.upper_bound) ps pl q b,
  )

  pub shard_loop-found :
      (v : Value) (last i : ℕ) (ps : List PartitionDef)
      → P v
      → is_null v ≡ false
      → BoundsOf P ps
      → shard_loop f64_lt v last i ps ≡ some (or_last last (found v i ps))
  unfolding shard_loop found
  shard_loop-found v last i [] pv n b = refl
  shard_loop-found v last i (p ∷ ps) pv n (inl e, b) = rw e
  shard_loop-found v last i (p ∷ ps) pv n (inr q, b) =
      ground (arith, total v p.upper_bound pv q, shard_loop-found v last (suc i) ps pv n b)

  module _ (op : BinaryOpKind) (v l : Value) (pv : P v) (pl : P l) (h : Holds op (order v l)) where
    abbrev pub Above : Option Value → Type 0
    Above prev = OnBound (λ a. order v a ≢ Ordering.lt) prev

    Clear-order :
        (u : Value) → P u → Clear op (compare_values f64_lt u l) → Clear op (some (order u l))
    Clear-order u q k = rw (total u l q pl) at k

    pub found-pruned :
        (i j : ℕ) (prev : Option Value) (ps : List PartitionDef)
        → OnBound P prev
        → BoundsOf P ps
        → OnBound (λ a. Clear op (some (order a l))) prev
        → ClearOf f64_lt op l ps
        → Above prev
        → found v i ps ≡ some j
        → contains j (pruned op l i prev ps) ≡ true
    unfolding found pruned
    found-pruned i j prev [] pp b c cs lo e = cc
    found-pruned i j prev (p ∷ ps) pp (inl m, b) c (k, cs) lo e = ground arith
    found-pruned i j prev (p ∷ ps) pp (inr q, b) c (inl m, cs) lo e = ground arith
    found-pruned i j prev (p ∷ ps) pp (inr q, b) c (inr k, cs) lo e =
        elim (Bool-cases (is_lt (order v p.upper_bound))) [
          | inl hit ↦
              ground (arith, kept_found f64_lt C v l pv pl op prev p.upper_bound pp q h c lo)
          | inr miss ↦ ground (
            arith,
            found-pruned (suc i) j (some p.upper_bound) ps q b (Clear-order p.upper_bound q k) cs
                (ground arith),
          )
        ]

    abbrev pub LastIn : ℕ → List ℕ → Type 0
    LastIn n out = (out ≡ []) ⊎ (contains n out ≡ true)

    -- Where no partition takes the value, either nothing is kept or the last partition is.
    pub last-pruned :
        (i : ℕ) (prev : Option Value) (p : PartitionDef) (ps : List PartitionDef)
        → OnBound P prev
        → BoundsOf P (p ∷ ps)
        → ClearOf f64_lt op l (p ∷ ps)
        → Ascending f64_lt (p ∷ ps)
        → found v i (p ∷ ps) ≡ none
        → LastIn (last_of i (p ∷ ps)) (pruned op l i prev (p ∷ ps))
    unfolding found pruned
    last-pruned i prev p [] pp b c a e = ground arith
    last-pruned i prev p (q ∷ r) pp (inl m, b) c a e = absurd (ground arith)
    last-pruned i prev p (q ∷ r) pp (inr w, b) (inl m, c) a e = absurd (ground arith)
    last-pruned i prev p (q ∷ r) pp (inr w, (inl m', b)) (inr k, c) a e = absurd (ground arith)
    last-pruned i prev p (q ∷ r) pp (inr w, (inr w', b)) (inr k, c) (inl m, a) e =
        absurd (ground arith)
    last-pruned i prev p (q ∷ r) pp (inr w, (inr w', b)) (inr k, c) (inr up, a) e = ground (
      arith,
      last-pruned (suc i) (some p.upper_bound) q r w (inr w', b) c a,
      kept_next f64_lt C v l pv pl op prev p.upper_bound q.upper_bound w w' h
          (Clear-order p.upper_bound w k),
      total q.upper_bound p.upper_bound w' w,
    )

pub last_of-length :
    (i : ℕ) (p : PartitionDef) (ps : List PartitionDef) → last_of i (p ∷ ps) ≡ i + length ps
last_of-length i p [] = omega arith
last_of-length i p (q ∷ r) = omega (arith, last_of-length (suc i) q r)

pub indices_complete :
    (i j : ℕ) (ps : List PartitionDef)
    → i ≤ j
    → j < i + length ps
    → contains j (indices i ps) ≡ true
unfolding indices
indices_complete i j [] h k = absurd (omega arith)
indices_complete i j (p ∷ ps) h k = ground (arith, indices_complete (suc i) j ps)

pub pruned_ge :
    (f64_lt : ℕ → ℕ → Bool) {P : Value → Type 0} (C : Compares (compare_values f64_lt) P)
    (op : BinaryOpKind) (l : Value) (i j : ℕ) (prev : Option Value) (ps : List PartitionDef)
    → j < i
    → contains j (pruned f64_lt C op l i prev ps) ≡ false
unfolding pruned
pruned_ge f64_lt C op l i j prev [] h = refl
pruned_ge f64_lt C op l i j prev (p ∷ ps) h =
    ground (arith, pruned_ge f64_lt C op l (suc i) j (some p.upper_bound) ps)
