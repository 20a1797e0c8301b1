-- ===== src/Shard/Routing.antt =====
-- The partitions that a SELECT is sent to, against the partition that holds a row.
use Prim.Native.Nat.{Ordering}
use nyxdb.Base.{
  ℕ, ◌+◌, ◌-◌, ◌%◌, ◌<◌, ◌≡◌, refl, subst, ◌⊎◌, inl, inr, Bool, true, false, List, [], ◌∷◌, none,
  some, arith, length, contains, Option-cases,
}
use nyxdb.Base.Words.{u64_mod}
use nyxdb.Value.{Value, TypeId, is_null}
use nyxdb.Shard.Defs.{
  BinaryOpKind, PartitionDef, ShardMapMeta, compare_values, prune_loop, prune_partitions, or_all,
  indices, shard_loop, shard_for_value,
}
use nyxdb.Shard.Typed.{Compares, F64Laws, HasType, HasType-Compares}
use nyxdb.Shard.Kept.{Holds}
use nyxdb.Shard.Prune.{
  BoundsOf, ClearOf, Ascending, or_last, last_of, pruned, found, prune_loop-pruned,
  shard_loop-found, found-pruned, last-pruned, last_of-length, indices_complete,
}

or_all_some :
    (n : ℕ) (all out : List ℕ) → contains n out ≡ true → contains n (or_all all out) ≡ true
or_all_some n all [] h = cc
or_all_some n all (i ∷ out) h = h

or_all_last :
    (n : ℕ) (all out : List ℕ)
    → contains n all ≡ true
    → (out ≡ []) ⊎ (contains n out ≡ true)
    → contains n (or_all all out) ≡ true
or_all_last n all [] a h = a
or_all_last n all (i ∷ out) a (inl e) = cc
or_all_last n all (i ∷ out) a (inr h) = h

module _ (f64_lt : ℕ → ℕ → Bool) {P : Value → Type 0} (C : Compares (compare_values f64_lt) P) where
  open C use {order, total}

  -- The loops together, at the end of the list.
  shard-pruned :
      (op : BinaryOpKind) (v l : Value) (p : PartitionDef) (ps : List PartitionDef)
      → P v
      → P l
      → BoundsOf P (p ∷ ps)
      → ClearOf f64_lt op l (p ∷ ps)
      → Ascending f64_lt (p ∷ ps)
      → Holds op (order v l)
      → contains
          (or_last (length ps) (found f64_lt C v 0 (p ∷ ps)))
          (or_all (indices 0 (p ∷ ps)) (pruned f64_lt C op l 0 none (p ∷ ps)))
        ≡ true
  shard-pruned op v l p ps pv pl b c a h = elim (Option-cases (found f64_lt C v 0 (p ∷ ps))) [
    | inl e ↦
        let n : length ps ≡ last_of 0 (p ∷ ps) = omega (arith, last_of-length 0 p ps) in
        rw (e, n)
          (or_all_last _ _ _
            (indices_complete 0 _ (p ∷ ps) (omega arith) (omega (arith, last_of-length 0 p ps)))
            (last-pruned f64_lt C op v l pv pl h 0 none p ps tt b c a e))
    | inr (j, e) ↦
        rw e (
          or_all_some j _ _ (found-pruned f64_lt C op v l pv pl h 0 j none (p ∷ ps) tt b tt c tt e))
  ]

pub not-null : (is_nan : ℕ → Bool) (t : TypeId) (v : Value) → HasType is_nan t v → is_null v ≡ false
unfolding is_null
not-null is_nan TypeId.invalid Value.monostate h = elim h [ ]
not-null is_nan _ Value.monostate h = elim h [ ]
not-null is_nan t (Value.i32 a) h = refl
not-null is_nan t _ h = refl

module _ (f64_lt : ℕ → ℕ → Bool) (is_nan : ℕ → Bool) (laws : F64Laws f64_lt is_nan) where
  partitions_cases :
      (t : TypeId) (op : BinaryOpKind) (v l : Value) (o : Ordering) (ps : List PartitionDef)
      → HasType is_nan t v
      → HasType is_nan t l
      → BoundsOf (HasType is_nan t) ps
      → ClearOf f64_lt op l ps
      → Ascending f64_lt ps
      → 0 < length ps
      → length ps < u64_mod
      → compare_values f64_lt v l ≡ some o
      → Holds op o
      → (s : ℕ) × (out : List ℕ) × (shard_loop f64_lt v ((length ps + u64_mod - 1) % u64_mod) 0 ps
          ≡ some s)
        × (prune_loop f64_lt op l 0 none ps ≡ some out)
        × (contains s (or_all (indices 0 ps) out) ≡ true)
  partitions_cases t op v l o [] hv hl b c a n m e h = absurd (omega arith)
  partitions_cases t op v l o (p ∷ ps) hv hl b c a n m e h =
      let C = HasType-Compares f64_lt is_nan laws t in
      let w : (length (p ∷ ps) + u64_mod - 1) % u64_mod ≡ length ps = omega arith in
      let q : Holds op (C.order v l) = subst (Holds op) (ground (arith, C.total v l hv hl)) h in
      (
        or_last (length ps) (found f64_lt C v 0 (p ∷ ps)),
        pruned f64_lt C op l 0 none (p ∷ ps),
        rw w (shard_loop-found f64_lt C v (length ps) 0 (p ∷ ps) hv (not-null is_nan t v hv) b),
        prune_loop-pruned f64_lt C op l 0 none (p ∷ ps) hl tt b,
        shard-pruned f64_lt C op v l p ps hv hl b c a q,
      )

  -- Over ascending bounds of one type, `prune_partitions` on the partition column keeps the
  -- partition that `shard_for_value` gives for each value `v` with `v op literal`, unless `op` is
  -- `<=` and the literal is itself a bound. Neither call throws.
  pub prune_partitions-shard_for_value :
      (t : TypeId) (meta : ShardMapMeta) (op : BinaryOpKind) (v l : Value) (o : Ordering)
      → HasType is_nan t v
      → HasType is_nan t l
      → BoundsOf (HasType is_nan t) meta.partitions
      → ClearOf f64_lt op l meta.partitions
      → Ascending f64_lt meta.partitions
      → 0 < length meta.partitions
      → length meta.partitions < u64_mod
      → compare_values f64_lt v l ≡ some o
      → Holds op o
      → (s : ℕ) × (out : List ℕ) × (shard_for_value f64_lt meta v ≡ some s)
        × (prune_partitions f64_lt meta meta.partition_col_idx op l ≡ some out)
        × (contains s out ≡ true)
  unfolding shard_for_value prune_partitions
  prune_partitions-shard_for_value t meta op v l o hv hl b c a n m e h =
      let (s, out, found_s, pruned_out, holds) =
        partitions_cases t op v l o meta.partitions hv hl b c a n m e h in
      (s, or_all (indices 0 meta.partitions) out, found_s, ground (arith, pruned_out), holds)
