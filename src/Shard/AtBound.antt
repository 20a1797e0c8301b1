-- ===== src/Shard/AtBound.antt =====
-- `WHERE key <= literal` with a literal that is a partition's bound.
use Prim.Native.Nat.{Ordering}
use nyxdb.Base.{ℕ, ◌≡◌, Bool, false, List, ◌∷◌, some, arith, contains}
use nyxdb.Value.{Value, TypeId}
use nyxdb.Shard.Defs.{
  BinaryOpKind, PartitionDef, ShardMapMeta, compare_values, prune_loop, prune_partitions,
  shard_loop, shard_for_value, keeps,
}
use nyxdb.Shard.Typed.{F64Laws, HasType, HasType-Compares}
use nyxdb.Shard.Prune.{BoundsOf, pruned, prune_loop-pruned, pruned_ge}
use nyxdb.Shard.Routing.{not-null}

module _ (f64_lt : ℕ → ℕ → Bool) (is_nan : ℕ → Bool) (laws : F64Laws f64_lt is_nan) where
  -- Where the literal equals the first bound and is below the second, `<=` holds at the literal
  -- itself, whose rows lie in partition 1; `prune_partitions` succeeds and leaves partition 1 out.
  pub prune_partitions_le_bound :
      (t : TypeId) (meta : ShardMapMeta) (l : Value) (p q : PartitionDef) (r : List PartitionDef)
      → meta.partitions ≡ p ∷ q ∷ r
      → HasType is_nan t l
      → p.is_maxvalue ≡ false
      → q.is_maxvalue ≡ false
      → HasType is_nan t p.upper_bound
      → HasType is_nan t q.upper_bound
      → BoundsOf (HasType is_nan t) r
      → compare_values f64_lt l p.upper_bound ≡ some Ordering.eq
      → compare_values f64_lt p.upper_bound l ≡ some Ordering.eq
      → compare_values f64_lt l q.upper_bound ≡ some Ordering.lt
      → (out : List ℕ) × (shard_for_value f64_lt meta l ≡ some 1)
        × (prune_partitions f64_lt meta meta.partition_col_idx BinaryOpKind.le l ≡ some out)
        × (contains 1 out ≡ false)
  unfolding shard_for_value prune_partitions shard_loop prune_loop keeps
  prune_partitions_le_bound t meta l p q r parts hl mp mq hp hq b e e' lt =
      let C = HasType-Compares f64_lt is_nan laws t in
      let rest = pruned f64_lt C BinaryOpKind.le l 2 (some q.upper_bound) r in
      (
        0 ∷ rest,
        rw parts (ground (arith, not-null is_nan t l hl)),
        rw parts (
            ground (
              arith,
              prune_loop-pruned f64_lt C BinaryOpKind.le l 2 (some q.upper_bound) r hl hq b,
            )),
        ground (arith, pruned_ge f64_lt C BinaryOpKind.le l 2 1 (some q.upper_bound) r),
      )
