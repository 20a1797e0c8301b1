-- ===== src/Shard/Defs.antt =====
-- `ShardMapMeta`, `compare_values`, `shard_for_value` and `prune_partitions`.
use Prim.Native.Nat.{Ordering}
use nyxdb.Base.{
  ℕ, suc, ◌+◌, ◌-◌, ◌%◌, Bool, true, false, not, ◌&&◌, List, [], ◌∷◌, Option, none, some, ◌==◌,
  if◌then◌else◌, length, ◌>>=◌,
}
use nyxdb.Base.Int.{ltb_ℤ}
use nyxdb.Base.Words.{u64_mod}
use nyxdb.Value.{Value, is_null}
use nyxdb.Value.Order.{cmp_val, bool_lt, bytes_lt}

pub data BinaryOpKind : Type 0 where
  add sub mul div lt le eq ge gt ne : BinaryOpKind

pub record PartitionDef : Type 0 where
  pub name : List ℕ
  pub is_maxvalue : Bool
  pub upper_bound : Value
  pub node_addr : List ℕ

pub record ShardMapMeta : Type 0 where
  pub partition_col : List ℕ
  pub partition_col_idx : ℕ
  pub partitions : List PartitionDef

abbrev pub is_lt : Ordering → Bool
is_lt Ordering.lt = true
is_lt _ = false

abbrev pub is_gt : Ordering → Bool
is_gt Ordering.gt = true
is_gt _ = false

-- The indices of all partitions, from `i` on.
unfoldable pub indices : ℕ → List PartitionDef → List ℕ
indices i [] = []
indices i (p ∷ ps) = i ∷ indices (suc i) ps

-- `out.empty() ? all : out`
abbrev pub or_all : List ℕ → List ℕ → List ℕ
or_all all [] = all
or_all all (i ∷ out) = i ∷ out

-- `f64_lt` is `<` on the bit patterns of doubles.
module _ (f64_lt : ℕ → ℕ → Bool) where
  -- `none` is the exception that `std::get` throws where the two values differ in type.
  unfoldable pub compare_values : Value → Value → Option Ordering
  unfolding cmp_val
  compare_values Value.monostate b = some Ordering.eq
  compare_values (Value.i32 a) (Value.i32 b) = some (cmp_val ltb_ℤ a b)
  compare_values (Value.i64 a) (Value.i64 b) = some (cmp_val ltb_ℤ a b)
  compare_values (Value.f64 a) (Value.f64 b) = some (cmp_val f64_lt a b)
  compare_values (Value.string a) (Value.string b) = some (cmp_val bytes_lt a b)
  compare_values (Value.boolean a) (Value.boolean b) = some (cmp_val bool_lt a b)
  compare_values (Value.date a) (Value.date b) = some (cmp_val ltb_ℤ a b)
  compare_values (Value.timestamp a) (Value.timestamp b) = some (cmp_val ltb_ℤ a b)
  compare_values _ _ = none

  -- The tests of the switch; `prev` is the bound of the partition before, if there is one.
  unfoldable pub at_most : Option Value → Value → Option Bool
  at_most none literal = some true
  at_most (some u) literal = do o ← compare_values u literal; some (not (is_gt o))

  unfoldable pub below : Option Value → Value → Option Bool
  below none literal = some true
  below (some u) literal = do o ← compare_values u literal; some (is_lt o)

  unfoldable pub keeps : BinaryOpKind → Option Value → Value → Value → Option Bool
  unfolding at_most below
  keeps BinaryOpKind.eq prev upper literal = do
    lower_ok ← at_most prev literal
    o ← compare_values literal upper
    some (lower_ok && is_lt o)
  keeps BinaryOpKind.lt prev upper literal = below prev literal
  keeps BinaryOpKind.le prev upper literal = below prev literal
  keeps BinaryOpKind.gt prev upper literal = do o ← compare_values upper literal; some (is_gt o)
  keeps BinaryOpKind.ge prev upper literal = do o ← compare_values upper literal; some (is_gt o)
  keeps _ prev upper literal = some true

  -- The loop of `prune_partitions` from partition `i` on: what it pushes to `out`.
  unfoldable pub prune_loop :
      BinaryOpKind → Value → ℕ → Option Value → List PartitionDef → Option (List ℕ)
  prune_loop op literal i prev [] = some []
  prune_loop op literal i prev (p ∷ ps) = if p.is_maxvalue then some (i ∷ []) else do
    keep ← keeps op prev p.upper_bound literal
    rest ← prune_loop op literal (suc i) (some p.upper_bound) ps
    some (if keep then i ∷ rest else rest)

  unfoldable pub prune_partitions : ShardMapMeta → ℕ → BinaryOpKind → Value → Option (List ℕ)
  unfolding indices
  prune_partitions meta predicate_col_idx op literal =
      let all = indices 0 meta.partitions in
      if predicate_col_idx == meta.partition_col_idx
      then (do out ← prune_loop op literal 0 none meta.partitions; some (or_all all out))
      else some all

  -- The loop of `shard_for_value` from partition `i` on.
  unfoldable pub shard_loop : Value → ℕ → ℕ → List PartitionDef → Option ℕ
  unfolding is_null
  shard_loop val last i [] = some last
  shard_loop val last i (p ∷ ps) =
      let rest = shard_loop val last (suc i) ps in
      if p.is_maxvalue
      then some i
      else if is_null val
      then rest
      else do o ← compare_values val p.upper_bound; if is_lt o then some i else rest

  -- `size() - 1` wraps where there is no partition.
  unfoldable pub shard_for_value : ShardMapMeta → Value → Option ℕ
  shard_for_value meta val =
      shard_loop val ((length meta.partitions + u64_mod - 1) % u64_mod) 0 meta.partitions
