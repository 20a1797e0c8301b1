-- ===== src/Shard/Tests.antt =====
-- The properties of the shard map at concrete maps.
use Prim.Native.Nat.{Ordering}
use nyxdb.Base.{
  ℕ, ◌≡◌, refl, inl, inr, Bool, true, false, List, [], ◌∷◌, some, arith, ltb, contains,
}
use nyxdb.Base.Int.{pos, negsuc}
use nyxdb.Value.{Value, TypeId}
use nyxdb.Bytes.Reader.{ok}
use nyxdb.Shard.Defs.{
  BinaryOpKind, PartitionDef, ShardMapMeta, compare_values, prune_partitions, shard_for_value,
  prune_loop, shard_loop, keeps,
}
use nyxdb.Shard.Typed.{F64Laws}
use nyxdb.Shard.Routing.{prune_partitions-shard_for_value}
use nyxdb.Shard.AtBound.{prune_partitions_le_bound}
use nyxdb.Shard.File.{read, write}
use nyxdb.Shard.File.RoundTrip.{read-write}

-- Doubles compared as their bit patterns, which is right for those that are not negative.
abbrev pattern_lt : ℕ → ℕ → Bool
pattern_lt a b = ltb a b

abbrev no_nan : ℕ → Bool
no_nan a = false

pattern_laws : F64Laws pattern_lt no_nan
pattern_laws = record { asymm = λ a b h. ground arith; cotrans = λ a b c p h. ground arith }

abbrev p0 : PartitionDef
p0 = record {
  name = b'a' ∷ [];
  is_maxvalue = false;
  upper_bound = Value.i32 (pos 100);
  node_addr = b'x' ∷ [];
}

abbrev p1 : PartitionDef
p1 = record p0 { upper_bound = Value.i32 (pos 200) }

abbrev p2 : PartitionDef
p2 = record p0 { is_maxvalue = true; upper_bound = Value.monostate }

abbrev orders : ShardMapMeta
orders = record { partition_col = b'k' ∷ []; partition_col_idx = 0; partitions = p0 ∷ p1 ∷ p2 ∷ [] }

abbrev row : Value
row = Value.i32 (pos 150)

abbrev bound : Value
bound = Value.i32 (pos 100)

-- `key > 100` at a row with 150.
prune_partitions-shard_for_value_example :
    (s : ℕ) × (out : List ℕ) × (shard_for_value pattern_lt orders row ≡ some s)
    × (prune_partitions pattern_lt orders 0 BinaryOpKind.gt bound ≡ some out)
    × (contains s out ≡ true)
unfolding compare_values
prune_partitions-shard_for_value_example =
    prune_partitions-shard_for_value pattern_lt no_nan pattern_laws TypeId.int32 orders
      BinaryOpKind.gt row bound Ordering.gt tt tt (inr tt, (inr tt, (inl refl, tt)))
      (inr tt, (inr tt, (inr tt, tt))) (inr (λ e. cc), (inl refl, tt)) (omega arith) (omega arith)
      refl refl

prune_partitions_le_bound_example :
    (out : List ℕ) × (shard_for_value pattern_lt orders bound ≡ some 1)
    × (prune_partitions pattern_lt orders 0 BinaryOpKind.le bound ≡ some out)
    × (contains 1 out ≡ false)
unfolding compare_values
prune_partitions_le_bound_example =
    prune_partitions_le_bound pattern_lt no_nan pattern_laws TypeId.int32 orders bound p0 p1
      (p2 ∷ []) refl tt refl refl tt tt (inl refl, tt) refl refl refl

read-write_example : read (write orders) ≡ ok orders []
read-write_example = read-write orders (record {
  col = omega arith;
  count = omega arith;
  partitions = (
    record { name = omega arith; bound = omega arith; addr = omega arith },
    (
      record { name = omega arith; bound = omega arith; addr = omega arith },
      (record { name = omega arith; bound = refl; addr = omega arith }, tt),
    ),
  );
})

-- `key < 250` reads all three partitions, `key = 150` the second alone.
prunes :
    (prune_partitions pattern_lt orders 0 BinaryOpKind.lt (Value.i32 (pos 250))
      ≡ some (0 ∷ 1 ∷ 2 ∷ []))
    × (prune_partitions pattern_lt orders 0 BinaryOpKind.eq row ≡ some (1 ∷ 2 ∷ []))
    × (shard_for_value pattern_lt orders (Value.i32 (negsuc 4)) ≡ some 0)
unfolding prune_partitions prune_loop keeps compare_values shard_for_value shard_loop
prunes = (refl, refl, refl)
