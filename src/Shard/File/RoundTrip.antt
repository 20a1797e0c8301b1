-- ===== src/Shard/File/RoundTrip.antt =====
-- What `ShardMapFile::write` writes, `ShardMapFile::read` reads back.
use nyxdb.Base.{
  ℕ, ◌%◌, ◌<◌, ◌≡◌, refl, sym, Bool, true, false, List, [], ◌∷◌, ◌++◌, arith, length, if◌then◌else◌,
  All,
}
use mathlib.Core.List.{append-nil, append_assoc}
use nyxdb.Base.Words.{u16_mod}
use nyxdb.Bytes.{put_u8, put_u16, to_u32, to_u64}
use nyxdb.Bytes.RoundTrip.{length-put_u16}
use nyxdb.Bytes.Reader.{
  ok, read_bytes, read_u8, read_bytes-append, read_u16-put_u16, read_u32-put_u32, read_u64-put_u64,
}
use nyxdb.Value.{Value, type_code, type_of_code}
use nyxdb.Value.Fits.{ValueFits, to_u32-lt, to_u64-lt, to_i32_back, to_i64_back}
use nyxdb.Shard.Defs.{PartitionDef, ShardMapMeta}
use nyxdb.Shard.File.{
  put_str, put_value, put_bound, put_partition, put_partitions, write, read_str, read_typed,
  read_value, read_bound, read_partition, read_partitions, read_magic, read_body, read,
}

abbrev pub BoundFits : Bool → Value → Type 0
BoundFits true v = v ≡ Value.monostate
BoundFits false v = ValueFits v

pub record PartitionFits (p : PartitionDef) : Type 0 where
  pub name : length p.name < 256
  pub bound : BoundFits p.is_maxvalue p.upper_bound
  pub addr : length p.node_addr < 256

pub record MetaFits (meta : ShardMapMeta) : Type 0 where
  pub col : length meta.partition_col < 256
  pub count : length meta.partitions < u16_mod
  pub partitions : All PartitionFits meta.partitions

read_str-put_str : (s rest : List ℕ) → length s < 256 → read_str (put_str s ++ rest) ≡ ok s rest
unfolding read_str put_str read_u8
read_str-put_str s rest h = read_bytes-append s rest (length s % 256) (omega arith)

read_value-put_value :
    (v : Value) (rest : List ℕ) → ValueFits v → read_value (put_value v ++ rest) ≡ ok v rest
unfolding read_value put_value read_u8 type_code type_of_code read_typed
read_value-put_value Value.monostate rest h = elim h [ ]
read_value-put_value (Value.i32 x) rest h =
    ground (arith, read_u32-put_u32 (to_u32 x) rest (to_u32-lt x), to_i32_back x h)
read_value-put_value (Value.i64 x) rest h =
    ground (arith, read_u64-put_u64 (to_u64 x) rest (to_u64-lt x), to_i64_back x h)
read_value-put_value (Value.f64 x) rest h = ground (arith, read_u64-put_u64 x rest h)
read_value-put_value (Value.string x) rest h = ground (
  arith,
  append_assoc (put_u16 (length x)) x rest,
  read_u16-put_u16 (length x) (x ++ rest) h,
  read_bytes-append x rest (length x) refl,
)
read_value-put_value (Value.boolean true) rest h = refl
read_value-put_value (Value.boolean false) rest h = refl
read_value-put_value (Value.date x) rest h =
    ground (arith, read_u32-put_u32 (to_u32 x) rest (to_u32-lt x), to_i32_back x h)
read_value-put_value (Value.timestamp x) rest h =
    ground (arith, read_u64-put_u64 (to_u64 x) rest (to_u64-lt x), to_i64_back x h)

flag_back :
    (b : Bool) (rest : List ℕ)
    → read_u8 (put_u8 (if b then 1 else 0) ++ rest) ≡ ok (if b then 1 else 0) rest
unfolding read_u8 put_u8
flag_back b rest = refl

read_bound-put_bound :
    (p : PartitionDef) (rest : List ℕ)
    → BoundFits p.is_maxvalue p.upper_bound
    → read_bound p.is_maxvalue (put_bound p ++ rest) ≡ ok p.upper_bound rest
unfolding read_bound put_bound
read_bound-put_bound p rest h = go p.is_maxvalue p.upper_bound h
  where
    go :
        (b : Bool) (v : Value)
        → BoundFits b v
        → read_bound b ((if b then [] else put_value v) ++ rest) ≡ ok v rest
    go true v e = ground arith
    go false v f = read_value-put_value v rest f

read_partition-put_partition :
    (p : PartitionDef) (rest : List ℕ)
    → PartitionFits p
    → read_partition (put_partition p ++ rest) ≡ ok p rest
unfolding read_partition put_partition
read_partition-put_partition p rest f =
    let flag = put_u8 (if p.is_maxvalue then 1 else 0) in
    ground (
      arith,
      append_assoc (put_str p.name) (flag ++ (put_bound p ++ put_str p.node_addr)) rest,
      append_assoc flag (put_bound p ++ put_str p.node_addr) rest,
      append_assoc (put_bound p) (put_str p.node_addr) rest,
      read_str-put_str p.name (flag ++ (put_bound p ++ (put_str p.node_addr ++ rest))) f.name,
      flag_back p.is_maxvalue (put_bound p ++ (put_str p.node_addr ++ rest)),
      read_bound-put_bound p (put_str p.node_addr ++ rest) f.bound,
      read_str-put_str p.node_addr rest f.addr,
    )

read_partitions-put_partitions :
    (ps : List PartitionDef) (rest : List ℕ)
    → All PartitionFits ps
    → read_partitions (length ps) (put_partitions ps ++ rest) ≡ ok ps rest
unfolding read_partitions put_partitions
read_partitions-put_partitions [] rest f = refl
read_partitions-put_partitions (p ∷ ps) rest f = ground (
  arith,
  append_assoc (put_partition p) (put_partitions ps) rest,
  read_partition-put_partition p (put_partitions ps ++ rest) f.0,
  read_partitions-put_partitions ps rest f.1,
)

read_body_lem :
    (meta : ShardMapMeta)
    → MetaFits meta
    → read_body (
        put_u16 1
        ++ (put_u8 meta.partition_col_idx
            ++ (put_str meta.partition_col
                ++ (put_u16 (length meta.partitions) ++ put_partitions meta.partitions))))
      ≡ ok meta []
unfolding read_body read_u8 put_u8
read_body_lem meta f =
    let ps = put_partitions meta.partitions in
    let count = put_u16 (length meta.partitions) in
    ground (
      arith,
      read_bytes-append (put_u16 1)
          (meta.partition_col_idx ∷ (put_str meta.partition_col ++ (count ++ ps))) 2
          (sym (length-put_u16 1)),
      read_str-put_str meta.partition_col (count ++ ps) f.col,
      read_u16-put_u16 (length meta.partitions) ps f.count,
      append-nil ps,
      read_partitions-put_partitions meta.partitions [] f.partitions,
    )

-- A shard map whose strings, count and bounds fit their fields is read back as it was written,
-- to the last byte.
pub read-write : (meta : ShardMapMeta) → MetaFits meta → read (write meta) ≡ ok meta []
unfolding read write read_magic read_bytes
read-write meta f = ground (arith, read_body_lem meta f)
