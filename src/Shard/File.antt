-- ===== src/Shard/File.antt =====
-- `ShardMapFile::write` and `ShardMapFile::read` of src/storage/disk/shard_map_file.cpp, between
-- a `ShardMapMeta` and the bytes of its file; opening, reading and writing the file is left out.
pub mod RoundTrip
use Prim.Native.Nat.{◌%◌}
use nyxdb.Base.{
  ℕ, zero, suc, Bool, true, false, not, ◌&&◌, List, [], ◌∷◌, ◌++◌, Option, none, some, ◌==◌,
  if◌then◌else◌, length,
}
use nyxdb.Bytes.{put_u8, put_u16, put_u32, put_u64, to_u32, to_u64, to_i32, to_i64}
use nyxdb.Bytes.Reader.{
  Read, ok, err, ReadError, bad_magic, truncated, unknown_type, Reader, ◌>>=◌, ret, fail,
  read_bytes, read_u8, read_u16, read_u32, read_u64,
}
use nyxdb.Value.{Value, TypeId, type_code, type_of_code}
use nyxdb.Shard.Defs.{PartitionDef, ShardMapMeta}

-- 'N', 'Y', 'X', 'P'
abbrev pub magic : List ℕ
magic = b'N' ∷ b'Y' ∷ b'X' ∷ b'P' ∷ []

abbrev pub version : ℕ
version = 1

-- The length is cut to one byte.
unfoldable pub put_str : List ℕ → List ℕ
put_str s = length s % 256 ∷ s

unfoldable pub put_value : Value → List ℕ
unfolding put_u8
put_value Value.monostate = put_u8 (type_code TypeId.int32) ++ put_u32 0
put_value (Value.i32 x) = put_u8 (type_code TypeId.int32) ++ put_u32 (to_u32 x)
put_value (Value.i64 x) = put_u8 (type_code TypeId.int64) ++ put_u64 (to_u64 x)
put_value (Value.f64 x) = put_u8 (type_code TypeId.double) ++ put_u64 x
put_value (Value.string x) = put_u8 (type_code TypeId.varchar) ++ (put_u16 (length x) ++ x)
put_value (Value.boolean x) = put_u8 (type_code TypeId.bool) ++ put_u8 (if x then 1 else 0)
put_value (Value.date x) = put_u8 (type_code TypeId.date) ++ put_u32 (to_u32 x)
put_value (Value.timestamp x) = put_u8 (type_code TypeId.timestamp) ++ put_u64 (to_u64 x)

unfoldable pub put_bound : PartitionDef → List ℕ
put_bound p = if p.is_maxvalue then [] else put_value p.upper_bound

unfoldable pub put_partition : PartitionDef → List ℕ
unfolding put_u8 put_str put_bound
put_partition p =
    put_str p.name
    ++ (put_u8 (if p.is_maxvalue then 1 else 0) ++ (put_bound p ++ put_str p.node_addr))

unfoldable pub put_partitions : List PartitionDef → List ℕ
put_partitions [] = []
put_partitions (p ∷ ps) = put_partition p ++ put_partitions ps

-- The buffer that `write` hands to the file.
unfoldable pub write : ShardMapMeta → List ℕ
unfolding put_u8 put_str
write meta =
    magic
    ++ (put_u16 version
        ++ (put_u8 meta.partition_col_idx
            ++ (put_str meta.partition_col
                ++ (put_u16 (length meta.partitions) ++ put_partitions meta.partitions))))

unfoldable pub read_str : Reader (List ℕ)
read_str = do n ← read_u8; read_bytes n

-- The cases of the switch on the bound's type.
unfoldable pub read_typed : Option TypeId → Reader Value
read_typed (some TypeId.int32) = do x ← read_u32; ret (Value.i32 (to_i32 x))
read_typed (some TypeId.int64) = do x ← read_u64; ret (Value.i64 (to_i64 x))
read_typed (some TypeId.double) = do x ← read_u64; ret (Value.f64 x)
read_typed (some TypeId.varchar) = do n ← read_u16; s ← read_bytes n; ret (Value.string s)
read_typed (some TypeId.bool) = do x ← read_u8; ret (Value.boolean (not (x == 0)))
read_typed (some TypeId.date) = do x ← read_u32; ret (Value.date (to_i32 x))
read_typed (some TypeId.timestamp) = do x ← read_u64; ret (Value.timestamp (to_i64 x))
read_typed _ = fail unknown_type

unfoldable pub read_value : Reader Value
read_value = do tid ← read_u8; read_typed (type_of_code tid)

-- A partition with MAXVALUE has no bound in the file, and keeps the default one.
unfoldable pub read_bound : Bool → Reader Value
read_bound true = ret Value.monostate
read_bound false = read_value

unfoldable pub read_partition : Reader PartitionDef
read_partition = do
  name ← read_str
  flag ← read_u8
  upper ← read_bound (not (flag == 0))
  addr ← read_str
  ret (record { name = name; is_maxvalue = not (flag == 0); upper_bound = upper; node_addr = addr })

-- `n` rounds of the loop over the partitions.
unfoldable pub read_partitions : ℕ → Reader (List PartitionDef)
read_partitions zero = ret []
read_partitions (suc n) = do p ← read_partition; ps ← read_partitions n; ret (p ∷ ps)

unfoldable pub bytes_eq : List ℕ → List ℕ → Bool
bytes_eq [] [] = true
bytes_eq (x ∷ xs) (y ∷ ys) = x == y && bytes_eq xs ys
bytes_eq _ _ = false

-- `!need(4) || memcmp(p, MAGIC, 4) != 0`
unfoldable pub read_magic : Reader (Unit {0})
unfolding bytes_eq
read_magic bs = elim (read_bytes 4 bs) [
  | ok m rest ↦ if bytes_eq m magic then ok tt rest else err bad_magic
  | err e ↦ err bad_magic
]

-- What follows the magic. The version is skipped, not tested.
unfoldable pub read_body : Reader ShardMapMeta
read_body = do
  version_bytes ← read_bytes 2
  col_idx ← read_u8
  col ← read_str
  count ← read_u16
  ps ← read_partitions count
  ret (record { partition_col = col; partition_col_idx = col_idx; partitions = ps })

unfoldable pub read : Reader ShardMapMeta
read = do u ← read_magic; read_body
