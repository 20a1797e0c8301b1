-- ===== src/Wal/Writer.antt =====
-- src/storage/wal/wal_writer.cpp: the bytes of each record, and the append to the file.
use nyxdb.Base.{◌>>=◌, ℕ, ◌+◌, List, [], ◌∷◌, ◌++◌, Option, none, some, length, take, if◌then◌else◌}
use nyxdb.Bytes.{put_u16, put_u32, put_u64, to_u32, to_u64}
use nyxdb.Common.XxHash.{xxhash64}
use nyxdb.Value.{Value, TypeId, type_code, is_null}
use nyxdb.Wal.{
  Column, wal_magic, wal_version, wal_header_size, wal_type_insert, wal_type_create,
  wal_type_delete, wal_type_update, wal_type_segment_flush,
}

unfoldable pub put_str : List ℕ → List ℕ
put_str s = put_u16 (length s) ++ s

-- A value of a row that is not null, in the branch that its column's type selects. `none` is the
-- exception of `std::get` where the value is not of that type.
unfoldable pub put_typed : TypeId → Value → Option (List ℕ)
unfolding put_str
put_typed TypeId.int32 (Value.i32 x) = some (put_u32 (to_u32 x))
put_typed TypeId.int64 (Value.i64 x) = some (put_u64 (to_u64 x))
put_typed TypeId.double (Value.f64 x) = some (put_u64 x)
put_typed TypeId.bool (Value.boolean x) = some ((if x then 1 else 0) ∷ [])
put_typed TypeId.date (Value.date x) = some (put_u32 (to_u32 x))
put_typed TypeId.timestamp (Value.timestamp x) = some (put_u64 (to_u64 x))
put_typed TypeId.varchar (Value.string x) = some (put_str x)
put_typed TypeId.invalid (Value.string x) = some (put_str x)
put_typed _ _ = none

unfoldable pub put_cell : TypeId → Value → Option (List ℕ)
unfolding put_typed is_null
put_cell t v = if is_null v then some (1 ∷ []) else do bs ← put_typed t v; some (0 ∷ bs)

-- The loop over a row. A null needs no column; another value beyond the schema is out of range.
unfoldable pub put_row : List Column → List Value → Option (List ℕ)
unfolding put_cell is_null
put_row cols [] = some []
put_row (c ∷ cols) (v ∷ row) = do b ← put_cell c.type v; bs ← put_row cols row; some (b ++ bs)
put_row [] (v ∷ row) = do bs ← put_row [] row; if is_null v then some (1 ∷ bs) else none

unfoldable pub put_rows : List Column → List (List Value) → Option (List ℕ)
unfolding put_row
put_rows cols [] = some []
put_rows cols (row ∷ rows) = do b ← put_row cols row; bs ← put_rows cols rows; some (b ++ bs)

unfoldable pub put_col_header : Column → List ℕ
put_col_header c = type_code c.type ∷ put_u16 c.max_len

unfoldable pub put_col_headers : List Column → List ℕ
unfolding put_col_header
put_col_headers [] = []
put_col_headers (c ∷ cols) = put_col_header c ++ put_col_headers cols

unfoldable pub put_table : ℕ → List ℕ → List ℕ
unfolding put_str
put_table type table = type ∷ put_str table

-- What `log_insert` and `log_update` write of the rows: the counts, the columns, the cells.
unfoldable pub put_batch : List Column → List (List Value) → Option (List ℕ)
unfolding put_col_headers put_rows
put_batch schema rows = do
  bs ← put_rows schema rows
  some (put_u32 (length rows) ++ (put_u16 (length schema) ++ (put_col_headers schema ++ bs)))

-- The two `std::visit` of a default: the type byte of the alternative, then its bytes.
unfoldable pub put_default_value : Value → List ℕ
unfolding put_str
put_default_value (Value.i32 x) = 1 ∷ put_u32 (to_u32 x)
put_default_value (Value.i64 x) = 2 ∷ put_u64 (to_u64 x)
put_default_value (Value.f64 x) = 3 ∷ put_u64 x
put_default_value (Value.string x) = 4 ∷ put_str x
put_default_value (Value.boolean x) = 5 ∷ (if x then 1 else 0) ∷ []
put_default_value (Value.date x) = 6 ∷ put_u32 (to_u32 x)
put_default_value (Value.timestamp x) = 7 ∷ put_u64 (to_u64 x)
put_default_value Value.monostate = 1 ∷ []

unfoldable pub put_default : Option Value → List ℕ
unfolding put_default_value
put_default (some v) = 1 ∷ put_default_value v
put_default none = 0 ∷ []

unfoldable pub put_column : Column → List ℕ
unfolding put_str put_default
put_column c =
    type_code c.type
    ∷ (if c.nullable then 1 else 0)
    ∷ (put_u16 c.max_len ++ (put_str c.name ++ put_default c.default_value))

unfoldable pub put_columns : List Column → List ℕ
unfolding put_column
put_columns [] = []
put_columns (c ∷ cols) = put_column c ++ put_columns cols

unfoldable pub put_indices : List ℕ → List ℕ
put_indices [] = []
put_indices (i ∷ is) = put_u64 i ++ put_indices is

unfoldable pub put_counted : List ℕ → List ℕ
unfolding put_indices
put_counted is = put_u64 (length is) ++ put_indices is

-- One call of the writer: `log_insert`, `log_create_table`, `log_delete`, `log_update`,
-- `log_segment_flush`.
pub data LogCall : Type 0 where
  insert : List ℕ → List Column → List (List Value) → LogCall
  create_table : List ℕ → List Column → LogCall
  delete : List ℕ → List ℕ → LogCall
  update : List ℕ → List ℕ → List Column → List (List Value) → LogCall
  segment_flush : List ℕ → ℕ → LogCall

-- The buffer that each call builds.
unfoldable pub record_bytes : LogCall → Option (List ℕ)
unfolding put_table put_batch put_columns put_counted
record_bytes (LogCall.insert table schema rows) = do
  bs ← put_batch schema rows
  some (put_table wal_type_insert table ++ bs)
record_bytes (LogCall.create_table table schema) =
    some (put_table wal_type_create table ++ (put_u16 (length schema) ++ put_columns schema))
record_bytes (LogCall.delete table is) = some (put_table wal_type_delete table ++ put_counted is)
record_bytes (LogCall.update table is schema rows) = do
  bs ← put_batch schema rows
  some (put_table wal_type_update table ++ (put_counted is ++ bs))
record_bytes (LogCall.segment_flush table n) =
    some (put_table wal_type_segment_flush table ++ put_u64 n)

-- The file behind the descriptor, and `offset_`.
pub record WalWriter : Type 0 where
  pub file : List ℕ
  pub offset : ℕ

-- What the system does with a write: all of it, the first bytes only, or all of it with a failing
-- `fsync`.
pub data Io : Type 0 where
  done : Io
  short : ℕ → Io
  no_sync : Io

pub data Status : Type 0 where
  ok short_write fsync_failed threw : Status

unfoldable pub seal : List ℕ → List ℕ
seal buf = buf ++ put_u64 (xxhash64 buf 0)

unfoldable pub write_record : Io → List ℕ → WalWriter → Status × WalWriter
unfolding seal
write_record Io.done buf w =
    let bytes = seal buf in
    (Status.ok, record { file = w.file ++ bytes; offset = w.offset + length bytes })
write_record (Io.short n) buf w =
    (Status.short_write, record { file = w.file ++ take n (seal buf); offset = w.offset })
write_record Io.no_sync buf w =
    (Status.fsync_failed, record { file = w.file ++ seal buf; offset = w.offset })

unfoldable pub write_buffer : Io → Option (List ℕ) → WalWriter → Status × WalWriter
unfolding write_record
write_buffer io (some buf) w = write_record io buf w
write_buffer io none w = (Status.threw, w)

-- The calls: an insert of no rows writes nothing, and nothing is written where `std::get` throws.
unfoldable pub log : Io → LogCall → WalWriter → Status × WalWriter
unfolding record_bytes write_buffer
log io (LogCall.insert table schema []) w = (Status.ok, w)
log io call w = write_buffer io (record_bytes call) w

-- `WalWriter::open`, with the file's bytes where there is one.
unfoldable pub open_writer : Option (List ℕ) → WalWriter
open_writer none = record { file = wal_magic ++ put_u16 wal_version; offset = wal_header_size }
open_writer (some bytes) = record { file = bytes; offset = length bytes }
