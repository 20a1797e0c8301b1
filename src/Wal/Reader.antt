-- ===== src/Wal/Reader.antt =====
-- src/storage/wal/wal_reader.cpp: the records of a file, up to the first that is torn or damaged.
-- A read that fails is the end of the file.
pub mod Monad
pub mod Compose
use nyxdb.Base.Strings.{str_eq}
use nyxdb.Base.{
  get_or, drop, take, ltb, ℕ, zero, suc, ◌+◌, ◌-◌, ◌≡◌, Bool, true, false, List, [], ◌∷◌, ◌++◌,
  Option, none, some, ◌==◌, ◌||◌, not, length, if◌then◌else◌,
}
use nyxdb.Bytes.{get_u16, get_u32, get_u64, to_i32, to_i64}
use nyxdb.Common.XxHash.{xxhash64}
use nyxdb.Value.{Value, TypeId, type_of_code}
use nyxdb.Wal.{
  LoggedColumn, WalRecord, wal_magic, wal_header_size, wal_type_insert, wal_type_create,
  wal_type_delete, wal_type_update, wal_type_segment_flush,
}
use nyxdb.Wal.Reader.Monad.{
  Cursor, Step, ok, stopped, stop, Read, ◌>>=◌, ret, read_exact, read_exact_u8,
}

unfoldable pub read_u16 : Read ℕ
unfolding read_exact
read_u16 = do bs ← read_exact 2; ret (get_u16 bs)

unfoldable pub read_u32 : Read ℕ
unfolding read_exact
read_u32 = do bs ← read_exact 4; ret (get_u32 bs)

unfoldable pub read_u64 : Read ℕ
unfolding read_exact
read_u64 = do bs ← read_exact 8; ret (get_u64 bs)

unfoldable pub read_str : Read (List ℕ)
unfolding read_u16 read_exact
read_str = do n ← read_u16; read_exact n

unfoldable pub byte_bool : ℕ → Bool
byte_bool b = not (b == 0)

-- A value of a row by its column's type: what is none of the types tested is a string.
unfoldable pub read_typed : Option TypeId → Read Value
unfolding read_u32 read_u64 read_str read_exact_u8 byte_bool
read_typed (some TypeId.int32) = do w ← read_u32; ret (Value.i32 (to_i32 w))
read_typed (some TypeId.int64) = do w ← read_u64; ret (Value.i64 (to_i64 w))
read_typed (some TypeId.double) = do w ← read_u64; ret (Value.f64 w)
read_typed (some TypeId.bool) = do b ← read_exact_u8; ret (Value.boolean (byte_bool b))
read_typed (some TypeId.date) = do w ← read_u32; ret (Value.date (to_i32 w))
read_typed (some TypeId.timestamp) = do w ← read_u64; ret (Value.timestamp (to_i64 w))
read_typed _ = do s ← read_str; ret (Value.string s)

unfoldable pub read_nullable : ℕ → ℕ → Read Value
unfolding read_typed
read_nullable zero code = read_typed (type_of_code code)
read_nullable (suc _) code = ret Value.monostate

unfoldable pub read_cell : ℕ → Read Value
unfolding read_exact_u8 read_nullable
read_cell code = do is_null ← read_exact_u8; read_nullable is_null code

unfoldable pub read_row : List LoggedColumn → Read (List Value)
unfolding read_cell
read_row [] = ret []
read_row (c ∷ cols) = do v ← read_cell c.type; row ← read_row cols; ret (v ∷ row)

unfoldable pub read_rows : ℕ → List LoggedColumn → Read (List (List Value))
unfolding read_row
read_rows zero cols = ret []
read_rows (suc n) cols = do row ← read_row cols; rows ← read_rows n cols; ret (row ∷ rows)

-- `col_hdr` is read whole before any of it counts.
unfoldable pub read_col_header : Read LoggedColumn
unfolding read_exact
read_col_header = do
  col_hdr ← read_exact 3
  ret (record {
    name = [];
    type = get_or col_hdr 0 0;
    nullable = false;
    max_len = get_u16 (drop 1 col_hdr);
    default_value = none;
  })

unfoldable pub read_col_headers : ℕ → Read (List LoggedColumn)
unfolding read_col_header
read_col_headers zero = ret []
read_col_headers (suc n) = do c ← read_col_header; cols ← read_col_headers n; ret (c ∷ cols)

unfoldable pub read_indices : ℕ → Read (List ℕ)
unfolding read_u64
read_indices zero = ret []
read_indices (suc n) = do i ← read_u64; is ← read_indices n; ret (i ∷ is)

unfoldable pub read_counted : Read (List ℕ)
unfolding read_u64 read_indices
read_counted = do n ← read_u64; read_indices n

-- The switch over a default's type byte, whose `default:` stops the reader.
unfoldable pub read_default_value : Option TypeId → Read Value
unfolding read_u32 read_u64 read_str read_exact_u8 byte_bool
read_default_value (some TypeId.int32) = do w ← read_u32; ret (Value.i32 (to_i32 w))
read_default_value (some TypeId.int64) = do w ← read_u64; ret (Value.i64 (to_i64 w))
read_default_value (some TypeId.double) = do w ← read_u64; ret (Value.f64 w)
read_default_value (some TypeId.varchar) = do s ← read_str; ret (Value.string s)
read_default_value (some TypeId.bool) = do b ← read_exact_u8; ret (Value.boolean (byte_bool b))
read_default_value (some TypeId.date) = do w ← read_u32; ret (Value.date (to_i32 w))
read_default_value (some TypeId.timestamp) = do w ← read_u64; ret (Value.timestamp (to_i64 w))
read_default_value _ = stop

unfoldable pub read_default : ℕ → Read (Option Value)
unfolding read_exact_u8 read_default_value
read_default zero = ret none
read_default (suc _) = do t ← read_exact_u8; v ← read_default_value (type_of_code t); ret (some v)

-- The six bytes of `col_hdr`: the type, the flag, and the words at 2 and 4.
unfoldable pub read_column : Read LoggedColumn
unfolding read_exact read_exact_u8 read_default byte_bool
read_column = do
  col_hdr ← read_exact 6
  name ← read_exact (get_u16 (drop 4 col_hdr))
  has_default ← read_exact_u8
  def ← read_default has_default
  ret (record {
    name = name;
    type = get_or col_hdr 0 0;
    nullable = byte_bool (get_or col_hdr 1 0);
    max_len = get_u16 (drop 2 col_hdr);
    default_value = def;
  })

unfoldable pub read_columns : ℕ → Read (List LoggedColumn)
unfolding read_column
read_columns zero = ret []
read_columns (suc n) = do c ← read_column; cols ← read_columns n; ret (c ∷ cols)

-- The batch of an insert or an update: `counts`, the columns, the cells.
unfoldable pub read_batch : WalRecord → Read WalRecord
unfolding read_exact read_col_headers read_rows
read_batch rec = do
  counts ← read_exact 6
  schema ← read_col_headers (get_u16 (drop 4 counts))
  rows ← read_rows (get_u32 counts) schema
  ret (record rec { schema = schema; rows = rows })

unfoldable pub read_body : ℕ → WalRecord → Read WalRecord
unfolding read_u16 read_u64 read_columns read_counted read_batch
read_body type rec =
    if type == wal_type_create
    then (do n ← read_u16; schema ← read_columns n; ret (record rec { schema = schema }))
    else if type == wal_type_delete
    then (do is ← read_counted; ret (record rec { row_indices = is }))
    else if type == wal_type_update
    then (do is ← read_counted; read_batch (record rec { row_indices = is }))
    else if type == wal_type_segment_flush
    then (do n ← read_u64; ret (record rec { sealed_row_count = n }))
    else read_batch rec

unfoldable pub known_type : ℕ → Bool
known_type t =
    t == wal_type_insert
    || t == wal_type_create
    || t == wal_type_delete
    || t == wal_type_update
    || t == wal_type_segment_flush

-- The type byte, which counts only if it is known, and starts the payload.
unfoldable pub read_type_byte : List ℕ → Read ℕ
unfolding known_type
read_type_byte [] s = stopped s
read_type_byte (t ∷ rest) s =
    if known_type t
    then ok t (record { input = rest; payload = t ∷ []; pos = s.pos + 1 })
    else stopped s

unfoldable pub read_type : Read ℕ
unfolding read_type_byte
read_type s = read_type_byte s.input s

unfoldable pub new_record : ℕ → ℕ → List ℕ → WalRecord
new_record type start name = record {
  type = type;
  byte_offset = start;
  table_name = name;
  schema = [];
  rows = [];
  row_indices = [];
  sealed_row_count = 0;
}

unfoldable pub check_stored : ℕ → WalRecord → ℕ → Read WalRecord
check_stored actual rec stored = if stored == actual then ret rec else stop

-- The stored checksum against that of the payload before it.
unfoldable pub check : WalRecord → Read WalRecord
unfolding read_u64 check_stored
check rec s =
    let read_stored : Read WalRecord = do
      stored ← read_u64
      check_stored (xxhash64 s.payload 0) rec stored
    in read_stored s

-- One turn of the loop.
unfoldable pub read_record : Read WalRecord
unfolding read_type read_str read_body check new_record
read_record s =
    let turn : Read WalRecord = do
      type ← read_type
      name ← read_str
      rec ← read_body type (new_record type s.pos name)
      check rec
    in turn s

-- The loop: every turn reads a byte or is the last, so the file's length is enough fuel.
unfoldable pub read_loop : ℕ → List WalRecord → Cursor → List WalRecord × ℕ
unfolding read_record
read_loop zero records s = (records, s.pos)
read_loop (suc n) records s = elim (read_record s) [
  | ok rec s' ↦ read_loop n (records ++ (rec ∷ [])) s'
  | stopped s' ↦ (records, s'.pos)
]

pub data ReadAll : Type 0 where
  cannot_read_header bad_magic : ReadAll
  records_read : List WalRecord → ℕ → ReadAll

abbrev pub start_cursor : List ℕ → Cursor
start_cursor file = record {
  input = drop wal_header_size file;
  payload = [];
  pos = wal_header_size;
}

-- `WalReader::read_all` on the file's bytes, with `bytes_consumed`.
unfoldable pub read_all : List ℕ → ReadAll
unfolding read_loop
read_all file =
    if ltb (length file) wal_header_size
    then ReadAll.cannot_read_header
    else if not (str_eq (take 4 file) wal_magic)
    then ReadAll.bad_magic
    else (let r = read_loop (length file) [] (start_cursor file) in
        ReadAll.records_read (r.0) (r.1 - wal_header_size))
