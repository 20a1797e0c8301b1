-- ===== src/Wal/Torn/Exactness.antt =====
-- No reader of src/storage/wal/wal_reader.cpp looks behind the bytes that it takes.
use nyxdb.Base.{
  ℕ, zero, suc, ◌+◌, ◌≡◌, ap, sym, ◌∙◌, Bool, true, false, List, [], ◌∷◌, Option, none, some, arith,
  length, length-append, ◌<◌, if◌then◌else◌, ◌==◌, drop, Bool-cases, inl, inr,
}
use nyxdb.Base.Int.{ℤ}
use nyxdb.Bytes.{get_u16, get_u32, get_u64, to_i32, to_i64}
use nyxdb.Common.XxHash.{xxhash64}
use nyxdb.Value.{Value, TypeId, type_of_code}
use nyxdb.Wal.{
  LoggedColumn, WalRecord, wal_type_create, wal_type_delete, wal_type_update,
  wal_type_segment_flush,
}
use nyxdb.Wal.RoundTrip.Records.{read_type-ok}
use nyxdb.Wal.Reader.{
  read_u16, read_u32, read_u64, read_str, read_typed, read_nullable, read_cell, byte_bool, read_row,
  read_rows, read_col_header, read_col_headers, read_indices, read_counted, read_default_value,
  read_default, read_column, read_columns, read_batch, read_body, known_type, read_type_byte,
  read_type, new_record, check_stored, check, read_record,
}
use nyxdb.Wal.Reader.Monad.{Cursor, ok, Read, ◌>>=◌, ret, stop, read_exact, read_exact_u8}
use nyxdb.Wal.Reader.Compose.{
  Exact, refill, bind-ok_cases, at_cursor, ret-Exact, stop-Exact, bind-Exact, map-Exact,
  read_exact-Exact, read_exact_u8-Exact,
}

module _ {ℓ} {A : Type ℓ} where
  if-Exact : (b : Bool) (m n : Read A) → Exact m → Exact n → Exact (if b then m else n)
  if-Exact true m n hm hn = hm
  if-Exact false m n hm hn = hn

read_u16-Exact : Exact read_u16
unfolding read_u16
read_u16-Exact = map-Exact (read_exact 2) get_u16 (read_exact-Exact 2)

read_u32-Exact : Exact read_u32
unfolding read_u32
read_u32-Exact = map-Exact (read_exact 4) get_u32 (read_exact-Exact 4)

read_u64-Exact : Exact read_u64
unfolding read_u64
read_u64-Exact = map-Exact (read_exact 8) get_u64 (read_exact-Exact 8)

read_str-Exact : Exact read_str
unfolding read_str
read_str-Exact = bind-Exact read_u16 (λ n. read_exact n) read_u16-Exact read_exact-Exact

abbrev i32_reader : (ℤ → Value) → Read Value
i32_reader c = read_u32 >>= (λ w. ret (c (to_i32 w)))

i32_reader-Exact : (c : ℤ → Value) → Exact (i32_reader c)
i32_reader-Exact c = map-Exact read_u32 (λ w. c (to_i32 w)) read_u32-Exact

i64_reader-Exact : (c : ℤ → Value) → Exact (read_u64 >>= (λ w. ret (c (to_i64 w))))
i64_reader-Exact c = map-Exact read_u64 (λ w. c (to_i64 w)) read_u64-Exact

boolean_reader-Exact : Exact (read_exact_u8 >>= (λ b. ret (Value.boolean (byte_bool b))))
boolean_reader-Exact =
    map-Exact read_exact_u8 (λ b. Value.boolean (byte_bool b)) read_exact_u8-Exact

string_reader-Exact : Exact (read_str >>= (λ s. ret (Value.string s)))
string_reader-Exact = map-Exact read_str Value.string read_str-Exact

read_typed-Exact : (t : Option TypeId) → Exact (read_typed t)
unfolding read_typed
read_typed-Exact (some TypeId.int32) = i32_reader-Exact Value.i32
read_typed-Exact (some TypeId.int64) = i64_reader-Exact Value.i64
read_typed-Exact (some TypeId.double) = map-Exact read_u64 Value.f64 read_u64-Exact
read_typed-Exact (some TypeId.bool) = boolean_reader-Exact
read_typed-Exact (some TypeId.date) = i32_reader-Exact Value.date
read_typed-Exact (some TypeId.timestamp) = i64_reader-Exact Value.timestamp
read_typed-Exact _ = string_reader-Exact

read_nullable-Exact : (n code : ℕ) → Exact (read_nullable n code)
unfolding read_nullable
read_nullable-Exact zero code = read_typed-Exact (type_of_code code)
read_nullable-Exact (suc _) code = ret-Exact Value.monostate

read_cell-Exact : (code : ℕ) → Exact (read_cell code)
unfolding read_cell
read_cell-Exact code =
    bind-Exact read_exact_u8 (λ n. read_nullable n code) read_exact_u8-Exact
      (λ n. read_nullable-Exact n code)

read_row-Exact : (cols : List LoggedColumn) → Exact (read_row cols)
unfolding read_row
read_row-Exact [] = ret-Exact []
read_row-Exact (c ∷ cols) =
    bind-Exact (read_cell c.type) (λ v. read_row cols >>= (λ row. ret (v ∷ row)))
      (read_cell-Exact c.type)
      (λ v. map-Exact (read_row cols) (λ row. v ∷ row) (read_row-Exact cols))

read_rows-Exact : (n : ℕ) (cols : List LoggedColumn) → Exact (read_rows n cols)
unfolding read_rows
read_rows-Exact zero cols = ret-Exact []
read_rows-Exact (suc n) cols =
    bind-Exact (read_row cols) (λ row. read_rows n cols >>= (λ rows. ret (row ∷ rows)))
      (read_row-Exact cols)
      (λ row. map-Exact (read_rows n cols) (λ rows. row ∷ rows) (read_rows-Exact n cols))

read_col_header-Exact : Exact read_col_header
unfolding read_col_header
read_col_header-Exact = map-Exact (read_exact 3) _ (read_exact-Exact 3)

read_col_headers-Exact : (n : ℕ) → Exact (read_col_headers n)
unfolding read_col_headers
read_col_headers-Exact zero = ret-Exact []
read_col_headers-Exact (suc n) =
    bind-Exact read_col_header (λ c. read_col_headers n >>= (λ cols. ret (c ∷ cols)))
      read_col_header-Exact
      (λ c. map-Exact (read_col_headers n) (λ cols. c ∷ cols) (read_col_headers-Exact n))

read_indices-Exact : (n : ℕ) → Exact (read_indices n)
unfolding read_indices
read_indices-Exact zero = ret-Exact []
read_indices-Exact (suc n) =
    bind-Exact read_u64 (λ i. read_indices n >>= (λ is. ret (i ∷ is))) read_u64-Exact
      (λ i. map-Exact (read_indices n) (λ is. i ∷ is) (read_indices-Exact n))

read_counted-Exact : Exact read_counted
unfolding read_counted
read_counted-Exact = bind-Exact read_u64 (λ n. read_indices n) read_u64-Exact read_indices-Exact

read_default_value-Exact : (t : Option TypeId) → Exact (read_default_value t)
unfolding read_default_value
read_default_value-Exact (some TypeId.int32) = i32_reader-Exact Value.i32
read_default_value-Exact (some TypeId.int64) = i64_reader-Exact Value.i64
read_default_value-Exact (some TypeId.double) = map-Exact read_u64 Value.f64 read_u64-Exact
read_default_value-Exact (some TypeId.varchar) = string_reader-Exact
read_default_value-Exact (some TypeId.bool) = boolean_reader-Exact
read_default_value-Exact (some TypeId.date) = i32_reader-Exact Value.date
read_default_value-Exact (some TypeId.timestamp) = i64_reader-Exact Value.timestamp
read_default_value-Exact _ = stop-Exact

read_default-Exact : (n : ℕ) → Exact (read_default n)
unfolding read_default
read_default-Exact zero = ret-Exact none
read_default-Exact (suc _) =
    bind-Exact read_exact_u8 (λ t. read_default_value (type_of_code t) >>= (λ v. ret (some v)))
      read_exact_u8-Exact
      (λ t.
        map-Exact (read_default_value (type_of_code t)) some
          (read_default_value-Exact (type_of_code t)))

read_column-Exact : Exact read_column
unfolding read_column
read_column-Exact = bind-Exact (read_exact 6) _ (read_exact-Exact 6) (λ hdr.
    bind-Exact (read_exact (get_u16 (drop 4 hdr))) _ (read_exact-Exact (get_u16 (drop 4 hdr)))
      (λ name.
        bind-Exact read_exact_u8 _ read_exact_u8-Exact
          (λ n. map-Exact (read_default n) _ (read_default-Exact n))))

read_columns-Exact : (n : ℕ) → Exact (read_columns n)
unfolding read_columns
read_columns-Exact zero = ret-Exact []
read_columns-Exact (suc n) =
    bind-Exact read_column (λ c. read_columns n >>= (λ cols. ret (c ∷ cols))) read_column-Exact
      (λ c. map-Exact (read_columns n) (λ cols. c ∷ cols) (read_columns-Exact n))

read_batch-Exact : (rec : WalRecord) → Exact (read_batch rec)
unfolding read_batch
read_batch-Exact rec = bind-Exact (read_exact 6) _ (read_exact-Exact 6) (λ counts.
    bind-Exact (read_col_headers (get_u16 (drop 4 counts))) _
      (read_col_headers-Exact (get_u16 (drop 4 counts)))
      (λ schema.
        map-Exact (read_rows (get_u32 counts) schema) _ (read_rows-Exact (get_u32 counts) schema)))

pub read_body-Exact : (t : ℕ) (rec : WalRecord) → Exact (read_body t rec)
unfolding read_body
read_body-Exact t rec =
    if-Exact (t == wal_type_create) _ _
      (bind-Exact read_u16 _ read_u16-Exact
        (λ n. map-Exact (read_columns n) _ (read_columns-Exact n)))
      (if-Exact (t == wal_type_delete) _ _ (map-Exact read_counted _ read_counted-Exact) (
        if-Exact (t == wal_type_update) _ _
          (bind-Exact read_counted _ read_counted-Exact
            (λ is. read_batch-Exact (record rec { row_indices = is })))
          (if-Exact (t == wal_type_segment_flush) _ _ (map-Exact read_u64 _ read_u64-Exact)
            (read_batch-Exact rec))))

check_stored-Exact :
    (actual : ℕ) (rec : WalRecord) (stored : ℕ) → Exact (check_stored actual rec stored)
unfolding check_stored
check_stored-Exact actual rec stored =
    if-Exact (stored == actual) (ret rec) stop (ret-Exact rec) stop-Exact

pub check-Exact : (rec : WalRecord) → Exact (check rec)
unfolding check
check-Exact rec s =
    bind-Exact read_u64 (check_stored (xxhash64 s.payload 0) rec) read_u64-Exact
      (check_stored-Exact (xxhash64 s.payload 0) rec) s

read_type_byte-ok :
    (i : List ℕ) (s s' : Cursor) (t : ℕ)
    → read_type_byte i s ≡ ok t s'
    → (known_type t ≡ true) × (i ≡ t ∷ s'.input) × (s' ≡ at_cursor s'.input (t ∷ []) (s.pos + 1))
unfolding read_type_byte
read_type_byte-ok [] s s' t e = absurd (ground arith)
read_type_byte-ok (b ∷ i) s s' t e = elim (Bool-cases (known_type b)) [
  | inl k ↦ ground arith
  | inr k ↦ absurd (ground arith)
]

pub read_type-Exact : Exact read_type
unfolding read_type
read_type-Exact s s' t e =
    let (k, ei, es) = read_type_byte-ok s.input s s' t e in
    (
      t ∷ [],
      ei,
      λ rest. read_type-ok t rest s.payload s.pos k ∙ ap (λ c. ok t (refill c rest)) (sym es),
    )

abbrev record_rest : ℕ → ℕ → Read WalRecord
record_rest start t = read_str >>= (λ name. read_body t (new_record t start name) >>= check)

record_rest-Exact : (start t : ℕ) → Exact (record_rest start t)
record_rest-Exact start t = bind-Exact read_str _ read_str-Exact (λ name.
    bind-Exact (read_body t (new_record t start name)) check
      (read_body-Exact t (new_record t start name)) check-Exact)

pub read_record-Exact : Exact read_record
unfolding read_record
read_record-Exact s =
    bind-Exact read_type (record_rest s.pos) read_type-Exact (record_rest-Exact s.pos) s

-- A turn that reads a record leaves less of the file.
pub read_record-shrinks :
    (s s' : Cursor) (rec : WalRecord) → read_record s ≡ ok rec s' → length s'.input < length s.input
unfolding read_record read_type
read_record-shrinks s s' rec e =
    let (t, s1, et, er) = bind-ok_cases (read_type s) (record_rest s.pos) rec s' e in
    let (k, ei, es) = read_type_byte-ok s.input s s1 t et in
    let (bs, ebs, back) = record_rest-Exact s.pos t s1 s' rec er in
    omega (arith, ap (λ x. length x) ei, ap (λ x. length x) ebs, length-append bs s'.input)
