-- ===== src/Wal/RoundTrip/Calls.antt =====
-- Each call of the writer is read back as the record that says what was logged.
use nyxdb.Base.{
  [], ℕ, ◌+◌, ◌<◌, ◌≡◌, refl, sym, subst, true, List, ◌++◌, some, All, arith, length, map,
  bind-some, drop,
}
use nyxdb.Base.Words.{u16_mod, u32_mod, u64_mod}
use nyxdb.Bytes.{put_u16, put_u32, put_u64, get_u16, get_u32}
use nyxdb.Bytes.RoundTrip.{get_u16-put_u16, get_u32-put_u32}
use nyxdb.Value.{Value}
use nyxdb.Wal.{
  Column, LoggedColumn, WalRecord, wal_type_insert, wal_type_create, wal_type_delete,
  wal_type_update, wal_type_segment_flush,
}
use nyxdb.Wal.Writer.{
  LogCall, put_table, put_batch, put_columns, put_counted, put_col_headers, put_rows, record_bytes,
  seal,
}
use nyxdb.Wal.Reader.{
  read_u16, read_u64, read_columns, read_counted, read_batch, read_body, known_type, new_record,
  read_record, read_col_headers, read_rows,
}
use nyxdb.Wal.Reader.Monad.{Read, ok, ◌>>=◌, ret, read_exact}
use nyxdb.Wal.Reader.Compose.{Reads, at_cursor, read_exact-Reads, map-Reads, bind-Reads}
use nyxdb.Wal.RoundTrip.Words.{read_u16-Reads, read_u64-Reads}
use nyxdb.Wal.RoundTrip.Cells.{logged_header, RowFits, read_rows-put_rows}
use nyxdb.Wal.RoundTrip.Columns.{
  ColumnFits, logged_column, read_columns-put_columns, read_col_headers-put_col_headers, IndicesFit,
  read_counted-put_counted,
}
use nyxdb.Wal.RoundTrip.Records.{read_record_of_body}

-- A schema whose columns fit, and rows of its width whose cells fit.
pub record BatchFits (schema : List Column) (rows : List (List Value)) : Type 0 where
  pub columns : All ColumnFits schema
  pub column_count : length schema < u16_mod
  pub row_fits : All (RowFits schema) rows
  pub row_count : length rows < u32_mod

abbrev with_batch : WalRecord → List Column → List (List Value) → WalRecord
with_batch rec schema rows = record rec { schema = map logged_header schema; rows = rows }

read_batch-put_batch :
    (rec : WalRecord) (schema : List Column) (rows : List (List Value)) (bs : List ℕ)
    → BatchFits schema rows
    → put_batch schema rows ≡ some bs
    → Reads (read_batch rec) bs (with_batch rec schema rows)
unfolding read_batch put_batch put_u32 put_u16 get_u16 get_u32
read_batch-put_batch rec schema rows bs h e =
    let counts : List ℕ = put_u32 (length rows) ++ put_u16 (length schema) in
    let (cells, ec, es) =
      bind-some (put_rows schema rows) (λ bs. some (counts ++ (put_col_headers schema ++ bs))) bs
        e in
    let z : bs ≡ counts ++ (put_col_headers schema ++ cells) = ground arith in
    let cols : List LoggedColumn = map logged_header schema in
    let finish : ℕ → List LoggedColumn → Read WalRecord = λ n schema.
      read_rows n schema >>= (λ rows. ret (record rec { schema = schema; rows = rows })) in
    let result : WalRecord = with_batch rec schema rows in
    let heads : Reads (read_col_headers (length schema)) (put_col_headers schema) cols =
      read_col_headers-put_col_headers schema h.columns in
    let tail : Reads (finish (length rows) cols) cells result =
      map-Reads (read_rows (length rows) cols) (λ rows. record rec { schema = cols; rows = rows })
        cells rows result (read_rows-put_rows schema rows cells h.row_fits ec) refl in
    let body : Reads (read_col_headers (length schema) >>= finish (length rows))
        (put_col_headers schema ++ cells) result =
      bind-Reads (read_col_headers (length schema)) (finish (length rows)) (put_col_headers schema)
        cells cols result heads tail in
    let nc : get_u16 (put_u16 (length schema)) ≡ length schema =
      get_u16-put_u16 (length schema) h.column_count in
    let nr : get_u32 (put_u32 (length rows)) ≡ length rows =
      get_u32-put_u32 (length rows) h.row_count in
    rw z (
      bind-Reads (read_exact 6)
        (λ counts. read_col_headers (get_u16 (drop 4 counts)) >>= finish (get_u32 counts)) counts
        (put_col_headers schema ++ cells) counts result (read_exact-Reads counts 6 refl)
        (subst
          (λ k.
            Reads (read_col_headers k >>= finish (get_u32 counts)) (put_col_headers schema ++ cells)
              result)
          (sym nc)
          (subst
            (λ k.
              Reads (read_col_headers (length schema) >>= finish k)
                (put_col_headers schema ++ cells) result)
            (sym nr) body)))

-- What a call logs fits the words of its record.
abbrev pub CallFits : LogCall → Type 0
CallFits (LogCall.insert table schema rows) = (length table < u16_mod) × BatchFits schema rows
CallFits (LogCall.create_table table schema) =
    (length table < u16_mod) × (length schema < u16_mod) × All ColumnFits schema
CallFits (LogCall.delete table is) = (length table < u16_mod) × IndicesFit is
CallFits (LogCall.update table is schema rows) =
    (length table < u16_mod) × IndicesFit is × BatchFits schema rows
CallFits (LogCall.segment_flush table n) = (length table < u16_mod) × (n < u64_mod)

abbrev entry : ℕ → ℕ → List ℕ → WalRecord
entry type start table = record {
  type = type;
  byte_offset = start;
  table_name = table;
  schema = [];
  rows = [];
  row_indices = [];
  sealed_row_count = 0;
}

-- The record that says what a call logged, from its first byte on.
abbrev pub logged : LogCall → ℕ → WalRecord
logged (LogCall.insert table schema rows) start =
    with_batch (entry wal_type_insert start table) schema rows
logged (LogCall.create_table table schema) start = record (entry wal_type_create start table) {
  schema = map logged_column schema;
}
logged (LogCall.delete table is) start = record (entry wal_type_delete start table) {
  row_indices = is;
}
logged (LogCall.update table is schema rows) start =
    with_batch (record (entry wal_type_update start table) { row_indices = is }) schema rows
logged (LogCall.segment_flush table n) start = record (entry wal_type_segment_flush start table) {
  sealed_row_count = n;
}

-- The bytes of a record that is written are the type, the table's name, and these.
body_cases :
    (call : LogCall) (buf : List ℕ) (n : ℕ)
    → CallFits call
    → record_bytes call ≡ some buf
    → (type : ℕ) × (table : List ℕ) × (body : List ℕ) × (buf ≡ put_table type table ++ body)
      × (known_type type ≡ true)
      × (length table < u16_mod)
      × Reads (read_body type (new_record type n table)) body (logged call n)
unfolding record_bytes read_body known_type new_record
body_cases (LogCall.insert table schema rows) buf n (h, hb) e =
    let (bs, eb, es) =
      bind-some (put_batch schema rows) (λ bs. some (put_table wal_type_insert table ++ bs)) buf
        e in
    (
      wal_type_insert,
      table,
      bs,
      ground arith,
      refl,
      h,
      read_batch-put_batch (new_record wal_type_insert n table) schema rows bs hb eb,
    )
body_cases (LogCall.create_table table schema) buf n (h, hc, hs) e =
    let rec : WalRecord = new_record wal_type_create n table in
    let finish : List LoggedColumn → WalRecord = λ schema. record rec { schema = schema } in
    (
      wal_type_create,
      table,
      put_u16 (length schema) ++ put_columns schema,
      ground arith,
      refl,
      h,
      bind-Reads read_u16 (λ n. read_columns n >>= (λ schema. ret (finish schema)))
          (put_u16 (length schema)) (put_columns schema) (length schema)
          (finish (map logged_column schema)) (read_u16-Reads (length schema) hc)
          (map-Reads (read_columns (length schema)) finish (put_columns schema)
            (map logged_column schema) (finish (map logged_column schema))
            (read_columns-put_columns schema hs) refl),
    )
body_cases (LogCall.delete table is) buf n (h, hi) e =
    let rec : WalRecord = new_record wal_type_delete n table in
    (
      wal_type_delete,
      table,
      put_counted is,
      ground arith,
      refl,
      h,
      map-Reads read_counted (λ is. record rec { row_indices = is }) (put_counted is) is
          (record rec { row_indices = is }) (read_counted-put_counted is hi) refl,
    )
body_cases (LogCall.update table is schema rows) buf n (h, hi, hb) e =
    let rec : WalRecord = new_record wal_type_update n table in
    let (bs, eb, es) =
      bind-some (put_batch schema rows)
        (λ bs. some (put_table wal_type_update table ++ (put_counted is ++ bs))) buf e in
    (
      wal_type_update,
      table,
      put_counted is ++ bs,
      ground arith,
      refl,
      h,
      bind-Reads read_counted (λ is. read_batch (record rec { row_indices = is })) (put_counted is)
          bs is (with_batch (record rec { row_indices = is }) schema rows)
          (read_counted-put_counted is hi)
          (read_batch-put_batch (record rec { row_indices = is }) schema rows bs hb eb),
    )
body_cases (LogCall.segment_flush table k) buf n (h, hk) e =
    let rec : WalRecord = new_record wal_type_segment_flush n table in
    (
      wal_type_segment_flush,
      table,
      put_u64 k,
      ground arith,
      refl,
      h,
      map-Reads read_u64 (λ k. record rec { sealed_row_count = k }) (put_u64 k) k
          (record rec { sealed_row_count = k }) (read_u64-Reads k hk) refl,
    )

-- A record that any of the five calls writes, with its checksum and with anything behind it, is
-- read back as what the call logged: the type, the table, the columns, the cells with their nulls,
-- the row numbers and the sealed count, with the place where it starts; and the reader stands
-- behind it. The call's names, counts and values fit the words of the record.
pub read_record-record_bytes :
    (call : LogCall) (buf rest p : List ℕ) (n : ℕ)
    → CallFits call
    → record_bytes call ≡ some buf
    → read_record (at_cursor (seal buf ++ rest) p n)
      ≡ ok (logged call n) (at_cursor rest (seal buf) (n + length (seal buf)))
read_record-record_bytes call buf rest p n h e =
    let (type, table, body, z, k, ht, hb) = body_cases call buf n h e in
    rw z (read_record_of_body type table body (logged call n) rest p n k ht hb)
