-- ===== src/Wal/Torn/Tests.antt =====
-- Runs of the log's writer and reader.
use nyxdb.Base.{
  ◌-◌, ℕ, ◌≡◌, refl, arith, true, false, List, ◌++◌, ◌+◌, [], ◌∷◌, Option, none, some, All, length,
}
use nyxdb.Base.Int.{pos, negsuc}
use nyxdb.Value.{Value, TypeId, is_null, type_of_code, type_code}
use nyxdb.Base.Strings.{str_eq}
use nyxdb.Bytes.{put_u16, put_u64, get_u16, get_u32, get_u64}
use nyxdb.Common.XxHash.{xxhash64}
use nyxdb.Wal.RoundTrip.Records.{length-seal}
use nyxdb.Wal.RoundTrip.Columns.{ColumnFits}
use nyxdb.Wal.{Column, wal_type_delete}
use nyxdb.Wal.Writer.{LogCall, Io, log, record_bytes, seal, open_writer}
use nyxdb.Wal.Reader.{read_loop, read_all, read_record, records_read}
use nyxdb.Wal.Reader.Monad.{ok}
use nyxdb.Wal.Reader.Compose.{at_cursor}
use nyxdb.Wal.RoundTrip.Calls.{logged, read_record-record_bytes}
use nyxdb.Wal.Torn.Calls.{CallOk, log_calls, logged_calls}
use nyxdb.Wal.Torn.Recovery.{read_loop_fuel, new_log, read_all-log_calls, read_all-short_write}

abbrev id_column : Column
id_column = record {
  name = 105 ∷ [];
  type = TypeId.int32;
  nullable = false;
  max_len = 0;
  default_value = none;
}

abbrev name_column : Column
name_column = record {
  name = 110 ∷ [];
  type = TypeId.varchar;
  nullable = true;
  max_len = 20;
  default_value = some (Value.string (63 ∷ []));
}

abbrev schema : List Column
schema = id_column ∷ name_column ∷ []

abbrev create_t : LogCall
create_t = LogCall.create_table (116 ∷ []) schema

abbrev insert_t : LogCall
insert_t = LogCall.insert (116 ∷ []) schema (
    (Value.i32 (pos 7) ∷ Value.string (97 ∷ 98 ∷ []) ∷ [])
    ∷ (Value.i32 (negsuc 2) ∷ Value.monostate ∷ [])
    ∷ [])

abbrev delete_t : LogCall
delete_t = LogCall.delete (116 ∷ []) (3 ∷ 5 ∷ [])

columns-fit : All ColumnFits schema
columns-fit = (
  record { name = omega arith; max_len = omega arith; default_value = tt },
  (record { name = omega arith; max_len = omega arith; default_value = omega arith }, tt),
)

abbrev bytes_or_none : Option (List ℕ) → List ℕ
bytes_or_none (some bs) = bs
bytes_or_none none = []

abbrev bytes_of_call : LogCall → List ℕ
bytes_of_call call = bytes_or_none (record_bytes call)

create_t-CallOk : CallOk create_t
unfolding record_bytes
create_t-CallOk = record {
  writes = tt;
  fits = (omega arith, omega arith, columns-fit);
  buf = bytes_of_call create_t;
  bytes = refl;
}

insert_t-CallOk : CallOk insert_t
unfolding record_bytes is_null
insert_t-CallOk = record {
  writes = omega arith;
  fits = (
    omega arith,
    record {
      columns = columns-fit;
      column_count = omega arith;
      row_fits = (
        record { width = refl; cells = (omega arith, (omega arith, tt)) },
        (record { width = refl; cells = (omega arith, (tt, tt)) }, tt),
      );
      row_count = omega arith;
    },
  );
  buf = bytes_of_call insert_t;
  bytes = refl;
}

delete_t-CallOk : CallOk delete_t
unfolding record_bytes
delete_t-CallOk = record {
  writes = tt;
  fits = (omega arith, (omega arith, (omega arith, (omega arith, tt))));
  buf = bytes_of_call delete_t;
  bytes = refl;
}

read_record-record_bytes_example :
    read_record (at_cursor (seal (bytes_of_call insert_t) ++ (9 ∷ [])) [] 6)
    ≡ ok (logged insert_t 6) (
        at_cursor
          (9 ∷ [])
          (seal (bytes_of_call insert_t))
          (6 + length (seal (bytes_of_call insert_t))))
unfolding record_bytes
read_record-record_bytes_example =
    read_record-record_bytes insert_t (bytes_of_call insert_t) (9 ∷ []) [] 6 insert_t-CallOk.fits
      refl

read_all-log_calls_example :
    read_all ((log_calls (create_t ∷ insert_t ∷ []) new_log).file)
    ≡ records_read
        (logged_calls (create_t ∷ insert_t ∷ []) new_log)
        ((log_calls (create_t ∷ insert_t ∷ []) new_log).offset - 6)
read_all-log_calls_example =
    read_all-log_calls (create_t ∷ insert_t ∷ []) (create_t-CallOk, (insert_t-CallOk, tt))

read_all-short_write_example :
    (n : ℕ) × (read_all
        ((log (Io.short 9) delete_t (log_calls (create_t ∷ insert_t ∷ []) new_log)).1.file)
      ≡ records_read (logged_calls (create_t ∷ insert_t ∷ []) new_log) n)
unfolding seal delete_t-CallOk put_u16
read_all-short_write_example =
    read_all-short_write (create_t ∷ insert_t ∷ []) delete_t 9 delete_t-CallOk
      (create_t-CallOk, (insert_t-CallOk, tt)) (omega (arith, length-seal delete_t-CallOk.buf))

-- A default of NULL is logged as the type byte of an INT32 and no bytes, so the reader stops.
abbrev null_default : LogCall
null_default =
    LogCall.create_table (116 ∷ [])
      (record name_column { default_value = some Value.monostate } ∷ [])

read_all_of_null_default :
    read_all ((log_calls (null_default ∷ create_t ∷ []) new_log).file) ≡ records_read [] 27
unfolding log seal read_all open_writer xxhash64 put_u16 put_u64 str_eq get_u16 type_of_code get_u64
    type_code get_u32
read_all_of_null_default = refl

read_loop_fuel_example :
    read_loop 3 [] (at_cursor (wal_type_delete ∷ 1 ∷ []) [] 6)
    ≡ read_loop 8 [] (at_cursor (wal_type_delete ∷ 1 ∷ []) [] 6)
read_loop_fuel_example =
    read_loop_fuel 3 8 [] (at_cursor (wal_type_delete ∷ 1 ∷ []) [] 6) (omega arith) (omega arith)
