-- ===== src/Wal/Torn/Calls.antt =====
-- The file that calls of the writer in a row leave.
use nyxdb.Base.{
  ℕ, ◌+◌, ◌≤◌, ◌<◌, ◌≡◌, sym, ap, ◌∙◌, List, [], ◌∷◌, ◌++◌, some, All, arith, length, length-append,
}
use mathlib.Core.List.{append_assoc, append-nil}
use nyxdb.Wal.{WalRecord}
use nyxdb.Wal.Writer.{LogCall, WalWriter, Io, record_bytes, seal, write_record, write_buffer, log}
use nyxdb.Wal.RoundTrip.Records.{length-seal}
use nyxdb.Wal.RoundTrip.Calls.{CallFits, logged}

-- An insert of no rows writes nothing.
abbrev pub Writes : LogCall → Type 0
Writes (LogCall.insert table schema rows) = 0 < length rows
Writes _ = Unit {0}

-- A call that the writer writes: it fits its record, and no `std::get` throws.
pub record CallOk (call : LogCall) : Type 0 where
  pub writes : Writes call
  pub fits : CallFits call
  pub buf : List ℕ
  pub bytes : record_bytes call ≡ some buf

pub log_of_CallOk :
    (io : Io) (call : LogCall) (w : WalWriter) (o : CallOk call)
    → log io call w ≡ write_record io o.buf w
unfolding log write_buffer
log_of_CallOk io (LogCall.insert table schema []) w o = absurd (omega (arith, o.writes))
log_of_CallOk io (LogCall.insert table schema (row ∷ rows)) w o =
    ap (λ b. write_buffer io b w) o.bytes
log_of_CallOk io _ w o = ap (λ b. write_buffer io b w) o.bytes

-- Calls in a row, each written in full.
abbrev pub log_calls : List LogCall → WalWriter → WalWriter
log_calls [] w = w
log_calls (call ∷ calls) w = log_calls calls ((log Io.done call w).1)

-- What they logged, each from the offset at which the writer was.
abbrev pub logged_calls : List LogCall → WalWriter → List WalRecord
logged_calls [] w = []
logged_calls (call ∷ calls) w = logged call w.offset ∷ logged_calls calls ((log Io.done call w).1)

abbrev pub bytes_of : (calls : List LogCall) → All CallOk calls → List ℕ
bytes_of [] os = []
bytes_of (call ∷ calls) (o, os) = seal o.buf ++ bytes_of calls os

abbrev pub written : WalWriter → List ℕ → WalWriter
written w buf = record { file = w.file ++ seal buf; offset = w.offset + length (seal buf) }

pub log_calls-file :
    (calls : List LogCall) (os : All CallOk calls) (w : WalWriter)
    → (log_calls calls w).file ≡ w.file ++ bytes_of calls os
unfolding write_record
log_calls-file [] os w = sym (append-nil w.file)
log_calls-file (call ∷ calls) (o, os) w =
    ap (λ r. (log_calls calls (r.1)).file) (log_of_CallOk Io.done call w o)
    ∙ (log_calls-file calls os (written w o.buf)
        ∙ append_assoc w.file (seal o.buf) (bytes_of calls os))

pub length-bytes_of :
    (calls : List LogCall) (os : All CallOk calls) → length calls ≤ length (bytes_of calls os)
length-bytes_of [] os = omega arith
length-bytes_of (call ∷ calls) (o, os) = omega (
  arith,
  length-append (seal o.buf) (bytes_of calls os),
  length-seal o.buf,
  length-bytes_of calls os,
)
