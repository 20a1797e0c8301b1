-- ===== src/Wal/Torn/Recovery.antt =====
-- `WalReader::read_all` after any calls of the writer, the last of which may have been cut short.
use nyxdb.Base.{
  subst, inl, inr, ltb, length-take, ℕ, zero, suc, ◌+◌, ◌-◌, ◌≤◌, ◌<◌, ◌≡◌, refl, sym, ap, ◌∙◌,
  true, false, List, [], ◌∷◌, ◌++◌, none, All, arith, length, length-append, take, take-append-drop,
  drop,
}
use mathlib.Core.List.{append_assoc, append-nil}
use nyxdb.Bytes.{put_u16}
use nyxdb.Base.Strings.{str_eq}
use nyxdb.Wal.{WalRecord, wal_magic}
use nyxdb.Wal.Writer.{LogCall, WalWriter, Io, seal, write_record, log, open_writer}
use nyxdb.Wal.Reader.{read_record, read_loop, read_all, start_cursor, records_read}
use nyxdb.Wal.Reader.Monad.{Cursor, Step, ok, stopped}
use nyxdb.Wal.Reader.Compose.{at_cursor}
use nyxdb.Wal.RoundTrip.Calls.{logged, read_record-record_bytes}
use nyxdb.Wal.Torn.Exactness.{read_record-shrinks}
use nyxdb.Wal.Torn.Stops.{Stays, Anywhere, step_cases, Stops, nil-Stops, torn-Stops}
use nyxdb.Wal.Torn.Calls.{
  CallOk, log_of_CallOk, log_calls, logged_calls, bytes_of, written, log_calls-file,
  length-bytes_of,
}

unfoldable turn : ℕ → List WalRecord → Step WalRecord → List WalRecord × ℕ
turn fuel acc (ok rec s') = read_loop fuel (acc ++ (rec ∷ [])) s'
turn fuel acc (stopped s') = (acc, s'.pos)

read_loop-turn :
    (fuel : ℕ) (acc : List WalRecord) (s : Cursor)
    → read_loop (suc fuel) acc s ≡ turn fuel acc (read_record s)
unfolding read_loop turn
read_loop-turn fuel acc s =
    elim (read_record s)
      as (λ r.
        elim r as (λ x. List WalRecord × ℕ) [
          | ok rec s' ↦ read_loop fuel (acc ++ (rec ∷ [])) s'
          | stopped s' ↦ (acc, s'.pos)
        ]
        ≡ turn fuel acc r) [ ok rec s' ↦ refl | stopped s' ↦ refl ]

read_loop-stopped :
    (fuel : ℕ) (acc : List WalRecord) (s s' : Cursor)
    → read_record s ≡ stopped s'
    → read_loop (suc fuel) acc s ≡ (acc, s'.pos)
unfolding turn
read_loop-stopped fuel acc s s' e = read_loop-turn fuel acc s ∙ ap (turn fuel acc) e

read_loop-ok :
    (fuel : ℕ) (acc : List WalRecord) (s s' : Cursor) (rec : WalRecord)
    → read_record s ≡ ok rec s'
    → read_loop (suc fuel) acc s ≡ read_loop fuel (acc ++ (rec ∷ [])) s'
unfolding turn
read_loop-ok fuel acc s s' rec e = read_loop-turn fuel acc s ∙ ap (turn fuel acc) e

-- Any two amounts of fuel above the number of bytes that are left give the same: every turn that
-- goes on has read a byte, so the loop ends by itself and `read_all` never lacks fuel.
pub read_loop_fuel :
    (fuel fuel' : ℕ) (acc : List WalRecord) (s : Cursor)
    → length s.input < fuel
    → length s.input < fuel'
    → read_loop fuel acc s ≡ read_loop fuel' acc s
read_loop_fuel zero fuel' acc s h h' = absurd (omega arith)
read_loop_fuel (suc fuel) zero acc s h h' = absurd (omega arith)
read_loop_fuel (suc fuel) (suc fuel') acc s h h' = elim (step_cases (read_record s)) [
  | inl (s', e) ↦ read_loop-stopped fuel acc s s' e ∙ sym (read_loop-stopped fuel' acc s s' e)
  | inr (rec, s', e) ↦
      let less : length s'.input < length s.input = read_record-shrinks s s' rec e in
      read_loop-ok fuel acc s s' rec e
      ∙ (read_loop_fuel fuel fuel' (acc ++ (rec ∷ [])) s' (omega arith) (omega arith)
          ∙ sym (read_loop-ok fuel' acc s s' rec e))
]

-- The loop reads the calls' records, and stops where the rest does.
read_loop-log_calls :
    (calls : List LogCall) (os : All CallOk calls) (rest : List ℕ) (fuel : ℕ) (acc : List WalRecord)
    (p : List ℕ) (w : WalWriter) (Q : ℕ → ℕ → Type 0)
    → Stops Q rest
    → length calls < fuel
    → (pos : ℕ) × (read_loop fuel acc (at_cursor (bytes_of calls os ++ rest) p w.offset)
        ≡ (acc ++ logged_calls calls w, pos))
      × Q (log_calls calls w).offset pos
unfolding read_loop write_record
read_loop-log_calls [] os rest zero acc p w Q st h = absurd (omega arith)
read_loop-log_calls (call ∷ calls) os rest zero acc p w Q st h = absurd (omega arith)
read_loop-log_calls [] os rest (suc fuel) acc p w Q st h =
    let (s', e, q) = st p w.offset in
    (
      s'.pos,
      read_loop-stopped fuel acc (at_cursor rest p w.offset) s' e
          ∙ ap (λ x. (x, s'.pos)) (sym (append-nil acc)),
      q,
    )
read_loop-log_calls (call ∷ calls) (o, os) rest (suc fuel) acc p w Q st h =
    let rec : WalRecord = logged call w.offset in
    let bytes : List ℕ = bytes_of calls os in
    let acc' : List WalRecord = acc ++ (rec ∷ []) in
    let (pos, e, q) =
      read_loop-log_calls calls os rest fuel acc' (seal o.buf) (written w o.buf) Q st
        (omega arith) in
    let read = read_record-record_bytes call o.buf (bytes ++ rest) p w.offset o.fits o.bytes in
    let all : logged_calls (call ∷ calls) w ≡ rec ∷ logged_calls calls (written w o.buf) =
      ap (λ r. rec ∷ logged_calls calls (r.1)) (log_of_CallOk Io.done call w o) in
    (
      pos,
      ap (λ i. read_loop (suc fuel) acc (at_cursor i p w.offset))
            (append_assoc (seal o.buf) bytes rest)
          ∙ (read_loop-ok fuel acc (at_cursor (seal o.buf ++ (bytes ++ rest)) p w.offset)
                (at_cursor (bytes ++ rest) (seal o.buf) (w.offset + length (seal o.buf))) rec read
              ∙ (e
                  ∙ ap (λ x. (x, pos))
                      (append_assoc acc (rec ∷ []) (logged_calls calls (written w o.buf))
                        ∙ ap (λ x. acc ++ x) (sym all)))),
      subst (λ r. Q (log_calls calls (r.1)).offset pos) (sym (log_of_CallOk Io.done call w o)) q,
    )

-- The calls' records, and then a rest at which the reader stops.
abbrev pub new_log : WalWriter
unfolding open_writer
new_log = open_writer none

unfoldable loop_of : List ℕ → List WalRecord × ℕ
loop_of file = read_loop (length file) [] (start_cursor file)

read_all_of_header :
    (file : List ℕ)
    → 6 ≤ length file
    → str_eq (take 4 file) wal_magic ≡ true
    → read_all file ≡ records_read ((loop_of file).0) ((loop_of file).1 - 6)
unfolding read_all loop_of
read_all_of_header file h m = let l : ltb (length file) 6 ≡ false = ground arith in rw (l, m) refl

read_all_of_file :
    (calls : List LogCall) (os : All CallOk calls) (rest : List ℕ) (Q : ℕ → ℕ → Type 0)
    → Stops Q rest
    → (pos : ℕ) × (read_all (new_log.file ++ (bytes_of calls os ++ rest))
        ≡ records_read (logged_calls calls new_log) (pos - 6))
      × Q (log_calls calls new_log).offset pos
unfolding open_writer put_u16 str_eq loop_of
read_all_of_file calls os rest Q st =
    let file : List ℕ = new_log.file ++ (bytes_of calls os ++ rest) in
    let (pos, e, q) =
      read_loop-log_calls calls os rest (length file) [] [] new_log Q st
        (omega (arith, length-append (bytes_of calls os) rest, length-bytes_of calls os)) in
    (
      pos,
      read_all_of_header file (omega (arith, length-append (bytes_of calls os) rest)) refl
          ∙ ap (λ r. records_read (r.0) (r.1 - 6)) e,
      q,
    )

-- After any calls in a row, each written in full, the file is read back as their records, in order,
-- each with the offset at which it starts, and the bytes consumed are all that the writer wrote
-- behind the header. Each call fits its record, its `std::get` finds the types of the columns, and
-- no insert is of no rows.
pub read_all-log_calls :
    (calls : List LogCall)
    → All CallOk calls
    → read_all ((log_calls calls new_log).file)
      ≡ records_read (logged_calls calls new_log) ((log_calls calls new_log).offset - 6)
read_all-log_calls calls os =
    let (pos, e, q) = read_all_of_file calls os [] Stays nil-Stops in
    ap read_all (
      log_calls-file calls os new_log
      ∙ ap (λ x. new_log.file ++ x) (sym (append-nil (bytes_of calls os))))
    ∙ (e ∙ ap (λ n. records_read (logged_calls calls new_log) (n - 6)) q)

-- When the write of one more call is cut short at any byte, the file is read back as the records of
-- the calls before it: nothing of the torn record is seen, and nothing before it is lost. Each call,
-- the last included, fits its record, its `std::get` finds the types of the columns, and no insert is
-- of no rows.
pub read_all-short_write :
    (calls : List LogCall) (call : LogCall) (k : ℕ) (o : CallOk call)
    → All CallOk calls
    → k < length (seal o.buf)
    → (n : ℕ) × (read_all ((log (Io.short k) call (log_calls calls new_log)).1.file)
        ≡ records_read (logged_calls calls new_log) n)
unfolding write_record
read_all-short_write calls call k o os h =
    let front : List ℕ = take k (seal o.buf) in
    let back : List ℕ = drop k (seal o.buf) in
    let whole : front ++ back ≡ seal o.buf = take-append-drop k (seal o.buf) in
    let left : 0 < length back = omega (
      arith,
      length-append front back,
      ap (λ x. length x) whole,
      length-take k (seal o.buf) (omega arith),
    ) in
    let (pos, e, q) =
      read_all_of_file calls os front Anywhere
        (torn-Stops call o.buf front back o.fits o.bytes (sym whole) left) in
    (
      pos - 6,
      ap (λ r. read_all (r.1.file)) (log_of_CallOk (Io.short k) call (log_calls calls new_log) o)
          ∙ (ap (λ x. read_all (x ++ front)) (log_calls-file calls os new_log)
              ∙ (ap read_all (append_assoc new_log.file (bytes_of calls os) front) ∙ e)),
    )
