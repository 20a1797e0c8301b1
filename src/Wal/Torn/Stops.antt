-- ===== src/Wal/Torn/Stops.antt =====
-- Where `WalReader` stops: at the end of a file, and at a record that is cut short.
use nyxdb.Base.{
  ◌⊎◌, inl, inr, ℕ, ◌+◌, ◌<◌, ◌≡◌, refl, ap, ◌∙◌, List, [], ◌++◌, some, arith, length,
  length-append,
}
use mathlib.Core.List.{append_assoc, append-nil}
use nyxdb.Wal.{WalRecord}
use nyxdb.Wal.Writer.{LogCall, record_bytes, seal}
use nyxdb.Wal.Reader.{read_type, read_type_byte, read_record}
use nyxdb.Wal.Reader.Monad.{Cursor, Step, ok, stopped}
use nyxdb.Wal.Reader.Compose.{at_cursor}
use nyxdb.Wal.RoundTrip.Calls.{CallFits, read_record-record_bytes}
use nyxdb.Wal.Torn.Exactness.{read_record-Exact}

-- The reader stops at these bytes; `Q` relates `pos` before and after.
abbrev pub Stops : (ℕ → ℕ → Type 0) → List ℕ → Type 0
Stops Q bs =
    (p : List ℕ) (n : ℕ)
    → (s' : Cursor) × (read_record (at_cursor bs p n) ≡ stopped s') × Q n s'.pos

abbrev pub Stays : ℕ → ℕ → Type 0
Stays n m = m ≡ n

abbrev pub Anywhere : ℕ → ℕ → Type 0
Anywhere n m = Unit {0}

pub step_cases :
    {A : Type 0} (r : Step A)
    → ((s' : Cursor) × (r ≡ stopped s')) ⊎ ((a : A) × (s' : Cursor) × (r ≡ ok a s'))
step_cases (ok a s') = inr (a, s', refl)
step_cases (stopped s') = inl (s', refl)

pub nil-Stops : Stops Stays []
unfolding read_record read_type read_type_byte
nil-Stops p n = (at_cursor [] p n, refl, refl)

abbrev left : {A : Type 0} → Step A → ℕ
left (ok a s) = length s.input
left (stopped s) = 0

-- What is behind a record that is read does not matter.
read_record_longer :
    (front back p : List ℕ) (n : ℕ) (rec : WalRecord) (s' : Cursor)
    → read_record (at_cursor front p n) ≡ ok rec s'
    → left (read_record (at_cursor (front ++ back) p n)) ≡ length s'.input + length back
read_record_longer front back p n rec s' e =
    let (bs, ei, again) = read_record-Exact (at_cursor front p n) s' rec e in
    let z : front ++ back ≡ bs ++ (s'.input ++ back) =
      ap (λ x. x ++ back) ei ∙ append_assoc bs s'.input back in
    rw z (ap left (again (s'.input ++ back)) ∙ length-append s'.input back)

pub torn-Stops :
    (call : LogCall) (buf front back : List ℕ)
    → CallFits call
    → record_bytes call ≡ some buf
    → seal buf ≡ front ++ back
    → 0 < length back
    → Stops Anywhere front
torn-Stops call buf front back h e z l p n = elim (step_cases (read_record (at_cursor front p n))) [
  | inl (s', stop) ↦ (s', stop, tt)
  | inr (rec, s', er) ↦ absurd (
      omega (
        arith,
        read_record_longer front back p n rec s' er,
        ap (λ x. left (read_record (at_cursor x p n))) (append-nil (seal buf) ∙ z),
        ap left (read_record-record_bytes call buf [] p n h e),
      ))
]
