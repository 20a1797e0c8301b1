-- ===== src/Wal/RoundTrip/Records.antt =====
-- Each record that a call of the writer appends is read back as one record.
use nyxdb.Base.{
  ℕ, ◌+◌, ◌<◌, ◌≡◌, refl, ap, ◌∙◌, true, List, [], ◌∷◌, ◌++◌, arith, length, length-append,
}
use mathlib.Core.List.{append_assoc}
use nyxdb.Base.Words.{u16_mod}
use nyxdb.Bytes.{put_u64}
use nyxdb.Bytes.RoundTrip.{length-put_u64}
use nyxdb.Common.XxHash.{xxhash64, xxhash64-lt}
use nyxdb.Wal.{WalRecord}
use nyxdb.Wal.Writer.{put_str, put_table, seal}
use nyxdb.Wal.Reader.{
  read_u64, read_str, read_body, known_type, read_type_byte, read_type, new_record, check,
  check_stored, read_record,
}
use nyxdb.Wal.Reader.Monad.{Read, ok, ◌>>=◌}
use nyxdb.Wal.Reader.Compose.{Reads, at_cursor, bind-ok}
use nyxdb.Wal.RoundTrip.Words.{read_u64-Reads, read_str-Reads}

check-seal :
    (rec : WalRecord) (rest p : List ℕ) (n : ℕ)
    → check rec (at_cursor (put_u64 (xxhash64 p 0) ++ rest) p n)
      ≡ ok rec (at_cursor rest (seal p) (n + 8))
unfolding check check_stored seal
check-seal rec rest p n =
    bind-ok read_u64 (check_stored (xxhash64 p 0) rec) (xxhash64 p 0)
      (at_cursor (put_u64 (xxhash64 p 0) ++ rest) p n)
      (at_cursor rest (seal p) (n + length (put_u64 (xxhash64 p 0))))
      (read_u64-Reads (xxhash64 p 0) (xxhash64-lt p 0) rest p n)
    ∙ rw (length-put_u64 (xxhash64 p 0)) (ground arith)

pub read_type-ok :
    (type : ℕ) (rest p : List ℕ) (n : ℕ)
    → known_type type ≡ true
    → read_type (at_cursor (type ∷ rest) p n) ≡ ok type (at_cursor rest (type ∷ []) (n + 1))
unfolding read_type read_type_byte
read_type-ok type rest p n k = rw k refl

pub length-seal : (buf : List ℕ) → length (seal buf) ≡ length buf + 8
unfolding seal
length-seal buf =
    omega (arith, length-append buf (put_u64 (xxhash64 buf 0)), length-put_u64 (xxhash64 buf 0))

seal_rest :
    (type : ℕ) (name body rest : List ℕ)
    → seal (type ∷ (name ++ body)) ++ rest
      ≡ type ∷ (name ++ (body ++ (put_u64 (xxhash64 (type ∷ (name ++ body)) 0) ++ rest)))
unfolding seal
seal_rest type name body rest =
    let cs : List ℕ = put_u64 (xxhash64 (type ∷ (name ++ body)) 0) in
    ap (λ x. type ∷ x)
      (ap (λ x. x ++ rest) (append_assoc name body cs)
        ∙ (append_assoc name (body ++ cs) rest ∙ ap (λ x. name ++ x) (append_assoc body cs rest)))

pub read_record_of_body :
    (type : ℕ) (table body : List ℕ) (rec : WalRecord) (rest p : List ℕ) (n : ℕ)
    → known_type type ≡ true
    → length table < u16_mod
    → Reads (read_body type (new_record type n table)) body rec
    → read_record (at_cursor (seal (put_table type table ++ body) ++ rest) p n)
      ≡ ok rec (
          at_cursor rest
            (seal (put_table type table ++ body))
            (n + length (seal (put_table type table ++ body))))
unfolding read_record put_table
read_record_of_body type table body rec rest p n k h hb =
    let name : List ℕ = put_str table in
    let buf : List ℕ = type ∷ (name ++ body) in
    let rest1 : List ℕ = put_u64 (xxhash64 buf 0) ++ rest in
    let m : ℕ = n + 1 + length name in
    let rest_of : ℕ → Read WalRecord =
      λ t. read_str >>= (λ name. read_body t (new_record t n name) >>= check) in
    rw (seal_rest type name body rest) (
      bind-ok read_type rest_of type (at_cursor (type ∷ (name ++ (body ++ rest1))) p n)
        (at_cursor (name ++ (body ++ rest1)) (type ∷ []) (n + 1))
        (read_type-ok type (name ++ (body ++ rest1)) p n k)
      ∙ (bind-ok read_str (λ name. read_body type (new_record type n name) >>= check) table
            (at_cursor (name ++ (body ++ rest1)) (type ∷ []) (n + 1))
            (at_cursor (body ++ rest1) (type ∷ name) m)
            (read_str-Reads table h (body ++ rest1) (type ∷ []) (n + 1))
          ∙ (bind-ok (read_body type (new_record type n table)) check rec
                (at_cursor (body ++ rest1) (type ∷ name) m) (at_cursor rest1 buf (m + length body))
                (hb rest1 (type ∷ name) m)
              ∙ (check-seal rec rest buf (m + length body)
                  ∙ ap (λ k. ok rec (at_cursor rest (seal buf) k))
                      (omega (arith, length-seal buf, length-append name body))))))
