-- ===== src/Bytes/Reader.antt =====
-- Reading from a buffer with a check of what is left before each step: `need` of
-- `ShardMapFile::read` (src/storage/disk/shard_map_file.cpp) and `read_exact` of
-- src/storage/wal/wal_reader.cpp.
use nyxdb.Base.{
  ℕ, ◌<◌, ◌≡◌, sym, List, [], ◌∷◌, ◌++◌, arith, leb, if◌then◌else◌, length, take, drop,
  length-append, take-append_exact, drop-append_exact,
}
use nyxdb.Base.Words.{u16_mod, u32_mod, u64_mod}
use nyxdb.Bytes.{put_u16, put_u32, put_u64, get_u16, get_u32, get_u64}
use nyxdb.Bytes.RoundTrip.{
  get_u16-put_u16, get_u32-put_u32, get_u64-put_u64, length-put_u16, length-put_u32, length-put_u64,
}

pub data ReadError : Type 0 where
  bad_magic truncated unknown_type : ReadError

pub data Read {ℓ} (A : Type ℓ) : Type ℓ where
  ok : A → List ℕ → Read A
  err : ReadError → Read A

abbrev pub Reader {ℓ} : Type ℓ → Type ℓ
Reader A = List ℕ → Read A

infixl 5 ◌>>=◌
abbrev pub ◌>>=◌ {ℓ κ} : {A : Type ℓ} {B : Type κ} → Reader A → (A → Reader B) → Reader B
◌>>=◌ m f bs = elim (m bs) [ ok a rest ↦ f a rest | err e ↦ err e ]

abbrev pub ret {ℓ} : {A : Type ℓ} → A → Reader A
ret a bs = ok a bs

abbrev pub fail {ℓ} : {A : Type ℓ} → ReadError → Reader A
fail e bs = err e

-- `need(n)`, then `n` bytes.
unfoldable pub read_bytes : ℕ → Reader (List ℕ)
read_bytes n bs = if leb n (length bs) then ok (take n bs) (drop n bs) else err truncated

unfoldable pub read_u8 : Reader ℕ
read_u8 [] = err truncated
read_u8 (b ∷ bs) = ok b bs

unfoldable pub read_u16 : Reader ℕ
read_u16 = do bs ← read_bytes 2; ret (get_u16 bs)

unfoldable pub read_u32 : Reader ℕ
read_u32 = do bs ← read_bytes 4; ret (get_u32 bs)

unfoldable pub read_u64 : Reader ℕ
read_u64 = do bs ← read_bytes 8; ret (get_u64 bs)

pub read_bytes-append :
    (xs rest : List ℕ) (n : ℕ) → n ≡ length xs → read_bytes n (xs ++ rest) ≡ ok xs rest
unfolding read_bytes
read_bytes-append xs rest n e =
    rw (e, take-append_exact xs rest, drop-append_exact xs rest)
      (ground (arith, length-append xs rest))

pub read_u16-put_u16 :
    (v : ℕ) (rest : List ℕ) → v < u16_mod → read_u16 (put_u16 v ++ rest) ≡ ok v rest
unfolding read_u16
read_u16-put_u16 v rest h =
    ground
      (arith, read_bytes-append (put_u16 v) rest 2 (sym (length-put_u16 v)), get_u16-put_u16 v h)

pub read_u32-put_u32 :
    (v : ℕ) (rest : List ℕ) → v < u32_mod → read_u32 (put_u32 v ++ rest) ≡ ok v rest
unfolding read_u32
read_u32-put_u32 v rest h =
    ground
      (arith, read_bytes-append (put_u32 v) rest 4 (sym (length-put_u32 v)), get_u32-put_u32 v h)

pub read_u64-put_u64 :
    (v : ℕ) (rest : List ℕ) → v < u64_mod → read_u64 (put_u64 v ++ rest) ≡ ok v rest
unfolding read_u64
read_u64-put_u64 v rest h =
    ground
      (arith, read_bytes-append (put_u64 v) rest 8 (sym (length-put_u64 v)), get_u64-put_u64 v h)
