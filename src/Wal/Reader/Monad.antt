-- ===== src/Wal/Reader/Monad.antt =====
-- The reads of `WalReader::read_all` (src/storage/wal/wal_reader.cpp): each is a `read_exact`, then
-- an `insert` at the payload's end, then an addition to `pos`.
use nyxdb.Base.{get_or, ℕ, ◌+◌, List, ◌++◌, leb, if◌then◌else◌, length, take, drop}

-- The file from the descriptor's offset on, the bytes of the record so far, and `pos`.
pub record Cursor : Type 0 where
  pub input : List ℕ
  pub payload : List ℕ
  pub pos : ℕ

-- A failed read leaves `pos` as it was; what is left of the file is not read again.
pub data Step {ℓ} (A : Type ℓ) : Type ℓ where
  ok : A → Cursor → Step A
  stopped : Cursor → Step A

abbrev pub Read {ℓ} : Type ℓ → Type ℓ
Read A = Cursor → Step A

infixl 5 ◌>>=◌
abbrev pub ◌>>=◌ {ℓ κ} : {A : Type ℓ} {B : Type κ} → Read A → (A → Read B) → Read B
◌>>=◌ m f s = elim (m s) [ ok a rest ↦ f a rest | stopped rest ↦ stopped rest ]

abbrev pub ret {ℓ} : {A : Type ℓ} → A → Read A
ret a s = ok a s

abbrev pub stop {ℓ} : {A : Type ℓ} → Read A
stop s = stopped s

unfoldable pub read_exact : ℕ → Read (List ℕ)
read_exact n s =
    if leb n (length s.input)
    then ok (take n s.input)
        (record { input = drop n s.input; payload = s.payload ++ take n s.input; pos = s.pos + n })
    else stopped s

-- The same for one byte.
unfoldable pub read_exact_u8 : Read ℕ
unfolding read_exact
read_exact_u8 = do bs ← read_exact 1; ret (get_or bs 0 0)
