-- ===== src/Bytes.antt =====
-- Words as little-endian bytes: the `put_` and `get_` functions of
-- src/storage/disk/shard_map_file.cpp. src/server/wire.cpp and src/storage/wal/wal_record.h repeat
-- them under other names.
pub mod RoundTrip
pub mod Reader
use Prim.Native.Nat.{bit_or}
use nyxdb.Base.{
  ℕ, zero, suc, ◌+◌, ◌-◌, ◌*◌, ◌/◌, ◌%◌, ◌^◌, List, [], ◌∷◌, ltb, if◌then◌else◌, get_or,
}
use nyxdb.Base.Int.{ℤ, pos, negsuc}
use nyxdb.Base.Words.{u32_mod, u64_mod}

unfoldable pub put_u8 : ℕ → List ℕ
put_u8 v = v ∷ []

unfoldable pub put_u16 : ℕ → List ℕ
put_u16 v = v % 256 ∷ v / 2 ^ 8 % 256 ∷ []

unfoldable pub put_u32 : ℕ → List ℕ
put_u32 v = v % 256 ∷ v / 2 ^ 8 % 256 ∷ v / 2 ^ 16 % 256 ∷ v / 2 ^ 24 % 256 ∷ []

-- The loop of `put_u64`: `n` rounds from byte `i` on.
unfoldable pub put_loop : ℕ → ℕ → ℕ → List ℕ
put_loop zero i v = []
put_loop (suc n) i v = v / 2 ^ (8 * i) % 256 ∷ put_loop n (i + 1) v

unfoldable pub put_u64 : ℕ → List ℕ
unfolding put_loop
put_u64 v = put_loop 8 0 v

-- A pointer is the list of the bytes from it on. A read behind the last byte, which the callers
-- exclude by `need`, gives 0 here.
unfoldable pub get_u16 : List ℕ → ℕ
get_u16 p = bit_or (get_or p 0 0) (get_or p 1 0 * 2 ^ 8)

unfoldable pub get_u32 : List ℕ → ℕ
get_u32 p =
    bit_or (bit_or (bit_or (get_or p 0 0) (get_or p 1 0 * 2 ^ 8)) (get_or p 2 0 * 2 ^ 16))
      (get_or p 3 0 * 2 ^ 24)

-- The loop of `get_u64`.
unfoldable pub get_loop : ℕ → ℕ → ℕ → List ℕ → ℕ
get_loop zero i v p = v
get_loop (suc n) i v p = get_loop n (i + 1) (bit_or v (get_or p i 0 * 2 ^ (8 * i))) p

unfoldable pub get_u64 : List ℕ → ℕ
unfolding get_loop
get_u64 p = get_loop 8 0 0 p

-- `static_cast` between signed and unsigned words.
unfoldable pub to_u32 : ℤ → ℕ
to_u32 (pos n) = n % u32_mod
to_u32 (negsuc n) = u32_mod - 1 - n % u32_mod

unfoldable pub to_u64 : ℤ → ℕ
to_u64 (pos n) = n % u64_mod
to_u64 (negsuc n) = u64_mod - 1 - n % u64_mod

unfoldable pub to_i32 : ℕ → ℤ
to_i32 w = if ltb w (2 ^ 31) then pos w else negsuc (u32_mod - 1 - w)

unfoldable pub to_i64 : ℕ → ℤ
to_i64 w = if ltb w (2 ^ 63) then pos w else negsuc (u64_mod - 1 - w)
