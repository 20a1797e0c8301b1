-- ===== src/Common/XxHash.antt =====
-- src/common/xxhash.h: the 64-bit checksum of the log's records.
mod Tests
use Prim.Native.Nat.{bit_or, bit_xor}
use nyxdb.Base.{
  ℕ, zero, suc, ◌+◌, ◌-◌, ◌*◌, ◌/◌, ◌%◌, ◌^◌, List, [], ◌∷◌, ltb, if◌then◌else◌, ◌<◌, arith,
  Bool-cases, inl, inr, length, drop,
}
use nyxdb.Base.Words.{u64_mod}
use nyxdb.Bytes.{get_u32, get_u64}

abbrev pub xxh_prime1 : ℕ
xxh_prime1 = 0x9E3779B185EBCA87

abbrev pub xxh_prime2 : ℕ
xxh_prime2 = 0xC2B2AE3D27D4EB4F

abbrev pub xxh_prime3 : ℕ
xxh_prime3 = 0x165667B19E3779F9

abbrev pub xxh_prime4 : ℕ
xxh_prime4 = 0x85EBCA77C2B2AE63

abbrev pub xxh_prime5 : ℕ
xxh_prime5 = 0x27D4EB2F165667C5

abbrev pub wrap : ℕ → ℕ
wrap x = x % u64_mod

unfoldable pub rotl64 : ℕ → ℕ → ℕ
rotl64 x r = bit_or (wrap (x * 2 ^ r)) (x / 2 ^ (64 - r))

unfoldable pub xxh_round : ℕ → ℕ → ℕ
unfolding rotl64
xxh_round acc input =
    let acc1 = wrap (acc + input * xxh_prime2) in wrap (rotl64 acc1 31 * xxh_prime1)

unfoldable pub xxh_merge_round : ℕ → ℕ → ℕ
unfolding xxh_round
xxh_merge_round acc val =
    let acc1 = bit_xor acc (xxh_round 0 val) in wrap (acc1 * xxh_prime1 + xxh_prime4)

-- The accumulators of the first loop, and the bytes from `p` on.
pub record Lanes : Type 0 where
  pub v1 : ℕ
  pub v2 : ℕ
  pub v3 : ℕ
  pub v4 : ℕ
  pub p : List ℕ

-- Its rounds, while 32 bytes are left; one more round than `len / 32` is never taken.
unfoldable pub stripes : ℕ → Lanes → Lanes
unfolding xxh_round
stripes zero s = s
stripes (suc n) s =
    if ltb (length s.p) 32
    then s
    else stripes n (record {
      v1 = xxh_round s.v1 (get_u64 s.p);
      v2 = xxh_round s.v2 (get_u64 (drop 8 s.p));
      v3 = xxh_round s.v3 (get_u64 (drop 16 s.p));
      v4 = xxh_round s.v4 (get_u64 (drop 24 s.p));
      p = drop 32 s.p;
    })

unfoldable pub initial_lanes : ℕ → List ℕ → Lanes
initial_lanes seed bytes = record {
  v1 = wrap (seed + xxh_prime1 + xxh_prime2);
  v2 = wrap (seed + xxh_prime2);
  v3 = seed;
  v4 = wrap (seed + (u64_mod - xxh_prime1));
  p = bytes;
}

unfoldable pub merge_lanes : Lanes → ℕ
unfolding rotl64 xxh_merge_round
merge_lanes s =
    let h = wrap (rotl64 s.v1 1 + rotl64 s.v2 7 + rotl64 s.v3 12 + rotl64 s.v4 18) in
    let h1 = xxh_merge_round h s.v1 in
    let h2 = xxh_merge_round h1 s.v2 in let h3 = xxh_merge_round h2 s.v3 in xxh_merge_round h3 s.v4

-- The tail: whole words, then a half word, then bytes.
unfoldable pub tail_bytes : List ℕ → ℕ → ℕ
unfolding rotl64
tail_bytes [] h = h
tail_bytes (b ∷ bs) h =
    let h1 = bit_xor h (wrap (b * xxh_prime5)) in tail_bytes bs (wrap (rotl64 h1 11 * xxh_prime1))

unfoldable pub tail_half : List ℕ → ℕ → ℕ
unfolding rotl64 tail_bytes
tail_half p h =
    if ltb (length p) 4
    then tail_bytes p h
    else (let h1 = bit_xor h (wrap (get_u32 p * xxh_prime1)) in
        tail_bytes (drop 4 p) (wrap (rotl64 h1 23 * xxh_prime2 + xxh_prime3)))

unfoldable pub tail_words : ℕ → List ℕ → ℕ → ℕ
unfolding rotl64 xxh_round tail_half
tail_words zero p h = tail_half p h
tail_words (suc n) p h =
    if ltb (length p) 8
    then tail_half p h
    else (let h1 = bit_xor h (xxh_round 0 (get_u64 p)) in
        tail_words n (drop 8 p) (wrap (rotl64 h1 27 * xxh_prime1 + xxh_prime4)))

unfoldable pub avalanche : ℕ → ℕ
avalanche h =
    let h1 = wrap (bit_xor h (h / 2 ^ 33) * xxh_prime2) in
    let h2 = wrap (bit_xor h1 (h1 / 2 ^ 29) * xxh_prime3) in wrap (bit_xor h2 (h2 / 2 ^ 32))

-- `len` rounds are more than the loop over the words takes.
unfoldable pub xxhash64 : List ℕ → ℕ → ℕ
unfolding stripes initial_lanes merge_lanes tail_words avalanche
xxhash64 bytes seed =
    let len = length bytes in
    if ltb len 32
    then avalanche (tail_words len bytes (wrap (wrap (seed + xxh_prime5) + len)))
    else (let s = stripes len (initial_lanes seed bytes) in
        avalanche (tail_words len s.p (wrap (merge_lanes s + len))))

pub xxhash64-lt : (bytes : List ℕ) (seed : ℕ) → xxhash64 bytes seed < u64_mod
unfolding xxhash64 avalanche
xxhash64-lt bytes seed = elim (Bool-cases (ltb (length bytes) 32)) [
  | inl t ↦ rw t (omega arith)
  | inr t ↦ rw t (omega arith)
]
