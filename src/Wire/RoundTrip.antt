-- ===== src/Wire/RoundTrip.antt =====
-- What is encoded is decoded.
use Prim.Native.Nat.{bit_or}
use nyxdb.Base.{ℕ, ◌+◌, ◌*◌, ◌/◌, ◌%◌, ◌^◌, ◌<◌, ◌≡◌, List, ◌∷◌, ◌++◌, some, arith}
use nyxdb.Base.Bits.{bit_or_disjoint}
use nyxdb.Base.Words.{u32_mod, u64_mod}
use nyxdb.Bytes.{put_u32, put_u64}
use nyxdb.Wire.{FrameType, frame_code, encode_u8, encode_header, decode_loop, decode_header}

decode_loop-put_u32 :
    (v : ℕ) (rest : List ℕ) → v < u32_mod → decode_loop 4 0 0 (put_u32 v ++ rest) ≡ v
unfolding decode_loop put_u32
decode_loop-put_u32 v rest h =
    let s0 : bit_or 0 (v % 256 * 2 ^ 0) ≡ v % 2 ^ 8 =
      omega (arith, bit_or_disjoint 0 0 (v % 256) (omega arith)) in
    let s1 : bit_or (v % 2 ^ 8) (v / 2 ^ 8 % 256 * 2 ^ 8) ≡ v % 2 ^ 16 =
      omega (arith, bit_or_disjoint 8 (v % 2 ^ 8) (v / 2 ^ 8 % 256) (omega arith)) in
    let s2 : bit_or (v % 2 ^ 16) (v / 2 ^ 16 % 256 * 2 ^ 16) ≡ v % 2 ^ 24 =
      omega (arith, bit_or_disjoint 16 (v % 2 ^ 16) (v / 2 ^ 16 % 256) (omega arith)) in
    let s3 : bit_or (v % 2 ^ 24) (v / 2 ^ 24 % 256 * 2 ^ 24) ≡ v % 2 ^ 32 =
      omega (arith, bit_or_disjoint 24 (v % 2 ^ 24) (v / 2 ^ 24 % 256) (omega arith)) in
    rw (s0, s1, s2, s3) (omega arith)

decode_loop-put_u64 :
    (v : ℕ) (rest : List ℕ) → v < u64_mod → decode_loop 8 0 0 (put_u64 v ++ rest) ≡ v
unfolding decode_loop put_u64
decode_loop-put_u64 v rest h =
    let s0 : bit_or 0 (v / 2 ^ 0 % 256 * 2 ^ 0) ≡ v % 2 ^ 8 =
      omega (arith, bit_or_disjoint 0 0 (v / 2 ^ 0 % 256) (omega arith)) in
    let s1 : bit_or (v % 2 ^ 8) (v / 2 ^ 8 % 256 * 2 ^ 8) ≡ v % 2 ^ 16 =
      omega (arith, bit_or_disjoint 8 (v % 2 ^ 8) (v / 2 ^ 8 % 256) (omega arith)) in
    let s2 : bit_or (v % 2 ^ 16) (v / 2 ^ 16 % 256 * 2 ^ 16) ≡ v % 2 ^ 24 =
      omega (arith, bit_or_disjoint 16 (v % 2 ^ 16) (v / 2 ^ 16 % 256) (omega arith)) in
    let s3 : bit_or (v % 2 ^ 24) (v / 2 ^ 24 % 256 * 2 ^ 24) ≡ v % 2 ^ 32 =
      omega (arith, bit_or_disjoint 24 (v % 2 ^ 24) (v / 2 ^ 24 % 256) (omega arith)) in
    let s4 : bit_or (v % 2 ^ 32) (v / 2 ^ 32 % 256 * 2 ^ 32) ≡ v % 2 ^ 40 =
      omega (arith, bit_or_disjoint 32 (v % 2 ^ 32) (v / 2 ^ 32 % 256) (omega arith)) in
    let s5 : bit_or (v % 2 ^ 40) (v / 2 ^ 40 % 256 * 2 ^ 40) ≡ v % 2 ^ 48 =
      omega (arith, bit_or_disjoint 40 (v % 2 ^ 40) (v / 2 ^ 40 % 256) (omega arith)) in
    let s6 : bit_or (v % 2 ^ 48) (v / 2 ^ 48 % 256 * 2 ^ 48) ≡ v % 2 ^ 56 =
      omega (arith, bit_or_disjoint 48 (v % 2 ^ 48) (v / 2 ^ 48 % 256) (omega arith)) in
    let s7 : bit_or (v % 2 ^ 56) (v / 2 ^ 56 % 256 * 2 ^ 56) ≡ v % 2 ^ 64 =
      omega (arith, bit_or_disjoint 56 (v % 2 ^ 56) (v / 2 ^ 56 % 256) (omega arith)) in
    rw (s0, s1, s2, s3, s4, s5, s6, s7) (omega arith)

frame_code-lt : (t : FrameType) → frame_code t < 256
unfolding frame_code
frame_code-lt FrameType.auth_req = omega arith
frame_code-lt _ = omega arith

-- A header whose frame fits 32 bits is decoded to the length of the whole frame, the code of the
-- type and the query's id, whatever follows it.
pub decode_header-encode_header :
    (t : FrameType) (qid payload_len : ℕ) (rest : List ℕ)
    → qid < u32_mod
    → 9 + payload_len < u32_mod
    → decode_header (encode_header t qid payload_len ++ rest)
      ≡ some (record { length = 9 + payload_len; type = frame_code t; query_id = qid })
unfolding decode_header encode_header encode_u8 put_u32
decode_header-encode_header t qid n rest hq hn =
    let total : (9 + n) % u32_mod ≡ 9 + n = omega arith in
    ground (
      arith,
      total,
      frame_code-lt t,
      decode_loop-put_u32 (9 + n) (frame_code t % 256 ∷ (put_u32 qid ++ rest)) hn,
      decode_loop-put_u32 qid rest hq,
    )
