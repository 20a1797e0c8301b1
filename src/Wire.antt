-- ===== src/Wire.antt =====
-- src/server/wire.h and wire.cpp: the frames that nodes and clients exchange. A function that
-- appends to a buffer is the bytes that it appends.
pub mod RoundTrip
mod Tests
use Prim.Native.Nat.{bit_or}
use nyxdb.Base.{
  ℕ, zero, suc, ◌+◌, ◌*◌, ◌/◌, ◌%◌, ◌^◌, ◌≡◌, Bool, true, false, List, [], ◌∷◌, ◌++◌, Option, none,
  some, ltb, if◌then◌else◌, length, get_or, drop,
}
use nyxdb.Base.Words.{u32_mod}
use nyxdb.Bytes.{put_u8, put_u16, put_u32, put_u64, to_u32, to_u64}
use nyxdb.Value.{Value, TypeId}

pub data FrameType : Type 0 where
  auth_req auth_ok auth_err : FrameType
  query result_meta result_col result_end query_err : FrameType
  repl_hello repl_wal_pull repl_wal_batch repl_wal_stale repl_wal_ack : FrameType
  repl_snapshot_req repl_snapshot_meta repl_snapshot_data repl_snapshot_end : FrameType
  repl_heartbeat repl_vote_req repl_vote_resp : FrameType
  repl_forward_write repl_forward_resp : FrameType
  notify_leader register_node : FrameType

unfoldable pub frame_code : FrameType → ℕ
frame_code FrameType.auth_req = 0x01
frame_code FrameType.auth_ok = 0x02
frame_code FrameType.auth_err = 0x03
frame_code FrameType.query = 0x10
frame_code FrameType.result_meta = 0x11
frame_code FrameType.result_col = 0x12
frame_code FrameType.result_end = 0x13
frame_code FrameType.query_err = 0x14
frame_code FrameType.repl_hello = 0x20
frame_code FrameType.repl_wal_pull = 0x21
frame_code FrameType.repl_wal_batch = 0x22
frame_code FrameType.repl_wal_stale = 0x23
frame_code FrameType.repl_wal_ack = 0x24
frame_code FrameType.repl_snapshot_req = 0x25
frame_code FrameType.repl_snapshot_meta = 0x26
frame_code FrameType.repl_snapshot_data = 0x27
frame_code FrameType.repl_snapshot_end = 0x28
frame_code FrameType.repl_heartbeat = 0x30
frame_code FrameType.repl_vote_req = 0x31
frame_code FrameType.repl_vote_resp = 0x32
frame_code FrameType.repl_forward_write = 0x40
frame_code FrameType.repl_forward_resp = 0x41
frame_code FrameType.notify_leader = 0x50
frame_code FrameType.register_node = 0x51

-- The type of a decoded header is the byte itself: the cast admits any.
pub record FrameHeader : Type 0 where
  pub length : ℕ
  pub type : ℕ
  pub query_id : ℕ

abbrev pub frame_header_size : ℕ
frame_header_size = 9

unfoldable pub encode_u8 : ℕ → List ℕ
encode_u8 v = v % 256 ∷ []

abbrev pub encode_u16 : ℕ → List ℕ
encode_u16 = put_u16

abbrev pub encode_u32 : ℕ → List ℕ
encode_u32 = put_u32

abbrev pub encode_u64 : ℕ → List ℕ
encode_u64 = put_u64

unfoldable pub encode_str : List ℕ → List ℕ
encode_str s = encode_u16 (length s % 2 ^ 16) ++ s

-- `memcpy` of a word on a little-endian machine; `none` is the exception of `std::get` where the
-- value is not of the type.
unfoldable pub encode_value : Value → TypeId → Option (List ℕ)
unfolding encode_u8 encode_str
encode_value (Value.i32 x) TypeId.int32 = some (put_u32 (to_u32 x))
encode_value (Value.i64 x) TypeId.int64 = some (put_u64 (to_u64 x))
encode_value (Value.f64 x) TypeId.double = some (put_u64 x)
encode_value (Value.boolean x) TypeId.bool = some (encode_u8 (if x then 1 else 0))
encode_value (Value.string x) TypeId.varchar = some (encode_str x)
encode_value (Value.date x) TypeId.date = some (put_u32 (to_u32 x))
encode_value (Value.timestamp x) TypeId.timestamp = some (put_u64 (to_u64 x))
encode_value v TypeId.invalid = some []
encode_value _ _ = none

unfoldable pub encode_header : FrameType → ℕ → ℕ → List ℕ
unfolding encode_u8
encode_header t qid payload_len =
    let total = (frame_header_size + payload_len) % u32_mod in
    encode_u32 total ++ (encode_u8 (frame_code t) ++ encode_u32 qid)

-- The loop of `decode_u32` and `decode_u64`, and twice in `decode_header`: `n` rounds from byte `i`.
unfoldable pub decode_loop : ℕ → ℕ → ℕ → List ℕ → ℕ
decode_loop zero i v p = v
decode_loop (suc n) i v p = decode_loop n (i + 1) (bit_or v (get_or p i 0 * 2 ^ (i * 8))) p

unfoldable pub decode_u16 : List ℕ → ℕ
decode_u16 p = bit_or (get_or p 0 0) (get_or p 1 0 * 2 ^ 8)

unfoldable pub decode_u32 : List ℕ → ℕ
unfolding decode_loop
decode_u32 p = decode_loop 4 0 0 p

unfoldable pub decode_u64 : List ℕ → ℕ
unfolding decode_loop
decode_u64 p = decode_loop 8 0 0 p

-- `none` is the result `false`, which leaves `out` alone.
unfoldable pub decode_header : List ℕ → Option FrameHeader
decode_header bytes =
    if ltb (length bytes) frame_header_size
    then none
    else some (record {
      length = decode_loop 4 0 0 bytes;
      type = get_or bytes 4 0;
      query_id = decode_loop 4 0 0 (drop 5 bytes);
    })
