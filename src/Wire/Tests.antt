-- ===== src/Wire/Tests.antt =====
-- The properties of the frames at concrete ones.
use nyxdb.Base.{◌≡◌, [], ◌∷◌, ◌++◌, some, arith}
use nyxdb.Wire.{FrameType, frame_code, encode_header, decode_header}
use nyxdb.Wire.RoundTrip.{decode_header-encode_header}

decode_header-encode_header_example :
    decode_header (encode_header FrameType.query 7 300 ++ 1 ∷ 2 ∷ [])
    ≡ some (record { length = 309; type = frame_code FrameType.query; query_id = 7 })
decode_header-encode_header_example =
    decode_header-encode_header FrameType.query 7 300 (1 ∷ 2 ∷ []) (omega arith) (omega arith)
