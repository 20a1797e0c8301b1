-- ===== src/Common/XxHash/Tests.antt =====
-- The checksum at known inputs: the published values for no bytes and for "abc".
use nyxdb.Base.{◌≡◌, refl, [], ◌∷◌}
use nyxdb.Common.XxHash.{xxhash64}

xxhash64_of_none : xxhash64 [] 0 ≡ 0xEF46DB3751D8E999
unfolding xxhash64
xxhash64_of_none = refl

xxhash64_of_abc : xxhash64 (97 ∷ 98 ∷ 99 ∷ []) 0 ≡ 0x44BC2CF5AD770999
unfolding xxhash64
xxhash64_of_abc = refl
