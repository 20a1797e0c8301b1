-- ===== src/Bytes/RoundTrip.antt =====
-- What is put is got back.
use Prim.Native.Nat.{bit_or}
use nyxdb.Base.{ℕ, ◌+◌, ◌*◌, ◌/◌, ◌%◌, ◌^◌, ◌<◌, ◌≡◌, refl, List, arith, length, All}
use nyxdb.Base.Bits.{bit_or_disjoint}
use nyxdb.Base.Int.{pos, negsuc}
use nyxdb.Base.Words.{u16_mod, u32_mod, u64_mod}
use nyxdb.Bytes.{
  put_u16, put_u32, put_u64, get_u16, get_u32, get_u64, to_u32, to_u64, to_i32, to_i64,
}

-- A list of bytes.
abbrev pub IsBytes : List ℕ → Type 0
IsBytes bs = All (λ b. b < 256) bs

pub get_u16-put_u16 : (v : ℕ) → v < u16_mod → get_u16 (put_u16 v) ≡ v
unfolding get_u16 put_u16
get_u16-put_u16 v h = omega (arith, bit_or_disjoint 8 (v % 256) (v / 2 ^ 8 % 256) (omega arith))

pub get_u32-put_u32 : (v : ℕ) → v < u32_mod → get_u32 (put_u32 v) ≡ v
unfolding get_u32 put_u32
get_u32-put_u32 v h =
    rw
      (
        bit_or_disjoint 8 (v % 256) (v / 2 ^ 8 % 256) (omega arith),
        bit_or_disjoint 16 (v % 256 + v / 2 ^ 8 % 256 * 2 ^ 8) (v / 2 ^ 16 % 256) (omega arith),
        bit_or_disjoint 24 (v % 256 + v / 2 ^ 8 % 256 * 2 ^ 8 + v / 2 ^ 16 % 256 * 2 ^ 16)
            (v / 2 ^ 24 % 256) (omega arith),
      )
      (omega arith)

pub get_u64-put_u64 : (v : ℕ) → v < u64_mod → get_u64 (put_u64 v) ≡ v
unfolding get_u64 put_u64
get_u64-put_u64 v h =
    let s0 : bit_or 0 (v / 2 ^ 0 % 256 * 2 ^ 0) ≡ v % 2 ^ 8 =
      omega (arith, bit_or_disjoint 0 0 (v / 2 ^ 0 % 256) (omega arith)) in
    let s1 : bit_or (v % 2 ^ 8) (v / 2 ^ 8 % 256 * 2 ^ 8) ≡ v % 2 ^ 16 =
      omega (arith, bit_or_disjoint 8 (v % 2 ^ 8) (v / 2 ^ 8 % 256) (omega arith)) in
    let s2 : bit_or (v % 2 ^ 16) (v / 2 ^ 16 % 256 * 2 ^ 16) ≡ v % 2 ^ 24 =
      omega (arith, bit_or_disjoint 16 (v % 2 ^ 16) (v / 2 ^ 16 % 256) (omega arith)) in
    let s3 : bit_or (v % 2 ^ 24) (v / 2 ^ 24 % 256 * 2 ^ 24) ≡ v % 2 ^ 32 =
      omega (arith, bit_or_disjoint 24 (v % 2 ^ 24) (v / 2 ^ 24 % 256) (omega arith)) in
    let s4 : bit_or (v % 2 ^ 32) (v / 2 ^ 32 % 256 * 2 ^ 32) ≡ v % 2 ^ 40 =
      omega (arith, bit_or_disjoint 32 (v % 2 ^ 32) (v / 2 ^ 32 % 256) (omega arith)) in
    let s5 : bit_or (v % 2 ^ 40) (v / 2 ^ 40 % 256 * 2 ^ 40) ≡ v % 2 ^ 48 =
      omega (arith, bit_or_disjoint 40 (v % 2 ^ 40) (v / 2 ^ 40 % 256) (omega arith)) in
    let s6 : bit_or (v % 2 ^ 48) (v / 2 ^ 48 % 256 * 2 ^ 48) ≡ v % 2 ^ 56 =
      omega (arith, bit_or_disjoint 48 (v % 2 ^ 48) (v / 2 ^ 48 % 256) (omega arith)) in
    let s7 : bit_or (v % 2 ^ 56) (v / 2 ^ 56 % 256 * 2 ^ 56) ≡ v % 2 ^ 64 =
      omega (arith, bit_or_disjoint 56 (v % 2 ^ 56) (v / 2 ^ 56 % 256) (omega arith)) in
    rw (s0, s1, s2, s3, s4, s5, s6, s7) (omega arith)

pub length-put_u16 : (v : ℕ) → length (put_u16 v) ≡ 2
unfolding put_u16
length-put_u16 v = refl

pub length-put_u32 : (v : ℕ) → length (put_u32 v) ≡ 4
unfolding put_u32
length-put_u32 v = refl

pub length-put_u64 : (v : ℕ) → length (put_u64 v) ≡ 8
unfolding put_u64
length-put_u64 v = refl

pub to_i32-to_u32 :
    (n : ℕ)
    → n < 2 ^ 31
    → (to_i32 (to_u32 (pos n)) ≡ pos n) × (to_i32 (to_u32 (negsuc n)) ≡ negsuc n)
unfolding to_i32 to_u32
to_i32-to_u32 n h = ground arith

pub to_i64-to_u64 :
    (n : ℕ)
    → n < 2 ^ 63
    → (to_i64 (to_u64 (pos n)) ≡ pos n) × (to_i64 (to_u64 (negsuc n)) ≡ negsuc n)
unfolding to_i64 to_u64
to_i64-to_u64 n h = ground arith
