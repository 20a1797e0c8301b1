-- ===== src/Value/Fits.antt =====
-- Values whose fields fit the words of the source, and the casts that keep them.
use nyxdb.Base.{ℕ, ◌^◌, ◌<◌, ◌≡◌, arith, length}
use nyxdb.Base.Int.{ℤ, pos, negsuc}
use nyxdb.Base.Words.{u16_mod, u64_mod}
use nyxdb.Bytes.{to_u32, to_u64, to_i32, to_i64}
use nyxdb.Bytes.RoundTrip.{to_i32-to_u32, to_i64-to_u64}
use nyxdb.Value.{Value}

abbrev pub FitsBits : ℕ → ℤ → Type 0
FitsBits w (pos n) = n < 2 ^ w
FitsBits w (negsuc n) = n < 2 ^ w

-- A value whose fields fit their words; null is no such value.
abbrev pub ValueFits : Value → Type 0
ValueFits Value.monostate = ⊥
ValueFits (Value.i32 x) = FitsBits 31 x
ValueFits (Value.i64 x) = FitsBits 63 x
ValueFits (Value.f64 x) = x < u64_mod
ValueFits (Value.string x) = length x < u16_mod
ValueFits (Value.boolean x) = Unit {0}
ValueFits (Value.date x) = FitsBits 31 x
ValueFits (Value.timestamp x) = FitsBits 63 x

pub to_u32-lt : (x : ℤ) → to_u32 x < 2 ^ 32
unfolding to_u32
to_u32-lt (pos n) = omega arith
to_u32-lt (negsuc n) = omega arith

pub to_u64-lt : (x : ℤ) → to_u64 x < 2 ^ 64
unfolding to_u64
to_u64-lt (pos n) = omega arith
to_u64-lt (negsuc n) = omega arith

pub to_i32_back : (x : ℤ) → FitsBits 31 x → to_i32 (to_u32 x) ≡ x
to_i32_back (pos n) h = (to_i32-to_u32 n h).0
to_i32_back (negsuc n) h = (to_i32-to_u32 n h).1

pub to_i64_back : (x : ℤ) → FitsBits 63 x → to_i64 (to_u64 x) ≡ x
to_i64_back (pos n) h = (to_i64-to_u64 n h).0
to_i64_back (negsuc n) h = (to_i64-to_u64 n h).1
