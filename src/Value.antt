-- ===== src/Value.antt =====
-- src/storage/disk/type_id.h and value.h: the types of a column, and the values of its cells.
pub mod Order
pub mod Fits
use nyxdb.Base.{ℕ, zero, suc, ◌+◌, ltb, if◌then◌else◌, Bool, true, false, List, Option, none, some}
use nyxdb.Base.Int.{ℤ}

pub data TypeId : Type 0 where
  invalid int32 int64 double varchar bool date timestamp : TypeId

-- The underlying `u8` of the enumeration, and the cast from it; a byte that names no type is `none`.
unfoldable pub type_code : TypeId → ℕ
type_code invalid = 0
type_code int32 = 1
type_code int64 = 2
type_code double = 3
type_code varchar = 4
type_code bool = 5
type_code date = 6
type_code timestamp = 7

unfoldable pub type_of_code : ℕ → Option TypeId
type_of_code zero = some invalid
type_of_code (suc zero) = some int32
type_of_code (suc (suc zero)) = some int64
type_of_code (suc (suc (suc zero))) = some double
type_of_code (suc (suc (suc (suc zero)))) = some varchar
type_of_code (suc (suc (suc (suc (suc zero))))) = some bool
type_of_code (suc (suc (suc (suc (suc (suc zero)))))) = some date
type_of_code (suc (suc (suc (suc (suc (suc (suc zero))))))) = some timestamp
type_of_code _ = none

unfoldable pub type_size : TypeId → ℕ → ℕ
type_size int32 max_len = 4
type_size int64 max_len = 8
type_size double max_len = 8
type_size varchar max_len = if ltb 0 max_len then max_len + 2 else 0
type_size bool max_len = 1
type_size date max_len = 4
type_size timestamp max_len = 8
type_size invalid max_len = 0

-- A double is its 64-bit pattern; the order of doubles is a parameter of what compares them.
pub data Value : Type 0 where
  monostate : Value
  i32 : ℤ → Value
  i64 : ℤ → Value
  f64 : ℕ → Value
  string : List ℕ → Value
  boolean : Bool → Value
  date : ℤ → Value
  timestamp : ℤ → Value

unfoldable pub is_null : Value → Bool
is_null monostate = true
is_null _ = false
