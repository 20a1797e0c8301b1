-- ===== src/Parser/Default.antt =====
-- src/parser/parser.cpp: the literals behind DEFAULT.
pub mod Ends
use nyxdb.Base.{
  ℕ, zero, suc, ◌+◌, ◌-◌, ◌*◌, ◌^◌, Bool, true, false, ◌&&◌, not, List, [], ◌∷◌, ◌++◌, Option, none,
  some, ◌==◌, ltb, if◌then◌else◌, length, get_elem?, get_or,
}
use nyxdb.Base.Int.{ℤ, ltb_ℤ, ◌+ℤ◌, ◌-ℤ◌, ◌*ℤ◌, tdiv, pos_part}
use nyxdb.Base.Strings.{text}
use nyxdb.Value.{Value}
use nyxdb.Parser.Token.{TokenKind, Token}
use nyxdb.Parser.State.{Parser, Outcome, Parse, ◌>>=◌, ret, peek, consume, fail, word_of}
use nyxdb.Parser.Expr.{decimal_loop, i64_max}

-- What the literals call of the C library: `stod` is `none` where it throws, `sscanf` gives the
-- numbers that it stores for a format and a text.
pub record Clib : Type 0 where
  pub strtod : List ℕ → ℕ
  pub stod : List ℕ → Option ℕ
  pub sscanf : List ℕ → List ℕ → List ℤ

-- Signed arithmetic, undefined where the result has more than `bits` bits beside the sign.
unfoldable pub fits : ℕ → ℤ → Bool
fits bits x = ltb_ℤ x (ℤ.pos (2 ^ bits)) && not (ltb_ℤ x (ℤ.pos 0 -ℤ ℤ.pos (2 ^ bits)))

unfoldable pub checked : ℕ → ℤ → Parse ℤ
checked bits x p = if fits bits x then Outcome.done x p else Outcome.undefined

abbrev pub in_array : Option ℕ → Parse ℤ
in_array none p = Outcome.undefined
in_array (some days) p = Outcome.done (ℤ.pos days) p

abbrev pub month_days : List ℕ
month_days = 0 ∷ 31 ∷ 28 ∷ 31 ∷ 30 ∷ 31 ∷ 30 ∷ 31 ∷ 31 ∷ 30 ∷ 31 ∷ 30 ∷ 31 ∷ []

-- The loop `for (int i = 1; i < m; ++i)` over the months, which reads past the array for a month
-- after the thirteenth; `rounds` are the rounds that are left.
unfoldable pub add_months : ℕ → ℕ → ℤ → Parse ℤ
add_months zero i days = ret days
add_months (suc rounds) i days = do
  month ← in_array (get_elem? month_days i)
  sum ← checked 31 (days +ℤ month)
  add_months rounds (i + 1) sum

-- The days that DATE and TIMESTAMP make of a year, a month and a day.
unfoldable pub days_of : ℤ → ℤ → ℤ → Parse ℤ
days_of y m d = do
  years ← checked 31 (y -ℤ ℤ.pos 1970)
  whole ← checked 31 (years *ℤ ℤ.pos 365)
  leaps ← checked 31 (whole +ℤ tdiv years 4)
  centuries ← checked 31 (leaps -ℤ tdiv years 100)
  days ← checked 31 (centuries +ℤ tdiv years 400)
  months ← add_months (pos_part m - 1) 1 days
  day ← checked 31 (d -ℤ ℤ.pos 1)
  checked 31 (months +ℤ day)

unfoldable pub micros_of : ℤ → ℤ → ℤ → ℤ → Parse ℤ
micros_of days h mi se = do
  day ← checked 63 (days *ℤ ℤ.pos 86400000000)
  hours ← checked 63 (day +ℤ h *ℤ ℤ.pos 3600000000)
  minutes ← checked 63 (hours +ℤ mi *ℤ ℤ.pos 60000000)
  checked 63 (minutes +ℤ se *ℤ ℤ.pos 1000000)

-- `stoll`, which throws where the number is no i64; a small number is an `i32`.
unfoldable pub int_value : List ℕ → Parse Value
int_value cs p =
    let n = decimal_loop cs 0 in
    if ltb i64_max n
    then Outcome.thrown
    else Outcome.done (if ltb n (2 ^ 31) then Value.i32 (ℤ.pos n) else Value.i64 (ℤ.pos n)) p

abbrev pub or_thrown : Option ℕ → Parse Value
or_thrown none p = Outcome.thrown
or_thrown (some bits) p = Outcome.done (Value.f64 bits) p

abbrev pub constant : Value → Parse Value
constant v = do _ ← consume; ret v

module _ (lib : Clib) where
  unfoldable pub date_value : Parse Value
  date_value = do
    _ ← consume
    s ← word_of TokenKind.string_literal (text "expected date string after DATE")
    let fields : List ℤ = lib.sscanf (text "%d-%d-%d") s.text
    if length fields == 3
        then (do
          days ←
              days_of (get_or fields 0 (ℤ.pos 0)) (get_or fields 1 (ℤ.pos 0))
                (get_or fields 2 (ℤ.pos 0))
          ret (Value.date days))
        else fail (text "invalid DATE literal: " ++ s.text)

  -- The count that `sscanf` returns is not looked at.
  unfoldable pub timestamp_value : Parse Value
  timestamp_value = do
    _ ← consume
    s ← word_of TokenKind.string_literal (text "expected timestamp string after TIMESTAMP")
    let fields : List ℤ = lib.sscanf (text "%d-%d-%d %d:%d:%d") s.text
    days ←
        days_of (get_or fields 0 (ℤ.pos 0)) (get_or fields 1 (ℤ.pos 0)) (get_or fields 2 (ℤ.pos 0))
    micros ←
        micros_of days (get_or fields 3 (ℤ.pos 0)) (get_or fields 4 (ℤ.pos 0))
          (get_or fields 5 (ℤ.pos 0))
    ret (Value.timestamp micros)

  -- The `switch` of parse_default_literal_.
  unfoldable pub default_of : TokenKind → Parse Value
  default_of TokenKind.int_literal = do t ← consume; int_value t.text
  default_of TokenKind.double_literal = do t ← consume; or_thrown (lib.stod t.text)
  default_of TokenKind.string_literal = do t ← consume; ret (Value.string t.text)
  default_of TokenKind.kw_true = constant (Value.boolean true)
  default_of TokenKind.kw_false = constant (Value.boolean false)
  default_of TokenKind.kw_null = constant Value.monostate
  default_of TokenKind.kw_date = date_value
  default_of TokenKind.kw_timestamp = timestamp_value
  default_of _ = fail (text "expected a literal value after DEFAULT")

  unfoldable pub parse_default_literal : Parse Value
  parse_default_literal = do tok ← peek 0; default_of tok.kind
