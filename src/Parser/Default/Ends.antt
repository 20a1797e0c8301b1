-- ===== src/Parser/Default/Ends.antt =====
-- How the literals behind DEFAULT of src/parser/parser.cpp end, where they may throw.
use nyxdb.Base.{
  ℕ, zero, suc, ◌+◌, refl, List, [], Option, none, some, ltb, get_elem?, Bool-cases, inl, inr,
}
use nyxdb.Base.Int.{ℤ}
use nyxdb.Value.{Value}
use nyxdb.Parser.Token.{TokenKind, Token}
use nyxdb.Parser.State.{Parser, Parse}
use nyxdb.Parser.State.Reads.{Inside, Good, Returned}
use nyxdb.Parser.State.Ends.{
  Any, Value_is, Ends, Ends-fail, Ends-ret, Ends-step, Ends-peek, ends_rules,
}
use nyxdb.Parser.Expr.{decimal_loop, i64_max}
use nyxdb.Parser.Default.{
  Clib, fits, checked, in_array, month_days, add_months, days_of, micros_of, int_value, or_thrown,
  date_value, timestamp_value, default_of, parse_default_literal,
}

module _ (source : List ℕ) (K : Token → Type 0) (T : Type 0) (may_throw : T) where
  -- What gives a value and moves nothing, or throws.
  stays :
      {A : Type 0} (m : Parse A)
      → ((p : Parser) → Inside source K p → Good source K T (Value_is Any) p (m p))
      → Ends source K T Any m
  stays m g = record { reads = λ b t. record { at = λ p h e l. g p h } }

  kept :
      {A : Type 0} (p : Parser) (a : A)
      → Inside source K p
      → Returned source K T (Value_is Any) p a p
  kept p a h = record { front = []; split = refl; inside = h; result = tt }

  checked-Ends : (bits : ℕ) (x : ℤ) → Ends source K T Any (checked bits x)
  unfolding checked
  checked-Ends bits x = stays (checked bits x) (λ p h. elim (Bool-cases (fits bits x)) [
    | inl e ↦ rw e (kept p x h)
    | inr e ↦ rw e may_throw
  ])

  in_array-Ends : (o : Option ℕ) → Ends source K T Any (in_array o)
  in_array-Ends none = stays (in_array none) (λ p h. may_throw)
  in_array-Ends (some days) = stays (in_array (some days)) (λ p h. kept p (ℤ.pos days) h)

  add_months-Ends : (rounds i : ℕ) (days : ℤ) → Ends source K T Any (add_months rounds i days)
  unfolding add_months
  add_months-Ends zero i days = Ends-ret _ days tt
  add_months-Ends (suc rounds) i days =
      Ends-step _ (in_array (get_elem? month_days i)) _ (in_array-Ends _)
        λ month. Ends-step _ _ _ (checked-Ends 31 _) λ sum. add_months-Ends rounds (i + 1) sum

  days_of-Ends : (y m d : ℤ) → Ends source K T Any (days_of y m d)
  unfolding days_of
  days_of-Ends y m d = search (ends_rules, checked-Ends, add_months-Ends) depth 30

  micros_of-Ends : (days h mi se : ℤ) → Ends source K T Any (micros_of days h mi se)
  unfolding micros_of
  micros_of-Ends days h mi se = search (ends_rules, checked-Ends) depth 30

  int_value-Ends : (cs : List ℕ) → Ends source K T Any (int_value cs)
  unfolding int_value
  int_value-Ends cs = stays (int_value cs) (λ p h.
      elim (Bool-cases (ltb i64_max (decimal_loop cs 0))) [
        | inl e ↦ rw e may_throw
        | inr e ↦ rw e (kept p _ h)
      ])

  or_thrown-Ends : (o : Option ℕ) → Ends source K T Any (or_thrown o)
  or_thrown-Ends none = stays (or_thrown none) (λ p h. may_throw)
  or_thrown-Ends (some bits) = stays (or_thrown (some bits)) (λ p h. kept p (Value.f64 bits) h)

  module _ (lib : Clib) where
    date_value-Ends : Ends source K T Any (date_value lib)
    unfolding date_value
    date_value-Ends = search (ends_rules, days_of-Ends) depth 30

    timestamp_value-Ends : Ends source K T Any (timestamp_value lib)
    unfolding timestamp_value
    timestamp_value-Ends = search (ends_rules, days_of-Ends, micros_of-Ends) depth 30

    default_of-Ends : (k : TokenKind) → Ends source K T Any (default_of lib k)
    unfolding default_of
    default_of-Ends TokenKind.int_literal = search (ends_rules, int_value-Ends) depth 20
    default_of-Ends TokenKind.double_literal = search (ends_rules, or_thrown-Ends) depth 20
    default_of-Ends TokenKind.string_literal = search ends_rules depth 20
    default_of-Ends TokenKind.kw_true = search ends_rules depth 20
    default_of-Ends TokenKind.kw_false = search ends_rules depth 20
    default_of-Ends TokenKind.kw_null = search ends_rules depth 20
    default_of-Ends TokenKind.kw_date = date_value-Ends
    default_of-Ends TokenKind.kw_timestamp = timestamp_value-Ends
    default_of-Ends _ = Ends-fail _ _

    pub parse_default_literal-Ends : Ends source K T Any (parse_default_literal lib)
    unfolding parse_default_literal
    parse_default_literal-Ends = Ends-peek _ _ (λ t. default_of-Ends t.kind)
