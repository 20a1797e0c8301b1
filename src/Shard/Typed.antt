-- ===== src/Shard/Typed.antt =====
-- Values of one type compare by a strict weak order.
use Prim.Native.Nat.{Ordering}
use nyxdb.Base.{ℕ, ◌≡◌, refl, List, ◌⊎◌, Bool, false, Option, some, arith}
use nyxdb.Base.Int.{ℤ}
use nyxdb.Value.{Value, TypeId}
use nyxdb.Value.Order.{
  cmp_val, StrictWeak, Any, ltb_ℤ-StrictWeak, bool_lt-StrictWeak, bytes_lt-StrictWeak,
}
use nyxdb.Shard.Defs.{compare_values}

-- What IEEE 754 says of `<`: it is a strict weak order on the doubles that are no NaN.
abbrev pub F64Laws : (ℕ → ℕ → Bool) → (ℕ → Bool) → Type 0
F64Laws f64_lt is_nan = StrictWeak (λ a. is_nan a ≡ false) f64_lt

-- The value has the column's type, and is neither null nor a NaN.
abbrev pub HasType : (ℕ → Bool) → TypeId → Value → Type 0
HasType is_nan TypeId.int32 (Value.i32 a) = Any a
HasType is_nan TypeId.int64 (Value.i64 a) = Any a
HasType is_nan TypeId.double (Value.f64 a) = is_nan a ≡ false
HasType is_nan TypeId.varchar (Value.string a) = Any a
HasType is_nan TypeId.bool (Value.boolean a) = Any a
HasType is_nan TypeId.date (Value.date a) = Any a
HasType is_nan TypeId.timestamp (Value.timestamp a) = Any a
HasType _ _ _ = ⊥

module _ {ℓ} {A : Type ℓ} {P : A → Type 0} {lt : A → A → Bool} (w : StrictWeak P lt) where
  pub cmp_val-flip : (a b : A) → cmp_val lt a b ≡ Ordering.lt → cmp_val lt b a ≡ Ordering.gt
  unfolding cmp_val
  cmp_val-flip a b h = ground (arith, w.asymm a b)

  pub cmp_val-unflip : (a b : A) → cmp_val lt a b ≡ Ordering.gt → cmp_val lt b a ≡ Ordering.lt
  unfolding cmp_val
  cmp_val-unflip a b h = ground arith

  pub cmp_val-cotrans :
      (a b c : A)
      → P b
      → cmp_val lt a c ≡ Ordering.lt
      → (cmp_val lt a b ≡ Ordering.lt) ⊎ (cmp_val lt b c ≡ Ordering.lt)
  unfolding cmp_val
  cmp_val-cotrans a b c p h = ground (arith, w.cotrans a b c)

-- A three-way comparison that is total on the values of `P`, and their strict weak order.
pub record Compares (cmp : Value → Value → Option Ordering) (P : Value → Type 0) : Type 0 where
  pub order : Value → Value → Ordering
  pub total : (a b : Value) → P a → P b → cmp a b ≡ some (order a b)
  pub flip : (a b : Value) → P a → P b → order a b ≡ Ordering.lt → order b a ≡ Ordering.gt
  pub unflip : (a b : Value) → P a → P b → order a b ≡ Ordering.gt → order b a ≡ Ordering.lt
  pub cotrans :
      (a b c : Value)
      → P a
      → P b
      → P c
      → order a c ≡ Ordering.lt
      → (order a b ≡ Ordering.lt) ⊎ (order b c ≡ Ordering.lt)

module _ (f64_lt : ℕ → ℕ → Bool) where
  order_of : Value → Value → Ordering
  order_of a b = elim (compare_values f64_lt a b) [ some o ↦ o | _ ↦ Ordering.eq ]

  -- The comparison at the values that one constructor makes.
  module _ {A : Type 0} {Q : A → Type 0} {lt : A → A → Bool} (w : StrictWeak Q lt) (con : A → Value)
      (at : (a b : A) → compare_values f64_lt (con a) (con b) ≡ some (cmp_val lt a b))
      (P : Value → Type 0) (from : (v : Value) → P v → (a : A) × (v ≡ con a) × Q a) where
    order_of-con : (a b : A) → order_of (con a) (con b) ≡ cmp_val lt a b
    unfolding order_of
    order_of-con a b = rw (at a b, order_of)

    con-total : (u v : Value) → P u → P v → compare_values f64_lt u v ≡ some (order_of u v)
    con-total u v p q =
        let (a, e, _) = from u p in
        let (b, e', _) = from v q in rw (e, e', order_of-con a b) (at a b)

    con-flip : (u v : Value) → P u → P v → order_of u v ≡ Ordering.lt → order_of v u ≡ Ordering.gt
    con-flip u v p q =
        let (a, e, _) = from u p in
        let (b, e', _) = from v q in
        rw (e, e', order_of-con a b, order_of-con b a) (cmp_val-flip w a b)

    con-unflip : (u v : Value) → P u → P v → order_of u v ≡ Ordering.gt → order_of v u ≡ Ordering.lt
    con-unflip u v p q =
        let (a, e, _) = from u p in
        let (b, e', _) = from v q in
        rw (e, e', order_of-con a b, order_of-con b a) (cmp_val-unflip w a b)

    con-cotrans :
        (u v x : Value)
        → P u
        → P v
        → P x
        → order_of u x ≡ Ordering.lt
        → (order_of u v ≡ Ordering.lt) ⊎ (order_of v x ≡ Ordering.lt)
    con-cotrans u v x p q r =
        let (a, e, _) = from u p in
        let (b, e', m) = from v q in
        let (c, e'', _) = from x r in
        rw (e, e', e'', order_of-con a c, order_of-con a b, order_of-con b c)
          (cmp_val-cotrans w a b c m)

    con-Compares : Compares (compare_values f64_lt) P
    con-Compares = record {
      order = order_of;
      total = con-total;
      flip = con-flip;
      unflip = con-unflip;
      cotrans = con-cotrans;
    }

  module _ (is_nan : ℕ → Bool) (laws : F64Laws f64_lt is_nan) where
    from_int32 : (v : Value) → HasType is_nan TypeId.int32 v → (a : ℤ) × (v ≡ Value.i32 a) × Any a
    from_int32 (Value.i32 a) h = (a, refl, h)
    from_int32 _ h = elim h [ ]

    from_int64 : (v : Value) → HasType is_nan TypeId.int64 v → (a : ℤ) × (v ≡ Value.i64 a) × Any a
    from_int64 (Value.i64 a) h = (a, refl, h)
    from_int64 _ h = elim h [ ]

    from_double :
        (v : Value)
        → HasType is_nan TypeId.double v
        → (a : ℕ) × (v ≡ Value.f64 a) × (is_nan a ≡ false)
    from_double (Value.f64 a) h = (a, refl, h)
    from_double _ h = elim h [ ]

    from_varchar :
        (v : Value) → HasType is_nan TypeId.varchar v → (a : List ℕ) × (v ≡ Value.string a) × Any a
    from_varchar (Value.string a) h = (a, refl, h)
    from_varchar _ h = elim h [ ]

    from_bool :
        (v : Value) → HasType is_nan TypeId.bool v → (a : Bool) × (v ≡ Value.boolean a) × Any a
    from_bool (Value.boolean a) h = (a, refl, h)
    from_bool _ h = elim h [ ]

    from_date : (v : Value) → HasType is_nan TypeId.date v → (a : ℤ) × (v ≡ Value.date a) × Any a
    from_date (Value.date a) h = (a, refl, h)
    from_date _ h = elim h [ ]

    from_timestamp :
        (v : Value) → HasType is_nan TypeId.timestamp v → (a : ℤ) × (v ≡ Value.timestamp a) × Any a
    from_timestamp (Value.timestamp a) h = (a, refl, h)
    from_timestamp _ h = elim h [ ]

    -- The values of a column, null and NaN aside, are ordered by `compare_values`.
    pub HasType-Compares : (t : TypeId) → Compares (compare_values f64_lt) (HasType is_nan t)
    unfolding compare_values
    HasType-Compares TypeId.invalid = record {
      order = order_of;
      total = λ a b p q. elim p [ ];
      flip = λ a b p q. elim p [ ];
      unflip = λ a b p q. elim p [ ];
      cotrans = λ a b c p q r. elim p [ ];
    }
    HasType-Compares TypeId.int32 =
        con-Compares ltb_ℤ-StrictWeak Value.i32 (λ a b. refl) _ from_int32
    HasType-Compares TypeId.int64 =
        con-Compares ltb_ℤ-StrictWeak Value.i64 (λ a b. refl) _ from_int64
    HasType-Compares TypeId.double = con-Compares laws Value.f64 (λ a b. refl) _ from_double
    HasType-Compares TypeId.varchar =
        con-Compares bytes_lt-StrictWeak Value.string (λ a b. refl) _ from_varchar
    HasType-Compares TypeId.bool =
        con-Compares bool_lt-StrictWeak Value.boolean (λ a b. refl) _ from_bool
    HasType-Compares TypeId.date =
        con-Compares ltb_ℤ-StrictWeak Value.date (λ a b. refl) _ from_date
    HasType-Compares TypeId.timestamp =
        con-Compares ltb_ℤ-StrictWeak Value.timestamp (λ a b. refl) _ from_timestamp
