-- ===== src/Shard/Kept.antt =====
-- The test of `prune_partitions` against the range of values that a partition holds.
use Prim.Native.Nat.{Ordering}
use nyxdb.Base.{◌≡◌, refl, ◌≢◌, Bool, true, not, ◌&&◌, Option, none, some, arith, ℕ}
use nyxdb.Value.{Value}
use nyxdb.Shard.Defs.{BinaryOpKind, compare_values, is_lt, is_gt, keeps}
use nyxdb.Shard.Typed.{Compares}

-- What `value op literal` says of their comparison; arithmetic says nothing.
abbrev pub Holds : BinaryOpKind → Ordering → Type 0
Holds BinaryOpKind.lt o = o ≡ Ordering.lt
Holds BinaryOpKind.le o = o ≢ Ordering.gt
Holds BinaryOpKind.eq o = o ≡ Ordering.eq
Holds BinaryOpKind.ge o = o ≢ Ordering.lt
Holds BinaryOpKind.gt o = o ≡ Ordering.gt
Holds _ o = Unit {0}

-- The case that `<=` gets wrong: the bound before the partition is the literal itself.
abbrev pub Clear : BinaryOpKind → Option Ordering → Type 0
Clear BinaryOpKind.le o = o ≢ some Ordering.eq
Clear _ o = Unit {0}

abbrev pub OnBound : (Value → Type 0) → Option Value → Type 0
OnBound P none = Unit {0}
OnBound P (some a) = P a

module _ (f64_lt : ℕ → ℕ → Bool) {P : Value → Type 0} (C : Compares (compare_values f64_lt) P) where
  open C use {order, total, flip, unflip, cotrans}

  pub kept : BinaryOpKind → Option Value → Value → Value → Bool
  kept BinaryOpKind.eq none u l = is_lt (order l u)
  kept BinaryOpKind.eq (some a) u l = not (is_gt (order a l)) && is_lt (order l u)
  kept BinaryOpKind.lt none u l = true
  kept BinaryOpKind.lt (some a) u l = is_lt (order a l)
  kept BinaryOpKind.le none u l = true
  kept BinaryOpKind.le (some a) u l = is_lt (order a l)
  kept BinaryOpKind.gt prev u l = is_gt (order u l)
  kept BinaryOpKind.ge prev u l = is_gt (order u l)
  kept _ prev u l = true

  pub keeps-kept :
      (op : BinaryOpKind) (prev : Option Value) (u l : Value)
      → OnBound P prev
      → P u
      → P l
      → keeps f64_lt op prev u l ≡ some (kept op prev u l)
  unfolding keeps kept
  keeps-kept BinaryOpKind.eq none u l p q r = rw (total l u r q)
  keeps-kept BinaryOpKind.eq (some a) u l p q r = rw (total a l p r, total l u r q)
  keeps-kept BinaryOpKind.lt none u l p q r = refl
  keeps-kept BinaryOpKind.lt (some a) u l p q r = rw (total a l p r)
  keeps-kept BinaryOpKind.le none u l p q r = refl
  keeps-kept BinaryOpKind.le (some a) u l p q r = rw (total a l p r)
  keeps-kept BinaryOpKind.gt prev u l p q r = rw (total u l q r)
  keeps-kept BinaryOpKind.ge prev u l p q r = rw (total u l q r)
  keeps-kept BinaryOpKind.add prev u l p q r = refl
  keeps-kept BinaryOpKind.sub prev u l p q r = refl
  keeps-kept BinaryOpKind.mul prev u l p q r = refl
  keeps-kept BinaryOpKind.div prev u l p q r = refl
  keeps-kept BinaryOpKind.ne prev u l p q r = refl

  -- A partition that holds a value with the property is kept.
  module _ (v l : Value) (pv : P v) (pl : P l) where
    pub kept_found :
        (op : BinaryOpKind) (prev : Option Value) (u : Value)
        → OnBound P prev
        → P u
        → Holds op (order v l)
        → OnBound (λ a. Clear op (some (order a l))) prev
        → OnBound (λ a. order v a ≢ Ordering.lt) prev
        → order v u ≡ Ordering.lt
        → kept op prev u l ≡ true
    unfolding kept
    kept_found BinaryOpKind.eq none u p q h c lo hi = ground (arith, cotrans v l u pv pl q)
    kept_found BinaryOpKind.eq (some a) u p q h c lo hi =
        ground
          (arith, cotrans v l u pv pl q, unflip a l p pl, cotrans l v a pl pv p, flip l v pl pv)
    kept_found BinaryOpKind.lt none u p q h c lo hi = refl
    kept_found BinaryOpKind.lt (some a) u p q h c lo hi = ground (arith, cotrans v a l pv p pl)
    kept_found BinaryOpKind.le none u p q h c lo hi = refl
    kept_found BinaryOpKind.le (some a) u p q h c lo hi =
        ground (arith, unflip a l p pl, cotrans l v a pl pv p, flip l v pl pv)
    kept_found BinaryOpKind.gt prev u p q h c lo hi =
        ground
          (arith, unflip v l pv pl, cotrans l v u pl pv q, flip l u pl q, cotrans v l u pv pl q)
    kept_found BinaryOpKind.ge prev u p q h c lo hi =
        ground (arith, cotrans v l u pv pl q, flip l u pl q)
    kept_found BinaryOpKind.add prev u p q h c lo hi = refl
    kept_found BinaryOpKind.sub prev u p q h c lo hi = refl
    kept_found BinaryOpKind.mul prev u p q h c lo hi = refl
    kept_found BinaryOpKind.div prev u p q h c lo hi = refl
    kept_found BinaryOpKind.ne prev u p q h c lo hi = refl

    -- Below a value that no partition holds, what is kept is followed by what is kept.
    pub kept_next :
        (op : BinaryOpKind) (prev : Option Value) (u u' : Value)
        → P u
        → P u'
        → Holds op (order v l)
        → Clear op (some (order u l))
        → order v u ≢ Ordering.lt
        → order u' u ≢ Ordering.lt
        → kept op prev u l ≡ true
        → kept op (some u) u' l ≡ true
    unfolding kept
    kept_next BinaryOpKind.eq none u u' p q h c lo up k =
        ground (arith, cotrans l v u pl pv p, flip l v pl pv)
    kept_next BinaryOpKind.eq (some a) u u' p q h c lo up k =
        ground (arith, cotrans l v u pl pv p, flip l v pl pv)
    kept_next BinaryOpKind.lt prev u u' p q h c lo up k = ground (arith, cotrans v u l pv p pl)
    kept_next BinaryOpKind.le prev u u' p q h c lo up k =
        ground (arith, unflip u l p pl, cotrans l v u pl pv p, flip l v pl pv)
    kept_next BinaryOpKind.gt prev u u' p q h c lo up k =
        ground (arith, unflip u l p pl, cotrans l u' u pl q p, flip l u' pl q)
    kept_next BinaryOpKind.ge prev u u' p q h c lo up k =
        ground (arith, unflip u l p pl, cotrans l u' u pl q p, flip l u' pl q)
    kept_next BinaryOpKind.add prev u u' p q h c lo up k = refl
    kept_next BinaryOpKind.sub prev u u' p q h c lo up k = refl
    kept_next BinaryOpKind.mul prev u u' p q h c lo up k = refl
    kept_next BinaryOpKind.div prev u u' p q h c lo up k = refl
    kept_next BinaryOpKind.ne prev u u' p q h c lo up k = refl
