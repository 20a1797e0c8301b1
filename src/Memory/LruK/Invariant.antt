-- ===== src/Memory/LruK/Invariant.antt =====
-- What every call of the replacer keeps.
use nyxdb.Base.{
  ℕ, zero, suc, ◌+◌, ◌-◌, ◌≤◌, ◌<◌, ◌≡◌, refl, inl, inr, true, false, List, [], ◌∷◌, ◌++◌, arith,
  length, set, All, All-set, All-get_or, All-append, length-set, length-append, Bool-cases,
  get_or_of_le,
}
use native.Mathlib.Decide.{dec_lt}
use nyxdb.Base.Words.{u32_mod, u64_mod}
use nyxdb.Memory.LruK.{
  FrameData, LruKReplacer, blank_frame, replicate_frames, frame, make, inc64, dec64, pop_front,
  push_access, pin, unpin, record_access, remove,
}
use nyxdb.Memory.LruK.Counting.{
  is_candidate, weight, count, count-set, count-le-length, candidate-count, count-blank,
}

-- A tracked frame remembers from one to k accesses, none later than the counter; a frame that is
-- not tracked remembers nothing and is no candidate.
pub record FrameOk (k counter : ℕ) (f : FrameData) : Type 0 where
  pub fits : length f.history ≤ k
  pub active : f.tracked ≡ true → 0 < length f.history
  pub idle : f.tracked ≡ false → f.evictable ≡ false
  pub seen : All (λ t. t ≤ counter) f.history

pub record IsValid (r : LruKReplacer) : Type 0 where
  pub k_pos : 0 < r.k
  pub few : length r.frames < u32_mod
  pub counted : r.evictable_count ≡ count r.frames
  pub frames : All (FrameOk r.k r.counter) r.frames

blank-FrameOk : (k c : ℕ) → FrameOk k c blank_frame
blank-FrameOk k c = record { fits = omega arith; active = λ e. cc; idle = λ e. refl; seen = tt }

frame-FrameOk : (r : LruKReplacer) (id : ℕ) → IsValid r → FrameOk r.k r.counter (frame r id)
frame-FrameOk r id v =
    All-get_or (FrameOk r.k r.counter) r.frames id blank_frame v.frames
      (blank-FrameOk r.k r.counter)

module _ (r : LruKReplacer) (id : ℕ) (v : IsValid r) where
  -- A frame put in the place of another keeps the invariant, if the count follows.
  set-IsValid :
      (g : FrameData) (n : ℕ)
      → id < length r.frames
      → FrameOk r.k r.counter g
      → n + weight (frame r id) ≡ r.evictable_count + weight g
      → IsValid (record r { frames = set r.frames id g; evictable_count = n })
  set-IsValid g n h ok e = record {
    k_pos = v.k_pos;
    few = omega (arith, length-set r.frames id g, v.few);
    counted = omega (arith, count-set r.frames id g h, v.counted);
    frames = All-set (FrameOk r.k r.counter) r.frames id g v.frames ok;
  }

  -- `--` does not wrap where a candidate is counted, nor `++` where one is not.
  count-bounds : r.evictable_count ≤ length r.frames
  count-bounds = omega (arith, count-le-length r.frames, v.counted)

  count-pos_of_candidate :
      is_candidate (frame r id) ≡ true → (id < length r.frames) × (0 < r.evictable_count)
  count-pos_of_candidate e =
      let (a, b) = candidate-count r.frames id e in (a, omega (arith, v.counted))

  tracked-lt : (frame r id).tracked ≡ true → id < length r.frames
  tracked-lt e = elim (dec_lt id (length r.frames)) [
    | yes h ↦ h
    | no h ↦ absurd (ground (arith, get_or_of_le r.frames id blank_frame))
  ]

  pub pin-IsValid : IsValid (pin r id)
  unfolding pin
  pin-IsValid = elim (Bool-cases (is_candidate (frame r id))) [
    | inl e ↦
        let f = frame-FrameOk r id v in
        let (h, c) = count-pos_of_candidate e in
        let ok : FrameOk r.k r.counter (record (frame r id) { evictable = false }) = record {
          fits = f.fits;
          active = f.active;
          idle = λ t. refl;
          seen = f.seen;
        } in
        ground (
          arith,
          set-IsValid (record (frame r id) { evictable = false }) (dec64 r.evictable_count) h ok,
          count-bounds,
          v.few,
        )
    | inr e ↦ ground arith
  ]

  pub unpin-IsValid : IsValid (unpin r id)
  unfolding unpin
  unpin-IsValid = elim (Bool-cases (frame r id).tracked) [
    | inl e ↦
        let f = frame-FrameOk r id v in
        let g : FrameData = record (frame r id) { evictable = true } in
        let ok : FrameOk r.k r.counter g = record {
          fits = f.fits;
          active = f.active;
          idle = λ t. cc;
          seen = f.seen;
        } in
        ground
          (arith, set-IsValid g (inc64 r.evictable_count) (tracked-lt e) ok, count-bounds, v.few)
    | inr e ↦ ground arith
  ]

  pub remove-IsValid : IsValid (remove r id)
  unfolding remove
  remove-IsValid = elim (Bool-cases (frame r id).tracked) [
    | inl e ↦
        let ok = blank-FrameOk r.k r.counter in
        ground (
          arith,
          set-IsValid blank_frame (dec64 r.evictable_count) (tracked-lt e) ok,
          set-IsValid blank_frame r.evictable_count (tracked-lt e) ok,
          count-pos_of_candidate,
          count-bounds,
          v.few,
        )
    | inr e ↦ ground arith
  ]

All-le : (c d : ℕ) (ts : List ℕ) → c ≤ d → All (λ t. t ≤ c) ts → All (λ t. t ≤ d) ts
All-le c d [] h a = tt
All-le c d (t ∷ ts) h a = (omega arith, All-le c d ts h a.1)

blank_frames : (k n : ℕ) → All (FrameOk k 0) (replicate_frames n)
blank_frames k zero = tt
blank_frames k (suc n) = (blank-FrameOk k 0, blank_frames k n)

FrameOk-mono :
    (k c d : ℕ) (fs : List FrameData) → c ≤ d → All (FrameOk k c) fs → All (FrameOk k d) fs
FrameOk-mono k c d [] h a = tt
FrameOk-mono k c d (f ∷ fs) h a = (
  record {
    fits = a.0.fits;
    active = a.0.active;
    idle = a.0.idle;
    seen = All-le c d f.history h a.0.seen;
  },
  FrameOk-mono k c d fs h a.1,
)

pop_front_ok : (c : ℕ) (ts : List ℕ) → All (λ t. t ≤ c) ts → All (λ t. t ≤ c) (pop_front ts)
pop_front_ok c [] a = tt
pop_front_ok c (t ∷ ts) a = a.1

length-pop_front : (ts : List ℕ) → length (pop_front ts) ≡ length ts - 1
length-pop_front [] = omega arith
length-pop_front (t ∷ ts) = omega arith

-- The history keeps the access, and at most k of them.
push_access_ok :
    (k t : ℕ) (ts : List ℕ)
    → 0 < k
    → length ts ≤ k
    → All (λ s. s ≤ t) ts
    → (length (push_access k t ts) ≤ k)
      × (0 < length (push_access k t ts))
      × All (λ s. s ≤ t) (push_access k t ts)
unfolding push_access
push_access_ok k t ts p h a =
    let all : All (λ s. s ≤ t) (ts ++ t ∷ []) =
      All-append (λ s. s ≤ t) ts (t ∷ []) a (omega arith, tt) in
    ground (
      arith,
      length-append ts (t ∷ []),
      length-pop_front (ts ++ t ∷ []),
      pop_front_ok t (ts ++ t ∷ []) all,
      all,
    )

module _ (r : LruKReplacer) (id : ℕ) (v : IsValid r) where
  pub record_access-IsValid :
      id < length r.frames → r.counter + 1 < u64_mod → IsValid (record_access r id)
  unfolding record_access
  record_access-IsValid lt nowrap =
      let f = frame-FrameOk r id v in
      let t = r.counter + 1 in
      let h = push_access r.k t (frame r id).history in
      let g : FrameData = record (frame r id) { tracked = true; history = h } in
      let (fit, some_seen, seen) =
        push_access_ok r.k t (frame r id).history v.k_pos f.fits
          (All-le r.counter t _ (omega arith) f.seen) in
      let ok : FrameOk r.k t g = record {
        fits = fit;
        active = λ e. some_seen;
        idle = λ e. cc;
        seen = seen;
      } in
      let e : inc64 r.counter ≡ t = omega arith in
      let later : IsValid (record r { counter = t }) = record {
        k_pos = v.k_pos;
        few = v.few;
        counted = v.counted;
        frames = FrameOk-mono r.k r.counter t r.frames (omega arith) v.frames;
      } in
      rw e (
        set-IsValid (record r { counter = t }) id later g r.evictable_count lt ok
          (ground (arith, f.idle)))

-- A new replacer for a positive k and fewer than 2 ^ 32 frames.
pub make-IsValid : (n k : ℕ) → 0 < k → n < u32_mod → IsValid (make n k)
unfolding make
make-IsValid n k p h = record {
  k_pos = p;
  few = omega (arith, (count-blank n).1);
  counted = omega (arith, (count-blank n).0);
  frames = blank_frames k n;
}
