-- ===== src/Memory/LruK/Counting.antt =====
-- The frames that can be evicted, counted.
use nyxdb.Base.{
  ℕ, zero, suc, ◌+◌, ◌≤◌, ◌<◌, ◌≡◌, refl, Bool, true, ◌&&◌, List, [], ◌∷◌, arith, if◌then◌else◌,
  length, get_or, set, Bool-cases, inl, inr,
}
use nyxdb.Memory.LruK.{FrameData, blank_frame, replicate_frames}

-- The frame is tracked and not pinned.
abbrev pub is_candidate : FrameData → Bool
is_candidate f = f.tracked && f.evictable

abbrev pub weight : FrameData → ℕ
weight f = if is_candidate f then 1 else 0

pub count : List FrameData → ℕ
count [] = 0
count (f ∷ fs) = weight f + count fs

pub count-set :
    (fs : List FrameData) (i : ℕ) (g : FrameData)
    → i < length fs
    → count (set fs i g) + weight (get_or fs i blank_frame) ≡ count fs + weight g
unfolding count
count-set [] i g h = absurd (omega arith)
count-set (f ∷ fs) zero g h = omega arith
count-set (f ∷ fs) (suc i) g h = omega (arith, count-set fs i g (omega arith))

pub count-le-length : (fs : List FrameData) → count fs ≤ length fs
unfolding count
count-le-length [] = omega arith
count-le-length (f ∷ fs) = ground (arith, count-le-length fs)

pub count-pos :
    (fs : List FrameData)
    → 0 < count fs
    → (j : ℕ) × (j < length fs) × (is_candidate (get_or fs j blank_frame) ≡ true)
unfolding count
count-pos [] h = absurd (omega arith)
count-pos (f ∷ fs) h = elim (Bool-cases (is_candidate f)) [
  | inl e ↦ (0, omega arith, e)
  | inr e ↦ let (j, lt, c) = count-pos fs (ground arith) in (suc j, omega arith, c)
]

-- A frame that counts is in range, and the count is positive.
pub candidate-count :
    (fs : List FrameData) (j : ℕ)
    → is_candidate (get_or fs j blank_frame) ≡ true
    → (j < length fs) × (0 < count fs)
unfolding count
candidate-count [] j h = cc
candidate-count (f ∷ fs) zero h = ground arith
candidate-count (f ∷ fs) (suc j) h = ground (arith, candidate-count fs j)

pub count-blank : (n : ℕ) → (count (replicate_frames n) ≡ 0) × (length (replicate_frames n) ≡ n)
unfolding count
count-blank zero = (refl, refl)
count-blank (suc n) = ground (arith, count-blank n)
