-- ===== src/Memory/LruK/Victim.antt =====
-- Which frame leaves.
use nyxdb.Base.{
  ℕ, suc, ◌+◌, ◌%◌, ◌≤◌, ◌<◌, ◌≡◌, refl, sym, ap, ◌∙◌, ◌⊎◌, inl, inr, Bool, true, false, not, ◌&&◌,
  List, [], ◌∷◌, Option, none, some, arith, ltb, ◌==◌, if◌then◌else◌, length, get_or, Bool-cases,
  Option-cases,
}
use native.Mathlib.Decide.{ℕ_discrete}
use nyxdb.Base.Words.{u32_mod}
use nyxdb.Memory.LruK.{
  FrameData, LruKReplacer, blank_frame, frame, front, remove, Scan, better, scan_frame, scan_loop,
  chosen, no_frame, victim,
}
use nyxdb.Memory.LruK.Counting.{is_candidate, count-pos, candidate-count}
use nyxdb.Memory.LruK.Invariant.{IsValid}

-- Of the indices below `n` that satisfy `P`, the entry holds one with the least timestamp, and
-- there is an entry if there is such an index.
record Best (P : ℕ → Bool) (ts : ℕ → ℕ) (n : ℕ) (o : Option (ℕ × ℕ)) : Type 0 where
  least : (j : ℕ) → j < n → P j ≡ true → (b : ℕ × ℕ) × (o ≡ some b) × (b.1 ≤ ts j)
  member : (b : ℕ × ℕ) → o ≡ some b → (b.0 < n) × (P b.0 ≡ true) × (b.1 ≡ ts b.0)

module _ (P : ℕ → Bool) (ts : ℕ → ℕ) (n : ℕ) (o : Option (ℕ × ℕ)) (h : Best P ts n o) where
  Best-skip : P n ≡ false → Best P ts (suc n) o
  Best-skip e = record {
    least = λ j lt p. elim (ℕ_discrete j n) [
      | yes q ↦ absurd (ground arith)
      | no q ↦ h.least j (omega arith) p
    ];
    member = λ b q. let (a, c, d) = h.member b q in (omega arith, c, d);
  }

Best-first :
    (P : ℕ → Bool) (ts : ℕ → ℕ) (n : ℕ)
    → Best P ts n none
    → P n ≡ true
    → Best P ts (suc n) (some (n, ts n))
Best-first P ts n h e = record {
  least = λ j lt p. elim (ℕ_discrete j n) [
    | yes q ↦ ((n, ts n), refl, rw q (omega arith))
    | no q ↦ let (b, c, _) = h.least j (omega arith) p in absurd (cc)
  ];
  member = λ b q. ground arith;
}

Best-next :
    (P : ℕ → Bool) (ts : ℕ → ℕ) (n m t : ℕ)
    → Best P ts n (some (m, t))
    → P n ≡ true
    → Best P ts (suc n) (if ltb (ts n) t then some (n, ts n) else some (m, t))
Best-next P ts n m t h e = elim (Bool-cases (ltb (ts n) t)) [
  | inl less ↦ rw less (record {
    least = λ j lt p. ((n, ts n), refl, below j (omega arith) p less);
    member = λ b q. ground arith;
  })
  | inr more ↦ rw more (record {
    least = λ j lt p. ((m, t), refl, at_least j (omega arith) p more);
    member = λ b q. ground (arith, h.member (m, t) refl);
  })
]
  where
    old : (j : ℕ) → j < n → P j ≡ true → t ≤ ts j
    old j lt p = ground (arith, h.least j lt p)

    below : (j : ℕ) → j ≤ n → P j ≡ true → ltb (ts n) t ≡ true → ts n ≤ ts j
    below j le p less = elim (ℕ_discrete j n) [
      | yes q ↦ rw q (omega arith)
      | no q ↦ ground (arith, old j (omega arith) p)
    ]

    at_least : (j : ℕ) → j ≤ n → P j ≡ true → ltb (ts n) t ≡ false → t ≤ ts j
    at_least j le p more = elim (ℕ_discrete j n) [
      | yes q ↦ rw q (ground arith)
      | no q ↦ old j (omega arith) p
    ]

Best-take :
    (P : ℕ → Bool) (ts : ℕ → ℕ) (n : ℕ) (o : Option (ℕ × ℕ))
    → Best P ts n o
    → P n ≡ true
    → Best P ts (suc n) (better o n (ts n))
unfolding better
Best-take P ts n none h e = Best-first P ts n h e
Best-take P ts n (some (m, t)) h e = Best-next P ts n m t h e

-- A candidate with fewer than k accesses, and one with k.
abbrev pub is_under : ℕ → FrameData → Bool
is_under k f = is_candidate f && ltb (length f.history) k

abbrev pub is_full : ℕ → FrameData → Bool
is_full k f = is_candidate f && not (ltb (length f.history) k)

record Scanned (k : ℕ) (F : ℕ → FrameData) (n : ℕ) (s : Scan) : Type 0 where
  under : Best (λ j. is_under k (F j)) (λ j. front (F j).history) n s.under_k
  full : Best (λ j. is_full k (F j)) (λ j. front (F j).history) n s.at_k

scan_frame-Scanned :
    (k : ℕ) (F : ℕ → FrameData) (n : ℕ) (s : Scan)
    → n < u32_mod
    → Scanned k F n s
    → Scanned k F (suc n) (scan_frame k n (F n) s)
unfolding scan_frame
scan_frame-Scanned k F n s lt h =
    let w : n % u32_mod ≡ n = omega arith in
    let U = λ (j : ℕ). is_under k (F j) in
    let A = λ (j : ℕ). is_full k (F j) in
    let ts = λ (j : ℕ). front (F j).history in
    elim (Bool-cases (is_candidate (F n))) [
      | inr e ↦
          let same : scan_frame k n (F n) s ≡ s = ground arith in
          rw same (record {
            under = Best-skip U ts n s.under_k h.under (ground arith);
            full = Best-skip A ts n s.at_k h.full (ground arith);
          })
      | inl e ↦ elim (Bool-cases (ltb (length (F n).history) k)) [
        | inl less ↦
            let step : scan_frame k n (F n) s ≡ record s { under_k = better s.under_k n (ts n) } =
              ground arith in
            rw step (record {
              under = Best-take U ts n s.under_k h.under (ground arith);
              full = Best-skip A ts n s.at_k h.full (ground arith);
            })
        | inr more ↦
            let step : scan_frame k n (F n) s ≡ record s { at_k = better s.at_k n (ts n) } =
              ground arith in
            rw step (record {
              under = Best-skip U ts n s.under_k h.under (ground arith);
              full = Best-take A ts n s.at_k h.full (ground arith);
            })
      ]
    ]

scan_loop-Scanned :
    (k : ℕ) (F : ℕ → FrameData) (fs : List FrameData) (i n : ℕ) (s : Scan)
    → ((j : ℕ) → F (i + j) ≡ get_or fs j blank_frame)
    → i + length fs ≡ n
    → n ≤ u32_mod
    → Scanned k F i s
    → Scanned k F n (scan_loop k i fs s)
unfolding scan_loop
scan_loop-Scanned k F [] i n s at e le h = let e' : i ≡ n = omega arith in rw (← e') h
scan_loop-Scanned k F (f ∷ fs) i n s at e le h =
    let here : F i ≡ f = ap F (omega arith) ∙ at 0 in
    scan_loop-Scanned k F fs (suc i) n (scan_frame k i f s) (λ j. ap F (omega arith) ∙ at (suc j))
      (omega arith) le (rw here at (scan_frame-Scanned k F i s (omega arith) h))

Scanned-start : (k : ℕ) (F : ℕ → FrameData) → Scanned k F 0 no_frame
Scanned-start k F = record {
  under = record { least = λ j lt p. absurd (omega arith); member = λ b q. cc };
  full = record { least = λ j lt p. absurd (omega arith); member = λ b q. cc };
}

-- Whether `f` leaves no later than `g`: frames with fewer than k accesses leave before the others,
-- and of two alike the one whose oldest remembered access is earlier.
abbrev pub Precedes : ℕ → FrameData → FrameData → Type 0
Precedes k f g =
    ((is_under k f ≡ true) × (is_under k g ≡ false))
    ⊎ ((is_under k f ≡ is_under k g) × (front f.history ≤ front g.history))

chosen_under : (s : Scan) (b : ℕ × ℕ) → s.under_k ≡ some b → chosen s ≡ b.0
unfolding chosen
chosen_under s b e = ground arith

chosen_full : (s : Scan) (b : ℕ × ℕ) → s.under_k ≡ none → s.at_k ≡ some b → chosen s ≡ b.0
unfolding chosen
chosen_full s b e e' = ground arith

chosen-Precedes :
    (k : ℕ) (F : ℕ → FrameData) (n : ℕ) (s : Scan)
    → Scanned k F n s
    → (j : ℕ) → j < n
    → is_candidate (F j) ≡ true
    → (is_candidate (F (chosen s)) ≡ true) × (chosen s < n) × Precedes k (F (chosen s)) (F j)
chosen-Precedes k F n s h j lt c = elim (Option-cases s.under_k) [
  | inl no_under ↦
      let not_under : is_under k (F j) ≡ false = not_under_of no_under in
      let (b, hit, le) = h.full.least j lt (ground arith) in
      let (below, good, t) = h.full.member b hit in
      let e : chosen s ≡ b.0 = chosen_full s b no_under hit in
      rw e (ground arith, below, inr (ground arith, ground arith))
  | inr (b, hit) ↦
      let (below, good, t) = h.under.member b hit in
      let e : chosen s ≡ b.0 = chosen_under s b hit in
      rw e (ground arith, below, precedes b hit good t)
]
  where
    not_under_of : s.under_k ≡ none → is_under k (F j) ≡ false
    not_under_of no_under = elim (Bool-cases (is_under k (F j))) [
      | inl u ↦ let (b, hit, _) = h.under.least j lt u in absurd (cc)
      | inr u ↦ u
    ]

    precedes :
        (b : ℕ × ℕ)
        → s.under_k ≡ some b
        → is_under k (F b.0) ≡ true
        → b.1 ≡ front (F b.0).history
        → Precedes k (F b.0) (F j)
    precedes b hit good t = elim (Bool-cases (is_under k (F j))) [
      | inl u ↦ let (b', hit', le) = h.under.least j lt u in inr (good ∙ sym u, ground arith)
      | inr u ↦ inl (good, u)
    ]

module _ (r : LruKReplacer) (v : IsValid r) where
  -- The frame that `victim` gives, on a valid replacer with a candidate.
  pub victim-Precedes :
      0 < r.evictable_count
      → (i : ℕ) × (victim r ≡ (some i, remove r i))
        × (is_candidate (frame r i) ≡ true)
        × ((j : ℕ) → is_candidate (frame r j) ≡ true → Precedes r.k (frame r i) (frame r j))
  unfolding victim
  victim-Precedes pos = (
    chosen scan,
    ground arith,
    (best at_hand.0 at_hand.1 at_hand.2).0,
    λ j c. (best j (candidate-count r.frames j c).0 c).2,
  )
    where
      scan : Scan
      scan = scan_loop r.k 0 r.frames no_frame

      scanned : Scanned r.k (frame r) (length r.frames) scan
      scanned =
          scan_loop-Scanned r.k (frame r) r.frames 0 (length r.frames) no_frame
            (λ j. ap (frame r) (omega arith)) (omega arith) (omega (arith, v.few))
            (Scanned-start r.k (frame r))

      at_hand : (j : ℕ) × (j < length r.frames) × (is_candidate (frame r j) ≡ true)
      at_hand = count-pos r.frames (omega (arith, v.counted))

      best :
          (j : ℕ)
          → j < length r.frames
          → is_candidate (frame r j) ≡ true
          → (is_candidate (frame r (chosen scan)) ≡ true)
            × (chosen scan < length r.frames)
            × Precedes r.k (frame r (chosen scan)) (frame r j)
      best = chosen-Precedes r.k (frame r) (length r.frames) scan scanned

pub victim_cases :
    (r : LruKReplacer) → (victim r ≡ (none, r)) ⊎ ((i : ℕ) × (victim r ≡ (some i, remove r i)))
unfolding victim
victim_cases r = elim (Bool-cases (r.evictable_count == 0)) [
  | inl e ↦ inl (rw e)
  | inr e ↦ inr (chosen (scan_loop r.k 0 r.frames no_frame), rw e)
]
