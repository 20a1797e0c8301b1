-- ===== src/Common/SourceError/Marker.antt =====
-- The line, the excerpt and the marker of src/common/source_error.cpp.
use nyxdb.Base.{
  length-drop, length-take, ℕ, zero, suc, ◌+◌, ◌-◌, ◌%◌, ◌<◌, ◌≤◌, ◌≡◌, refl, ap, ◌∙◌, List, [],
  ◌∷◌, ◌==◌, ltb, if◌then◌else◌, length, take, drop, get_or, Bool-cases, true, false, inl, inr,
  arith,
}
use nyxdb.Base.Strings.{is_empty}
use nyxdb.Base.Words.{u32_mod}
use nyxdb.Common.SourceError.{count_char, line_col_loop, line_col, line_start, line_end, line_at}

line_col_loop-take :
    (i : ℕ) (source : List ℕ) (at : ℕ × ℕ)
    → i < length source
    → line_col_loop (take (suc i) source) at
      ≡ count_char (get_or source i 0) (line_col_loop (take i source) at)
unfolding line_col_loop
line_col_loop-take i [] at h = absurd (omega arith)
line_col_loop-take zero (c ∷ cs) at h = refl
line_col_loop-take (suc i) (c ∷ cs) at h = line_col_loop-take i cs (count_char c at) (omega arith)

line_start-le : (source : List ℕ) (i : ℕ) → line_start source i ≤ i
unfolding line_start
line_start-le source zero = omega arith
line_start-le source (suc i) = ground (arith, line_start-le source i)

count_newline : (c : ℕ) (at : ℕ × ℕ) → (c == 10) ≡ true → (count_char c at).1 ≡ 1
unfolding count_char
count_newline c at t = rw t refl

count_other : (c : ℕ) (at : ℕ × ℕ) → (c == 10) ≡ false → (count_char c at).1 ≡ (at.1 + 1) % u32_mod
unfolding count_char
count_other c at t = rw t refl

-- The column counts from the start of the line.
col_from_start :
    (i : ℕ) (source : List ℕ)
    → i ≤ length source
    → length source < u32_mod - 1
    → (line_col_loop (take i source) (1, 1)).1 ≡ i - line_start source i + 1
unfolding line_start
col_from_start zero source h l = unfold line_col_loop in refl
col_from_start (suc i) source h l =
    let before : ℕ × ℕ = line_col_loop (take i source) (1, 1) in
    let step = ap (λ (k : ℕ × ℕ). k.1) (line_col_loop-take i source (1, 1) (omega arith)) in
    let count = col_from_start i source (omega arith) l in
    let le = line_start-le source i in
    elim (Bool-cases (get_or source i 0 == 10)) [
      | inl t ↦ rw t (step ∙ (count_newline (get_or source i 0) before t ∙ omega arith))
      | inr t ↦ rw t (step ∙ (count_other (get_or source i 0) before t ∙ omega (arith, count, le)))
    ]

abbrev pub newlines : List ℕ → ℕ
newlines [] = 0
newlines (c ∷ cs) = if c == 10 then suc (newlines cs) else newlines cs

line_counts :
    (cs : List ℕ) (line col : ℕ)
    → line + length cs < u32_mod
    → (line_col_loop cs (line, col)).0 ≡ line + newlines cs
unfolding line_col_loop
line_counts [] line col h = omega arith
line_counts (c ∷ cs) line col h = elim (Bool-cases (c == 10)) [
  | inl t ↦
      let e = line_counts cs ((line + 1) % u32_mod) 1 (omega arith) in
      rw (t, line_col_loop) (e ∙ omega arith)
  | inr t ↦ rw (t, line_col_loop) (line_counts cs line ((col + 1) % u32_mod) (omega arith))
]

line_end-gt : (cs : List ℕ) (i : ℕ) → i ≤ line_end cs i
unfolding line_end
line_end-gt [] i = omega arith
line_end-gt (c ∷ cs) i = ground (arith, line_end-gt cs (i + 1))

get_or-take : (n k : ℕ) (xs : List ℕ) → k < n → get_or (take n xs) k 0 ≡ get_or xs k 0
get_or-take zero k xs h = absurd (omega arith)
get_or-take (suc n) k [] h = refl
get_or-take (suc n) zero (x ∷ xs) h = refl
get_or-take (suc n) (suc k) (x ∷ xs) h = get_or-take n k xs (omega arith)

get_or-drop : (n k : ℕ) (xs : List ℕ) → get_or (drop n xs) k 0 ≡ get_or xs (n + k) 0
get_or-drop zero k xs = ap (λ m. get_or xs m 0) (omega arith)
get_or-drop (suc n) k [] = refl
get_or-drop (suc n) k (x ∷ xs) =
    let e : suc n + k ≡ suc (n + k) = omega arith in rw e (get_or-drop n k xs)

line_goes_on :
    (rest : List ℕ) (i : ℕ)
    → 0 < length rest
    → (get_or rest 0 0 == 10) ≡ false
    → i < line_end rest i
unfolding line_end
line_goes_on [] i h t = absurd (omega arith)
line_goes_on (c ∷ cs) i h t =
    let le : i + 1 ≤ line_end cs (i + 1) = line_end-gt cs (i + 1) in rw t (omega (arith, le))

is_empty_of_lt : (xs : List ℕ) (k : ℕ) → k < length xs → is_empty xs ≡ false
is_empty_of_lt [] k h = absurd (omega arith)
is_empty_of_lt (x ∷ xs) k h = refl

-- For an error at a place of a source of less than 2^32 - 1 bytes that is no newline: the line
-- number is one more than the newlines in front of the place, and the character of the line shown
-- above the marker is that of the place.
pub line_at-line_col :
    (source : List ℕ) (offset : ℕ)
    → offset < length source
    → length source < u32_mod - 1
    → (get_or source offset 0 == 10) ≡ false
    → ((line_col source offset).0 ≡ 1 + newlines (take offset source))
      × (get_or (line_at source offset) (((line_col source offset).1 + (u32_mod - 1)) % u32_mod) 0
          ≡ get_or source offset 0)
unfolding line_col line_at
line_at-line_col source offset h l t =
    let start : ℕ = line_start source offset in
    let end : ℕ = line_end (drop offset source) offset in
    let le : start ≤ offset = line_start-le source offset in
    let shown : get_or (drop offset source) 0 0 ≡ get_or source offset 0 =
      get_or-drop offset 0 source ∙ ap (λ k. get_or source k 0) (omega arith) in
    let goes : offset < end =
      line_goes_on (drop offset source) offset (omega (arith, length-drop offset source))
        (ap (λ k. k == 10) shown ∙ t) in
    let col = col_from_start offset source (omega arith) l in
    let inside : ltb offset (length source) ≡ true = ground arith in
    let before : ltb (length source) offset ≡ false = ground arith in
    let full : is_empty source ≡ false = is_empty_of_lt source offset h in
    let spaces : ((line_col_loop (take offset source) (1, 1)).1 + (u32_mod - 1)) % u32_mod
        ≡ offset - start =
      omega (arith, col) in
    rw (inside, before, full, spaces)
      (
        line_counts (take offset source) 1 1
            (omega (arith, length-take offset source (omega arith))),
        get_or-take (end - start) (offset - start) (drop start source) (omega arith)
            ∙ (get_or-drop start (offset - start) source
                ∙ ap (λ k. get_or source k 0) (omega arith)),
      )
