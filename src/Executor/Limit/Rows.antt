-- ===== src/Executor/Limit/Rows.antt =====
-- The rows that the operator of src/executor/limit.cpp gives over all its calls.
use nyxdb.Base.{
  ℕ, zero, suc, ◌+◌, ◌-◌, ◌<◌, ◌≤◌, ◌≡◌, refl, sym, ap, ◌∙◌, true, ◌||◌, List, [], ◌∷◌, ◌++◌, map,
  Option, none, some, ◌==◌, leb, ltb, length, take, drop, All, Bool-cases, inl, inr, arith,
  take-append_le, take-append_ge, drop-append_le, drop-append_ge, drop-nil, take-nil,
}
use mathlib.Core.List.{append-nil}
use nyxdb.Common.Result.{Result}
use nyxdb.Executor.Limit.{
  Chunk, Limit, new_limit, logical_size, resize, drop_rows, logical_rows, Child, emit, next_loop,
  next,
}
use nyxdb.Executor.Limit.Chunks.{IsChunk, logical_size-rows, resize-rows, drop_rows-rows}

record Counts (s : Limit) : Type 0 where
  few : s.emitted ≤ s.limit
  behind : s.skipped ≤ s.offset
  done : s.exhausted ≡ true → s.limit ≤ s.emitted

module _ {A : Type 0} where
  -- The rows of the chunks that `next` gives until it gives none.
  abbrev pub prepend :
      List (Option A) → Option (Result (List (Option A))) → Option (Result (List (Option A)))
  prepend rows none = none
  prepend rows (some (Result.err message)) = some (Result.err message)
  prepend rows (some (Result.ok rest)) = some (Result.ok (rows ++ rest))

  abbrev pub gather :
      (Limit → Child A → Option (Result (List (Option A))))
      → Result (Option (Chunk A)) × Limit × Child A
      → Option (Result (List (Option A)))
  gather more (Result.err message, s, child) = some (Result.err message)
  gather more (Result.ok none, s, child) = some (Result.ok [])
  gather more (Result.ok (some c), s, child) = prepend (logical_rows c) (more s child)

  abbrev pub rows_out : ℕ → Limit → Child A → Option (Result (List (Option A)))
  rows_out zero s child = none
  rows_out (suc n) s child = gather (λ t rest. rows_out n t rest) (next s child)

  abbrev pub all_rows : List (Chunk A) → List (Option A)
  all_rows [] = []
  all_rows (c ∷ cs) = logical_rows c ++ all_rows cs

  abbrev given : List (Chunk A) → Child A
  given = map (λ c. Result.ok c)

  abbrev wanted : Limit → List (Chunk A) → List (Option A)
  wanted s cs = take (s.limit - s.emitted) (drop (s.offset - s.skipped) (all_rows cs))

  abbrev Gives : (Limit → Child A → Option (Result (List (Option A)))) → ℕ → Type 0
  Gives more n =
      (s : Limit) (cs : List (Chunk A))
      → length cs < n
      → Counts s
      → All IsChunk cs
      → more s (given cs) ≡ some (Result.ok (wanted s cs))

  emit-wanted :
      (more : Limit → Child A → Option (Result (List (Option A)))) (s : Limit) (c : Chunk A)
      (cs : List (Chunk A))
      → Gives more (suc (length cs))
      → Counts s
      → s.skipped ≡ s.offset
      → IsChunk c
      → All IsChunk cs
      → gather more (emit s c (given cs))
        ≡ some (Result.ok (take (s.limit - s.emitted) (logical_rows c ++ all_rows cs)))
  unfolding emit
  emit-wanted more s c cs g h e v vs =
      let n = logical_size-rows c v in
      let k : ℕ = s.limit - s.emitted in
      let none_left : s.offset - s.skipped ≡ 0 = omega (arith, e) in
      elim (Bool-cases (leb (logical_size c) k)) [
        | inl t ↦
            let fits : logical_size c ≤ k = ground arith in
            let s' : Limit = record s {
              emitted = s.emitted + logical_size c;
              exhausted = s.exhausted || s.emitted + logical_size c == s.limit;
            } in
            let counts : Counts s' = record {
              few = omega (arith, fits, h.few);
              behind = h.behind;
              done = λ d. ground (arith, h.done, h.few, d);
            } in
            let left : s.limit - (s.emitted + logical_size c) ≡ k - length (logical_rows c) =
              omega (arith, n) in
            let rest : wanted s' cs ≡ take (k - length (logical_rows c)) (all_rows cs) =
              ap (λ m. take (s.limit - (s.emitted + logical_size c)) (drop m (all_rows cs)))
                none_left
              ∙ ap (λ m. take m (all_rows cs)) left in
            rw t (
              ap (prepend (logical_rows c)) (g s' cs (omega arith) counts vs)
              ∙ ap (λ r. some (Result.ok (logical_rows c ++ r))) rest
              ∙ ap (λ r. some (Result.ok r))
                  (sym (take-append_ge k (logical_rows c) (all_rows cs) (omega (arith, n, fits)))))
        | inr t ↦
            let over : k < logical_size c = ground arith in
            let s' : Limit = record s { emitted = s.limit; exhausted = true } in
            let counts : Counts s' = record {
              few = omega arith;
              behind = h.behind;
              done = λ d. omega arith;
            } in
            let full : s.limit - s.limit ≡ 0 = omega arith in
            let nothing : wanted s' cs ≡ [] =
              ap (λ m. take m (drop (s.offset - s.skipped) (all_rows cs))) full in
            let first : logical_rows (resize k c) ≡ take k (logical_rows c) =
              (resize-rows k c v).0 in
            rw t (
              ap (prepend (logical_rows (resize k c))) (g s' cs (omega arith) counts vs)
              ∙ ap (λ r. some (Result.ok (logical_rows (resize k c) ++ r))) nothing
              ∙ ap (λ r. some (Result.ok r))
                  (append-nil (logical_rows (resize k c))
                    ∙ first
                    ∙ sym
                        (take-append_le k (logical_rows c) (all_rows cs) (omega (arith, n, over)))))
      ]

  next_loop-wanted :
      (more : Limit → Child A → Option (Result (List (Option A)))) (s : Limit) (cs : List (Chunk A))
      → Gives more (length cs)
      → Counts s
      → All IsChunk cs
      → gather more (next_loop s (given cs)) ≡ some (Result.ok (wanted s cs))
  unfolding next_loop
  next_loop-wanted more s [] g h vs =
      ap (λ r. some (Result.ok r))
        (sym (
          ap (take (s.limit - s.emitted)) (drop-nil (s.offset - s.skipped))
          ∙ take-nil (s.limit - s.emitted)))
  next_loop-wanted more s (c ∷ cs) g h (v, vs) =
      let n = logical_size-rows c v in
      let left : ℕ = s.offset - s.skipped in
      elim (Bool-cases (ltb s.skipped s.offset)) [
        | inr t ↦
            let e : s.skipped ≡ s.offset = ground (arith, h.behind) in
            let z : left ≡ 0 = omega (arith, e) in
            rw t (
              emit-wanted more s c cs g h e v vs
              ∙ ap (λ m. some (Result.ok (take (s.limit - s.emitted) (drop m (all_rows (c ∷ cs))))))
                  (sym z))
        | inl t ↦ elim (Bool-cases (leb (logical_size c) left)) [
          | inl u ↦
              let small : logical_size c ≤ left = ground arith in
              let s' : Limit = record s { skipped = s.skipped + logical_size c } in
              let counts : Counts s' = record {
                few = h.few;
                behind = omega (arith, h.behind);
                done = h.done;
              } in
              let later : s.offset - (s.skipped + logical_size c) ≡ left - length (logical_rows c) =
                omega (arith, n) in
              rw (t, u)
                (next_loop-wanted more s' cs (λ a b l. g a b (omega arith)) counts vs
                  ∙ ap (λ r. some (Result.ok (take (s.limit - s.emitted) r)))
                      (ap (λ m. drop m (all_rows cs)) later
                        ∙ sym (
                            drop-append_ge left (logical_rows c) (all_rows cs)
                              (omega (arith, n, small)))))
          | inr u ↦
              let big : left < logical_size c = ground arith in
              let s' : Limit = record s { skipped = s.offset } in
              let counts : Counts s' = record {
                few = h.few;
                behind = omega arith;
                done = h.done;
              } in
              let (rows, valid) = drop_rows-rows left c v (omega arith) in
              rw (t, u)
                (emit-wanted more s' (drop_rows left c) cs g counts refl valid vs
                  ∙ ap (λ r. some (Result.ok (take (s.limit - s.emitted) r)))
                      (ap (λ r. r ++ all_rows cs) rows
                        ∙ sym (
                            drop-append_le left (logical_rows c) (all_rows cs)
                              (omega (arith, n, big)))))
        ]
      ]

  enough :
      (s : Limit) (cs : List (Chunk A))
      → s.limit ≤ s.emitted
      → some (Result.ok []) ≡ some (Result.ok (wanted s cs))
  enough s cs h =
      let z : 0 ≡ s.limit - s.emitted = omega arith in
      ap (λ m. some (Result.ok (take m (drop (s.offset - s.skipped) (all_rows cs))))) z

  rows_out-wanted : (n : ℕ) → Gives (λ s rest. rows_out n s rest) n
  unfolding next
  rows_out-wanted zero s cs l h vs = absurd (omega arith)
  rows_out-wanted (suc n) s cs l h vs = elim (Bool-cases s.exhausted) [
    | inl t ↦ simp t (enough s cs (h.done t))
    | inr t ↦ elim (Bool-cases (leb s.limit s.emitted)) [
      | inl u ↦ let over : s.limit ≤ s.emitted = ground arith in simp (t, u) (enough s cs over)
      | inr u ↦
          simp (t, u)
            (next_loop-wanted (λ r rest. rows_out n r rest) s cs
              (λ r ds k c v. rows_out-wanted n r ds (omega arith) c v) h vs)
    ]
  ]

-- The calls of `next` end, and their chunks hold the child's rows behind the first `offset`, and of
-- these the first `limit`, however the child splits its rows into chunks: with or without
-- selections, which are valid.
pub rows_out-take-drop :
    {A : Type 0} (offset limit : ℕ) (cs : List (Chunk A))
    → All IsChunk cs
    → rows_out (suc (length cs)) (new_limit offset limit) (map (λ (c : Chunk A). Result.ok c) cs)
      ≡ some (Result.ok (take limit (drop offset (all_rows cs))))
rows_out-take-drop offset limit cs vs =
    rows_out-wanted (suc (length cs)) (new_limit offset limit) cs (omega arith)
      (record { few = omega arith; behind = omega arith; done = λ e. absurd (ground arith) }) vs
    ∙ ap (λ r. some (Result.ok r))
        (ap (λ m. take m (drop (offset - 0) (all_rows cs))) (omega arith)
          ∙ ap (λ m. take limit (drop m (all_rows cs))) (omega arith))
