-- ===== src/Executor/SelectionVector/ToRanges.antt =====
-- `indices_to_ranges` of src/executor/selection_vector.cpp, read back.
use nyxdb.Base.{
  ℕ, zero, suc, ◌+◌, ◌-◌, ◌%◌, ◌<◌, ◌≡◌, inl, inr, refl, ap, ◌∙◌, List, [], ◌∷◌, ◌++◌, arith, ◌==◌,
  length, All, Bool-cases,
}
use mathlib.Core.List.{append_assoc}
use nyxdb.Base.Words.{u32_mod}
use nyxdb.Executor.SelectionVector.{range_rows, rows_of_ranges, ranges_loop, indices_to_ranges}
use nyxdb.Executor.SelectionVector.Cut.{RangeFits}

abbrev pub IsRow : ℕ → Type 0
IsRow i = i < u32_mod

range_rows-suc :
    (s n i : ℕ) → range_rows s (suc n) i ≡ range_rows s n i ++ ((s + (i + n)) % u32_mod) ∷ []
unfolding range_rows
range_rows-suc s zero i = ground arith
range_rows-suc s (suc n) i = ground (arith, range_rows-suc s n (i + 1))

range_rows_one : (idx : ℕ) → IsRow idx → range_rows idx 1 0 ≡ idx ∷ []
unfolding range_rows
range_rows_one idx h = ground arith

ranges_loop-rows :
    (start n prev : ℕ) (rest : List ℕ)
    → 0 < n
    → prev ≡ (start + (n - 1)) % u32_mod
    → n + length rest < u32_mod
    → All IsRow rest
    → rows_of_ranges (ranges_loop start n prev rest) ≡ range_rows start n 0 ++ rest
unfolding rows_of_ranges ranges_loop
ranges_loop-rows start n prev [] p e h f = refl
ranges_loop-rows start n prev (idx ∷ rest) p e h (f, fs) =
    let rows : List ℕ = range_rows start n 0 in
    elim (Bool-cases (idx == (prev + 1) % u32_mod)) [
      | inl t ↦
          let z : (n + 1) % u32_mod ≡ suc n = omega arith in
          let i : (start + (0 + n)) % u32_mod ≡ idx = ground arith in
          rw (t, z)
            (ranges_loop-rows start (suc n) idx rest (omega arith) (omega arith) (omega arith) fs
              ∙ (ap (λ x. x ++ rest) (range_rows-suc start n 0)
                  ∙ (append_assoc rows _ rest ∙ ap (λ k. rows ++ (k ∷ rest)) i)))
      | inr t ↦ rw t (
          ap (λ x. rows ++ x)
            (ranges_loop-rows idx 1 idx rest (omega arith) (omega arith) (omega arith) fs
              ∙ ap (λ x. x ++ rest) (range_rows_one idx f)))
    ]

pub indices_to_ranges-rows :
    (xs : List ℕ) → All IsRow xs → length xs < u32_mod → rows_of_ranges (indices_to_ranges xs) ≡ xs
unfolding indices_to_ranges
indices_to_ranges-rows [] f h = unfold rows_of_ranges in refl
indices_to_ranges-rows (idx ∷ rest) (f, fs) h =
    ranges_loop-rows idx 1 idx rest (omega arith) (omega arith) (omega arith) fs
    ∙ ap (λ x. x ++ rest) (range_rows_one idx f)

All-ranges_loop :
    (start n prev : ℕ) (rest : List ℕ) → n < u32_mod → All RangeFits (ranges_loop start n prev rest)
unfolding ranges_loop
All-ranges_loop start n prev [] h = (h, tt)
All-ranges_loop start n prev (idx ∷ rest) h = elim (Bool-cases (idx == (prev + 1) % u32_mod)) [
  | inl t ↦ rw t (All-ranges_loop start ((n + 1) % u32_mod) idx rest (omega arith))
  | inr t ↦ rw t (h, All-ranges_loop idx 1 idx rest (omega arith))
]

pub All-indices_to_ranges : (xs : List ℕ) → All RangeFits (indices_to_ranges xs)
unfolding indices_to_ranges
All-indices_to_ranges [] = tt
All-indices_to_ranges (idx ∷ rest) = All-ranges_loop idx 1 idx rest (omega arith)
