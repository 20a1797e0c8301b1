-- ===== src/Parser/Lexer/Took.antt =====
-- What a step of the lexer of src/parser/lexer.cpp takes off the source.
use nyxdb.Base.{
  ℕ, zero, suc, ◌+◌, ◌-◌, ◌%◌, ◌<◌, ◌≡◌, refl, sym, ap, ◌∙◌, Bool, true, false, List, [], ◌∷◌, ◌++◌,
  Bool-cases, inl, inr, arith, length, take, drop, All, length-append, drop-append_exact, drop-nil,
  take-append_exact,
}
use mathlib.Core.List.{append_assoc}
use nyxdb.Base.Words.{u32_mod}
use nyxdb.Parser.Scan.{Lexer, advance_over, advance, while_loop, advance_while}
use nyxdb.Parser.Lexer.{start_of, loc_from}

abbrev pub Took : Lexer → List ℕ → Lexer → Type 0
Took lx w next =
    (lx.ahead ≡ w ++ next.ahead) × (next.pos ≡ lx.pos + length w) × (next.source ≡ lx.source)

pub Took-refl : (lx : Lexer) → Took lx [] lx
Took-refl lx = (refl, omega arith, refl)

pub Took-trans : (x y z : Lexer) (v w : List ℕ) → Took x v y → Took y w z → Took x (v ++ w) z
Took-trans x y z v w (a, p, s) (b, q, t) = (
  a ∙ (ap (λ k. v ++ k) b ∙ sym (append_assoc v w z.ahead)),
  omega (arith, length-append v w),
  t ∙ s,
)

pub Took-advance :
    (lx : Lexer) (c : ℕ) (cs : List ℕ) → lx.ahead ≡ c ∷ cs → Took lx (c ∷ []) (advance lx)
unfolding advance advance_over
Took-advance lx c cs e = rw e (refl, refl, refl)

pub while_loop_takes :
    (test : ℕ → Bool) (p : ℕ) (r : List ℕ)
    → (w : List ℕ) × All (λ c. test c ≡ true) w
      × (r ≡ w ++ (while_loop test p r).1)
      × ((while_loop test p r).0 ≡ p + length w)
unfolding while_loop
while_loop_takes test p [] = ([], tt, refl, omega arith)
while_loop_takes test p (c ∷ cs) = elim (Bool-cases (test c)) [
  | inl t ↦
      let (w, a, e, l) = while_loop_takes test (p + 1) cs in
      rw t (c ∷ w, (t, a), ap (λ k. c ∷ k) e, omega (arith, l))
  | inr t ↦ rw t ([], tt, refl, omega arith)
]

-- What is left of a loop starts with no character that passes its test.
abbrev pub Stops : (ℕ → Bool) → List ℕ → Type 0
Stops test [] = Unit {0}
Stops test (c ∷ cs) = test c ≡ false

pub Stops-while_loop : (test : ℕ → Bool) (p : ℕ) (r : List ℕ) → Stops test (while_loop test p r).1
unfolding while_loop
Stops-while_loop test p [] = tt
Stops-while_loop test p (c ∷ cs) = elim (Bool-cases (test c)) [
  | inl t ↦ rw t (Stops-while_loop test (p + 1) cs)
  | inr t ↦ rw t t
]

pub Stops-advance_while : (test : ℕ → Bool) (lx : Lexer) → Stops test (advance_while test lx).ahead
unfolding advance_while
Stops-advance_while test lx = Stops-while_loop test lx.pos lx.ahead

pub advance_while_takes :
    (test : ℕ → Bool) (lx : Lexer)
    → (w : List ℕ) × All (λ c. test c ≡ true) w × Took lx w (advance_while test lx)
unfolding advance_while
advance_while_takes test lx =
    let (w, a, e, l) = while_loop_takes test lx.pos lx.ahead in (w, a, (e, l, refl))

pub advance_while_first :
    (test : ℕ → Bool) (lx : Lexer) (c : ℕ) (cs : List ℕ)
    → lx.ahead ≡ c ∷ cs
    → test c ≡ true
    → (w : List ℕ) × All (λ k. test k ≡ true) (c ∷ w) × Took lx (c ∷ w) (advance_while test lx)
unfolding advance_while while_loop
advance_while_first test lx c cs e t =
    let (w, a, f, l) = while_loop_takes test (lx.pos + 1) cs in
    rw (e, t) (w, (refl, a), (ap (λ k. c ∷ k) f, omega (arith, l), refl))

-- The lexer stands in a source whose offsets are 32-bit words.
pub record IsAt (lx : Lexer) : Type 0 where
  pub suffix : drop lx.pos lx.source ≡ lx.ahead
  pub fits : lx.pos + length lx.ahead ≡ length lx.source
  pub small : length lx.source < u32_mod

drop_add : (n m : ℕ) (xs : List ℕ) → drop (n + m) xs ≡ drop m (drop n xs)
drop_add zero m xs = ap (λ k. drop k xs) (omega arith)
drop_add (suc n) m [] = drop-nil (suc n + m) ∙ sym (drop-nil m)
drop_add (suc n) m (x ∷ xs) =
    let e : suc n + m ≡ suc (n + m) = omega arith in rw e (drop_add n m xs)

pub IsAt-Took : (lx : Lexer) (w : List ℕ) (next : Lexer) → IsAt lx → Took lx w next → IsAt next
IsAt-Took lx w next h (a, p, s) = record {
  suffix =
      rw (p, s)
        (drop_add lx.pos (length w) lx.source
          ∙ (ap (λ k. drop (length w) k) (h.suffix ∙ a) ∙ drop-append_exact w next.ahead));
  fits = rw s (omega (arith, h.fits, ap (λ k. length k) a, length-append w next.ahead, p));
  small = rw s h.small;
}

pub loc_from-Took :
    (lx : Lexer) (w : List ℕ) (next : Lexer)
    → IsAt lx
    → Took lx w next
    → (start_of lx ≡ lx.pos)
      × (loc_from (start_of lx) next ≡ record { offset = lx.pos; length = length w })
unfolding start_of loc_from
loc_from-Took lx w next h (a, p, s) =
    let l : lx.pos + length w < u32_mod =
      omega (arith, h.fits, h.small, ap (λ k. length k) a, length-append w next.ahead) in
    let st : lx.pos % u32_mod ≡ lx.pos = omega arith in
    let n : (next.pos % u32_mod + (u32_mod - lx.pos)) % u32_mod ≡ length w = omega arith in
    (st, rw (st, n) refl)

pub slice-Took :
    (lx : Lexer) (w : List ℕ) (next : Lexer)
    → IsAt lx
    → Took lx w next
    → take (length w) (drop lx.pos lx.source) ≡ w
slice-Took lx w next h (a, p, s) =
    ap (λ k. take (length w) k) (h.suffix ∙ a) ∙ take-append_exact w next.ahead
