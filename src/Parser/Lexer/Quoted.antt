-- ===== src/Parser/Lexer/Quoted.antt =====
-- The string literals of src/parser/lexer.cpp, in which a quote is written twice.
use nyxdb.Base.{
  ℕ, ◌+◌, ◌≡◌, inl, inr, refl, ap, ap₂, true, false, List, [], ◌∷◌, ◌++◌, Option, none, some, ◌==◌,
  Bool-cases, arith, length, if◌then◌else◌,
}
use nyxdb.Parser.Lexer.{string_loop, push}

-- A quote in a string literal is written twice.
unfoldable pub escape : List ℕ → List ℕ
escape [] = []
escape (c ∷ cs) = if c == b'\'' then b'\'' ∷ b'\'' ∷ escape cs else c ∷ escape cs

-- What the loop over a string literal leaves of the characters behind the opening quote.
abbrev pub StringTook : ℕ → List ℕ → Option (List ℕ × ℕ × List ℕ) → Type 0
StringTook p r none = Unit {0}
StringTook p r (some (body, q, rest)) =
    (r ≡ (escape body ++ b'\'' ∷ []) ++ rest) × (q ≡ p + length (escape body ++ b'\'' ∷ []))

StringTook-push :
    (c p : ℕ) (r : List ℕ) (o : Option (List ℕ × ℕ × List ℕ))
    → (c == b'\'') ≡ false
    → StringTook (p + 1) r o
    → StringTook p (c ∷ r) (push c o)
unfolding push escape
StringTook-push c p r none t h = tt
StringTook-push c p r (some (body, q, rest)) t (e, l) = rw t (ap (λ k. c ∷ k) e, omega (arith, l))

StringTook-push_quote :
    (c d p : ℕ) (r : List ℕ) (o : Option (List ℕ × ℕ × List ℕ))
    → (c == b'\'') ≡ true
    → (d == b'\'') ≡ true
    → StringTook (p + 2) r o
    → StringTook p (c ∷ d ∷ r) (push c o)
unfolding push escape
StringTook-push_quote c d p r none t u h = tt
StringTook-push_quote c d p r (some (body, q, rest)) t u (e, l) =
    let hc : c ≡ b'\'' = ground arith in
    let hd : d ≡ b'\'' = ground arith in
    rw t (ap₂ (λ x y. x ∷ y) hc (ap₂ (λ x y. x ∷ y) hd e), omega (arith, l))

pub StringTook-string_loop : (p : ℕ) (r : List ℕ) → StringTook p r (string_loop p r)
unfolding string_loop escape
StringTook-string_loop p [] = tt
StringTook-string_loop p (c ∷ []) = elim (Bool-cases (c == b'\'')) [
  | inl t ↦ let hc : c ≡ b'\'' = ground arith in rw t (ap (λ k. k ∷ []) hc, refl)
  | inr t ↦ rw t tt
]
StringTook-string_loop p (c ∷ d ∷ r) = elim (Bool-cases (c == b'\'')) [
  | inl t ↦ elim (Bool-cases (d == b'\'')) [
    | inl u ↦
        rw (t, u)
          (StringTook-push_quote c d p r (string_loop (p + 2) r) t u
            (StringTook-string_loop (p + 2) r))
    | inr u ↦ let hc : c ≡ b'\'' = ground arith in rw (t, u) (ap (λ k. k ∷ d ∷ r) hc, refl)
  ]
  | inr t ↦ rw t (
      StringTook-push c p (d ∷ r) (string_loop (p + 1) (d ∷ r)) t
        (StringTook-string_loop (p + 1) (d ∷ r)))
]
