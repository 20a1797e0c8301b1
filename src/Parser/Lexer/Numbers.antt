-- ===== src/Parser/Lexer/Numbers.antt =====
-- The characters of a number of src/parser/lexer.cpp, and what the parts of `lex_number_` take.
use nyxdb.Base.{
  ℕ, ◌≤◌, ◌<◌, ◌≡◌, ◌⊎◌, inl, inr, refl, sym, ap, subst, ◌∙◌, Bool, true, false, not, ◌&&◌, ◌||◌,
  List, [], ◌∷◌, ◌++◌, ◌==◌, Bool-cases, arith, length, All, get_or,
}
use nyxdb.Base.Strings.{is_empty}
use nyxdb.Common.Result.{Result}
use nyxdb.Parser.Scan.{Lexer, peek, at_end, advance, advance_over, advance_while, is_digit}
use nyxdb.Parser.Lexer.{error, lex_fraction, skip_sign, lex_exponent}
use nyxdb.Parser.Lexer.Took.{
  Took, Stops, Stops-advance_while, Took-refl, Took-trans, Took-advance, advance_while_first,
}

-- One decimal digit or more.
abbrev pub IsDigits : List ℕ → Type 0
IsDigits w = All (λ c. (b'0' ≤ c) × (c ≤ b'9')) w × (0 < length w)

-- A point with digits behind it, or nothing.
abbrev pub IsFraction : Bool → List ℕ → Type 0
IsFraction false w = w ≡ []
IsFraction true w = (digits : List ℕ) × IsDigits digits × (w ≡ b'.' ∷ digits)

abbrev pub IsSign : List ℕ → Type 0
IsSign w = (w ≡ []) ⊎ ((w ≡ b'+' ∷ []) ⊎ (w ≡ b'-' ∷ []))

-- `e` or `E` with a sign or none and digits behind it, or nothing.
abbrev pub IsExponent : Bool → List ℕ → Type 0
IsExponent false w = w ≡ []
IsExponent true w =
    (mark : ℕ) × (sign : List ℕ) × (digits : List ℕ) × ((mark ≡ b'e') ⊎ (mark ≡ b'E'))
    × IsSign sign
    × IsDigits digits
    × (w ≡ mark ∷ (sign ++ digits))

-- Digits with a fraction and an exponent, each of which is there or is not.
abbrev pub IsNumber : Bool → Bool → List ℕ → Type 0
IsNumber has_point has_exponent w =
    (whole : List ℕ) × (fraction : List ℕ) × (exponent : List ℕ) × IsDigits whole
    × IsFraction has_point fraction
    × IsExponent has_exponent exponent
    × (w ≡ whole ++ (fraction ++ exponent))

-- A number with a fraction, an exponent or both.
abbrev pub IsDecimal : List ℕ → Type 0
IsDecimal w =
    (has_point : Bool) × (has_exponent : Bool) × ((has_point || has_exponent) ≡ true)
    × IsNumber has_point has_exponent w

abbrev is_mark : ℕ → Bool
is_mark c = c == b'e' || c == b'E'

-- The text does not start with a point that has a digit behind it.
abbrev NoFraction : List ℕ → Type 0
NoFraction [] = Unit {0}
NoFraction (c ∷ []) = Unit {0}
NoFraction (c ∷ d ∷ rest) = (c == b'.' && is_digit d) ≡ false

abbrev pub FractionEnds : Bool → List ℕ → Type 0
FractionEnds true rest = Stops is_digit rest
FractionEnds false rest = Stops is_digit rest × NoFraction rest

-- What is behind a number does not go on with it: no digit, no exponent where it has none, and no
-- fraction where it has neither.
abbrev pub NumberEnds : Bool → Bool → List ℕ → Type 0
NumberEnds has_point true rest = Stops is_digit rest
NumberEnds has_point false rest = FractionEnds has_point rest × Stops is_mark rest

All-is_digit : (w : List ℕ) → All (λ c. is_digit c ≡ true) w → All (λ c. (b'0' ≤ c) × (c ≤ b'9')) w
unfolding is_digit
All-is_digit [] a = tt
All-is_digit (c ∷ cs) (d, a) = ((ground arith, ground arith), All-is_digit cs a)

pub IsDigits-advance_while :
    (lx : Lexer) (c : ℕ) (cs : List ℕ)
    → lx.ahead ≡ c ∷ cs
    → is_digit c ≡ true
    → (w : List ℕ) × IsDigits w × Took lx w (advance_while is_digit lx)
IsDigits-advance_while lx c cs e t =
    let (w, a, took) = advance_while_first is_digit lx c cs e t in
    (c ∷ w, (All-is_digit (c ∷ w) a, omega arith), took)

-- The next character of a lexer, where its value tells that there is one.
next_is : (lx : Lexer) → not (peek 0 lx == 0) ≡ true → (cs : List ℕ) × (lx.ahead ≡ peek 0 lx ∷ cs)
unfolding peek
next_is lx h = first lx.ahead refl h
  where
    first :
        (r : List ℕ)
        → lx.ahead ≡ r
        → not (get_or r 0 0 == 0) ≡ true
        → (cs : List ℕ) × (r ≡ get_or r 0 0 ∷ cs)
    first [] e g = absurd (ground arith)
    first (c ∷ cs) e g = (cs, refl)

IsDigits-peek :
    (lx : Lexer)
    → is_digit (peek 0 lx) ≡ true
    → (w : List ℕ) × IsDigits w × Took lx w (advance_while is_digit lx)
unfolding is_digit
IsDigits-peek lx t =
    let (cs, e) = next_is lx (ground arith) in IsDigits-advance_while lx (peek 0 lx) cs e t

peeked_one :
    (lx : Lexer) (c : ℕ)
    → (peek 0 lx == c) ≡ true
    → not (c == 0) ≡ true
    → Took lx (c ∷ []) (advance lx)
peeked_one lx c h p =
    let same : peek 0 lx ≡ c = ground arith in
    let (cs, e) = next_is lx (ground arith) in Took-advance lx c cs (e ∙ ap (λ k. k ∷ cs) same)

peek-advance : (lx : Lexer) → peek 0 (advance lx) ≡ peek 1 lx
unfolding peek advance advance_over
peek-advance lx = by_cases lx.ahead
  where
    by_cases : (r : List ℕ) → get_or (advance_over lx.pos r).1 0 0 ≡ get_or r 1 0
    by_cases [] = refl
    by_cases (c ∷ cs) = refl

NoFraction-peek :
    (lx : Lexer)
    → (not (at_end lx) && (peek 0 lx == b'.' && is_digit (peek 1 lx))) ≡ false
    → NoFraction lx.ahead
unfolding peek at_end
NoFraction-peek lx h = from lx.ahead h
  where
    from :
        (r : List ℕ)
        → (not (is_empty r) && (get_or r 0 0 == b'.' && is_digit (get_or r 1 0))) ≡ false
        → NoFraction r
    from [] g = tt
    from (c ∷ []) g = tt
    from (c ∷ d ∷ rest) g = g

pub FractionEnds-lex_fraction :
    (lx : Lexer)
    → Stops is_digit lx.ahead
    → FractionEnds (lex_fraction lx).0 (lex_fraction lx).1.ahead
unfolding lex_fraction
FractionEnds-lex_fraction lx h =
    elim (Bool-cases (not (at_end lx) && (peek 0 lx == b'.' && is_digit (peek 1 lx)))) [
      | inl t ↦ rw t (Stops-advance_while is_digit (advance lx))
      | inr t ↦ rw t (h, NoFraction-peek lx t)
    ]

Stops-peek :
    (lx : Lexer)
    → (not (at_end lx) && (peek 0 lx == b'e' || peek 0 lx == b'E')) ≡ false
    → Stops is_mark lx.ahead
unfolding peek at_end
Stops-peek lx h = from lx.ahead h
  where
    from :
        (r : List ℕ)
        → (not (is_empty r) && (get_or r 0 0 == b'e' || get_or r 0 0 == b'E')) ≡ false
        → Stops is_mark r
    from [] g = tt
    from (c ∷ cs) g = g

pub IsFraction-lex_fraction :
    (lx : Lexer) → (w : List ℕ) × IsFraction (lex_fraction lx).0 w × Took lx w (lex_fraction lx).1
unfolding lex_fraction
IsFraction-lex_fraction lx =
    elim (Bool-cases (not (at_end lx) && (peek 0 lx == b'.' && is_digit (peek 1 lx)))) [
      | inl t ↦
          let point = peeked_one lx b'.' (ground arith) refl in
          let digit : is_digit (peek 1 lx) ≡ true = ground arith in
          let behind = advance lx in
          let (w, d, took) =
            IsDigits-peek behind (subst (λ k. is_digit k ≡ true) (sym (peek-advance lx)) digit) in
          rw t (b'.' ∷ w, (w, d, refl), Took-trans lx behind _ (b'.' ∷ []) w point took)
      | inr t ↦ rw t ([], refl, Took-refl lx)
    ]

IsSign-skip_sign : (lx : Lexer) → (w : List ℕ) × IsSign w × Took lx w (skip_sign lx)
unfolding skip_sign
IsSign-skip_sign lx =
    elim (Bool-cases (not (at_end lx) && (peek 0 lx == b'+' || peek 0 lx == b'-'))) [
      | inl t ↦ elim (Bool-cases (peek 0 lx == b'+')) [
        | inl p ↦ rw t (b'+' ∷ [], inr (inl refl), peeked_one lx b'+' p refl)
        | inr p ↦ rw t (b'-' ∷ [], inr (inr refl), peeked_one lx b'-' (ground arith) refl)
      ]
      | inr t ↦ rw t ([], inl refl, Took-refl lx)
    ]

mark_taken :
    (lx : Lexer)
    → (peek 0 lx == b'e' || peek 0 lx == b'E') ≡ true
    → (mark : ℕ) × ((mark ≡ b'e') ⊎ (mark ≡ b'E')) × Took lx (mark ∷ []) (advance lx)
mark_taken lx t = elim (Bool-cases (peek 0 lx == b'e')) [
  | inl p ↦ (b'e', inl refl, peeked_one lx b'e' p refl)
  | inr p ↦ (b'E', inr refl, peeked_one lx b'E' (ground arith) refl)
]

abbrev pub ExponentEnds : Bool → List ℕ → List ℕ → Type 0
ExponentEnds true behind rest = Stops is_digit rest
ExponentEnds false behind rest = (rest ≡ behind) × Stops is_mark rest

abbrev pub ExponentTook : Lexer → Result (Bool × Lexer) → Type 0
ExponentTook lx (Result.err message) = Unit {0}
ExponentTook lx (Result.ok (found, next)) =
    (w : List ℕ) × IsExponent found w × Took lx w next × ExponentEnds found lx.ahead next.ahead

pub ExponentTook-lex_exponent : (start : ℕ) (lx : Lexer) → ExponentTook lx (lex_exponent start lx)
unfolding lex_exponent error
ExponentTook-lex_exponent start lx =
    let signed : Lexer = skip_sign (advance lx) in
    elim (Bool-cases (not (at_end lx) && (peek 0 lx == b'e' || peek 0 lx == b'E'))) [
      | inl t ↦ elim (Bool-cases (at_end signed || not (is_digit (peek 0 signed)))) [
        | inl u ↦ rw (t, u) tt
        | inr u ↦
            let (mark, m, first) = mark_taken lx (ground arith) in
            let (sign, s, second) = IsSign-skip_sign (advance lx) in
            let (digits, d, third) = IsDigits-peek signed (ground arith) in
            rw (t, u)
              (
                mark ∷ (sign ++ digits),
                (mark, sign, digits, m, s, d, refl),
                Took-trans lx (advance lx) _ (mark ∷ []) (sign ++ digits) first
                    (Took-trans (advance lx) signed _ sign digits second third),
                Stops-advance_while is_digit signed,
              )
      ]
      | inr t ↦ rw t ([], refl, Took-refl lx, (refl, Stops-peek lx t))
    ]

pub NumberEnds-FractionEnds :
    (has_point found : Bool) (behind rest : List ℕ)
    → FractionEnds has_point behind
    → ExponentEnds found behind rest
    → NumberEnds has_point found rest
NumberEnds-FractionEnds has_point true behind rest f x = x
NumberEnds-FractionEnds has_point false behind rest f (e, x) =
    (subst (FractionEnds has_point) (sym e) f, x)
