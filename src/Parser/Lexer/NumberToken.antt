-- ===== src/Parser/Lexer/NumberToken.antt =====
-- `lex_number_` of src/parser/lexer.cpp: what it takes, and the kind that it gives.
use nyxdb.Base.{
  ℕ, ◌<◌, ◌≡◌, refl, sym, ap, ap₂, subst, length-append, ◌∙◌, Bool, true, false, ◌||◌, List, ◌∷◌,
  ◌++◌, arith, length, take, drop, if◌then◌else◌,
}
use nyxdb.Common.Result.{Result, ◌>>=◌}
use nyxdb.Parser.Token.{TokenKind, SourceLoc, Token}
use nyxdb.Parser.Scan.{Lexer, advance_while, is_digit}
use nyxdb.Parser.Lexer.{start_of, lex_fraction, lex_exponent, lex_number, number_token}
use mathlib.Core.List.{append-nil}
use nyxdb.Parser.Lexer.Numbers.{
  IsDigits, IsFraction, IsNumber, NumberEnds, FractionEnds, FractionEnds-lex_fraction,
  NumberEnds-FractionEnds, ExponentTook, IsDigits-advance_while, IsFraction-lex_fraction,
  ExponentTook-lex_exponent,
}
use nyxdb.Parser.Lexer.Took.{Took, Took-trans, Stops-advance_while, IsAt, loc_from-Took, slice-Took}
use nyxdb.Parser.Lexer.Spelled.{SpelledAs, spelling, Ends, Spells}

-- A token that stands at the lexer's place, and the lexer behind it.
abbrev pub TokenTook : Lexer → Result (Token × Lexer) → Type 0
TokenTook lx (Result.err message) = Unit {0}
TokenTook lx (Result.ok (tok, next)) =
    (w : List ℕ) × Took lx w next
    × (0 < length w)
    × Spells tok w
    × Ends (spelling tok.kind) w next.ahead
    × (tok.loc ≡ record { offset = lx.pos; length = length w })

number_spelled :
    (has_point has_exponent : Bool) (content w : List ℕ)
    → content ≡ w
    → IsNumber has_point has_exponent w
    → let kind =
        if has_point || has_exponent then TokenKind.double_literal else TokenKind.int_literal in
      SpelledAs (spelling kind) kind content w
number_spelled true has_exponent content w e n = (e, (true, has_exponent, refl, n))
number_spelled false true content w e n = (e, (false, true, refl, n))
number_spelled false false content w e (whole, fraction, exponent, d, f, x, a) =
    let same : w ≡ whole = a ∙ (ap₂ (λ y z. whole ++ (y ++ z)) f x ∙ append-nil whole) in
    (e, subst IsDigits (sym same) d)

number_ends :
    (has_point has_exponent : Bool) (w rest : List ℕ)
    → IsNumber has_point has_exponent w
    → NumberEnds has_point has_exponent rest
    → let kind =
        if has_point || has_exponent then TokenKind.double_literal else TokenKind.int_literal in
      Ends (spelling kind) w rest
number_ends true has_exponent w rest n e = (true, has_exponent, n, e)
number_ends false true w rest n e = (false, true, n, e)
number_ends false false w rest n e = e

TokenTook-number_token :
    (lx next : Lexer) (has_point has_exponent : Bool) (w : List ℕ)
    → IsAt lx
    → 0 < length w
    → IsNumber has_point has_exponent w
    → NumberEnds has_point has_exponent next.ahead
    → Took lx w next
    → TokenTook lx (Result.ok (number_token lx (has_point || has_exponent) next, next))
unfolding number_token
TokenTook-number_token lx next has_point has_exponent w h l n ends took =
    let (st, loc) = loc_from-Took lx w next h took in
    let written : (number_token lx (has_point || has_exponent) next).text ≡ w =
      ap (λ (l : SourceLoc). take l.length (drop l.offset lx.source)) loc
      ∙ slice-Took lx w next h took in
    (
      w,
      took,
      l,
      number_spelled has_point has_exponent _ w written n,
      number_ends has_point has_exponent w next.ahead n ends,
      loc,
    )

number_taken :
    (lx digits behind : Lexer) (has_point : Bool) (r : Result (Bool × Lexer))
    → IsAt lx
    → (w : List ℕ) × IsDigits w × Took lx w digits
    → (w : List ℕ) × IsFraction has_point w × Took digits w behind
    → FractionEnds has_point behind.ahead
    → ExponentTook behind r
    → TokenTook lx
        (r >>= (λ (found, next). Result.ok (number_token lx (has_point || found) next, next)))
number_taken lx digits behind has_point (Result.err message) h v f g b = tt
number_taken lx digits behind has_point (Result.ok (found, next)) h (v, d, a) (f, p, b) g
      (x, q, c, ends) =
    TokenTook-number_token lx next has_point found (v ++ (f ++ x)) h
      (omega (arith, d.1, length-append v (f ++ x))) (v, f, x, d, p, q, refl)
      (NumberEnds-FractionEnds has_point found behind.ahead next.ahead g ends)
      (Took-trans lx digits next v (f ++ x) a (Took-trans digits behind next f x b c))

pub TokenTook-lex_number :
    (lx : Lexer) (c : ℕ) (cs : List ℕ)
    → IsAt lx
    → lx.ahead ≡ c ∷ cs
    → is_digit c ≡ true
    → TokenTook lx (lex_number lx)
unfolding lex_number
TokenTook-lex_number lx c cs h e t =
    let digits : Lexer = advance_while is_digit lx in
    let behind : Lexer = (lex_fraction digits).1 in
    number_taken lx digits behind (lex_fraction digits).0 (lex_exponent (start_of lx) behind) h
      (IsDigits-advance_while lx c cs e t) (IsFraction-lex_fraction digits)
      (FractionEnds-lex_fraction digits (Stops-advance_while is_digit lx))
      (ExponentTook-lex_exponent (start_of lx) behind)
