-- ===== src/Parser/Lexer/Tiles.antt =====
-- The tokens of `tokenize` of src/parser/lexer.cpp against the source.
use nyxdb.Base.{
  ℕ, zero, suc, ◌+◌, ◌<◌, ◌≡◌, ◌⊎◌, refl, sym, ap, subst, ◌∙◌, true, false, List, [], ◌∷◌, ◌++◌,
  Option, none, some, inl, inr, arith, length, length-append, ◌%◌,
}
use mathlib.Core.List.{append-nil}
use nyxdb.Base.Strings.{is_empty}
use nyxdb.Base.Words.{u32_mod}
use nyxdb.Common.Result.{Result}
use nyxdb.Parser.Token.{TokenKind, SourceLoc, Token}
use nyxdb.Parser.Scan.{Lexer, make, skip_trivia}
use nyxdb.Parser.Lexer.{next_token, eof_token, more_tokens, tokens_loop, tokenize}
use nyxdb.Parser.Lexer.Took.{Took, IsAt, IsAt-Took}
use nyxdb.Parser.Lexer.Spelled.{spelling, Spells, Ends}
use nyxdb.Parser.Lexer.NumberToken.{TokenTook}
use nyxdb.Parser.Lexer.NextToken.{TokenTook-next_token}
use nyxdb.Parser.Lexer.Trivia.{Trivia, starts_trivia, SkipsAll-skip_trivia}

-- Tokens for a text that starts at an offset: in front of each all the trivia is skipped, each is
-- spelled by its characters, at its place, and a number is not cut short; the end of the file closes them.
pub data Tiles : ℕ → List ℕ → List Token → Type 0 where
  finished :
      (p : ℕ) (w : List ℕ) (eof : Token)
      → Trivia w []
      → eof ≡ record {
        kind = TokenKind.end_of_file;
        loc = record { offset = p + length w; length = 0 };
        text = [];
      }
      → Tiles p w (eof ∷ [])
  token :
      (p : ℕ) (w v rest : List ℕ) (tok : Token) (toks : List Token)
      → Trivia w (v ++ rest)
      → starts_trivia (v ++ rest) ≡ false
      → 0 < length v
      → Spells tok v
      → Ends (spelling tok.kind) v rest
      → tok.loc ≡ record { offset = p + length w; length = length v }
      → Tiles (p + length w + length v) rest toks
      → Tiles p (w ++ (v ++ rest)) (tok ∷ toks)

-- The tokens cover the text, or the lexer says what it cannot read; it does not run on.
abbrev pub Tokenizes : ℕ → List ℕ → Option (Result (List Token)) → Type 0
Tokenizes p r none = ⊥
Tokenizes p r (some (Result.err message)) = Unit {0}
Tokenizes p r (some (Result.ok toks)) = Tiles p r toks

abbrev loc_at : ℕ → ℕ → SourceLoc
loc_at offset n = record { offset = offset; length = n }

List-cases : (r : List ℕ) → (r ≡ []) ⊎ ((c : ℕ) × (cs : List ℕ) × (r ≡ c ∷ cs))
List-cases [] = inl refl
List-cases (c ∷ cs) = inr (c, cs, refl)

Tokenizes-more_tokens :
    (p : ℕ) (w v rest : List ℕ) (tok : Token) (o : Option (Result (List Token)))
    → Trivia w (v ++ rest)
    → starts_trivia (v ++ rest) ≡ false
    → 0 < length v
    → Spells tok v
    → Ends (spelling tok.kind) v rest
    → tok.loc ≡ record { offset = p + length w; length = length v }
    → Tokenizes (p + length w + length v) rest o
    → Tokenizes p (w ++ (v ++ rest)) (more_tokens tok o)
unfolding more_tokens
Tokenizes-more_tokens p w v rest tok none t s l sp en loc h = h
Tokenizes-more_tokens p w v rest tok (some (Result.err message)) t s l sp en loc h = tt
Tokenizes-more_tokens p w v rest tok (some (Result.ok toks)) t s l sp en loc h =
    Tiles.token p w v rest tok toks t s l sp en loc h

Tokenizes-eof :
    (lx start : Lexer) (w : List ℕ)
    → IsAt lx
    → Took lx w start
    → Trivia w start.ahead
    → start.ahead ≡ []
    → Tokenizes lx.pos lx.ahead (some (Result.ok (eof_token start ∷ [])))
Tokenizes-eof lx start w h (a, p, s) t e =
    let all : lx.ahead ≡ w = a ∙ (ap (λ k. w ++ k) e ∙ append-nil w) in
    let place : length start.source % u32_mod ≡ lx.pos + length w =
      rw s (omega (arith, h.fits, h.small, ap (λ k. length k) all)) in
    rw all (Tiles.finished lx.pos w (eof_token start) (subst (Trivia w) e t) (rw place refl))

Tokenizes-result :
    (lx start : Lexer) (w : List ℕ) (go_on : Lexer → Option (Result (List Token)))
    (res : Result (Token × Lexer))
    → Took lx w start
    → Trivia w start.ahead
    → starts_trivia start.ahead ≡ false
    → TokenTook start res
    → ((next : Lexer) (v : List ℕ)
        → 0 < length v
        → Took start v next
        → Tokenizes next.pos next.ahead (go_on next))
    → Tokenizes lx.pos lx.ahead (elim res [
      | Result.err message ↦ some (Result.err message)
      | Result.ok (tok, next) ↦ more_tokens tok (go_on next)
    ])
Tokenizes-result lx start w go_on (Result.err message) took t s h more = tt
Tokenizes-result lx start w go_on (Result.ok (tok, next)) (a, p, _) t s (v, tk, l, sp, en, loc)
      more =
    let rest : List ℕ = next.ahead in
    let e : start.ahead ≡ v ++ rest = tk.0 in
    let at : next.pos ≡ lx.pos + length w + length v = omega (arith, p, tk.1) in
    let place : tok.loc ≡ record { offset = lx.pos + length w; length = length v } =
      loc ∙ ap (λ o. loc_at o (length v)) p in
    subst (λ k. Tokenizes lx.pos k (more_tokens tok (go_on next))) (sym (a ∙ ap (λ k. w ++ k) e))
      (Tokenizes-more_tokens lx.pos w v rest tok (go_on next) (subst (Trivia w) e t)
        (subst (λ k. starts_trivia k ≡ false) e s) l sp en place
        (subst (λ k. Tokenizes k rest (go_on next)) at (more next v l tk)))

Tokenizes-tokens_loop :
    (n : ℕ) (lx : Lexer)
    → length lx.ahead < n
    → IsAt lx
    → Tokenizes lx.pos lx.ahead (tokens_loop n lx)
unfolding tokens_loop
Tokenizes-tokens_loop zero lx l h = absurd (omega arith)
Tokenizes-tokens_loop (suc n) lx l h =
    let (w, took, t, s) = SkipsAll-skip_trivia lx in
    let start : Lexer = skip_trivia lx in
    let here : IsAt start = IsAt-Took lx w start h took in
    elim (List-cases start.ahead) [
      | inl e ↦
          let stop : is_empty start.ahead ≡ true = ap (λ (k : List ℕ). is_empty k) e in
          rw (stop, Tokenizes) (Tokenizes-eof lx start w h took t e)
      | inr (c, cs, e) ↦
          let going : is_empty start.ahead ≡ false = ap (λ (k : List ℕ). is_empty k) e in
          let less = ap (λ (k : List ℕ). length k) took.0 ∙ length-append w start.ahead in
          rw (going, Tokenizes)
            (Tokenizes-result lx start w (λ next. tokens_loop n next) (next_token start) took t s
              (TokenTook-next_token start c cs here e)
              (λ next v p k.
                Tokenizes-tokens_loop n next
                  (omega
                    (arith, less, ap (λ (r : List ℕ). length r) k.0 ∙ length-append v next.ahead))
                  (IsAt-Took start v next here k)))
    ]

pub tokenize-Tokenizes :
    (source : List ℕ) → length source < u32_mod → Tokenizes 0 source (tokenize source)
unfolding tokenize
tokenize-Tokenizes source h =
    Tokenizes-tokens_loop (suc (length source)) (make source) (omega arith)
      (record { suffix = refl; fits = omega arith; small = h })
