-- ===== src/Parser/Lexer/NextToken.antt =====
-- `next_token_` of src/parser/lexer.cpp: what each kind of token takes, and its place.
use nyxdb.Base.{
  ℕ, ◌+◌, ◌≡◌, refl, sym, ap, subst, ◌∙◌, Bool, true, false, ◌||◌, List, [], ◌∷◌, ◌++◌, Option,
  none, some, ◌==◌, ==_iff, Bool-cases, inl, inr, arith, get_or,
}
use nyxdb.Parser.Token.{TokenKind, SourceLoc}
use nyxdb.Parser.Keywords.{keyword_table, find_keyword}
use nyxdb.Parser.Scan.{Lexer, peek, move, advance, advance_over, is_digit, is_alpha, is_alnum}
use nyxdb.Parser.Lexer.{
  error, start_of, ident_loop, lex_ident_or_keyword, string_result, symbol_result, string_loop,
  lex_string, symbol_kind, lex_symbol, next_token, word_token,
}
use nyxdb.Parser.Lexer.NumberToken.{TokenTook, TokenTook-lex_number}
use nyxdb.Parser.Lexer.Quoted.{StringTook, StringTook-string_loop, escape}
use nyxdb.Parser.Lexer.Took.{Took, Took-advance, IsAt, loc_from-Took}
use nyxdb.Parser.Lexer.Spelled.{
  spelling, Ends, Ends-SpelledAs, Spells, SymbolSpells, ident_loop_takes, symbol_kind-SymbolSpells,
  word_token-Spells, word_token_loc, ident_loop_starts,
}

word_token-Ends :
    (word w rest : List ℕ) (loc : SourceLoc) (o : Option TokenKind)
    → Spells (word_token word loc o) w
    → Ends (spelling (word_token word loc o).kind) w rest
unfolding word_token
word_token-Ends word w rest loc none h = tt
word_token-Ends word w rest loc (some kind) h = Ends-SpelledAs (spelling kind) kind w rest h

TokenTook-lex_ident_or_keyword :
    (lx : Lexer) (c : ℕ) (cs : List ℕ)
    → IsAt lx
    → lx.ahead ≡ c ∷ cs
    → (is_alnum c || c == b'_') ≡ true
    → TokenTook lx (lex_ident_or_keyword lx)
unfolding lex_ident_or_keyword
TokenTook-lex_ident_or_keyword lx c cs h e t =
    let (word, q, rest) = ident_loop lx.pos lx.ahead in
    let (w, m, a, p) = ident_loop_takes lx.pos lx.ahead in
    let took : Took lx w (move lx (q, rest)) = (a, p, refl) in
    let (st, loc) = loc_from-Took lx w (move lx (q, rest)) h took in
    (
      w,
      took,
      ident_loop_starts lx.pos lx.ahead c cs e t,
      word_token-Spells word w _ m,
      word_token-Ends word w rest _ _ (word_token-Spells word w _ m),
      word_token_loc word _ (find_keyword word keyword_table) ∙ loc,
    )

word_start : (c : ℕ) → (is_alpha c || c == b'_') ≡ true → (is_alnum c || c == b'_') ≡ true
unfolding is_alnum
word_start c t = ground arith

string_took :
    (lx : Lexer) (cs : List ℕ) (o : Option (List ℕ × ℕ × List ℕ))
    → IsAt lx
    → lx.ahead ≡ b'\'' ∷ cs
    → StringTook (lx.pos + 1) cs o
    → TokenTook lx (string_result lx o)
unfolding string_result error
string_took lx cs none h e b = tt
string_took lx cs (some (body, q, rest)) h e (a, p) =
    let w : List ℕ = b'\'' ∷ (escape body ++ b'\'' ∷ []) in
    let took : Took lx w (move lx (q, rest)) =
      (e ∙ ap (λ k. b'\'' ∷ k) a, omega (arith, p), refl) in
    (w, took, omega arith, refl, tt, (loc_from-Took lx w (move lx (q, rest)) h took).1)

advanced_string :
    (lx : Lexer) (c : ℕ) (cs : List ℕ)
    → lx.ahead ≡ c ∷ cs
    → StringTook (lx.pos + 1) cs (string_loop (advance lx).pos (advance lx).ahead)
unfolding advance advance_over
advanced_string lx c cs e = rw e (StringTook-string_loop (lx.pos + 1) cs)

TokenTook-lex_string :
    (lx : Lexer) (cs : List ℕ) → IsAt lx → lx.ahead ≡ b'\'' ∷ cs → TokenTook lx (lex_string lx)
unfolding lex_string
TokenTook-lex_string lx cs h e =
    string_took lx cs (string_loop (advance lx).pos (advance lx).ahead) h e
      (advanced_string lx b'\'' cs e)

abbrev loc_at : ℕ → ℕ → SourceLoc
loc_at offset n = record { offset = offset; length = n }

symbol_loc :
    (lx next : Lexer) (w : List ℕ) (n : ℕ)
    → IsAt lx
    → Took lx w next
    → loc_at (start_of lx) n ≡ loc_at lx.pos n
symbol_loc lx next w n h took = ap (λ o. loc_at o n) (loc_from-Took lx w next h took).0

two_taken :
    (lx : Lexer) (c d : ℕ) (cs : List ℕ)
    → lx.ahead ≡ c ∷ d ∷ cs
    → Took lx (c ∷ d ∷ []) (advance (advance lx))
unfolding advance advance_over
two_taken lx c d cs e = rw e (refl, omega arith, refl)

symbol_took :
    (lx : Lexer) (c : ℕ) (cs : List ℕ) (o : Option (TokenKind × Bool))
    → IsAt lx
    → lx.ahead ≡ c ∷ cs
    → SymbolSpells c (get_or cs 0 0) o
    → TokenTook lx (symbol_result lx o)
unfolding symbol_result error
symbol_took lx c cs none h e b = tt
symbol_took lx c cs (some (kind, false)) h e b =
    let took : Took lx (c ∷ []) (advance lx) = Took-advance lx c cs e in
    (
      c ∷ [],
      took,
      omega arith,
      b,
      Ends-SpelledAs (spelling kind) kind _ _ b,
      symbol_loc lx (advance lx) (c ∷ []) 1 h took,
    )
symbol_took lx c [] (some (kind, true)) h e (b, n) = absurd (ground arith)
symbol_took lx c (d ∷ cs) (some (kind, true)) h e (b, n) =
    let w : List ℕ = c ∷ d ∷ [] in
    let took : Took lx w (advance (advance lx)) = two_taken lx c d cs e in
    (
      w,
      took,
      omega arith,
      b,
      Ends-SpelledAs (spelling kind) kind _ _ b,
      symbol_loc lx (advance (advance lx)) w 2 h took,
    )

TokenTook-lex_symbol :
    (lx : Lexer) (c : ℕ) (cs : List ℕ) → IsAt lx → lx.ahead ≡ c ∷ cs → TokenTook lx (lex_symbol lx)
unfolding lex_symbol
TokenTook-lex_symbol lx c cs h e =
    symbol_took lx c cs (symbol_kind (peek 0 lx) (peek 1 lx)) h e
      (rw e (symbol_kind-SymbolSpells c (get_or cs 0 0)))

pub TokenTook-next_token :
    (lx : Lexer) (c : ℕ) (cs : List ℕ) → IsAt lx → lx.ahead ≡ c ∷ cs → TokenTook lx (next_token lx)
unfolding next_token
TokenTook-next_token lx c cs h e =
    let first : peek 0 lx ≡ c = ap (λ (k : List ℕ). get_or k 0 0) e in
    let d : ℕ = peek 0 lx in
    elim (Bool-cases (is_alpha d || d == b'_')) [
      | inl t ↦
          let start = word_start c (subst (λ k. (is_alpha k || k == b'_') ≡ true) first t) in
          rw t (TokenTook-lex_ident_or_keyword lx c cs h e start)
      | inr t ↦ elim (Bool-cases (is_digit d)) [
        | inl u ↦
            rw (t, u) (TokenTook-lex_number lx c cs h e (subst (λ k. is_digit k ≡ true) first u))
        | inr u ↦ elim (Bool-cases (d == b'\'')) [
          | inl v ↦
              let quote : d ≡ b'\'' = (==_iff d b'\'').0 v in
              rw (t, u, v) (TokenTook-lex_string lx cs h (e ∙ ap (λ k. k ∷ cs) (sym first ∙ quote)))
          | inr v ↦ rw (t, u, v) (TokenTook-lex_symbol lx c cs h e)
        ]
      ]
    ]
