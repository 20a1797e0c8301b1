-- ===== src/Parser/Lexer.antt =====
-- src/parser/lexer.cpp: the tokens, over the steps of Parser.Scan.
pub mod Took
pub mod Numbers
pub mod Quoted
pub mod Spelled
pub mod NumberToken
pub mod NextToken
pub mod Trivia
pub mod Tiles
pub mod Names
mod Tests
use Prim.Native.Nat.{ℕ, suc}
use nyxdb.Base.{
  zero, ◌+◌, ◌-◌, ◌/◌, ◌%◌, Bool, true, false, not, ◌&&◌, ◌||◌, List, [], ◌∷◌, ◌++◌, Option, none,
  some, ◌==◌, leb, ltb, if◌then◌else◌, length, take, drop, get_or,
}
use nyxdb.Base.Strings.{is_empty, text, to_string}
use nyxdb.Base.Words.{u32_mod}
use nyxdb.Common.Result.{Result, ◌>>=◌}
use nyxdb.Parser.Token.{TokenKind, SourceLoc, Token}
use nyxdb.Parser.Keywords.{keyword_table, find_keyword}
use nyxdb.Parser.Scan.{
  Lexer, make, peek, at_end, move, advance_over, advance, while_loop, advance_while, is_digit,
  is_upper, is_alpha, is_alnum, to_lower, is_space, not_newline, block_loop, trivia_turn,
  trivia_loop, skip_trivia,
}

unfoldable pub error {ℓ} : {A : Type ℓ} → List ℕ → ℕ → Result A
error message start =
    Result.err (text "lex error at offset " ++ to_string start ++ text ": " ++ message)

unfoldable pub start_of : Lexer → ℕ
start_of lx = lx.pos % u32_mod

-- The place from a start to where the lexer stands.
unfoldable pub loc_from : ℕ → Lexer → SourceLoc
loc_from start lx = record {
  offset = start;
  length = (lx.pos % u32_mod + (u32_mod - start)) % u32_mod;
}

unfoldable pub ident_loop : ℕ → List ℕ → List ℕ × ℕ × List ℕ
unfolding is_alnum to_lower
ident_loop p [] = ([], p, [])
ident_loop p (c ∷ cs) =
    let (word, q, rest) = ident_loop (p + 1) cs in
    if is_alnum c || c == b'_' then (to_lower c ∷ word, q, rest) else ([], p, c ∷ cs)

unfoldable pub word_token : List ℕ → SourceLoc → Option TokenKind → Token
word_token word loc (some kind) = record { kind = kind; loc = loc; text = [] }
word_token word loc none = record { kind = TokenKind.identifier; loc = loc; text = word }

unfoldable pub lex_ident_or_keyword : Lexer → Result (Token × Lexer)
unfolding start_of loc_from
lex_ident_or_keyword lx =
    let (word, q, rest) = ident_loop lx.pos lx.ahead in
    let next = move lx (q, rest) in
    let loc = loc_from (start_of lx) next in
    Result.ok (word_token word loc (find_keyword word keyword_table), next)

-- The part behind the point.
unfoldable pub lex_fraction : Lexer → Bool × Lexer
unfolding peek at_end advance advance_while is_digit
lex_fraction lx =
    if not (at_end lx) && (peek 0 lx == b'.' && is_digit (peek 1 lx))
    then (true, advance_while is_digit (advance lx))
    else (false, lx)

unfoldable pub skip_sign : Lexer → Lexer
unfolding peek at_end advance
skip_sign lx =
    if not (at_end lx) && (peek 0 lx == b'+' || peek 0 lx == b'-') then advance lx else lx

unfoldable pub lex_exponent : ℕ → Lexer → Result (Bool × Lexer)
unfolding peek at_end advance advance_while is_digit skip_sign error
lex_exponent start lx =
    let signed = skip_sign (advance lx) in
    if not (at_end lx) && (peek 0 lx == b'e' || peek 0 lx == b'E')
    then (if at_end signed || not (is_digit (peek 0 signed))
        then error (text "expected digit after exponent") start
        else Result.ok (true, advance_while is_digit signed))
    else Result.ok (false, lx)

unfoldable pub number_token : Lexer → Bool → Lexer → Token
unfolding start_of loc_from
number_token lx is_double next =
    let loc = loc_from (start_of lx) next in
    record {
      kind = if is_double then TokenKind.double_literal else TokenKind.int_literal;
      loc = loc;
      text = take loc.length (drop loc.offset lx.source);
    }

unfoldable pub lex_number : Lexer → Result (Token × Lexer)
unfolding number_token lex_fraction lex_exponent
lex_number lx = do
  let (has_point, behind) = lex_fraction (advance_while is_digit lx)
  (has_exponent, next) ← lex_exponent (start_of lx) behind
  Result.ok (number_token lx (has_point || has_exponent) next, next)

pub push : ℕ → Option (List ℕ × ℕ × List ℕ) → Option (List ℕ × ℕ × List ℕ)
push c none = none
push c (some (body, q, rest)) = some (c ∷ body, q, rest)

-- The loop of lex_string_ behind the opening quote; `none` where the source ends first.
unfoldable pub string_loop : ℕ → List ℕ → Option (List ℕ × ℕ × List ℕ)
unfolding push
string_loop p [] = none
string_loop p (c ∷ []) = if c == b'\'' then some ([], p + 1, []) else none
string_loop p (c ∷ d ∷ rest) =
    let doubled = push c (string_loop (p + 2) rest) in
    let more = push c (string_loop (p + 1) (d ∷ rest)) in
    if c == b'\'' then (if d == b'\'' then doubled else some ([], p + 1, d ∷ rest)) else more

unfoldable pub string_result : Lexer → Option (List ℕ × ℕ × List ℕ) → Result (Token × Lexer)
unfolding start_of loc_from error
string_result lx none = error (text "unterminated string literal") (start_of lx)
string_result lx (some (body, q, rest)) = Result.ok (
  record {
    kind = TokenKind.string_literal;
    loc = loc_from (start_of lx) (move lx (q, rest));
    text = body;
  },
  move lx (q, rest),
)

unfoldable pub lex_string : Lexer → Result (Token × Lexer)
unfolding advance string_result
lex_string lx = string_result lx (string_loop (advance lx).pos (advance lx).ahead)

-- The kind of a symbol by its character and the one behind it, and whether it takes both.
unfoldable pub symbol_kind : ℕ → ℕ → Option (TokenKind × Bool)
symbol_kind c next =
    if c == b'('
    then some (TokenKind.lparen, false)
    else if c == b')'
    then some (TokenKind.rparen, false)
    else if c == b','
    then some (TokenKind.comma, false)
    else if c == b';'
    then some (TokenKind.semicolon, false)
    else if c == b'.'
    then some (TokenKind.dot, false)
    else if c == b'*'
    then some (TokenKind.star, false)
    else if c == b'+'
    then some (TokenKind.plus, false)
    else if c == b'-'
    then some (TokenKind.minus, false)
    else if c == b'/'
    then some (TokenKind.slash, false)
    else if c == b'='
    then some (TokenKind.eq, false)
    else if c == b'<'
    then (if next == b'='
        then some (TokenKind.le, true)
        else if next == b'>'
        then some (TokenKind.ne, true)
        else some (TokenKind.lt, false))
    else if c == b'>'
    then (if next == b'=' then some (TokenKind.ge, true) else some (TokenKind.gt, false))
    else if c == b'!'
    then (if next == b'=' then some (TokenKind.ne, true) else none)
    else none

unfoldable pub symbol_token : TokenKind → ℕ → ℕ → Token
symbol_token kind start n = record {
  kind = kind;
  loc = record { offset = start; length = n };
  text = [];
}

unfoldable pub symbol_result : Lexer → Option (TokenKind × Bool) → Result (Token × Lexer)
unfolding peek advance start_of error symbol_token
symbol_result lx (some (kind, false)) = Result.ok (symbol_token kind (start_of lx) 1, advance lx)
symbol_result lx (some (kind, true)) =
    Result.ok (symbol_token kind (start_of lx) 2, advance (advance lx))
symbol_result lx none = error (text "unexpected character '" ++ peek 0 lx ∷ text "'") (start_of lx)

unfoldable pub lex_symbol : Lexer → Result (Token × Lexer)
unfolding peek symbol_result
lex_symbol lx = symbol_result lx (symbol_kind (peek 0 lx) (peek 1 lx))

unfoldable pub next_token : Lexer → Result (Token × Lexer)
unfolding peek is_alpha is_digit lex_ident_or_keyword lex_number lex_string lex_symbol
next_token lx =
    let c = peek 0 lx in
    if is_alpha c || c == b'_'
    then lex_ident_or_keyword lx
    else if is_digit c
    then lex_number lx
    else if c == b'\''
    then lex_string lx
    else lex_symbol lx

abbrev pub eof_token : Lexer → Token
eof_token lx = record {
  kind = TokenKind.end_of_file;
  loc = record { offset = length lx.source % u32_mod; length = 0 };
  text = [];
}

unfoldable pub more_tokens : Token → Option (Result (List Token)) → Option (Result (List Token))
more_tokens tok (some (Result.ok toks)) = some (Result.ok (tok ∷ toks))
more_tokens tok (some (Result.err message)) = some (Result.err message)
more_tokens tok none = none

-- The loop of tokenize; `none` where the fuel ends.
unfoldable pub tokens_loop : ℕ → Lexer → Option (Result (List Token))
unfolding at_end more_tokens
tokens_loop zero lx = none
tokens_loop (suc n) lx =
    let start = skip_trivia lx in
    elim (at_end start) [
      | true ↦ some (Result.ok (eof_token start ∷ []))
      | false ↦ elim (next_token start) [
        | Result.err message ↦ some (Result.err message)
        | Result.ok (tok, next) ↦ more_tokens tok (tokens_loop n next)
      ]
    ]

unfoldable pub tokenize : List ℕ → Option (Result (List Token))
unfolding tokens_loop
tokenize source = tokens_loop (suc (length source)) (make source)
