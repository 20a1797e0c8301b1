-- ===== src/Parser/Scan.antt =====
-- The state of src/parser/lexer.h with its steps over characters, spaces and comments, from lexer.cpp.
-- `ahead` is the source from `pos` on, over which the loops run. The classes of characters are those
-- of the "C" locale.
use Prim.Native.Nat.{ℕ, suc}
use nyxdb.Base.{
  zero, ◌+◌, Bool, not, ◌&&◌, ◌||◌, List, [], ◌∷◌, Option, none, some, ◌==◌, leb, if◌then◌else◌,
  length, drop, get_or,
}
use nyxdb.Base.Strings.{is_empty}

pub record Lexer : Type 0 where
  pub source : List ℕ
  pub pos : ℕ
  pub ahead : List ℕ

abbrev pub make : List ℕ → Lexer
make source = record { source = source; pos = 0; ahead = source }

unfoldable pub peek : ℕ → Lexer → ℕ
peek ahead lx = get_or lx.ahead ahead 0

unfoldable pub at_end : Lexer → Bool
at_end lx = is_empty lx.ahead

-- Another place in the same source.
abbrev pub move : Lexer → ℕ × List ℕ → Lexer
move lx (p, rest) = record lx { pos = p; ahead = rest }

unfoldable pub advance_over : ℕ → List ℕ → ℕ × List ℕ
advance_over p [] = (p, [])
advance_over p (c ∷ cs) = (p + 1, cs)

unfoldable pub advance : Lexer → Lexer
unfolding advance_over
advance lx = move lx (advance_over lx.pos lx.ahead)

-- `while (!at_end_() && test(source_[pos_])) advance_();`
unfoldable pub while_loop : (ℕ → Bool) → ℕ → List ℕ → ℕ × List ℕ
while_loop test p [] = (p, [])
while_loop test p (c ∷ cs) =
    let more = while_loop test (p + 1) cs in if test c then more else (p, c ∷ cs)

unfoldable pub advance_while : (ℕ → Bool) → Lexer → Lexer
unfolding while_loop
advance_while test lx = move lx (while_loop test lx.pos lx.ahead)

unfoldable pub is_digit : ℕ → Bool
is_digit c = leb b'0' c && leb c b'9'

unfoldable pub is_upper : ℕ → Bool
is_upper c = leb b'A' c && leb c b'Z'

unfoldable pub is_alpha : ℕ → Bool
unfolding is_upper
is_alpha c = is_upper c || (leb b'a' c && leb c b'z')

unfoldable pub is_alnum : ℕ → Bool
unfolding is_alpha is_digit
is_alnum c = is_alpha c || is_digit c

unfoldable pub to_lower : ℕ → ℕ
unfolding is_upper
to_lower c = if is_upper c then c + 32 else c

unfoldable pub is_space : ℕ → Bool
is_space c = c == b' ' || c == 9 || c == 10 || c == 13

unfoldable pub not_newline : ℕ → Bool
not_newline c = not (c == 10)

-- The loop to the end of a block comment, with the two steps over it.
unfoldable pub block_loop : ℕ → List ℕ → ℕ × List ℕ
block_loop p [] = (p, [])
block_loop p (c ∷ cs) =
    let more = block_loop (p + 1) cs in
    if c == b'*' && get_or cs 0 0 == b'/' then (p + 2, drop 1 cs) else more

-- One turn of the loop of skip_trivia_; `none` is its `break`.
unfoldable pub trivia_turn : Lexer → Option Lexer
unfolding peek at_end
trivia_turn lx =
    let c = peek 0 lx in
    let block = advance (advance lx) in
    if at_end lx
    then none
    else if is_space c
    then some (advance lx)
    else if c == b'-' && peek 1 lx == b'-'
    then some (advance_while not_newline lx)
    else if c == b'/' && peek 1 lx == b'*'
    then some (move block (block_loop block.pos block.ahead))
    else none

-- Each turn takes a character at least.
unfoldable pub trivia_loop : ℕ → Lexer → Lexer
trivia_loop zero lx = lx
trivia_loop (suc n) lx = elim (trivia_turn lx) [ some next ↦ trivia_loop n next | none ↦ lx ]

unfoldable pub skip_trivia : Lexer → Lexer
skip_trivia lx = trivia_loop (length lx.ahead) lx
