-- ===== src/Common/SourceError.antt =====
-- src/common/source_error.cpp: a message with the line of the source and a marker under the place.
pub mod Marker
mod Tests
use nyxdb.Base.{
  ℕ, zero, suc, ◌+◌, ◌-◌, ◌%◌, List, [], ◌∷◌, ◌++◌, ◌==◌, ltb, if◌then◌else◌, length, take, drop,
  get_or, replicate,
}
use nyxdb.Base.Strings.{is_empty, text, to_string}
use nyxdb.Base.Words.{u32_mod}
use nyxdb.Parser.Token.{SourceLoc}

-- One round of the loop of line_col for a character.
unfoldable pub count_char : ℕ → ℕ × ℕ → ℕ × ℕ
count_char c (line, col) =
    if c == 10 then ((line + 1) % u32_mod, 1) else (line, (col + 1) % u32_mod)

unfoldable pub line_col_loop : List ℕ → ℕ × ℕ → ℕ × ℕ
unfolding count_char
line_col_loop [] at = at
line_col_loop (c ∷ cs) at = line_col_loop cs (count_char c at)

unfoldable pub line_col : List ℕ → ℕ → ℕ × ℕ
unfolding line_col_loop
line_col source offset =
    let limit = if ltb offset (length source) then offset else length source % u32_mod in
    line_col_loop (take limit source) (1, 1)

-- The loop that goes back to the start of the line.
unfoldable pub line_start : List ℕ → ℕ → ℕ
line_start source zero = zero
line_start source (suc i) =
    let back = line_start source i in if get_or source i 0 == 10 then suc i else back

-- The loop that goes on to the end of the line, over what is left of the source.
unfoldable pub line_end : List ℕ → ℕ → ℕ
line_end [] i = i
line_end (c ∷ cs) i = let further = line_end cs (i + 1) in if c == 10 then i else further

unfoldable pub line_at : List ℕ → ℕ → List ℕ
unfolding line_start line_end
line_at source offset =
    let place = if ltb (length source) offset then length source % u32_mod else offset in
    let start = line_start source place in
    let end = line_end (drop place source) place in
    if is_empty source then [] else take (end - start) (drop start source)

unfoldable pub render_source_error : List ℕ → SourceLoc → List ℕ → List ℕ → List ℕ
unfolding line_col line_at
render_source_error source loc kind message =
    let (line, col) = line_col source loc.offset in
    let caret_len = if loc.length == 0 then 1 else loc.length in
    kind
    ++ text " at line "
    ++ to_string line
    ++ text ", col "
    ++ to_string col
    ++ text ": "
    ++ message
    ++ 10 ∷ text "  "
    ++ line_at source loc.offset
    ++ 10 ∷ text "  "
    ++ replicate ((col + (u32_mod - 1)) % u32_mod) 32
    ++ replicate caret_len b'^'
