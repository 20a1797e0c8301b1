-- ===== src/Common/SourceError/Tests.antt =====
-- Errors of src/common/source_error.cpp in a small statement.
use nyxdb.Base.{ℕ, ◌+◌, ◌-◌, ◌%◌, ◌≡◌, refl, List, ◌∷◌, ◌++◌, take, get_or, arith}
use nyxdb.Base.Strings.{text, to_string}
use nyxdb.Base.Words.{u32_mod}
use nyxdb.Common.SourceError.{line_col, line_at, render_source_error}
use nyxdb.Common.SourceError.Marker.{newlines, line_at-line_col}

abbrev statement : List ℕ
statement = text "select" ++ 10 ∷ text "  x yz"

render_test :
    render_source_error statement (record { offset = 11; length = 2 }) (text "error") (text "no yz")
    ≡ text "error at line 2, col 5: no yz" ++ 10 ∷ text "    x yz" ++ 10 ∷ text "      ^^"
unfolding render_source_error to_string
render_test = refl

line_at-line_col_example :
    ((line_col statement 11).0 ≡ 1 + newlines (take 11 statement))
    × (get_or (line_at statement 11) (((line_col statement 11).1 + (u32_mod - 1)) % u32_mod) 0
        ≡ get_or statement 11 0)
line_at-line_col_example = line_at-line_col statement 11 (omega arith) (omega arith) refl
