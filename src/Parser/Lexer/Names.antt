-- ===== src/Parser/Lexer/Names.antt =====
-- token_kind_name against tokenize in src/parser/lexer.cpp.
use nyxdb.Base.{ℕ, ◌≡◌, refl, Bool, true, false, [], ◌∷◌, some, arith, length}
use nyxdb.Common.Result.{Result}
use nyxdb.Parser.Token.{TokenKind, Token, token_kind_name}
use nyxdb.Parser.Keywords.{keyword_table, find_keyword}
use nyxdb.Parser.Scan.{skip_trivia, trivia_loop, trivia_turn, is_space}
use nyxdb.Parser.Lexer.{tokenize, ident_loop, word_token, symbol_kind, next_token}

-- The keywords and the symbols, whose name is what is written.
abbrev pub is_named : TokenKind → Bool
is_named TokenKind.int_literal = false
is_named TokenKind.double_literal = false
is_named TokenKind.string_literal = false
is_named TokenKind.identifier = false
is_named TokenKind.end_of_file = false
is_named _ = true

abbrev token_of : TokenKind → ℕ → ℕ → Token
token_of kind offset n = record {
  kind = kind;
  loc = record { offset = offset; length = n };
  text = [];
}

-- The name of a keyword or a symbol, as messages give it, lexes to that one token.
pub tokenize-token_kind_name :
    (kind : TokenKind)
    → is_named kind ≡ true
    → tokenize (token_kind_name kind)
      ≡ some (
          Result.ok (
            token_of kind 0 (length (token_kind_name kind))
            ∷ token_of TokenKind.end_of_file (length (token_kind_name kind)) 0
            ∷ []))
unfolding tokenize token_kind_name skip_trivia trivia_loop trivia_turn is_space next_token
    keyword_table find_keyword ident_loop word_token symbol_kind
tokenize-token_kind_name TokenKind.int_literal h = absurd (ground arith)
tokenize-token_kind_name TokenKind.double_literal h = absurd (ground arith)
tokenize-token_kind_name TokenKind.string_literal h = absurd (ground arith)
tokenize-token_kind_name TokenKind.identifier h = absurd (ground arith)
tokenize-token_kind_name TokenKind.end_of_file h = absurd (ground arith)
tokenize-token_kind_name _ h = refl
