-- ===== src/Parser/Lexer/Tests.antt =====
-- The lexer of src/parser/lexer.cpp on small statements.
use nyxdb.Base.{ℕ, ◌≡◌, refl, List, [], ◌∷◌, some}
use nyxdb.Base.Strings.{text, to_string}
use nyxdb.Common.Result.{Result}
use nyxdb.Parser.Token.{TokenKind, Token}
use nyxdb.Parser.Lexer.{tokenize, ident_loop, word_token, string_loop, symbol_kind}
use nyxdb.Parser.Scan.{skip_trivia, trivia_loop, trivia_turn, is_space, block_loop, not_newline}
use nyxdb.Parser.Lexer.{next_token}
use nyxdb.Parser.Lexer.Names.{tokenize-token_kind_name}
use nyxdb.Parser.Token.{token_kind_name}
use nyxdb.Parser.Keywords.{keyword_table, find_keyword}

abbrev token_at : TokenKind → ℕ → ℕ → List ℕ → Token
token_at kind offset n word = record {
  kind = kind;
  loc = record { offset = offset; length = n };
  text = word;
}

tokenize_test :
    tokenize (text "SELECT a1 /* x */ , 1.5e3<='it''s' -- y")
    ≡ some (
        Result.ok (
          token_at TokenKind.kw_select 0 6 []
          ∷ token_at TokenKind.identifier 7 2 (text "a1")
          ∷ token_at TokenKind.comma 18 1 []
          ∷ token_at TokenKind.double_literal 20 5 (text "1.5e3")
          ∷ token_at TokenKind.le 25 2 []
          ∷ token_at TokenKind.string_literal 27 7 (text "it's")
          ∷ token_at TokenKind.end_of_file 39 0 []
          ∷ []))
unfolding tokenize skip_trivia trivia_loop trivia_turn is_space block_loop not_newline next_token
    keyword_table find_keyword ident_loop word_token string_loop symbol_kind
tokenize_test = refl

tokenize_unterminated :
    tokenize (text "x 'abc")
    ≡ some (Result.err (text "lex error at offset 2: unterminated string literal"))
unfolding tokenize skip_trivia trivia_loop trivia_turn is_space block_loop not_newline next_token
    keyword_table find_keyword ident_loop word_token string_loop symbol_kind to_string
tokenize_unterminated = refl

tokenize-token_kind_name_example :
    tokenize (token_kind_name TokenKind.le)
    ≡ some (Result.ok (token_at TokenKind.le 0 2 [] ∷ token_at TokenKind.end_of_file 2 0 [] ∷ []))
unfolding token_kind_name
tokenize-token_kind_name_example = tokenize-token_kind_name TokenKind.le refl
