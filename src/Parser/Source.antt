-- ===== src/Parser/Source.antt =====
-- src/database/database.cpp and src/server/shard_coordinator.cpp: from the text of a call of execute
-- to its statements.
mod Tests
use nyxdb.Base.{
  ℕ, ◌+◌, ◌<◌, ◌≡◌, refl, sym, ap, subst, List, [], ◌∷◌, ◌++◌, Option, none, some, length, All,
}
use nyxdb.Base.Words.{u32_mod}
use nyxdb.Common.Result.{Result}
use nyxdb.Parser.Token.{TokenKind, Token}
use nyxdb.Parser.Kind.{kind_code, is_kind}
use nyxdb.Parser.Lexer.{tokenize}
use nyxdb.Parser.Lexer.Tiles.{Tiles, Tokenizes, tokenize-Tokenizes}
use nyxdb.Parser.Ast.{Statement}
use nyxdb.Parser.State.{Parser, Outcome}
use nyxdb.Parser.State.Reads.{Is, Closed, tokens, Good, Returned}
use nyxdb.Parser.State.Tokens.{of_kind}
use nyxdb.Parser.Expr.Sound.{Among}
use nyxdb.Parser.Column.Ends.{AtDefault}
use nyxdb.Parser.Default.{Clib}
use nyxdb.Parser.Statement.{parse}
use nyxdb.Parser.Statement.Ends.{parse-WellFormed}
use nyxdb.Parser.WellFormed.{WellFormed}

-- `tokens_.back()` of no tokens would be undefined.
abbrev pub parse_tokens : Clib → List ℕ → Option (Result (List Token)) → Outcome (List Statement)
parse_tokens lib source none = Outcome.unfinished
parse_tokens lib source (some (Result.err message)) = Outcome.failed message
parse_tokens lib source (some (Result.ok [])) = Outcome.undefined
parse_tokens lib source (some (Result.ok (t ∷ ts))) =
    parse lib (record { source = source; tok = t; rest = ts })

unfoldable pub parse_source : Clib → List ℕ → Outcome (List Statement)
parse_source lib source = parse_tokens lib source (tokenize source)

abbrev ClosedList : List Token → Type 0
ClosedList [] = ⊥
ClosedList (t ∷ ts) = Closed t ts

ClosedList-cons : (t : Token) (ts : List Token) → ClosedList ts → Closed t ts
ClosedList-cons t [] h = absurd h
ClosedList-cons t (u ∷ us) h = h

ClosedList-Tiles : (p : ℕ) (w : List ℕ) (toks : List Token) → Tiles p w toks → ClosedList toks
ClosedList-Tiles p w toks (Tiles.finished q v eof tr e) =
    of_kind eof TokenKind.end_of_file (ap (λ t. t.kind) e)
ClosedList-Tiles p w toks (Tiles.token q u v rest tok more tr st l sp en loc tiles) =
    ClosedList-cons tok more (ClosedList-Tiles _ _ more tiles)

-- The text has DEFAULT among its tokens.
abbrev pub HasDefault : List ℕ → Type 0
HasDefault source =
    (toks : List Token) × (t : Token) × (tokenize source ≡ some (Result.ok toks))
    × Among toks t
    × Is TokenKind.kw_default t

abbrev pub Parsed : List ℕ → Outcome (List Statement) → Type 0
Parsed source (Outcome.done ss p) = All WellFormed ss × Is TokenKind.end_of_file p.tok
Parsed source (Outcome.failed message) = Unit {0}
Parsed source Outcome.thrown = HasDefault source
Parsed source Outcome.undefined = HasDefault source
Parsed source Outcome.unfinished = ⊥

Parsed-Good :
    (source : List ℕ) (p : Parser) (o : Outcome (List Statement))
    → tokenize source ≡ some (Result.ok (tokens p))
    → Good p.source
        (Among (tokens p))
        (AtDefault (Among (tokens p)))
        (λ front ss next. All WellFormed ss × Is TokenKind.end_of_file next)
        p
        o
    → Parsed source o
Parsed-Good source p (Outcome.done ss q) e g = g.result
Parsed-Good source p (Outcome.failed message) e g = tt
Parsed-Good source p Outcome.thrown e g = (tokens p, g.0, e, g.1, g.2)
Parsed-Good source p Outcome.undefined e g = (tokens p, g.0, e, g.1, g.2)
Parsed-Good source p Outcome.unfinished e g = g

parse_tokens-Parsed :
    (lib : Clib) (source : List ℕ) (o : Option (Result (List Token)))
    → tokenize source ≡ o
    → Tokenizes 0 source o
    → Parsed source (parse_tokens lib source o)
parse_tokens-Parsed lib source none e h = h
parse_tokens-Parsed lib source (some (Result.err message)) e h = tt
parse_tokens-Parsed lib source (some (Result.ok [])) e h = absurd (ClosedList-Tiles 0 source [] h)
parse_tokens-Parsed lib source (some (Result.ok (t ∷ ts))) e h =
    let p : Parser = record { source = source; tok = t; rest = ts } in
    Parsed-Good source p (parse lib p) e
      (parse-WellFormed lib p (ClosedList-Tiles 0 source (t ∷ ts) h))

-- The lexer and the parser together, on any text of less than 2 ^ 32 bytes: neither runs on. The
-- statements that they return are well formed, with the end of the file next, or an error is
-- returned; they throw, overflow or read behind an array only on a text with DEFAULT among its tokens.
pub parse_source-Parsed :
    (lib : Clib) (source : List ℕ)
    → length source < u32_mod
    → Parsed source (parse_source lib source)
unfolding parse_source
parse_source-Parsed lib source small =
    parse_tokens-Parsed lib source (tokenize source) refl (tokenize-Tokenizes source small)
