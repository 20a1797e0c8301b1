-- ===== src/Parser/Lexer/Spelled.antt =====
-- The characters that a token of src/parser/lexer.cpp stands for.
use nyxdb.Base.{
  ℕ, ◌+◌, ◌<◌, ◌≡◌, ◌⊎◌, inl, inr, refl, sym, ap, subst, ◌∙◌, Bool, true, false, not, ◌&&◌, ◌||◌,
  List, [], ◌∷◌, ◌++◌, Option, none, some, ◌==◌, Bool-cases, arith, length, length-append,
  if◌then◌else◌, map,
}
use nyxdb.Base.Strings.{text, str_eq, str_eq→eq}
use nyxdb.Parser.Token.{TokenKind, SourceLoc, Token, token_kind_name}
use nyxdb.Parser.Keywords.{keyword_table, find_keyword}
use nyxdb.Parser.Scan.{to_lower, is_alnum}
use nyxdb.Parser.Lexer.Quoted.{escape}
use nyxdb.Parser.Lexer.Numbers.{IsDigits, IsDecimal, IsNumber, NumberEnds}
use nyxdb.Parser.Lexer.{symbol_kind, ident_loop, word_token}

-- How the text of a token and its characters are related.
pub data Spelling : Type 0 where
  whole decimal quoted lower_case unequal fixed : Spelling

abbrev pub spelling : TokenKind → Spelling
spelling TokenKind.int_literal = Spelling.whole
spelling TokenKind.double_literal = Spelling.decimal
spelling TokenKind.string_literal = Spelling.quoted
spelling TokenKind.identifier = Spelling.lower_case
spelling TokenKind.ne = Spelling.unequal
spelling _ = Spelling.fixed

abbrev pub SpelledAs : Spelling → TokenKind → List ℕ → List ℕ → Type 0
SpelledAs Spelling.whole kind content w = (content ≡ w) × IsDigits w
SpelledAs Spelling.decimal kind content w = (content ≡ w) × IsDecimal w
SpelledAs Spelling.quoted kind content w = w ≡ b'\'' ∷ (escape content ++ b'\'' ∷ [])
SpelledAs Spelling.lower_case kind content w =
    (map to_lower w ≡ content) × (find_keyword content keyword_table ≡ none)
SpelledAs Spelling.unequal kind content w = (content ≡ []) × ((w ≡ text "<>") ⊎ (w ≡ text "!="))
SpelledAs Spelling.fixed kind content w =
    (content ≡ []) × (map to_lower w ≡ map to_lower (token_kind_name kind))

abbrev pub Spells : Token → List ℕ → Type 0
Spells tok w = SpelledAs (spelling tok.kind) tok.kind tok.text w

-- What is behind a number does not go on with it.
abbrev pub Ends : Spelling → List ℕ → List ℕ → Type 0
Ends Spelling.whole w rest = NumberEnds false false rest
Ends Spelling.decimal w rest =
    (has_point : Bool) × (has_exponent : Bool) × IsNumber has_point has_exponent w
    × NumberEnds has_point has_exponent rest
Ends _ w rest = Unit {0}

-- A token without a text is no number.
pub Ends-SpelledAs :
    (s : Spelling) (kind : TokenKind) (w rest : List ℕ) → SpelledAs s kind [] w → Ends s w rest
Ends-SpelledAs Spelling.whole kind w rest (e, d) = absurd (omega (arith, d.1, ap (λ k. length k) e))
Ends-SpelledAs Spelling.decimal kind w rest (e, (p, x, h, (ds, f, m, d, i, j, a))) =
    absurd
      (omega (arith, d.1, ap (λ k. length k) e, ap (λ k. length k) a, length-append ds (f ++ m)))
Ends-SpelledAs Spelling.quoted kind w rest h = tt
Ends-SpelledAs Spelling.lower_case kind w rest h = tt
Ends-SpelledAs Spelling.unequal kind w rest h = tt
Ends-SpelledAs Spelling.fixed kind w rest h = tt

is_fixed : Spelling → Bool
is_fixed Spelling.fixed = true
is_fixed _ = false

named : List ℕ → TokenKind → Bool
named word kind = is_fixed (spelling kind) && str_eq (map to_lower (token_kind_name kind)) word

every_entry : List (List ℕ × TokenKind) → Bool
every_entry [] = true
every_entry ((word, kind) ∷ rest) = named word kind && every_entry rest

keyword_table_named : every_entry keyword_table ≡ true
unfolding every_entry named is_fixed str_eq keyword_table token_kind_name to_lower
keyword_table_named = refl

and_true : (a b : Bool) → (a && b) ≡ true → (a ≡ true) × (b ≡ true)
and_true true b h = (refl, h)
and_true false b h = absurd (ground arith)

find_keyword_sound :
    (word : List ℕ) (kind : TokenKind) (entries : List (List ℕ × TokenKind))
    → every_entry entries ≡ true
    → find_keyword word entries ≡ some kind
    → named word kind ≡ true
unfolding every_entry find_keyword
find_keyword_sound word kind [] h e = absurd (ground arith)
find_keyword_sound word kind ((name, k) ∷ rest) h e =
    let further : Option TokenKind = find_keyword word rest in
    let (here, others) = and_true (named name k) (every_entry rest) h in
    elim (Bool-cases (str_eq name word)) [
      | inl t ↦
          let same : name ≡ word = str_eq→eq name word t in
          let found : some k ≡ some kind =
            subst (λ b. (if b then some k else further) ≡ some kind) t e in
          cc (here, same, found)
      | inr t ↦
          find_keyword_sound word kind rest others
            (subst (λ b. (if b then some k else further) ≡ some kind) t e)
    ]

spelled_named :
    (s : Spelling) (word w : List ℕ) (kind : TokenKind)
    → map to_lower w ≡ word
    → (is_fixed s && str_eq (map to_lower (token_kind_name kind)) word) ≡ true
    → SpelledAs s kind [] w
unfolding is_fixed
spelled_named Spelling.fixed word w kind e h =
    (refl, e ∙ sym (str_eq→eq (map to_lower (token_kind_name kind)) word h))
spelled_named Spelling.whole word w kind e h = absurd (ground arith)
spelled_named Spelling.decimal word w kind e h = absurd (ground arith)
spelled_named Spelling.quoted word w kind e h = absurd (ground arith)
spelled_named Spelling.lower_case word w kind e h = absurd (ground arith)
spelled_named Spelling.unequal word w kind e h = absurd (ground arith)

pub ident_loop_takes :
    (p : ℕ) (r : List ℕ)
    → (w : List ℕ) × (map to_lower w ≡ (ident_loop p r).0)
      × (r ≡ w ++ (ident_loop p r).2)
      × ((ident_loop p r).1 ≡ p + length w)
unfolding ident_loop
ident_loop_takes p [] = ([], refl, refl, omega arith)
ident_loop_takes p (c ∷ cs) = elim (Bool-cases (is_alnum c || c == b'_')) [
  | inl t ↦
      let (w, m, e, l) = ident_loop_takes (p + 1) cs in
      rw t (c ∷ w, ap (λ k. to_lower c ∷ k) m, ap (λ k. c ∷ k) e, omega (arith, l))
  | inr t ↦ rw t ([], refl, refl, omega arith)
]

nonempty_of_map : (w word : List ℕ) → map to_lower w ≡ word → 0 < length word → 0 < length w
nonempty_of_map [] word e h = absurd (omega (arith, ap (λ k. length k) e))
nonempty_of_map (c ∷ w) word e h = omega arith

pub ident_loop_starts :
    (p : ℕ) (r : List ℕ) (c : ℕ) (cs : List ℕ)
    → r ≡ c ∷ cs
    → (is_alnum c || c == b'_') ≡ true
    → 0 < length (ident_loop_takes p r).0
unfolding ident_loop
ident_loop_starts p r c cs e t =
    let (w, m, a, l) = ident_loop_takes p r in
    nonempty_of_map w (ident_loop p r).0 m (rw (e, t) (omega arith))

-- The kind of a symbol is that of its characters.
symbol_spelled : Spelling → TokenKind → List ℕ → Bool
symbol_spelled Spelling.fixed kind w = str_eq w (token_kind_name kind)
symbol_spelled Spelling.unequal kind w = str_eq w (text "<>") || str_eq w (text "!=")
symbol_spelled _ kind w = false

spelled_symbol :
    (s : Spelling) (kind : TokenKind) (w : List ℕ)
    → symbol_spelled s kind w ≡ true
    → SpelledAs s kind [] w
unfolding symbol_spelled
spelled_symbol Spelling.fixed kind w h =
    (refl, ap (map to_lower) (str_eq→eq w (token_kind_name kind) h))
spelled_symbol Spelling.unequal kind w h = (
  refl,
  elim (Bool-cases (str_eq w (text "<>"))) [
    | inl t ↦ inl (str_eq→eq w (text "<>") t)
    | inr t ↦ inr (str_eq→eq w (text "!=") (subst (λ b. (b || str_eq w (text "!=")) ≡ true) t h))
  ],
)
spelled_symbol Spelling.whole kind w h = absurd (ground arith)
spelled_symbol Spelling.decimal kind w h = absurd (ground arith)
spelled_symbol Spelling.quoted kind w h = absurd (ground arith)
spelled_symbol Spelling.lower_case kind w h = absurd (ground arith)

symbol_found : ℕ → ℕ → Option (TokenKind × Bool) → Bool
symbol_found c next none = true
symbol_found c next (some (kind, false)) = symbol_spelled (spelling kind) kind (c ∷ [])
symbol_found c next (some (kind, true)) =
    symbol_spelled (spelling kind) kind (c ∷ next ∷ []) && not (next == 0)

symbol_kind_found : (c next : ℕ) → symbol_found c next (symbol_kind c next) ≡ true
unfolding symbol_found symbol_spelled symbol_kind token_kind_name str_eq
symbol_kind_found c next = ground arith

abbrev pub SymbolSpells : ℕ → ℕ → Option (TokenKind × Bool) → Type 0
SymbolSpells c next none = Unit {0}
SymbolSpells c next (some (kind, false)) = SpelledAs (spelling kind) kind [] (c ∷ [])
SymbolSpells c next (some (kind, true)) =
    SpelledAs (spelling kind) kind [] (c ∷ next ∷ []) × (not (next == 0) ≡ true)

pub symbol_kind-SymbolSpells : (c next : ℕ) → SymbolSpells c next (symbol_kind c next)
unfolding symbol_found
symbol_kind-SymbolSpells c next = found_spells (symbol_kind c next) (symbol_kind_found c next)
  where
    found_spells :
        (o : Option (TokenKind × Bool)) → symbol_found c next o ≡ true → SymbolSpells c next o
    found_spells none h = tt
    found_spells (some (kind, false)) h = spelled_symbol (spelling kind) kind (c ∷ []) h
    found_spells (some (kind, true)) h =
        let (a, b) = and_true _ _ h in (spelled_symbol (spelling kind) kind (c ∷ next ∷ []) a, b)

pub word_token_loc :
    (word : List ℕ) (loc : SourceLoc) (o : Option TokenKind) → (word_token word loc o).loc ≡ loc
unfolding word_token
word_token_loc word loc none = refl
word_token_loc word loc (some kind) = refl

pub word_token-Spells :
    (word w : List ℕ) (loc : SourceLoc)
    → map to_lower w ≡ word
    → Spells (word_token word loc (find_keyword word keyword_table)) w
unfolding word_token named
word_token-Spells word w loc e = found_spells (find_keyword word keyword_table) refl
  where
    found_spells :
        (o : Option TokenKind)
        → find_keyword word keyword_table ≡ o
        → Spells (word_token word loc o) w
    found_spells none h = (e, h)
    found_spells (some kind) h =
        spelled_named (spelling kind) word w kind e
          (find_keyword_sound word kind keyword_table keyword_table_named h)
