-- ===== src/Parser/Expr/Start.antt =====
-- Runs of the parser of src/parser/parser.cpp over tokens that are known.
use nyxdb.Base.{
  ℕ, ◌+◌, ◌≡◌, refl, sym, ap, ◌∙◌, Bool, true, false, List, [], ◌∷◌, ◌++◌, arith, length,
  length-append, get_or, ==_iff,
}
use mathlib.Core.List.{append_assoc}
use nyxdb.Parser.Token.{TokenKind, Token}
use nyxdb.Parser.Kind.{kind_code, is_kind}
use nyxdb.Parser.State.{
  Parser, Outcome, Parse, ◌>>=◌, ret, peek, token_at, consume, at_kind, match, expect, word_of,
  left,
}
use nyxdb.Parser.State.Reads.{Is}

abbrev all_kinds : List TokenKind
all_kinds =
    TokenKind.int_literal ∷ TokenKind.double_literal ∷ TokenKind.string_literal
    ∷ TokenKind.identifier ∷ TokenKind.lparen ∷ TokenKind.rparen ∷ TokenKind.comma
    ∷ TokenKind.semicolon ∷ TokenKind.dot ∷ TokenKind.star ∷ TokenKind.plus ∷ TokenKind.minus
    ∷ TokenKind.slash ∷ TokenKind.lt ∷ TokenKind.le ∷ TokenKind.eq ∷ TokenKind.ne ∷ TokenKind.ge
    ∷ TokenKind.gt ∷ TokenKind.kw_select ∷ TokenKind.kw_from ∷ TokenKind.kw_where
    ∷ TokenKind.kw_group ∷ TokenKind.kw_by ∷ TokenKind.kw_having ∷ TokenKind.kw_order
    ∷ TokenKind.kw_asc ∷ TokenKind.kw_desc ∷ TokenKind.kw_limit ∷ TokenKind.kw_offset
    ∷ TokenKind.kw_join ∷ TokenKind.kw_inner ∷ TokenKind.kw_on ∷ TokenKind.kw_as ∷ TokenKind.kw_and
    ∷ TokenKind.kw_or ∷ TokenKind.kw_not ∷ TokenKind.kw_is ∷ TokenKind.kw_null ∷ TokenKind.kw_create
    ∷ TokenKind.kw_table ∷ TokenKind.kw_insert ∷ TokenKind.kw_into ∷ TokenKind.kw_values
    ∷ TokenKind.kw_int ∷ TokenKind.kw_integer ∷ TokenKind.kw_bigint ∷ TokenKind.kw_double
    ∷ TokenKind.kw_varchar ∷ TokenKind.kw_nvarchar ∷ TokenKind.kw_drop ∷ TokenKind.kw_if
    ∷ TokenKind.kw_exists ∷ TokenKind.kw_delete ∷ TokenKind.kw_update ∷ TokenKind.kw_set
    ∷ TokenKind.kw_bool ∷ TokenKind.kw_boolean ∷ TokenKind.kw_true ∷ TokenKind.kw_false
    ∷ TokenKind.kw_date ∷ TokenKind.kw_timestamp ∷ TokenKind.kw_index ∷ TokenKind.kw_unique
    ∷ TokenKind.kw_show ∷ TokenKind.kw_indexes ∷ TokenKind.kw_primary ∷ TokenKind.kw_key
    ∷ TokenKind.kw_default ∷ TokenKind.kw_constraint ∷ TokenKind.kw_constraints
    ∷ TokenKind.kw_vacuum ∷ TokenKind.kw_partition ∷ TokenKind.kw_range ∷ TokenKind.kw_less
    ∷ TokenKind.kw_than ∷ TokenKind.kw_maxvalue ∷ TokenKind.kw_alter ∷ TokenKind.kw_add
    ∷ TokenKind.end_of_file ∷ []

get_or-all_kinds : (k : TokenKind) → get_or all_kinds (kind_code k) TokenKind.end_of_file ≡ k
unfolding kind_code
get_or-all_kinds TokenKind.int_literal = refl
get_or-all_kinds _ = refl

pub kind_of_Is : (k : TokenKind) (t : Token) → Is k t → t.kind ≡ k
unfolding is_kind
kind_of_Is k t i =
    sym (get_or-all_kinds t.kind)
    ∙ (ap (λ c. get_or all_kinds c TokenKind.end_of_file)
          ((==_iff (kind_code t.kind) (kind_code k)).0 i)
        ∙ get_or-all_kinds k)

-- The parser in front of `toks`, behind which `u` and `us` stand.
abbrev pub start : List ℕ → List Token → Token → List Token → Parser
start src [] u us = record { source = src; tok = u; rest = us }
start src (t ∷ ts) u us = record { source = src; tok = t; rest = ts ++ (u ∷ us) }

pub start-append :
    (src : List ℕ) (a : List Token) (t : Token) (b : List Token) (u : Token) (us : List Token)
    → start src (a ++ (t ∷ b)) u us ≡ start src a t (b ++ (u ∷ us))
start-append src [] t b u us = refl
start-append src (x ∷ a) t b u us =
    ap (λ ts. record { source = src; tok = x; rest = ts }) (append_assoc a (t ∷ b) (u ∷ us))

pub left-start :
    (src : List ℕ) (ts : List Token) (u : Token) (us : List Token)
    → left (start src ts u us) ≡ length ts + length us
left-start src [] u us = omega arith
left-start src (t ∷ ts) u us = omega (arith, length-append ts (u ∷ us))

consume-start :
    (src : List ℕ) (t : Token) (ts : List Token) (u : Token) (us : List Token)
    → consume (start src (t ∷ ts) u us) ≡ Outcome.done t (start src ts u us)
unfolding consume
consume-start src t [] u us = refl
consume-start src t (x ∷ ts) u us = refl

module _ {A B : Type 0} where
  pub run-bind :
      (m : Parse A) (f : A → Parse B) (p p' : Parser) (a : A)
      → m p ≡ Outcome.done a p'
      → (m >>= f) p ≡ f a p'
  unfolding ◌>>=◌
  run-bind m f p p' a e = rw e refl

module _ {B : Type 0} where
  pub run-peek : (f : Token → Parse B) (p : Parser) → (peek 0 >>= f) p ≡ f p.tok p
  unfolding ◌>>=◌ peek token_at
  run-peek f p = refl

  pub run-at_kind :
      (k : TokenKind) (f : Bool → Parse B) (p : Parser)
      → (at_kind k >>= f) p ≡ f (is_kind p.tok.kind k) p
  unfolding ◌>>=◌ at_kind
  run-at_kind k f p = refl

  pub run-match_other :
      (k : TokenKind) (f : Bool → Parse B) (p : Parser)
      → is_kind p.tok.kind k ≡ false
      → (match k >>= f) p ≡ f false p
  unfolding ◌>>=◌ match at_kind ret
  run-match_other k f p e = rw e refl

  module _ (src : List ℕ) (t : Token) (ts : List Token) (u : Token) (us : List Token) where
    pub run-consume :
        (f : Token → Parse B) → (consume >>= f) (start src (t ∷ ts) u us) ≡ f t (start src ts u us)
    run-consume f = run-bind consume f _ _ t (consume-start src t ts u us)

    pub run-match :
        (k : TokenKind) (f : Bool → Parse B)
        → Is k t
        → (match k >>= f) (start src (t ∷ ts) u us) ≡ f true (start src ts u us)
    unfolding ◌>>=◌ match at_kind ret
    run-match k f i = rw (i, consume-start src t ts u us) refl

    pub run-expect :
        (k : TokenKind) (message : List ℕ) (f : Unit {0} → Parse B)
        → Is k t
        → (expect k message >>= f) (start src (t ∷ ts) u us) ≡ f tt (start src ts u us)
    unfolding ◌>>=◌ expect match at_kind ret
    run-expect k message f i = rw (i, consume-start src t ts u us) refl

    pub run-word_of :
        (k : TokenKind) (message : List ℕ) (f : Token → Parse B)
        → Is k t
        → (word_of k message >>= f) (start src (t ∷ ts) u us) ≡ f t (start src ts u us)
    unfolding ◌>>=◌ word_of at_kind
    run-word_of k message f i = rw (i, consume-start src t ts u us) refl
