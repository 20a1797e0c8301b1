-- ===== src/Parser/State/Reads.antt =====
-- What a parser reads: rules for the actions that the functions of src/parser/parser.cpp are built
-- from.
use nyxdb.Base.{
  ℕ, ◌+◌, ◌≤◌, ◌≡◌, refl, sym, ap, subst, Bool, true, false, List, [], ◌∷◌, ◌++◌, arith,
  if◌then◌else◌, length, length-append, All,
}
use mathlib.Core.List.{append_assoc}
use nyxdb.Base.Strings.{text}
use nyxdb.Common.SourceError.{render_source_error}
use nyxdb.Parser.Token.{TokenKind, Token}
use nyxdb.Parser.Kind.{is_kind}
use nyxdb.Parser.State.{Parser, Outcome, Parse, continue, ◌>>=◌, ret, fail_at, fail, left}

abbrev pub Is : TokenKind → Token → Type 0
Is kind t = is_kind t.kind kind ≡ true

abbrev pub tokens : Parser → List Token
tokens p = p.tok ∷ p.rest

-- The last token, and no other, need be the end of the file.
abbrev pub Closed : Token → List Token → Type 0
Closed t [] = Is TokenKind.end_of_file t
Closed t (u ∷ us) = Closed u us

-- A message of the parser about a place of the source.
pub record ErrorAt (source : List ℕ) (K : Token → Type 0) (message : List ℕ) : Type 0 where
  pub place : Token
  pub placed : K place
  pub detail : List ℕ
  pub rendered : message ≡ render_source_error source place.loc (text "parse error") detail

-- A parser over `source`, with tokens of which `K` holds.
pub record Inside (source : List ℕ) (K : Token → Type 0) (p : Parser) : Type 0 where
  pub over : p.source ≡ source
  pub known : K p.tok × All K p.rest
  pub closed : Closed p.tok p.rest

-- What is said of the tokens that were read, of the value, and of the token that is next.
abbrev pub Post : Type 0 → Type 1
Post A = List Token → A → Token → Type 0

module _ (source : List ℕ) (K : Token → Type 0) (T : Type 0) where
  pub record Returned {A : Type 0} (Q : Post A) (p : Parser) (a : A) (p' : Parser) : Type 0 where
    pub front : List Token
    pub split : tokens p ≡ front ++ tokens p'
    pub inside : Inside source K p'
    pub result : Q front a p'.tok

  -- `T` is what holds where the parse throws or is undefined; it does not run out of fuel.
  abbrev pub Good : {A : Type 0} → Post A → Parser → Outcome A → Type 0
  Good Q p (Outcome.done a p') = Returned Q p a p'
  Good Q p (Outcome.failed message) = ErrorAt source K message
  Good Q p Outcome.thrown = T
  Good Q p Outcome.undefined = T
  Good Q p Outcome.unfinished = ⊥

  -- From a token, with at most `b` tokens behind it.
  pub record Reads {A : Type 0} (b : ℕ) (t : Token) (Q : Post A) (m : Parse A) : Type 0 where
    pub at : (p : Parser) → Inside source K p → p.tok ≡ t → left p ≤ b → Good Q p (m p)

module _ {source : List ℕ} {K : Token → Type 0} {T : Type 0} {A : Type 0} where
  pub Reads-ret :
      (b : ℕ) (t : Token) (Q : Post A) (a : A) → Q [] a t → Reads source K T b t Q (ret a)
  unfolding ret
  Reads-ret b t Q a q = record {
    at = λ p h e _. record {
      front = [];
      split = refl;
      inside = h;
      result = subst (λ u. Q [] a u) (sym e) q;
    };
  }

  pub Reads-fail_at :
      (b : ℕ) (t u : Token) (Q : Post A) (message : List ℕ)
      → K u
      → Reads source K T b t Q (fail_at message u)
  unfolding fail_at
  Reads-fail_at b t u Q message k = record {
    at = λ p h e _. record { place = u; placed = k; detail = message; rendered = rw (h.over) refl };
  }

  pub Reads-fail :
      (b : ℕ) (t : Token) (Q : Post A) (message : List ℕ) → Reads source K T b t Q (fail message)
  unfolding fail
  Reads-fail b t Q message = record {
    at = λ p h e l. (Reads-fail_at b t p.tok Q message h.known.0).at p h e l;
  }

module _ (source : List ℕ) (K : Token → Type 0) (T : Type 0) {A : Type 0} where
  -- The result of what is left is one of the whole.
  Good-shift :
      (R : Post A) (p p' : Parser) (front : List Token) (o : Outcome A)
      → tokens p ≡ front ++ tokens p'
      → Good source K T (λ back v w. R (front ++ back) v w) p' o
      → Good source K T R p o
  Good-shift R p p' front (Outcome.done a q) e g = record {
    front = front ++ g.front;
    split = rw (e, g.split) (sym (append_assoc front g.front (tokens q)));
    inside = g.inside;
    result = g.result;
  }
  Good-shift R p p' front (Outcome.failed message) e g = g
  Good-shift R p p' front Outcome.thrown e g = g
  Good-shift R p p' front Outcome.undefined e g = g
  Good-shift R p p' front Outcome.unfinished e g = g

  Good-weaken :
      (Q R : Post A) (p : Parser) (o : Outcome A)
      → ((front : List Token) (a : A) (u : Token) → Q front a u → R front a u)
      → Good source K T Q p o
      → Good source K T R p o
  Good-weaken Q R p (Outcome.done a q) k g = record {
    front = g.front;
    split = g.split;
    inside = g.inside;
    result = k g.front a q.tok g.result;
  }
  Good-weaken Q R p (Outcome.failed message) k g = g
  Good-weaken Q R p Outcome.thrown k g = g
  Good-weaken Q R p Outcome.undefined k g = g
  Good-weaken Q R p Outcome.unfinished k g = g

module _ {source : List ℕ} {K : Token → Type 0} {T : Type 0} {A : Type 0} where
  pub Reads-weaken :
      (b b' : ℕ) (t : Token) (Q R : Post A) (m : Parse A)
      → b' ≤ b
      → ((front : List Token) (a : A) (u : Token) → Q front a u → R front a u)
      → Reads source K T b t Q m
      → Reads source K T b' t R m
  Reads-weaken b b' t Q R m l k r = record {
    at = λ p h e l'. Good-weaken source K T Q R p (m p) k (r.at p h e (omega arith));
  }

  -- What is known of every token is known of the one that is next.
  pub Reads-known :
      (b : ℕ) (t : Token) (Q : Post A) (m : Parse A)
      → (K t → Reads source K T b t Q m)
      → Reads source K T b t Q m
  Reads-known b t Q m k = record { at = λ p h e l. (k (subst K e h.known.0)).at p h e l }

  pub Reads-if :
      (b : ℕ) (t : Token) (Q : Post A) (test : Bool) (m n : Parse A)
      → (test ≡ true → Reads source K T b t Q m)
      → (test ≡ false → Reads source K T b t Q n)
      → Reads source K T b t Q (if test then m else n)
  Reads-if b t Q true m n yes_case no_case = yes_case refl
  Reads-if b t Q false m n yes_case no_case = no_case refl

module _ {source : List ℕ} {K : Token → Type 0} {T : Type 0} {A B : Type 0} where
  -- The rest of a block reads on from the token that is next.
  Good-continue :
      (b : ℕ) (Q : Post A) (R : Post B) (p : Parser) (f : A → Parse B) (o : Outcome A)
      → left p ≤ b
      → Good source K T Q p o
      → ((front : List Token) (a : A) (u : Token) (c : ℕ)
          → Q front a u
          → K u
          → length front + c ≤ b
          → Reads source K T c u (λ back v w. R (front ++ back) v w) (f a))
      → Good source K T R p (continue o f)
  Good-continue b Q R p f (Outcome.done a p') l g k =
      let fits : length g.front + left p' ≤ b =
        omega (arith, length-append g.front (tokens p'), ap (λ ts. length ts) g.split) in
      let r = k g.front a p'.tok (left p') g.result g.inside.known.0 fits in
      Good-shift source K T R p p' g.front (f a p') g.split (r.at p' g.inside refl (omega arith))
  Good-continue b Q R p f (Outcome.failed message) l g k = g
  Good-continue b Q R p f Outcome.thrown l g k = g
  Good-continue b Q R p f Outcome.undefined l g k = g
  Good-continue b Q R p f Outcome.unfinished l g k = g

  pub Reads-bind :
      (b : ℕ) (t : Token) (Q : Post A) (R : Post B) (m : Parse A) (f : A → Parse B)
      → Reads source K T b t Q m
      → ((front : List Token) (a : A) (u : Token) (c : ℕ)
          → Q front a u
          → K u
          → length front + c ≤ b
          → Reads source K T c u (λ back v w. R (front ++ back) v w) (f a))
      → Reads source K T b t R (m >>= f)
  unfolding ◌>>=◌
  Reads-bind b t Q R m f r k = record {
    at = λ p h e l. Good-continue b Q R p f (m p) l (r.at p h e l) k;
  }
