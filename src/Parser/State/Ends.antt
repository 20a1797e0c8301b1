-- ===== src/Parser/State/Ends.antt =====
-- How a statement's parser ends: a rule for each of the actions of src/parser/parser.cpp that do
-- not look at what was read before.
use nyxdb.Base.{
  ℕ, zero, suc, ◌≤◌, ◌≡◌, refl, Bool, true, false, List, [], ◌∷◌, arith, if◌then◌else◌, length, All,
}
use nyxdb.Parser.Token.{TokenKind, Token}
use nyxdb.Parser.Kind.{is_kind}
use nyxdb.Parser.State.{
  Parse, ◌>>=◌, ret, peek, consume, at_kind, match, fail_at, fail, expect, word_of, commas_loop,
  commas, opened_by, left,
}
use nyxdb.Parser.State.Reads.{
  Inside, Post, Good, Reads, Reads-ret, Reads-fail, Reads-fail_at, Reads-bind, Reads-weaken,
}
use nyxdb.Parser.State.Tokens.{
  NotEnd, Reads-at_kind, Reads-peek, Reads-peek_next, Reads-match, Reads-expect, Reads-word_of,
}

-- The value alone is spoken of.
abbrev pub Value_is : {A : Type 0} → (A → Type 0) → Post A
Value_is Q front a next = Q a

abbrev pub Any : {A : Type 0} → A → Type 0
Any a = Unit {0}

module _ (source : List ℕ) (K : Token → Type 0) (T : Type 0) where
  pub record Ends {A : Type 0} (Q : A → Type 0) (m : Parse A) : Type 0 where
    pub reads : (b : ℕ) (t : Token) → Reads source K T b t (Value_is Q) m

module _ {source : List ℕ} {K : Token → Type 0} {T : Type 0} {A : Type 0} where
  pub Ends-ret : (Q : A → Type 0) (a : A) → Q a → Ends source K T Q (ret a)
  Ends-ret Q a q = record { reads = λ b t. Reads-ret b t _ a q }

  pub Ends-fail : (Q : A → Type 0) (message : List ℕ) → Ends source K T Q (fail message)
  Ends-fail Q message = record { reads = λ b t. Reads-fail b t _ message }

  pub Ends-fail_at :
      (Q : A → Type 0) (message : List ℕ) (u : Token) → K u → Ends source K T Q (fail_at message u)
  Ends-fail_at Q message u k = record { reads = λ b t. Reads-fail_at b t u _ message k }

  pub Ends-any : (Q : A → Type 0) (m : Parse A) → Ends source K T Q m → Ends source K T Any m
  Ends-any Q m e = record {
    reads = λ b t. Reads-weaken b b t _ _ m (omega arith) (λ front a u q. tt) (e.reads b t);
  }

  pub Ends-if :
      (Q : A → Type 0) (test : Bool) (m n : Parse A)
      → (test ≡ true → Ends source K T Q m)
      → (test ≡ false → Ends source K T Q n)
      → Ends source K T Q (if test then m else n)
  Ends-if Q true m n yes_case no_case = yes_case refl
  Ends-if Q false m n yes_case no_case = no_case refl

module _ {source : List ℕ} {K : Token → Type 0} {T : Type 0} {A B : Type 0} where
  pub Ends-bind :
      (Q : A → Type 0) (R : B → Type 0) (m : Parse A) (f : A → Parse B)
      → Ends source K T Q m
      → ((a : A) → Q a → Ends source K T R (f a))
      → Ends source K T R (m >>= f)
  Ends-bind Q R m f e k = record {
    reads = λ b t.
        Reads-bind b t (Value_is Q) (Value_is R) m f (e.reads b t)
          (λ front a u c q ku fit. (k a q).reads c u);
  }

  -- The same where nothing is said of the value.
  pub Ends-step :
      (R : B → Type 0) (m : Parse A) (f : A → Parse B)
      → Ends source K T Any m
      → ((a : A) → Ends source K T R (f a))
      → Ends source K T R (m >>= f)
  Ends-step R m f e k = Ends-bind Any R m f e (λ a _. k a)

-- At the end of the file nothing is taken.
consume-Good :
    (source src : List ℕ) (K : Token → Type 0) (T : Type 0) (t : Token) (ts : List Token)
    → Inside source K (record { source = src; tok = t; rest = ts })
    → Good source K T
        (Value_is (λ _. Unit {0}))
        (record { source = src; tok = t; rest = ts })
        (consume (record { source = src; tok = t; rest = ts }))
unfolding consume
consume-Good source src K T t [] h = record { front = []; split = refl; inside = h; result = tt }
consume-Good source src K T t (u ∷ us) h = record {
  front = t ∷ [];
  split = refl;
  inside = record { over = h.over; known = h.known.1; closed = h.closed };
  result = tt;
}

module _ {source : List ℕ} {K : Token → Type 0} {T : Type 0} {B : Type 0} where
  pub Ends-consume :
      (R : B → Type 0) (f : Token → Parse B)
      → ((t : Token) → Ends source K T R (f t))
      → Ends source K T R (consume >>= f)
  Ends-consume R f k =
      Ends-bind {source = source} {K = K} {T = T} (λ _. Unit {0}) R consume f
        (record {
          reads = λ b t. record { at = λ p h e l. consume-Good source p.source K T p.tok p.rest h };
        })
        (λ t _. k t)

  pub Ends-at_kind :
      (R : B → Type 0) (kind : TokenKind) (f : Bool → Parse B)
      → ((here : Bool) → Ends source K T R (f here))
      → Ends source K T R (at_kind kind >>= f)
  Ends-at_kind R kind f k = record {
    reads = λ b t. Reads-at_kind b t _ kind f ((k (is_kind t.kind kind)).reads b t);
  }

  pub Ends-peek :
      (R : B → Type 0) (f : Token → Parse B)
      → ((t : Token) → Ends source K T R (f t))
      → Ends source K T R (peek 0 >>= f)
  Ends-peek R f k = record { reads = λ b t. Reads-peek b t _ f ((k t).reads b t) }

  pub Ends-peek_next :
      (R : B → Type 0) (f : Token → Parse B)
      → ((u : Token) → K u → Ends source K T R (f u))
      → Ends source K T R (peek 1 >>= f)
  Ends-peek_next R f k = record {
    reads = λ b t. Reads-peek_next b t _ f (λ u ku. (k u ku).reads b t);
  }

  pub Ends-match :
      (R : B → Type 0) (kind : TokenKind) (f : Bool → Parse B)
      → NotEnd kind
      → ((here : Bool) → Ends source K T R (f here))
      → Ends source K T R (match kind >>= f)
  Ends-match R kind f n k = record {
    reads =
        λ b t. Reads-match b t _ kind f n (λ i u c ku l. (k true).reads c u) ((k false).reads b t);
  }

  pub Ends-expect :
      (R : B → Type 0) (kind : TokenKind) (message : List ℕ) (f : Unit {0} → Parse B)
      → NotEnd kind
      → Ends source K T R (f tt)
      → Ends source K T R (expect kind message >>= f)
  Ends-expect R kind message f n k = record {
    reads = λ b t. Reads-expect b t _ kind message f n (λ i u c ku l. k.reads c u);
  }

  pub Ends-word_of :
      (R : B → Type 0) (kind : TokenKind) (message : List ℕ) (f : Token → Parse B)
      → NotEnd kind
      → ((t : Token) → Ends source K T R (f t))
      → Ends source K T R (word_of kind message >>= f)
  Ends-word_of R kind message f n k = record {
    reads = λ b t. Reads-word_of b t _ kind message f n (λ i u c ku l. (k t).reads c u);
  }

  pub Ends-opened_by :
      (R : B → Type 0) (kind : TokenKind) (missing : B) (clause : Parse B)
      → NotEnd kind
      → R missing
      → Ends source K T R clause
      → Ends source K T R (opened_by kind missing clause)
  unfolding opened_by
  Ends-opened_by R kind missing clause n r k =
      Ends-match R kind _ n (λ here. Ends-if R here _ _ (λ _. k) (λ _. Ends-ret R missing r))

  -- A list behind commas has an element.
  commas_loop-Reads :
      (Q : B → Type 0) (item : Parse B) (n b : ℕ) (t : Token)
      → Ends source K T Q item
      → suc b ≤ n
      → Reads source K T b t (Value_is (λ xs. (1 ≤ length xs) × All Q xs)) (commas_loop n item)
  unfolding commas_loop
  commas_loop-Reads Q item zero b t e l = absurd (omega arith)
  commas_loop-Reads Q item (suc n) b t e l =
      Reads-bind b t (Value_is Q) _ item _ (e.reads b t) λ front a u c q ku fit.
        Reads-match c u _ TokenKind.comma _ tt
          (λ i v d kv m.
            Reads-bind d v (Value_is (λ xs. (1 ≤ length xs) × All Q xs)) _ (commas_loop n item) _
              (commas_loop-Reads Q item n d v e (omega arith))
              λ back xs w f h kw' fit'. Reads-ret f w _ (a ∷ xs) (omega arith, (q, h.1)))
          (Reads-ret c u _ (a ∷ []) (omega arith, (q, tt)))

  pub Ends-commas :
      (Q : B → Type 0) (item : Parse B)
      → Ends source K T Q item
      → Ends source K T (λ xs. (1 ≤ length xs) × All Q xs) (commas item)
  unfolding commas
  Ends-commas Q item e = record {
    reads = λ b t. record {
      at = λ p h i l.
          (commas_loop-Reads Q item (suc (left p)) (left p) t e (omega arith)).at p h i
            (omega arith);
    };
  }

  pub Ends-commas_any :
      (item : Parse B) → Ends source K T Any item → Ends source K T Any (commas item)
  Ends-commas_any item e = Ends-any _ (commas item) (Ends-commas Any item e)

pub ruleset ends_rules = (
  Ends-ret, Ends-fail, Ends-fail_at, Ends-if, Ends-consume, Ends-at_kind, Ends-peek, Ends-peek_next,
  Ends-match, Ends-expect, Ends-word_of, Ends-opened_by, Ends-commas, Ends-commas_any, Ends-step,
)
