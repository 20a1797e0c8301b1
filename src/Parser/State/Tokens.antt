-- ===== src/Parser/State/Tokens.antt =====
-- The rules for the actions of src/parser/parser.cpp that look at a token or take one.
use nyxdb.Base.{
  ℕ, suc, ◌≤◌, ◌≡◌, refl, sym, ap, subst, Bool, true, false, List, [], ◌∷◌, arith, length,
  Bool-cases, inl, inr,
}
use nyxdb.Parser.Token.{TokenKind, Token}
use nyxdb.Parser.Kind.{kind_code, is_kind}
use nyxdb.Parser.State.{
  Parse, ◌>>=◌, ret, peek, consume, at_kind, match, fail_at, fail, expect, word_of, token_at,
}
use nyxdb.Parser.State.Reads.{Is, Inside, Post, Good, Reads, Reads-fail, Reads-bind}

pub is_kind_other :
    (t k l : TokenKind) → is_kind t k ≡ true → is_kind k l ≡ false → is_kind t l ≡ false
unfolding is_kind
is_kind_other t k l h n = ground arith

-- Every token but the last is of such a kind.
abbrev pub NotEnd : TokenKind → Type 0
NotEnd TokenKind.end_of_file = ⊥
NotEnd _ = Unit {0}

NotEnd→is_kind : (k : TokenKind) → NotEnd k → is_kind k TokenKind.end_of_file ≡ false
unfolding is_kind kind_code
NotEnd→is_kind TokenKind.end_of_file n = absurd n
NotEnd→is_kind _ n = refl

pub of_kind : (t : Token) (k : TokenKind) → t.kind ≡ k → Is k t
unfolding is_kind
of_kind t k e = rw e (ground arith)

not_at_end :
    (t : Token) (k : TokenKind) → NotEnd k → Is k t → is_kind t.kind TokenKind.end_of_file ≡ false
not_at_end t k n h = is_kind_other t.kind k TokenKind.end_of_file h (NotEnd→is_kind k n)

module _ (source : List ℕ) (K : Token → Type 0) (T : Type 0) where
  consume-Good :
      (src : List ℕ) (t : Token) (ts : List Token)
      → Inside source K (record { source = src; tok = t; rest = ts })
      → is_kind t.kind TokenKind.end_of_file ≡ false
      → Good source K T
          (λ front a u. (front ≡ t ∷ []) × (a ≡ t))
          (record { source = src; tok = t; rest = ts })
          (consume (record { source = src; tok = t; rest = ts }))
  unfolding consume
  consume-Good src t [] h n = absurd (cc (h.closed, n))
  consume-Good src t (u ∷ us) h n = record {
    front = t ∷ [];
    split = refl;
    inside = record { over = h.over; known = h.known.1; closed = h.closed };
    result = (refl, refl);
  }

  peek_next-Good :
      {B : Type 0} (src : List ℕ) (t : Token) (ts : List Token) (R : Post B) (f : Token → Parse B)
      → Inside source K (record { source = src; tok = t; rest = ts })
      → ((u : Token)
          → K u
          → Good source K T R
              (record { source = src; tok = t; rest = ts })
              (f u (record { source = src; tok = t; rest = ts })))
      → Good source K T R
          (record { source = src; tok = t; rest = ts })
          ((peek 1 >>= f) (record { source = src; tok = t; rest = ts }))
  unfolding peek token_at ◌>>=◌
  peek_next-Good src t [] R f h k = k t h.known.0
  peek_next-Good src t (u ∷ us) R f h k = k u h.known.1.0

module _ {source : List ℕ} {K : Token → Type 0} {T : Type 0} where
  consume-Reads :
      (b : ℕ) (t : Token)
      → is_kind t.kind TokenKind.end_of_file ≡ false
      → Reads source K T b t (λ front a u. (front ≡ t ∷ []) × (a ≡ t)) consume
  consume-Reads b t n = record {
    at = λ p h e l.
        let g : Good source K T (λ front a u. (front ≡ p.tok ∷ []) × (a ≡ p.tok)) p (consume p) =
          consume-Good source K T p.source p.tok p.rest h
            (subst (λ v. is_kind v.kind TokenKind.end_of_file ≡ false) (sym e) n) in
        subst (λ v. Good source K T (λ front a u. (front ≡ v ∷ []) × (a ≡ v)) p (consume p)) e g;
  }

  module _ {B : Type 0} where
    pub Reads-consume :
        (b : ℕ) (t : Token) (R : Post B) (kind : TokenKind) (f : Token → Parse B)
        → NotEnd kind
        → Is kind t
        → ((u : Token) (c : ℕ)
            → K u
            → suc c ≤ b
            → Reads source K T c u (λ back v w. R (t ∷ back) v w) (f t))
        → Reads source K T b t R (consume >>= f)
    Reads-consume b t R kind f n it k =
        Reads-bind b t (λ front a u. (front ≡ t ∷ []) × (a ≡ t)) R consume f
          (consume-Reads b t (not_at_end t kind n it))
          (λ front a u c q ku l.
            let (ef, ea) = q in rw (ef, ea) (k u c ku (omega (arith, ap (λ ts. length ts) ef))))

    pub Reads-at_kind :
        (b : ℕ) (t : Token) (R : Post B) (kind : TokenKind) (f : Bool → Parse B)
        → Reads source K T b t R (f (is_kind t.kind kind))
        → Reads source K T b t R (at_kind kind >>= f)
    unfolding at_kind ◌>>=◌
    Reads-at_kind b t R kind f r = record {
      at = λ p h e l.
          subst (λ v. Good source K T R p (f (is_kind v.kind kind) p)) (sym e) (r.at p h e l);
    }

    pub Reads-peek :
        (b : ℕ) (t : Token) (R : Post B) (f : Token → Parse B)
        → Reads source K T b t R (f t)
        → Reads source K T b t R (peek 0 >>= f)
    unfolding peek token_at ◌>>=◌
    Reads-peek b t R f r = record {
      at = λ p h e l. subst (λ v. Good source K T R p (f v p)) (sym e) (r.at p h e l);
    }

    pub Reads-peek_next :
        (b : ℕ) (t : Token) (R : Post B) (f : Token → Parse B)
        → ((u : Token) → K u → Reads source K T b t R (f u))
        → Reads source K T b t R (peek 1 >>= f)
    Reads-peek_next b t R f k = record {
      at = λ p h e l.
          peek_next-Good source K T p.source p.tok p.rest R f h (λ u ku. (k u ku).at p h e l);
    }

    pub Reads-match :
        (b : ℕ) (t : Token) (R : Post B) (kind : TokenKind) (f : Bool → Parse B)
        → NotEnd kind
        → (Is kind t
            → (u : Token) (c : ℕ) → K u
            → suc c ≤ b
            → Reads source K T c u (λ back v w. R (t ∷ back) v w) (f true))
        → Reads source K T b t R (f false)
        → Reads source K T b t R (match kind >>= f)
    unfolding match at_kind consume ret ◌>>=◌
    Reads-match b t R kind f n took stays = record {
      at = λ p h e l. elim (Bool-cases (is_kind p.tok.kind kind)) [
        | inl i ↦
            let it : Is kind t = subst (λ v. Is kind v) e i in
            rw i ((Reads-consume b t R kind (λ _. f true) n it (took it)).at p h e l)
        | inr no_match ↦ rw no_match (stays.at p h e l)
      ];
    }

    pub Reads-expect :
        (b : ℕ) (t : Token) (R : Post B) (kind : TokenKind) (message : List ℕ)
        (f : Unit {0} → Parse B)
        → NotEnd kind
        → (Is kind t
            → (u : Token) (c : ℕ) → K u
            → suc c ≤ b
            → Reads source K T c u (λ back v w. R (t ∷ back) v w) (f tt))
        → Reads source K T b t R (expect kind message >>= f)
    unfolding expect match at_kind consume fail fail_at ret ◌>>=◌
    Reads-expect b t R kind message f n took = record {
      at = λ p h e l. elim (Bool-cases (is_kind p.tok.kind kind)) [
        | inl i ↦
            let it : Is kind t = subst (λ v. Is kind v) e i in
            rw i ((Reads-consume b t R kind (λ _. f tt) n it (took it)).at p h e l)
        | inr no_match ↦ rw no_match ((Reads-fail {T = T} {A = B} b t R message).at p h e l)
      ];
    }

    pub Reads-word_of :
        (b : ℕ) (t : Token) (R : Post B) (kind : TokenKind) (message : List ℕ) (f : Token → Parse B)
        → NotEnd kind
        → (Is kind t
            → (u : Token) (c : ℕ) → K u
            → suc c ≤ b
            → Reads source K T c u (λ back v w. R (t ∷ back) v w) (f t))
        → Reads source K T b t R (word_of kind message >>= f)
    unfolding word_of at_kind consume fail fail_at ◌>>=◌
    Reads-word_of b t R kind message f n took = record {
      at = λ p h e l. elim (Bool-cases (is_kind p.tok.kind kind)) [
        | inl i ↦
            let it : Is kind t = subst (λ v. Is kind v) e i in
            rw i ((Reads-consume b t R kind f n it (took it)).at p h e l)
        | inr no_match ↦ rw no_match ((Reads-fail {T = T} {A = B} b t R message).at p h e l)
      ];
    }
