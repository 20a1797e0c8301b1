-- ===== src/Wal/Reader/Compose.antt =====
-- How the reader's steps compose: a reader that takes exactly the bytes given, and a reader whose
-- result does not depend on what follows the bytes that it takes.
use nyxdb.Base.{
  ℕ, ◌+◌, ◌≤◌, ◌≡◌, refl, sym, ap, ◌∙◌, List, [], ◌∷◌, ◌++◌, arith, length, length-append, get_or,
  take, drop, leb, Bool-cases, inl, inr, length-take, take-append-drop, take-append_exact,
  drop-append_exact,
}
use mathlib.Core.List.{append-nil, append_assoc}
use nyxdb.Wal.Reader.Monad.{
  Cursor, Step, ok, stopped, Read, ◌>>=◌, ret, stop, read_exact, read_exact_u8,
}

abbrev pub at_cursor : List ℕ → List ℕ → ℕ → Cursor
at_cursor i p n = record { input = i; payload = p; pos = n }

-- On `bytes`, whatever follows them, the reader gives `a`, and `bytes` is what it takes.
abbrev pub Reads {ℓ} : {A : Type ℓ} → Read A → List ℕ → A → Type ℓ
Reads r bytes a =
    (rest p : List ℕ) (n : ℕ)
    → r (at_cursor (bytes ++ rest) p n) ≡ ok a (at_cursor rest (p ++ bytes) (n + length bytes))

module _ {ℓ} {A : Type ℓ} where
  pub ret-Reads : (a : A) → Reads (ret a) [] a
  ret-Reads a rest p n = rw (append-nil p) (ground arith)

module _ {ℓ κ} {A : Type ℓ} {B : Type κ} where
  pub bind-ok :
      (m : Read A) (f : A → Read B) (a : A) (s s' : Cursor) → m s ≡ ok a s' → (m >>= f) s ≡ f a s'
  bind-ok m f a s s' e =
      ap (λ r. elim r as (λ x. Step B) [ ok x rest ↦ f x rest | stopped rest ↦ stopped rest ]) e

  pub bind-Reads :
      (m : Read A) (f : A → Read B) (bs bs' : List ℕ) (a : A) (b : B)
      → Reads m bs a
      → Reads (f a) bs' b
      → Reads (m >>= f) (bs ++ bs') b
  bind-Reads m f bs bs' a b hm hf rest p n =
      rw (append_assoc bs bs' rest, length-append bs bs', sym (append_assoc p bs bs'))
        (bind-ok m f a (at_cursor (bs ++ (bs' ++ rest)) p n)
            (at_cursor (bs' ++ rest) (p ++ bs) (n + length bs)) (hm (bs' ++ rest) p n)
          ∙ (hf rest (p ++ bs) (n + length bs) ∙ ground arith))

module _ {ℓ κ} {A : Type ℓ} {B : Type κ} where
  -- The last step gives a function of what was read.
  pub map-Reads :
      (m : Read A) (g : A → B) (bs : List ℕ) (a : A) (b : B)
      → Reads m bs a
      → g a ≡ b
      → Reads (m >>= (λ x. ret (g x))) bs b
  map-Reads m g bs a b hm e rest p n =
      bind-ok m (λ x. ret (g x)) a (at_cursor (bs ++ rest) p n)
        (at_cursor rest (p ++ bs) (n + length bs)) (hm rest p n)
      ∙ ap (λ x. ok x (at_cursor rest (p ++ bs) (n + length bs))) e

pub read_exact-Reads : (bs : List ℕ) (k : ℕ) → k ≡ length bs → Reads (read_exact k) bs bs
unfolding read_exact
read_exact-Reads bs k e rest p n =
    rw (e, take-append_exact bs rest, drop-append_exact bs rest)
      (ground (arith, length-append bs rest))

pub read_exact_u8-Reads : (b : ℕ) → Reads read_exact_u8 (b ∷ []) b
unfolding read_exact_u8
read_exact_u8-Reads b =
    bind-Reads (read_exact 1) (λ bs. ret (get_or bs 0 0)) (b ∷ []) [] (b ∷ []) b
      (read_exact-Reads (b ∷ []) 1 refl) (ret-Reads b)

abbrev pub refill : Cursor → List ℕ → Cursor
refill s bs = record s { input = bs }

-- What the reader takes is a prefix of the input, and with anything behind that prefix it does the
-- same.
abbrev pub Exact {ℓ} : {A : Type ℓ} → Read A → Type ℓ
Exact {A = A} r =
    (s s' : Cursor) (a : A)
    → r s ≡ ok a s'
    → (bs : List ℕ) × (s.input ≡ bs ++ s'.input)
      × ((rest : List ℕ) → r (refill s (bs ++ rest)) ≡ ok a (refill s' rest))

module _ {ℓ} {A : Type ℓ} where
  pub ret-Exact : (a : A) → Exact (ret a)
  ret-Exact a s s' b e = ([], ground arith, λ rest. ground arith)

  pub stop-Exact : Exact (stop {A = A})
  stop-Exact s s' b e = absurd (ground arith)

module _ {ℓ κ} {A : Type ℓ} {B : Type κ} where
  pub bind-ok_cases :
      (r : Step A) (f : A → Read B) (b : B) (s' : Cursor)
      → elim r as (λ x. Step B) [ ok x rest ↦ f x rest | stopped rest ↦ stopped rest ] ≡ ok b s'
      → (a : A) × (s1 : Cursor) × (r ≡ ok a s1) × (f a s1 ≡ ok b s')
  bind-ok_cases (ok a s1) f b s' e = (a, s1, refl, e)
  bind-ok_cases (stopped s1) f b s' e = absurd (ground arith)

  pub bind-Exact :
      (m : Read A) (f : A → Read B) → Exact m → ((a : A) → Exact (f a)) → Exact (m >>= f)
  bind-Exact m f hm hf s s' b e =
      let (a, s1, em, ef) = bind-ok_cases (m s) f b s' e in
      let (bs, i, back) = hm s s1 a em in
      let (bs', i', back') = hf a s1 s' b ef in
      (
        bs ++ bs',
        i ∙ (ap (λ x. bs ++ x) i' ∙ sym (append_assoc bs bs' s'.input)),
        λ rest. rw (append_assoc bs bs' rest) (
            bind-ok m f a (refill s (bs ++ (bs' ++ rest))) (refill s1 (bs' ++ rest))
              (back (bs' ++ rest))
            ∙ back' rest),
      )

module _ {ℓ κ} {A : Type ℓ} {B : Type κ} where
  pub map-Exact : (m : Read A) (g : A → B) → Exact m → Exact (m >>= (λ x. ret (g x)))
  map-Exact m g hm = bind-Exact m (λ x. ret (g x)) hm (λ x. ret-Exact (g x))

read_exact-ok :
    (n : ℕ) (s s' : Cursor) (a : List ℕ)
    → read_exact n s ≡ ok a s'
    → (n ≤ length s.input)
      × (a ≡ take n s.input)
      × (s' ≡ at_cursor (drop n s.input) (s.payload ++ take n s.input) (s.pos + n))
unfolding read_exact
read_exact-ok n s s' a e = elim (Bool-cases (leb n (length s.input))) [
  | inl t ↦ ground arith
  | inr t ↦ ground arith
]

pub read_exact-Exact : (n : ℕ) → Exact (read_exact n)
read_exact-Exact n s s' a e =
    let (le, ea, es) = read_exact-ok n s s' a e in
    let l : n ≡ length (take n s.input) = sym (length-take n s.input le) in
    rw (es, ea)
      ((
        take n s.input,
        sym (take-append-drop n s.input),
        λ rest.
            read_exact-Reads (take n s.input) n l rest s.payload s.pos
            ∙ ap
                (λ k.
                  ok (take n s.input) (at_cursor rest (s.payload ++ take n s.input) (s.pos + k)))
                (sym l),
      ))

pub read_exact_u8-Exact : Exact read_exact_u8
unfolding read_exact_u8
read_exact_u8-Exact =
    bind-Exact (read_exact 1) (λ bs. ret (get_or bs 0 0)) (read_exact-Exact 1)
      (λ bs. ret-Exact (get_or bs 0 0))
