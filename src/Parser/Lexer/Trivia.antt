-- ===== src/Parser/Lexer/Trivia.antt =====
-- `skip_trivia_` of src/parser/lexer.cpp: the spaces and comments in front of a token.
use nyxdb.Base.{
  ℕ, zero, suc, ◌+◌, ◌<◌, ◌≤◌, ◌≡◌, ◌⊎◌, refl, sym, ap, subst, ◌∙◌, Bool, true, false, ◌&&◌, ◌||◌,
  List, [], ◌∷◌, ◌++◌, Option, none, some, ◌==◌, Bool-cases, inl, inr, arith, length, get_or, All,
  length-append, drop,
}
use mathlib.Core.List.{append_assoc, append-nil}
use nyxdb.Base.Strings.{is_empty}
use nyxdb.Parser.Scan.{
  Lexer, move, advance, advance_over, advance_while, while_loop, is_space, not_newline, block_loop,
  trivia_turn, trivia_loop, skip_trivia,
}
use nyxdb.Parser.Lexer.Took.{
  Took, Took-refl, Took-trans, Took-advance, Stops, while_loop_takes, Stops-while_loop,
}

-- No place of the text of a comment where it would end.
abbrev NoClose : List ℕ → Type 0
NoClose [] = Unit {0}
NoClose (c ∷ cs) = ((c == b'*' && get_or (cs ++ b'*' ∷ []) 0 0 == b'/') ≡ false) × NoClose cs

-- Spaces and comments in front of what is left of a source: a line comment runs to the newline, a
-- block comment to its first end or, without one, to the end of the source.
pub data Trivia : List ℕ → List ℕ → Type 0 where
  nothing : (rest : List ℕ) → Trivia [] rest
  space : (c : ℕ) (w rest : List ℕ) → is_space c ≡ true → Trivia w rest → Trivia (c ∷ w) rest
  line :
      (b w rest : List ℕ)
      → All (λ c. not_newline c ≡ true) b
      → Stops not_newline (w ++ rest)
      → Trivia w rest
      → Trivia (b'-' ∷ b'-' ∷ b ++ w) rest
  block :
      (b w rest : List ℕ)
      → NoClose b
      → Trivia w rest
      → Trivia (b'/' ∷ b'*' ∷ b ++ b'*' ∷ b'/' ∷ w) rest
  open_block : (b : List ℕ) → NoClose b → Trivia (b'/' ∷ b'*' ∷ b) []

-- Whether a source starts with trivia.
abbrev pub starts_trivia : List ℕ → Bool
starts_trivia r =
    is_space (get_or r 0 0)
    || (get_or r 0 0 == b'-' && get_or r 1 0 == b'-')
    || (get_or r 0 0 == b'/' && get_or r 1 0 == b'*')

abbrev BlockTook : ℕ → List ℕ → ℕ × List ℕ → Type 0
BlockTook p r (q, rest) =
    (b : List ℕ) × NoClose b
    × (((r ≡ b ++ b'*' ∷ b'/' ∷ rest) × (q ≡ p + (length b + 2)))
        ⊎ ((r ≡ b) × (rest ≡ []) × (q ≡ p + length b)))

no_close :
    (c : ℕ) (cs b rest : List ℕ)
    → cs ≡ b ++ b'*' ∷ b'/' ∷ rest
    → (c == b'*' && get_or cs 0 0 == b'/') ≡ false
    → (c == b'*' && get_or (b ++ b'*' ∷ []) 0 0 == b'/') ≡ false
no_close c cs [] rest e h = ground arith
no_close c cs (x ∷ b) rest e h =
    subst (λ (k : List ℕ). (c == b'*' && get_or k 0 0 == b'/') ≡ false) e h

no_close_open :
    (c : ℕ) (b : List ℕ)
    → (c == b'*' && get_or b 0 0 == b'/') ≡ false
    → (c == b'*' && get_or (b ++ b'*' ∷ []) 0 0 == b'/') ≡ false
no_close_open c [] h = ground arith
no_close_open c (x ∷ b) h = h

closed :
    (c p : ℕ) (cs : List ℕ)
    → (c == b'*' && get_or cs 0 0 == b'/') ≡ true
    → c ∷ cs ≡ b'*' ∷ b'/' ∷ drop 1 cs
closed c p [] h = absurd (ground arith)
closed c p (d ∷ cs) h =
    let hc : c ≡ b'*' = ground arith in let hd : d ≡ b'/' = ground arith in rw (hc, hd) refl

BlockTook-block_loop : (p : ℕ) (r : List ℕ) → BlockTook p r (block_loop p r)
unfolding block_loop
BlockTook-block_loop p [] = ([], tt, inr (refl, refl, omega arith))
BlockTook-block_loop p (c ∷ cs) = elim (Bool-cases (c == b'*' && get_or cs 0 0 == b'/')) [
  | inl t ↦ rw t ([], tt, inl (closed c p cs t, omega arith))
  | inr t ↦
      let (b, n, ends) = BlockTook-block_loop (p + 1) cs in
      elim ends [
        | inl (e, l) ↦
            rw t (c ∷ b, (no_close c cs b _ e t, n), inl (ap (λ k. c ∷ k) e, omega (arith, l)))
        | inr (e, z, l) ↦
            let here = subst (λ (k : List ℕ). (c == b'*' && get_or k 0 0 == b'/') ≡ false) e t in
            rw t (c ∷ b, (no_close_open c b here, n), inr (ap (λ k. c ∷ k) e, z, omega (arith, l)))
      ]
]

-- What a turn of the loop skips goes in front of any trivia behind it.
abbrev Skips : Lexer → Lexer → Type 0
Skips lx next =
    (w : List ℕ) × Took lx w next
    × (0 < length w)
    × ((v rest : List ℕ) → next.ahead ≡ v ++ rest → Trivia v rest → Trivia (w ++ v) rest)

abbrev TurnSkips : Lexer → Option Lexer → Type 0
TurnSkips lx none = starts_trivia lx.ahead ≡ false
TurnSkips lx (some next) = Skips lx next

Skips-space :
    (lx : Lexer) (c : ℕ) (cs : List ℕ)
    → lx.ahead ≡ c ∷ cs
    → is_space c ≡ true
    → Skips lx (advance lx)
Skips-space lx c cs e t =
    (c ∷ [], Took-advance lx c cs e, omega arith, λ v rest f g. Trivia.space c v rest t g)

Skips-line :
    (lx : Lexer) (cs : List ℕ)
    → lx.ahead ≡ b'-' ∷ b'-' ∷ cs
    → Skips lx (advance_while not_newline lx)
unfolding advance_while while_loop not_newline
Skips-line lx cs e =
    let (b, a, f, l) = while_loop_takes not_newline (lx.pos + 1 + 1) cs in
    let stops = Stops-while_loop not_newline (lx.pos + 1 + 1) cs in
    rw e (
      b'-' ∷ b'-' ∷ b,
      (ap (λ k. b'-' ∷ b'-' ∷ k) f, omega (arith, l), refl),
      omega arith,
      λ v rest g h. Trivia.line b v rest a (subst (Stops not_newline) g stops) h,
    )

comment_to_end : (b v r : List ℕ) → NoClose b → [] ≡ v ++ r → Trivia ((b'/' ∷ b'*' ∷ b) ++ v) r
comment_to_end b [] [] n e =
    subst (λ k. Trivia k []) (sym (append-nil (b'/' ∷ b'*' ∷ b))) (Trivia.open_block b n)
comment_to_end b [] (x ∷ r) n e = absurd (ground arith)
comment_to_end b (x ∷ v) r n e = absurd (ground arith)

Skips-block :
    (lx : Lexer) (cs : List ℕ)
    → lx.ahead ≡ b'/' ∷ b'*' ∷ cs
    → Skips lx (move lx (block_loop (lx.pos + 1 + 1) cs))
Skips-block lx cs e =
    let (b, n, ends) = BlockTook-block_loop (lx.pos + 1 + 1) cs in
    elim ends [
      | inl (f, l) ↦
          let rest : List ℕ = (block_loop (lx.pos + 1 + 1) cs).1 in
          let a : List ℕ = b'/' ∷ b'*' ∷ b in
          let split : a ++ b'*' ∷ b'/' ∷ rest ≡ (a ++ b'*' ∷ b'/' ∷ []) ++ rest =
            sym (append_assoc a (b'*' ∷ b'/' ∷ []) rest) in
          let size = length-append a (b'*' ∷ b'/' ∷ []) in
          (
            a ++ b'*' ∷ b'/' ∷ [],
            (e ∙ (ap (λ k. b'/' ∷ b'*' ∷ k) f ∙ split), omega (arith, l, size), refl),
            omega arith,
            λ v r g h.
                subst (λ k. Trivia k r) (sym (append_assoc a (b'*' ∷ b'/' ∷ []) v))
                  (Trivia.block b v r n h),
          )
      | inr (f, z, l) ↦ (
        b'/' ∷ b'*' ∷ b,
        (
          e
              ∙ (ap (λ k. b'/' ∷ b'*' ∷ k) f
                  ∙ (sym (append-nil _) ∙ ap (λ k. (b'/' ∷ b'*' ∷ b) ++ k) (sym z))),
          omega (arith, l),
          refl,
        ),
        omega arith,
        λ v r g h. comment_to_end b v r n (sym z ∙ g),
      )
    ]

dashes :
    (r : List ℕ)
    → (get_or r 0 0 == b'-' && get_or r 1 0 == b'-') ≡ true
    → (cs : List ℕ) × (r ≡ b'-' ∷ b'-' ∷ cs)
dashes [] t = absurd (ground arith)
dashes (c ∷ []) t = absurd (ground arith)
dashes (c ∷ d ∷ cs) t =
    let hc : c ≡ b'-' = ground arith in let hd : d ≡ b'-' = ground arith in (cs, rw (hc, hd) refl)

block_opens :
    (r : List ℕ)
    → (get_or r 0 0 == b'/' && get_or r 1 0 == b'*') ≡ true
    → (cs : List ℕ) × (r ≡ b'/' ∷ b'*' ∷ cs)
block_opens [] t = absurd (ground arith)
block_opens (c ∷ []) t = absurd (ground arith)
block_opens (c ∷ d ∷ cs) t =
    let hc : c ≡ b'/' = ground arith in let hd : d ≡ b'*' = ground arith in (cs, rw (hc, hd) refl)

abbrev place : ℕ → List ℕ → ℕ × List ℕ
place p rest = (p, rest)

block_place :
    (lx : Lexer) (cs : List ℕ)
    → lx.ahead ≡ b'/' ∷ b'*' ∷ cs
    → place (lx.pos + 1 + 1) cs ≡ place (advance (advance lx)).pos (advance (advance lx)).ahead
unfolding advance advance_over
block_place lx cs e = rw e refl

TurnSkips-some :
    (lx : Lexer) (c : ℕ) (cs : List ℕ) → lx.ahead ≡ c ∷ cs → TurnSkips lx (trivia_turn lx)
unfolding trivia_turn advance
TurnSkips-some lx c cs e =
    let going : is_empty lx.ahead ≡ false = ap (λ (k : List ℕ). is_empty k) e in
    let block : Lexer = advance (advance lx) in
    let d : ℕ = get_or lx.ahead 0 0 in
    elim (Bool-cases (is_space d)) [
      | inl t ↦
          let first : d ≡ c = ap (λ (k : List ℕ). get_or k 0 0) e in
          rw (going, t) (Skips-space lx c cs e (subst (λ k. is_space k ≡ true) first t))
      | inr t ↦ elim (Bool-cases (d == b'-' && get_or lx.ahead 1 0 == b'-')) [
        | inl u ↦ let (rest, f) = dashes lx.ahead u in rw (going, t, u) (Skips-line lx rest f)
        | inr u ↦ elim (Bool-cases (d == b'/' && get_or lx.ahead 1 0 == b'*')) [
          | inl v ↦
              let (rest, f) = block_opens lx.ahead v in
              rw (going, t, u, v)
                (subst (λ k. Skips lx (move lx (block_loop k.0 k.1))) (block_place lx rest f)
                  (Skips-block lx rest f))
          | inr v ↦ rw (going, t, u, v) (ground (arith, t, u, v))
        ]
      ]
    ]

nothing_starts : (r : List ℕ) → length r ≤ 0 → starts_trivia r ≡ false
unfolding is_space
nothing_starts [] h = refl
nothing_starts (c ∷ r) h = absurd (omega arith)

TurnSkips-end : (lx : Lexer) → lx.ahead ≡ [] → TurnSkips lx (trivia_turn lx)
unfolding trivia_turn is_space
TurnSkips-end lx e =
    let stop : is_empty lx.ahead ≡ true = ap (λ (k : List ℕ). is_empty k) e in
    rw stop (nothing_starts lx.ahead (omega (arith, ap (λ (k : List ℕ). length k) e)))

TurnSkips-trivia_turn : (lx : Lexer) → TurnSkips lx (trivia_turn lx)
TurnSkips-trivia_turn lx = at_rest lx.ahead refl
  where
    at_rest : (r : List ℕ) → lx.ahead ≡ r → TurnSkips lx (trivia_turn lx)
    at_rest [] e = TurnSkips-end lx e
    at_rest (c ∷ cs) e = TurnSkips-some lx c cs e

-- Enough turns skip all the trivia.
abbrev pub SkipsAll : Lexer → Lexer → Type 0
SkipsAll lx next =
    (w : List ℕ) × Took lx w next × Trivia w next.ahead × (starts_trivia next.ahead ≡ false)

SkipsAll-turn :
    (n : ℕ) (lx : Lexer) (o : Option Lexer)
    → length lx.ahead ≤ suc n
    → TurnSkips lx o
    → ((next : Lexer) → length next.ahead ≤ n → SkipsAll next (trivia_loop n next))
    → SkipsAll lx (elim o [ some next ↦ trivia_loop n next | none ↦ lx ])
SkipsAll-turn n lx none h s more = ([], Took-refl lx, Trivia.nothing lx.ahead, s)
SkipsAll-turn n lx (some next) h (w, took, l, front) more =
    let fewer = ap (λ (k : List ℕ). length k) took.0 ∙ length-append w next.ahead in
    let (v, others, t, s) = more next (omega (arith, fewer)) in
    (w ++ v, Took-trans lx next _ w v took others, front v _ others.0 t, s)

SkipsAll-trivia_loop : (n : ℕ) (lx : Lexer) → length lx.ahead ≤ n → SkipsAll lx (trivia_loop n lx)
unfolding trivia_loop
SkipsAll-trivia_loop zero lx h =
    ([], Took-refl lx, Trivia.nothing lx.ahead, nothing_starts lx.ahead h)
SkipsAll-trivia_loop (suc n) lx h =
    SkipsAll-turn n lx (trivia_turn lx) h (TurnSkips-trivia_turn lx)
      (λ next l. SkipsAll-trivia_loop n next l)

pub SkipsAll-skip_trivia : (lx : Lexer) → SkipsAll lx (skip_trivia lx)
unfolding skip_trivia
SkipsAll-skip_trivia lx = SkipsAll-trivia_loop (length lx.ahead) lx (omega arith)
