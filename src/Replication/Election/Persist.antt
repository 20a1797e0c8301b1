-- ===== src/Replication/Election/Persist.antt =====
-- The state file: what a restart finds again.
use nyxdb.Base.{
  ℕ, ◌-◌, ◌%◌, ◌^◌, ◌<◌, ◌≡◌, refl, Bool, true, false, ◌&&◌, ◌⊎◌, inl, inr, Bool-cases, Option,
  List, [], ◌∷◌, none, some, arith, ◌==◌, if◌then◌else◌, length, take, subst, ap, take-append_exact,
  ◌++◌,
}
use mathlib.Core.List.{append-nil, append_assoc}
use nyxdb.Base.Words.{u16_mod, u64_mod}
use nyxdb.Bytes.Reader.{
  ok, err, read_bytes, read_u64, read_u16, read_bytes-append, read_u16-put_u16, read_u64-put_u64,
}
use nyxdb.Base.Strings.{is_empty}
use nyxdb.Wire.{encode_str, encode_u16, encode_u64}
use nyxdb.Replication.Election.{
  Role, ConfigRole, Node, FileCalls, stored, saved_file, state_bytes, persist_state,
}

-- The `read` calls of `load_state_`: the header of ten bytes, then the id of `vlen` bytes, which
-- is cleared if it is cut short. With an empty id the field keeps its value.
unfoldable pub load_bytes : Node → List ℕ → Node
load_bytes n bytes = elim (read_u64 bytes) [
  | err e ↦ n
  | ok term rest ↦ elim (read_u16 rest) [
    | err e ↦ n
    | ok vlen name ↦
        if vlen == 0 then record n { current_term = term } else elim (read_bytes vlen name) [
          | ok voted end ↦ record n { current_term = term; voted_for = voted }
          | err e ↦ record n { current_term = term; voted_for = [] }
        ]
  ]
]

-- `load_state_`; a file that cannot be opened changes nothing.
unfoldable pub load_state : Node → Node
unfolding load_bytes
load_state n = elim n.state_file [ none ↦ n | some bytes ↦ load_bytes n bytes ]

-- `start`, before the thread runs.
unfoldable pub start : Node → Node
start n =
    let n' = load_state n in
    elim n'.config.role [
      | ConfigRole.leader ↦ record n' {
        role = Role.leader;
        current_term = if n'.current_term == 0 then 1 else n'.current_term;
        current_leader = n'.config.node_id;
      }
      | _ ↦ n'
    ]

length-zero : (xs : List ℕ) → length xs ≡ 0 → xs ≡ []
length-zero [] h = refl
length-zero (x ∷ xs) h = absurd (omega arith)

-- All calls of a `persist_state_` on the file system succeed, and the writes are whole.
abbrev pub is_complete : FileCalls → Bool
is_complete calls =
    calls.opens
    && (calls.header_unwritten == 0
        && (calls.name_unwritten == 0 && (calls.syncs && calls.renames)))

stored_all : (k : ℕ) (xs : List ℕ) → k ≡ 0 → stored k xs ≡ xs
unfolding stored
stored_all k xs e =
    let all : length xs - k ≡ length xs = omega arith in
    rw all (subst (λ ys. take (length xs) ys ≡ xs) (append-nil xs) (take-append_exact xs []))

name_all : (k : ℕ) (xs : List ℕ) → k ≡ 0 → (if is_empty xs then [] else stored k xs) ≡ xs
name_all k [] e = refl
name_all k (x ∷ xs) e = stored_all k (x ∷ xs) e

saved_file_closed :
    (calls : FileCalls) (file : Option (List ℕ)) (term : ℕ) (voted : List ℕ)
    → (calls.opens && calls.renames) ≡ false
    → saved_file calls file term voted ≡ file
unfolding saved_file
saved_file_closed calls file term voted h = rw h refl

pub saved_file-is_complete :
    (calls : FileCalls) (file : Option (List ℕ)) (term : ℕ) (voted : List ℕ)
    → is_complete calls ≡ true
    → saved_file calls file term voted ≡ some (state_bytes term voted)
unfolding saved_file state_bytes encode_str
saved_file-is_complete calls file term voted h =
    let opened : calls.opens ≡ true = ground arith in
    let synced : calls.syncs ≡ true = ground arith in
    let renamed : calls.renames ≡ true = ground arith in
    let header = encode_u64 term ++ encode_u16 (length voted % u16_mod) in
    let whole = stored_all calls.header_unwritten header (ground arith) in
    let name = name_all calls.name_unwritten voted (ground arith) in
    rw (opened, synced, renamed, whole, name)
      (ap (λ bytes. some bytes)
        (append_assoc (encode_u64 term) (encode_u16 (length voted % u16_mod)) voted))

-- What is in the state file behind a `persist_state_`: the new state where all calls succeed, what
-- was there where the file cannot be opened or renamed, and nothing known where a `write` or
-- `fsync` fails.
abbrev pub FileAfter : FileCalls → Option (List ℕ) → ℕ → List ℕ → Option (List ℕ) → Type 0
FileAfter calls file term voted after =
    ((is_complete calls ≡ true) × (after ≡ some (state_bytes term voted)))
    ⊎ (((calls.opens && calls.renames ≡ false) × (after ≡ file))
        ⊎ ((calls.opens && calls.renames ≡ true) × (is_complete calls ≡ false)))

pub FileAfter-saved_file :
    (calls : FileCalls) (file : Option (List ℕ)) (term : ℕ) (voted : List ℕ)
    → FileAfter calls file term voted (saved_file calls file term voted)
FileAfter-saved_file calls file term voted = elim (Bool-cases (calls.opens && calls.renames)) [
  | inl t ↦ elim (Bool-cases (is_complete calls)) [
    | inl c ↦ inl (c, saved_file-is_complete calls file term voted c)
    | inr c ↦ inr (inr (t, c))
  ]
  | inr t ↦ inr (inl (t, saved_file_closed calls file term voted t))
]

pub load_state-state_bytes :
    (n : Node) (term : ℕ) (voted : List ℕ)
    → term < u64_mod
    → length voted < u16_mod
    → n.voted_for ≡ []
    → let saved : Node = record n { state_file = some (state_bytes term voted) } in
      load_state saved ≡ record saved { current_term = term; voted_for = voted }
unfolding load_state state_bytes encode_str
load_state-state_bytes n term voted ht hv e =
    let fits : length voted % 2 ^ 16 ≡ length voted = omega arith in
    ground (
      arith,
      fits,
      read_u64-put_u64 term (encode_str voted) ht,
      read_u16-put_u16 (length voted) voted hv,
      append-nil voted,
      read_bytes-append voted [] (length voted) refl,
      length-zero voted,
    )

-- What a `persist_state_` whose calls all succeed saved, `load_state_` puts into a fresh node, for
-- a 64-bit term and an id of less than 65536 bytes.
pub load_state-persist_state :
    (calls : FileCalls) (n : Node) (term : ℕ) (voted : List ℕ)
    → is_complete calls ≡ true
    → term < u64_mod
    → length voted < u16_mod
    → n.voted_for ≡ []
    → load_state (persist_state calls n term voted)
      ≡ record (persist_state calls n term voted) { current_term = term; voted_for = voted }
unfolding persist_state
load_state-persist_state calls n term voted c ht hv e =
    rw (saved_file-is_complete calls n.state_file term voted c)
      (load_state-state_bytes n term voted ht hv e)
