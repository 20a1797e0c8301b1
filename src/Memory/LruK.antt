-- ===== src/Memory/LruK.antt =====
-- src/storage/memory/lru_k_replacer.h and lru_k_replacer.cpp.
pub mod Counting
pub mod Invariant
pub mod Victim
pub mod Calls
use nyxdb.Base.{
  ℕ, zero, suc, ◌+◌, ◌-◌, ◌%◌, Bool, true, false, not, ◌&&◌, ◌||◌, List, [], ◌∷◌, ◌++◌, Option,
  none, some, ltb, ◌==◌, if◌then◌else◌, length, get_or, set,
}
use nyxdb.Base.Words.{u32_mod, u64_mod}

pub record FrameData : Type 0 where
  pub history : List ℕ
  pub evictable : Bool
  pub tracked : Bool

pub record LruKReplacer : Type 0 where
  pub k : ℕ
  pub counter : ℕ
  pub evictable_count : ℕ
  pub frames : List FrameData

abbrev pub blank_frame : FrameData
blank_frame = record { history = []; evictable = false; tracked = false }

-- `frames_[id]`. Out of range it is undefined behaviour, and here a frame that is not tracked.
abbrev pub frame : LruKReplacer → ℕ → FrameData
frame r id = get_or r.frames id blank_frame

-- `++` and `--` on words of 64 bits.
abbrev pub inc64 : ℕ → ℕ
inc64 n = (n + 1) % u64_mod

abbrev pub dec64 : ℕ → ℕ
dec64 n = (n + u64_mod - 1) % u64_mod

abbrev pub replicate_frames : ℕ → List FrameData
replicate_frames zero = []
replicate_frames (suc n) = blank_frame ∷ replicate_frames n

unfoldable pub make : ℕ → ℕ → LruKReplacer
make num_frames k = record {
  k = k;
  counter = 0;
  evictable_count = 0;
  frames = replicate_frames num_frames;
}

-- `history.front()`, undefined on an empty list.
abbrev pub front : List ℕ → ℕ
front [] = 0
front (t ∷ ts) = t

abbrev pub pop_front : List ℕ → List ℕ
pop_front [] = []
pop_front (t ∷ ts) = ts

unfoldable pub pin : LruKReplacer → ℕ → LruKReplacer
pin r id =
    let f = frame r id in
    if not f.tracked
    then r
    else if f.evictable
    then record r {
      frames = set r.frames id (record f { evictable = false });
      evictable_count = dec64 r.evictable_count;
    }
    else r

unfoldable pub unpin : LruKReplacer → ℕ → LruKReplacer
unpin r id =
    let f = frame r id in
    if not f.tracked
    then r
    else if not f.evictable
    then record r {
      frames = set r.frames id (record f { evictable = true });
      evictable_count = inc64 r.evictable_count;
    }
    else r

-- The history with the access `t`, cut to `k` entries.
unfoldable pub push_access : ℕ → ℕ → List ℕ → List ℕ
push_access k t history =
    let pushed = history ++ t ∷ [] in if ltb k (length pushed) then pop_front pushed else pushed

unfoldable pub record_access : LruKReplacer → ℕ → LruKReplacer
unfolding push_access
record_access r id =
    let f = frame r id in
    let t = inc64 r.counter in
    record r {
      counter = t;
      frames = set r.frames id (record f { tracked = true; history = push_access r.k t f.history });
    }

unfoldable pub remove : LruKReplacer → ℕ → LruKReplacer
remove r id =
    let f = frame r id in
    if not f.tracked then r else record r {
      evictable_count = if f.evictable then dec64 r.evictable_count else r.evictable_count;
      frames = set r.frames id blank_frame;
    }

unfoldable pub size : LruKReplacer → ℕ
size r = r.evictable_count

-- The locals of `victim`: the best frame so far of those with fewer than k accesses, and of the
-- others. `none` is a `has_` flag that is not set.
pub record Scan : Type 0 where
  pub under_k : Option (ℕ × ℕ)
  pub at_k : Option (ℕ × ℕ)

-- `if (!has || front < ts)`: the frame and its timestamp replace those found so far.
unfoldable pub better : Option (ℕ × ℕ) → ℕ → ℕ → Option (ℕ × ℕ)
better none i t = some (i, t)
better (some (j, s)) i t = if ltb t s then some (i, t) else some (j, s)

-- The body of the loop of `victim` at frame `i`.
unfoldable pub scan_frame : ℕ → ℕ → FrameData → Scan → Scan
unfolding better
scan_frame k i f s =
    if not f.tracked || not f.evictable
    then s
    else if ltb (length f.history) k
    then record s { under_k = better s.under_k (i % u32_mod) (front f.history) }
    else record s { at_k = better s.at_k (i % u32_mod) (front f.history) }

unfoldable pub scan_loop : ℕ → ℕ → List FrameData → Scan → Scan
scan_loop k i [] s = s
scan_loop k i (f ∷ fs) s = scan_loop k (suc i) fs (scan_frame k i f s)

-- `has_under_k ? under_k_victim : k_victim`, which is 0 where neither flag is set.
unfoldable pub chosen : Scan → ℕ
chosen s = elim s.under_k [ some (i, _) ↦ i | none ↦ elim s.at_k [ some (i, _) ↦ i | none ↦ 0 ] ]

abbrev pub no_frame : Scan
no_frame = record { under_k = none; at_k = none }

-- The frame that leaves, if any, and the replacer without it.
unfoldable pub victim : LruKReplacer → Option ℕ × LruKReplacer
unfolding scan_loop chosen remove
victim r =
    if r.evictable_count == 0
    then (none, r)
    else (let out = chosen (scan_loop r.k 0 r.frames no_frame) in (some out, remove r out))
