-- ===== src/Executor/Limit.antt =====
-- src/executor/limit.cpp over the chunks of src/executor/chunk.h. A chunk's columns are the list of its
-- rows; the child is what its `next` gives, call by call, and then nothing.
pub mod Chunks
pub mod Rows
mod Tests
use nyxdb.Base.{
  ℕ, zero, suc, ◌+◌, ◌-◌, Bool, true, false, ◌&&◌, ◌||◌, List, [], ◌∷◌, ◌++◌, map, Option, none,
  some, ◌==◌, leb, ltb, if◌then◌else◌, length, take, drop, get_elem?,
}
use nyxdb.Common.Result.{Result}
use nyxdb.Executor.SelectionVector.{SelectionVector, for_each, truncate, drop_prefix}

pub record Chunk (A : Type 0) : Type 0 where
  pub rows : List A
  pub sel : Option SelectionVector

pub record Limit : Type 0 where
  pub offset : ℕ
  pub limit : ℕ
  pub emitted : ℕ
  pub skipped : ℕ
  pub exhausted : Bool

abbrev pub new_limit : ℕ → ℕ → Limit
new_limit offset limit = record {
  offset = offset;
  limit = limit;
  emitted = 0;
  skipped = 0;
  exhausted = false;
}

abbrev pub Child : Type 0 → Type 0
Child A = List (Result (Chunk A))

module _ {A : Type 0} where
  unfoldable pub size_of : List A → Option SelectionVector → ℕ
  size_of rows none = length rows
  size_of rows (some sv) = sv.size

  unfoldable pub logical_size : Chunk A → ℕ
  unfolding size_of
  logical_size c = size_of c.rows c.sel

  unfoldable pub resize_of : ℕ → List A → Option SelectionVector → Chunk A
  resize_of k rows none = record { rows = take k rows; sel = none }
  resize_of k rows (some sv) = record { rows = rows; sel = some (truncate k sv) }

  unfoldable pub resize : ℕ → Chunk A → Chunk A
  unfolding resize_of
  resize k c = resize_of k c.rows c.sel

  unfoldable pub drop_chunk : ℕ → List A → Option SelectionVector → Chunk A
  drop_chunk n rows none = record { rows = drop n rows; sel = none }
  drop_chunk n rows (some sv) = record { rows = rows; sel = some (drop_prefix n sv) }

  unfoldable pub drop_rows : ℕ → Chunk A → Chunk A
  unfolding drop_chunk
  drop_rows n c = drop_chunk n c.rows c.sel

  -- The rows of a chunk as an operator reads them; `none` is a selected row that the chunk has not.
  abbrev pub selected : List A → Option SelectionVector → List (Option A)
  selected rows none = map some rows
  selected rows (some sv) = map (get_elem? rows) (for_each sv)

  abbrev pub logical_rows : Chunk A → List (Option A)
  logical_rows c = selected c.rows c.sel

  -- The end of a turn of the loop, for a chunk behind the offset.
  unfoldable pub emit : Limit → Chunk A → Child A → Result (Option (Chunk A)) × Limit × Child A
  emit s chunk rest =
      let n = logical_size chunk in
      if leb n (s.limit - s.emitted)
      then (
        Result.ok (some chunk),
        record s { emitted = s.emitted + n; exhausted = s.exhausted || s.emitted + n == s.limit },
        rest,
      )
      else (
        Result.ok (some (resize (s.limit - s.emitted) chunk)),
        record s { emitted = s.limit; exhausted = true },
        rest,
      )

  unfoldable pub next_loop : Limit → Child A → Result (Option (Chunk A)) × Limit × Child A
  next_loop s [] = (Result.ok none, record s { exhausted = true }, [])
  next_loop s (Result.err message ∷ rest) = (Result.err message, s, rest)
  next_loop s (Result.ok chunk ∷ rest) =
      let skip_left = s.offset - s.skipped in
      let skipping = next_loop (record s { skipped = s.skipped + logical_size chunk }) rest in
      if ltb s.skipped s.offset
      then (if leb (logical_size chunk) skip_left
          then skipping
          else emit (record s { skipped = s.offset }) (drop_rows skip_left chunk) rest)
      else emit s chunk rest

  unfoldable pub next : Limit → Child A → Result (Option (Chunk A)) × Limit × Child A
  next s child =
      if s.exhausted
      then (Result.ok none, s, child)
      else if leb s.limit s.emitted
      then (Result.ok none, record s { exhausted = true }, child)
      else next_loop s child
