-- ===== src/Executor/Limit/Chunks.antt =====
-- The rows of a chunk of src/executor/chunk.h, and what `resize` and `drop_prefix` leave of them.
use nyxdb.Base.{
  ℕ, zero, suc, ◌≤◌, ◌≡◌, refl, sym, ap, ◌∙◌, List, [], ◌∷◌, map, Option, none, some, length, take,
  drop, get_elem?,
}
use nyxdb.Executor.SelectionVector.{SelectionVector, for_each}
use nyxdb.Executor.SelectionVector.Views.{IsValid, for_each-truncate, for_each-drop_prefix}
use nyxdb.Executor.Limit.{
  Chunk, logical_size, resize, drop_rows, resize_of, drop_chunk, selected, logical_rows,
}

abbrev pub ValidSel : Option SelectionVector → Type 0
ValidSel none = Unit {0}
ValidSel (some sv) = IsValid sv

length-map : {B C : Type 0} (f : B → C) (xs : List B) → length (map f xs) ≡ length xs
length-map f [] = refl
length-map f (x ∷ xs) = ap suc (length-map f xs)

take-map : {B C : Type 0} (f : B → C) (k : ℕ) (xs : List B) → map f (take k xs) ≡ take k (map f xs)
take-map f zero xs = refl
take-map f (suc k) [] = refl
take-map f (suc k) (x ∷ xs) = ap (λ r. f x ∷ r) (take-map f k xs)

drop-map : {B C : Type 0} (f : B → C) (k : ℕ) (xs : List B) → map f (drop k xs) ≡ drop k (map f xs)
drop-map f zero xs = refl
drop-map f (suc k) [] = refl
drop-map f (suc k) (x ∷ xs) = drop-map f k xs

module _ {A : Type 0} where
  abbrev pub IsChunk : Chunk A → Type 0
  IsChunk c = ValidSel c.sel

  pub logical_size-rows : (c : Chunk A) → IsChunk c → logical_size c ≡ length (logical_rows c)
  unfolding logical_size
  logical_size-rows c h = sized c.rows c.sel h
    where
      sized :
          (rows : List A) (o : Option SelectionVector)
          → ValidSel o
          → logical_size (record { rows = rows; sel = o }) ≡ length (selected rows o)
      sized rows none v = sym (length-map some rows)
      sized rows (some sv) v = v.counts ∙ sym (length-map (get_elem? rows) (for_each sv))

  pub resize-rows :
      (k : ℕ) (c : Chunk A)
      → IsChunk c
      → (logical_rows (resize k c) ≡ take k (logical_rows c)) × IsChunk (resize k c)
  unfolding resize
  resize-rows k c h = resized c.rows c.sel h
    where
      resized :
          (rows : List A) (o : Option SelectionVector)
          → ValidSel o
          → (logical_rows (resize_of k rows o) ≡ take k (selected rows o))
            × IsChunk (resize_of k rows o)
      resized rows none v = (take-map some k rows, tt)
      resized rows (some sv) v =
          let (e, w) = for_each-truncate k sv v in
          (ap (map (get_elem? rows)) e ∙ take-map (get_elem? rows) k (for_each sv), w)

  pub drop_rows-rows :
      (n : ℕ) (c : Chunk A)
      → IsChunk c
      → n ≤ logical_size c
      → (logical_rows (drop_rows n c) ≡ drop n (logical_rows c)) × IsChunk (drop_rows n c)
  unfolding drop_rows logical_size
  drop_rows-rows n c h l = dropped c.rows c.sel h l
    where
      dropped :
          (rows : List A) (o : Option SelectionVector)
          → ValidSel o
          → n ≤ logical_size (record { rows = rows; sel = o })
          → (logical_rows (drop_chunk n rows o) ≡ drop n (selected rows o))
            × IsChunk (drop_chunk n rows o)
      dropped rows none v l = (drop-map some n rows, tt)
      dropped rows (some sv) v l =
          let (e, w) = for_each-drop_prefix n sv v l in
          (ap (map (get_elem? rows)) e ∙ drop-map (get_elem? rows) n (for_each sv), w)
