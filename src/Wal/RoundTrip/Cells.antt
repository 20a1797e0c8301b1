-- ===== src/Wal/RoundTrip/Cells.antt =====
-- The cells of an insert or an update are read back, each by its column's type.
use nyxdb.Base.{
  ℕ, ◌<◌, ◌≡◌, refl, ap, Bool, true, false, List, [], ◌∷◌, ◌++◌, none, some, All, arith, length,
  if◌then◌else◌, map, bind-some,
}
use nyxdb.Base.{◌>>=◌ as bind_some}
use nyxdb.Base.Int.{ℤ}
use nyxdb.Base.Words.{u16_mod, u64_mod}
use nyxdb.Bytes.{put_u32, put_u64, to_u32, to_u64, to_i32, to_i64}
use nyxdb.Value.{Value, TypeId, type_code, type_of_code, is_null}
use nyxdb.Value.Fits.{FitsBits, ValueFits, to_u32-lt, to_u64-lt, to_i32_back, to_i64_back}
use nyxdb.Wal.{Column, LoggedColumn}
use nyxdb.Wal.Writer.{put_str, put_typed, put_cell, put_row, put_rows}
use nyxdb.Wal.Reader.{
  read_u32, read_u64, read_str, read_typed, read_nullable, read_cell, byte_bool, read_row,
  read_rows,
}
use nyxdb.Wal.Reader.Monad.{◌>>=◌, ret, read_exact_u8}
use nyxdb.Wal.Reader.Compose.{Reads, read_exact_u8-Reads, map-Reads, bind-Reads, ret-Reads}
use nyxdb.Wal.RoundTrip.Words.{read_u32-Reads, read_u64-Reads, read_str-Reads}

pub i32-Reads :
    (c : ℤ → Value) (x : ℤ)
    → FitsBits 31 x
    → Reads (read_u32 >>= (λ w. ret (c (to_i32 w)))) (put_u32 (to_u32 x)) (c x)
i32-Reads c x h =
    map-Reads read_u32 (λ w. c (to_i32 w)) (put_u32 (to_u32 x)) (to_u32 x) (c x)
      (read_u32-Reads (to_u32 x) (to_u32-lt x)) (ap c (to_i32_back x h))

pub i64-Reads :
    (c : ℤ → Value) (x : ℤ)
    → FitsBits 63 x
    → Reads (read_u64 >>= (λ w. ret (c (to_i64 w)))) (put_u64 (to_u64 x)) (c x)
i64-Reads c x h =
    map-Reads read_u64 (λ w. c (to_i64 w)) (put_u64 (to_u64 x)) (to_u64 x) (c x)
      (read_u64-Reads (to_u64 x) (to_u64-lt x)) (ap c (to_i64_back x h))

pub f64-Reads :
    (x : ℕ) → x < u64_mod → Reads (read_u64 >>= (λ w. ret (Value.f64 w))) (put_u64 x) (Value.f64 x)
f64-Reads x h = map-Reads read_u64 Value.f64 (put_u64 x) x (Value.f64 x) (read_u64-Reads x h) refl

pub string-Reads :
    (x : List ℕ)
    → length x < u16_mod
    → Reads (read_str >>= (λ s. ret (Value.string s))) (put_str x) (Value.string x)
string-Reads x h =
    map-Reads read_str Value.string (put_str x) x (Value.string x) (read_str-Reads x h) refl

pub boolean-Reads :
    (x : Bool)
    → Reads
        (read_exact_u8 >>= (λ b. ret (Value.boolean (byte_bool b))))
        ((if x then 1 else 0) ∷ [])
        (Value.boolean x)
unfolding byte_bool
boolean-Reads true =
    map-Reads read_exact_u8 (λ b. Value.boolean (byte_bool b)) (1 ∷ []) 1 (Value.boolean true)
      (read_exact_u8-Reads 1) refl
boolean-Reads false =
    map-Reads read_exact_u8 (λ b. Value.boolean (byte_bool b)) (0 ∷ []) 0 (Value.boolean false)
      (read_exact_u8-Reads 0) refl

read_typed-put_typed :
    (t : TypeId) (v : Value) (bs : List ℕ)
    → ValueFits v
    → put_typed t v ≡ some bs
    → Reads (read_typed (some t)) bs v
unfolding put_typed read_typed
read_typed-put_typed TypeId.int32 (Value.i32 x) bs h e =
    let b : bs ≡ put_u32 (to_u32 x) = ground arith in rw b (i32-Reads Value.i32 x h)
read_typed-put_typed TypeId.date (Value.date x) bs h e =
    let b : bs ≡ put_u32 (to_u32 x) = ground arith in rw b (i32-Reads Value.date x h)
read_typed-put_typed TypeId.int64 (Value.i64 x) bs h e =
    let b : bs ≡ put_u64 (to_u64 x) = ground arith in rw b (i64-Reads Value.i64 x h)
read_typed-put_typed TypeId.timestamp (Value.timestamp x) bs h e =
    let b : bs ≡ put_u64 (to_u64 x) = ground arith in rw b (i64-Reads Value.timestamp x h)
read_typed-put_typed TypeId.double (Value.f64 x) bs h e =
    let b : bs ≡ put_u64 x = ground arith in rw b (f64-Reads x h)
read_typed-put_typed TypeId.bool (Value.boolean x) bs h e =
    let b : bs ≡ (if x then 1 else 0) ∷ [] = ground arith in rw b (boolean-Reads x)
read_typed-put_typed TypeId.varchar (Value.string x) bs h e =
    let b : bs ≡ put_str x = ground arith in rw b (string-Reads x h)
read_typed-put_typed TypeId.invalid (Value.string x) bs h e =
    let b : bs ≡ put_str x = ground arith in rw b (string-Reads x h)
read_typed-put_typed t v bs h e = absurd (ground arith)

type_of_code-type_code : (t : TypeId) → type_of_code (type_code t) ≡ some t
unfolding type_code type_of_code
type_of_code-type_code TypeId.invalid = refl
type_of_code-type_code _ = refl

-- Null, or a value that fits its words.
abbrev pub CellFits : Value → Type 0
CellFits v = elim (is_null v) as (λ x. Type 0) [ true ↦ Unit {0} | false ↦ ValueFits v ]

read_cell_of_typed :
    (t : TypeId) (v : Value) (bs : List ℕ)
    → ValueFits v
    → bind_some (put_typed t v) (λ b. some (0 ∷ b)) ≡ some bs
    → Reads (read_cell (type_code t)) bs v
unfolding read_cell read_nullable
read_cell_of_typed t v bs h e =
    let (b, eb, es) = bind-some (put_typed t v) (λ b. some (0 ∷ b)) bs e in
    let z : bs ≡ 0 ∷ b = ground arith in
    rw z (
      bind-Reads read_exact_u8 (λ n. read_nullable n (type_code t)) (0 ∷ []) b 0 v
        (read_exact_u8-Reads 0) (rw (type_of_code-type_code t) (read_typed-put_typed t v b h eb)))

pub read_cell-put_cell :
    (t : TypeId) (v : Value) (bs : List ℕ)
    → CellFits v
    → put_cell t v ≡ some bs
    → Reads (read_cell (type_code t)) bs v
unfolding put_cell is_null read_cell read_nullable
read_cell-put_cell t Value.monostate bs h e =
    let b : bs ≡ 1 ∷ [] = ground arith in
    rw b (
      bind-Reads read_exact_u8 (λ n. read_nullable n (type_code t)) (1 ∷ []) [] 1 Value.monostate
        (read_exact_u8-Reads 1) (ret-Reads Value.monostate))
read_cell-put_cell t v bs h e = read_cell_of_typed t v bs h e

abbrev pub logged_header : Column → LoggedColumn
logged_header c = record {
  name = [];
  type = type_code c.type;
  nullable = false;
  max_len = c.max_len;
  default_value = none;
}

pub read_row-put_row :
    (cols : List Column) (row : List Value) (bs : List ℕ)
    → length row ≡ length cols
    → All CellFits row
    → put_row cols row ≡ some bs
    → Reads (read_row (map logged_header cols)) bs row
unfolding put_row read_row
read_row-put_row [] [] bs l h e = let z : bs ≡ [] = ground arith in rw z (ret-Reads [])
read_row-put_row [] (v ∷ row) bs l h e = absurd (omega arith)
read_row-put_row (c ∷ cols) [] bs l h e = absurd (omega arith)
read_row-put_row (c ∷ cols) (v ∷ row) bs l (h, hs) e =
    let (b, eb, e1) =
      bind-some (put_cell c.type v) (λ b. bind_some (put_row cols row) (λ bs. some (b ++ bs))) bs
        e in
    let (bs', ebs, e2) = bind-some (put_row cols row) (λ bs. some (b ++ bs)) bs e1 in
    let z : bs ≡ b ++ bs' = ground arith in
    rw z (
      bind-Reads (read_cell (type_code c.type))
        (λ v. read_row (map logged_header cols) >>= (λ row. ret (v ∷ row))) b bs' v (v ∷ row)
        (read_cell-put_cell c.type v b h eb)
        (map-Reads (read_row (map logged_header cols)) (λ row. v ∷ row) bs' row (v ∷ row)
          (read_row-put_row cols row bs' (omega arith) hs ebs) refl))

-- A row of a batch: a cell for each column, each in its words.
pub record RowFits (cols : List Column) (row : List Value) : Type 0 where
  pub width : length row ≡ length cols
  pub cells : All CellFits row

pub read_rows-put_rows :
    (cols : List Column) (rows : List (List Value)) (bs : List ℕ)
    → All (RowFits cols) rows
    → put_rows cols rows ≡ some bs
    → Reads (read_rows (length rows) (map logged_header cols)) bs rows
unfolding put_rows read_rows
read_rows-put_rows cols [] bs h e = let z : bs ≡ [] = ground arith in rw z (ret-Reads [])
read_rows-put_rows cols (row ∷ rows) bs (h, hs) e =
    let (b, eb, e1) =
      bind-some (put_row cols row) (λ b. bind_some (put_rows cols rows) (λ bs. some (b ++ bs))) bs
        e in
    let (bs', ebs, e2) = bind-some (put_rows cols rows) (λ bs. some (b ++ bs)) bs e1 in
    let z : bs ≡ b ++ bs' = ground arith in
    let rest : Reads (read_rows (length rows) (map logged_header cols)) bs' rows =
      read_rows-put_rows cols rows bs' hs ebs in
    rw z (
      bind-Reads (read_row (map logged_header cols))
        (λ row. read_rows (length rows) (map logged_header cols) >>= (λ rows. ret (row ∷ rows))) b
        bs' row (row ∷ rows) (read_row-put_row cols row b h.width h.cells eb)
        (map-Reads (read_rows (length rows) (map logged_header cols)) (λ rows. row ∷ rows) bs' rows
          (row ∷ rows) rest refl))
