-- ===== src/Wal/RoundTrip/Columns.antt =====
-- The columns of a schema are read back, whole from a CREATE record and by type and length from a
-- batch; and so are the row numbers of a delete.
use nyxdb.Base.{
  ℕ, ◌<◌, ◌≡◌, refl, sym, ap, ap₂, Bool, true, false, List, [], ◌∷◌, ◌++◌, Option, none, some, All,
  length, if◌then◌else◌, map, drop, get_or,
}
use nyxdb.Base.Words.{u16_mod, u64_mod}
use nyxdb.Bytes.{put_u16, put_u64, get_u16}
use nyxdb.Bytes.RoundTrip.{get_u16-put_u16}
use nyxdb.Value.{Value, type_code, type_of_code}
use nyxdb.Value.Fits.{ValueFits}
use nyxdb.Wal.{Column, LoggedColumn}
use nyxdb.Wal.Writer.{
  put_str, put_default_value, put_default, put_column, put_columns, put_col_header, put_col_headers,
  put_indices, put_counted,
}
use nyxdb.Wal.Reader.{
  read_default_value, read_default, read_column, read_columns, read_col_header, read_col_headers,
  read_u64, read_indices, read_counted, byte_bool,
}
use nyxdb.Wal.Reader.Monad.{◌>>=◌, ret, read_exact, read_exact_u8}
use nyxdb.Wal.Reader.Compose.{
  Reads, read_exact-Reads, read_exact_u8-Reads, map-Reads, bind-Reads, ret-Reads,
}
use nyxdb.Wal.RoundTrip.Words.{read_u64-Reads}
use nyxdb.Wal.RoundTrip.Cells.{
  i32-Reads, i64-Reads, f64-Reads, string-Reads, boolean-Reads, logged_header,
}

read_default_of_tag :
    (t : ℕ) (bs : List ℕ) (v : Value)
    → Reads (read_default_value (type_of_code t)) bs v
    → Reads (read_default 1) (t ∷ bs) (some v)
unfolding read_default
read_default_of_tag t bs v h =
    bind-Reads read_exact_u8 (λ t. read_default_value (type_of_code t) >>= (λ v. ret (some v)))
      (t ∷ []) bs t (some v) (read_exact_u8-Reads t)
      (map-Reads (read_default_value (type_of_code t)) some bs v (some v) h refl)

read_default-put_default_value :
    (v : Value) → ValueFits v → Reads (read_default 1) (put_default_value v) (some v)
unfolding put_default_value read_default_value type_of_code
read_default-put_default_value Value.monostate h = elim h [ ]
read_default-put_default_value (Value.i32 x) h =
    read_default_of_tag 1 _ (Value.i32 x) (i32-Reads Value.i32 x h)
read_default-put_default_value (Value.i64 x) h =
    read_default_of_tag 2 _ (Value.i64 x) (i64-Reads Value.i64 x h)
read_default-put_default_value (Value.f64 x) h =
    read_default_of_tag 3 _ (Value.f64 x) (f64-Reads x h)
read_default-put_default_value (Value.string x) h =
    read_default_of_tag 4 _ (Value.string x) (string-Reads x h)
read_default-put_default_value (Value.boolean x) h =
    read_default_of_tag 5 _ (Value.boolean x) (boolean-Reads x)
read_default-put_default_value (Value.date x) h =
    read_default_of_tag 6 _ (Value.date x) (i32-Reads Value.date x h)
read_default-put_default_value (Value.timestamp x) h =
    read_default_of_tag 7 _ (Value.timestamp x) (i64-Reads Value.timestamp x h)

-- No default, or one that is not null and fits its words.
abbrev pub DefaultFits : Option Value → Type 0
DefaultFits none = Unit {0}
DefaultFits (some v) = ValueFits v

read_default-put_default :
    (g : Option Value → LoggedColumn) (d : Option Value)
    → DefaultFits d
    → Reads (read_exact_u8 >>= (λ n. read_default n >>= (λ d. ret (g d)))) (put_default d) (g d)
unfolding put_default read_default
read_default-put_default g none h =
    bind-Reads read_exact_u8 (λ n. read_default n >>= (λ d. ret (g d))) (0 ∷ []) [] 0 (g none)
      (read_exact_u8-Reads 0) (ret-Reads (g none))
read_default-put_default g (some v) h =
    bind-Reads read_exact_u8 (λ n. read_default n >>= (λ d. ret (g d))) (1 ∷ [])
      (put_default_value v) 1 (g (some v)) (read_exact_u8-Reads 1)
      (map-Reads (read_default 1) g (put_default_value v) (some v) (g (some v))
        (read_default-put_default_value v h) refl)

-- A column whose name and length fit 16 bits, with no default or one that fits.
pub record ColumnFits (c : Column) : Type 0 where
  pub name : length c.name < u16_mod
  pub max_len : c.max_len < u16_mod
  pub default_value : DefaultFits c.default_value

abbrev pub logged_column : Column → LoggedColumn
logged_column c = record {
  name = c.name;
  type = type_code c.type;
  nullable = c.nullable;
  max_len = c.max_len;
  default_value = c.default_value;
}

byte_bool_of_if : (b : Bool) → byte_bool (if b then 1 else 0) ≡ b
unfolding byte_bool
byte_bool_of_if true = refl
byte_bool_of_if false = refl

abbrev col_hdr : Column → List ℕ
col_hdr c =
    type_code c.type
    ∷ (if c.nullable then 1 else 0)
    ∷ (put_u16 c.max_len ++ put_u16 (length c.name))

abbrev column_of : List ℕ → List ℕ → Option Value → LoggedColumn
column_of hdr name d = record {
  name = name;
  type = get_or hdr 0 0;
  nullable = byte_bool (get_or hdr 1 0);
  max_len = get_u16 (drop 2 hdr);
  default_value = d;
}

column_of_hdr :
    (c : Column) (d : Option Value)
    → c.max_len < u16_mod
    → column_of (col_hdr c) c.name d ≡ record {
      name = c.name;
      type = type_code c.type;
      nullable = c.nullable;
      max_len = c.max_len;
      default_value = d;
    }
unfolding put_u16 get_u16
column_of_hdr c d h =
    ap₂
      (λ b m. record {
        name = c.name;
        type = type_code c.type;
        nullable = b;
        max_len = m;
        default_value = d;
      })
      (byte_bool_of_if c.nullable) (get_u16-put_u16 c.max_len h)

pub read_column-put_column :
    (c : Column) → ColumnFits c → Reads read_column (put_column c) (logged_column c)
unfolding put_column put_str read_column put_u16
read_column-put_column c h = rw (sym (column_of_hdr c c.default_value h.max_len)) (
    bind-Reads (read_exact 6)
      (λ hdr.
        read_exact (get_u16 (drop 4 hdr))
        >>= (λ name. read_exact_u8 >>= (λ n. read_default n >>= (λ d. ret (column_of hdr name d)))))
      (col_hdr c) (c.name ++ put_default c.default_value) (col_hdr c)
      (column_of (col_hdr c) c.name c.default_value) (read_exact-Reads (col_hdr c) 6 refl)
      (bind-Reads (read_exact (get_u16 (put_u16 (length c.name))))
        (λ name.
          read_exact_u8 >>= (λ n. read_default n >>= (λ d. ret (column_of (col_hdr c) name d))))
        c.name (put_default c.default_value) c.name (column_of (col_hdr c) c.name c.default_value)
        (read_exact-Reads c.name _ (get_u16-put_u16 (length c.name) h.name))
        (read_default-put_default (column_of (col_hdr c) c.name) c.default_value h.default_value)))

pub read_columns-put_columns :
    (cols : List Column)
    → All ColumnFits cols
    → Reads (read_columns (length cols)) (put_columns cols) (map logged_column cols)
unfolding read_columns put_columns
read_columns-put_columns [] h = ret-Reads []
read_columns-put_columns (c ∷ cols) (h, hs) =
    bind-Reads read_column (λ c. read_columns (length cols) >>= (λ cols. ret (c ∷ cols)))
      (put_column c) (put_columns cols) (logged_column c) (map logged_column (c ∷ cols))
      (read_column-put_column c h)
      (map-Reads (read_columns (length cols)) (λ cs. logged_column c ∷ cs) (put_columns cols)
        (map logged_column cols) (map logged_column (c ∷ cols)) (read_columns-put_columns cols hs)
        refl)

read_col_header-put_col_header :
    (c : Column) → c.max_len < u16_mod → Reads read_col_header (put_col_header c) (logged_header c)
unfolding read_col_header put_col_header put_u16 get_u16
read_col_header-put_col_header c h =
    map-Reads (read_exact 3)
      (λ hdr. record {
        name = [];
        type = get_or hdr 0 0;
        nullable = false;
        max_len = get_u16 (drop 1 hdr);
        default_value = none;
      })
      (type_code c.type ∷ put_u16 c.max_len) (type_code c.type ∷ put_u16 c.max_len)
      (logged_header c) (read_exact-Reads (type_code c.type ∷ put_u16 c.max_len) 3 refl)
      (ap
        (λ m. record {
          name = [];
          type = type_code c.type;
          nullable = false;
          max_len = m;
          default_value = none;
        })
        (get_u16-put_u16 c.max_len h))

pub read_col_headers-put_col_headers :
    (cols : List Column)
    → All ColumnFits cols
    → Reads (read_col_headers (length cols)) (put_col_headers cols) (map logged_header cols)
unfolding read_col_headers put_col_headers
read_col_headers-put_col_headers [] h = ret-Reads []
read_col_headers-put_col_headers (c ∷ cols) (h, hs) =
    bind-Reads read_col_header (λ c. read_col_headers (length cols) >>= (λ cols. ret (c ∷ cols)))
      (put_col_header c) (put_col_headers cols) (logged_header c) (map logged_header (c ∷ cols))
      (read_col_header-put_col_header c h.max_len)
      (map-Reads (read_col_headers (length cols)) (λ cs. logged_header c ∷ cs)
        (put_col_headers cols) (map logged_header cols) (map logged_header (c ∷ cols))
        (read_col_headers-put_col_headers cols hs) refl)

abbrev pub IsU64 : ℕ → Type 0
IsU64 i = i < u64_mod

read_indices-put_indices :
    (is : List ℕ) → All IsU64 is → Reads (read_indices (length is)) (put_indices is) is
unfolding read_indices put_indices
read_indices-put_indices [] h = ret-Reads []
read_indices-put_indices (i ∷ is) (h, hs) =
    bind-Reads read_u64 (λ i. read_indices (length is) >>= (λ is. ret (i ∷ is))) (put_u64 i)
      (put_indices is) i (i ∷ is) (read_u64-Reads i h)
      (map-Reads (read_indices (length is)) (λ is. i ∷ is) (put_indices is) is (i ∷ is)
        (read_indices-put_indices is hs) refl)

-- Row numbers that fit 64 bits, and not more of them than that.
abbrev pub IndicesFit : List ℕ → Type 0
IndicesFit is = (length is < u64_mod) × All IsU64 is

pub read_counted-put_counted :
    (is : List ℕ) → IndicesFit is → Reads read_counted (put_counted is) is
unfolding read_counted put_counted
read_counted-put_counted is (h, hs) =
    bind-Reads read_u64 (λ n. read_indices n) (put_u64 (length is)) (put_indices is) (length is) is
      (read_u64-Reads (length is) h) (read_indices-put_indices is hs)
