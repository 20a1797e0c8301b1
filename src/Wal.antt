-- ===== src/Wal.antt =====
-- src/storage/wal: the log that a node writes before it changes its tables. A file is the list of
-- its bytes.
pub mod Reader
pub mod Writer
pub mod RoundTrip
pub mod Torn
use nyxdb.Base.{ℕ, Bool, true, false, List, [], ◌∷◌, Option, none, some}
use nyxdb.Value.{Value, TypeId}

abbrev pub wal_magic : List ℕ
wal_magic = 78 ∷ 87 ∷ 65 ∷ 76 ∷ []

abbrev pub wal_version : ℕ
wal_version = 0x0001

abbrev pub wal_header_size : ℕ
wal_header_size = 6

abbrev pub wal_type_insert : ℕ
wal_type_insert = 0x01

abbrev pub wal_type_create : ℕ
wal_type_create = 0x02

abbrev pub wal_type_delete : ℕ
wal_type_delete = 0x03

abbrev pub wal_type_update : ℕ
wal_type_update = 0x04

abbrev pub wal_type_segment_flush : ℕ
wal_type_segment_flush = 0x05

-- A column of a schema, in src/storage/disk/schema.h.
pub record Column : Type 0 where
  pub name : List ℕ
  pub type : TypeId
  pub nullable : Bool
  pub max_len : ℕ
  pub default_value : Option Value

-- A column as the reader makes it: its type is the byte itself, since the cast admits any.
pub record LoggedColumn : Type 0 where
  pub name : List ℕ
  pub type : ℕ
  pub nullable : Bool
  pub max_len : ℕ
  pub default_value : Option Value

pub record WalRecord : Type 0 where
  pub type : ℕ
  pub byte_offset : ℕ
  pub table_name : List ℕ
  pub schema : List LoggedColumn
  pub rows : List (List Value)
  pub row_indices : List ℕ
  pub sealed_row_count : ℕ
