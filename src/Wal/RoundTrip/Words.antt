-- ===== src/Wal/RoundTrip/Words.antt =====
-- The words and strings of a record are read back.
use nyxdb.Base.{ℕ, ◌<◌, refl, sym, List, length}
use nyxdb.Base.Words.{u16_mod, u32_mod, u64_mod}
use nyxdb.Bytes.{put_u16, put_u32, put_u64, get_u16, get_u32, get_u64}
use nyxdb.Bytes.RoundTrip.{
  get_u16-put_u16, get_u32-put_u32, get_u64-put_u64, length-put_u16, length-put_u32, length-put_u64,
}
use nyxdb.Wal.Writer.{put_str}
use nyxdb.Wal.Reader.{read_u16, read_u32, read_u64, read_str}
use nyxdb.Wal.Reader.Monad.{read_exact}
use nyxdb.Wal.Reader.Compose.{Reads, read_exact-Reads, map-Reads, bind-Reads}

pub read_u16-Reads : (v : ℕ) → v < u16_mod → Reads read_u16 (put_u16 v) v
unfolding read_u16
read_u16-Reads v h =
    map-Reads (read_exact 2) get_u16 (put_u16 v) (put_u16 v) v
      (read_exact-Reads (put_u16 v) 2 (sym (length-put_u16 v))) (get_u16-put_u16 v h)

pub read_u32-Reads : (v : ℕ) → v < u32_mod → Reads read_u32 (put_u32 v) v
unfolding read_u32
read_u32-Reads v h =
    map-Reads (read_exact 4) get_u32 (put_u32 v) (put_u32 v) v
      (read_exact-Reads (put_u32 v) 4 (sym (length-put_u32 v))) (get_u32-put_u32 v h)

pub read_u64-Reads : (v : ℕ) → v < u64_mod → Reads read_u64 (put_u64 v) v
unfolding read_u64
read_u64-Reads v h =
    map-Reads (read_exact 8) get_u64 (put_u64 v) (put_u64 v) v
      (read_exact-Reads (put_u64 v) 8 (sym (length-put_u64 v))) (get_u64-put_u64 v h)

pub read_str-Reads : (s : List ℕ) → length s < u16_mod → Reads read_str (put_str s) s
unfolding read_str put_str
read_str-Reads s h =
    bind-Reads read_u16 (λ n. read_exact n) (put_u16 (length s)) s (length s) s
      (read_u16-Reads (length s) h) (read_exact-Reads s (length s) refl)
