-- ===== src/Wal/RoundTrip.antt =====
-- What `WalWriter` writes, `WalReader` reads back (src/storage/wal).
pub mod Words
pub mod Cells
pub mod Columns
pub mod Records
pub mod Calls
