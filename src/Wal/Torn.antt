-- ===== src/Wal/Torn.antt =====
-- What is left of a log when a write is cut short, and what `WalReader` makes of it.
pub mod Exactness
pub mod Stops
pub mod Calls
pub mod Recovery
mod Tests
