-- ===== src/Shard.antt =====
-- src/storage/disk/shard_map_file.cpp: which partition a value belongs to, and which partitions
-- a query has to read.
pub mod Defs
pub mod Typed
mod Kept
mod Prune
pub mod Routing
pub mod AtBound
pub mod File
mod Tests
