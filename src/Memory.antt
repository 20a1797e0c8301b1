-- ===== src/Memory.antt =====
-- src/storage/memory: the frames of the buffer pool and who leaves when they are full.
pub mod LruK
mod Tests
