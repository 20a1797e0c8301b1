-- ===== src/Common.antt =====
-- src/common: what every part of the server uses.
pub mod Result
pub mod SourceError
pub mod XxHash
