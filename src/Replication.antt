-- ===== src/Replication.antt =====
-- src/replication: who leads a group of nodes, and what its followers have.
pub mod Election
pub mod Registry
mod Tests
