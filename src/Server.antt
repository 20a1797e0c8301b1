-- ===== src/Server.antt =====
-- src/server: which node a statement goes to.
pub mod ReplicaCoordinator
