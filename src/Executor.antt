-- ===== src/Executor.antt =====
-- src/executor: the operators of a query, which hand chunks of rows on.
pub mod SelectionVector
pub mod Limit
