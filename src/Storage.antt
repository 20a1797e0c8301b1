-- ===== src/Storage.antt =====
-- src/storage/disk: the files of a table.
pub mod BTree
