-- ===== src/Lib.antt =====
-- The core of nyxdb, a columnar SQL database with replication and sharding.
--
-- The text of a statement is cut into tokens (Parser), and an error in it is shown with its line
-- (Common/SourceError). A coordinator sends reads round the replicas and writes to the leader
-- (Server). A plan's operators hand on chunks of rows, of which a selection may pick some (Executor),
-- and an index finds rows by their keys (Storage).
--
-- A SELECT on a sharded table is sent to the partitions that the shard map says can hold its rows
-- (Shard), each of which is served by a group of replicas that elect a leader (Replication). Nodes
-- talk in frames (Wire). A node logs the changes of its tables (Wal) and reads the log back to
-- make them again. On a node, pages are read through a buffer pool, whose replacer picks the
-- frame that leaves (Memory).
--
-- Base holds what the modules share: tests on numbers, lists under native indices, signed integers
-- for i32 and i64, the moduli of the unsigned words, `|` on disjoint bits, byte strings. Bytes is
-- the little-endian codec that src/storage/disk/shard_map_file.cpp, src/server/wire.cpp and
-- src/storage/wal/wal_record.h each write out, with a reader that checks what is left.
--
--   Value        src/storage/disk/type_id.h and value.h; Value/Order the three-way comparison
--   Shard        src/storage/disk/shard_map_file.cpp: Defs has compare_values, shard_for_value and
--                prune_partitions, File the file's write and read
--   Wire         src/server/wire.h and wire.cpp
--   Memory/LruK  src/storage/memory/lru_k_replacer.cpp; a method returns the new replacer
--   Common/XxHash src/common/xxhash.h
--   Wal          src/storage/wal: Writer has the five log calls and the append, Reader the loop of
--                read_all over a cursor (Reader/Monad), one function per part of a record
--   Parser       src/parser/lexer.cpp: Token has the kinds, Keywords the table, Scan the state with its
--                steps over characters and comments, Lexer the tokens
--                then State has the parser of src/parser/parser.cpp over its tokens as a monad, whose
--                outcome is a value, an error, an exception, undefined behaviour or the end of the
--                fuel; Ast the tree of src/parser/ast.h; Expr the expressions, Select, Default, Column,
--                CreateTable, Dml and Statement the statements, Source the way from a text to them
--   Common/SourceError src/common/source_error.cpp, how an error is shown
--   Executor/SelectionVector src/executor/selection_vector.h and selection_vector.cpp
--   Executor/Limit src/executor/limit.cpp, over the chunks of src/executor/chunk.h
--   Storage/BTree src/storage/disk/btree_index.cpp: the order of keys, the searches, the scan of leaves
--   Server/ReplicaCoordinator src/server/replica_coordinator.cpp; the pool of clients is a parameter
--   Replication  src/replication/election.cpp: Election has the state and the sending, Steps the
--                handlers, Persist the state file; a handler returns the new node and its events.
--                How open, write, fsync and rename come out when it saves is its argument.
--                Registry is follower_registry.cpp
--
-- A `std::string` is the list of its bytes, a double its 64-bit pattern. The order of doubles is a
-- parameter with the laws that IEEE 754 gives it away from NaN. `std::stoi`, strtod, `std::stod` and
-- sscanf are parameters. The
-- exceptions of `std::get` on a variant are the `none` of an option. Words wrap where the source's
-- do. The loops run over lists or a fixed number of rounds, but for these: read_loop takes the file's
-- length as fuel, since each turn reads a byte, and so do the loops of the lexer; the loops of
-- xxhash64 take the number of bytes, the loops of the parser the number of tokens that are left and
-- its calls of itself for expressions twice that, since each second call takes a token, and the binary search of an index the number of keys.
--
-- A page of an index is the list of its entries, and a chunk's columns the list of its rows. The
-- comparisons of quotients of doubles in the choice of a selection's form are parameters.
--
-- Left out: sockets, threads and their locks, files beyond their bytes, logging. PROJECT.json lists
-- the components that are not modelled.
mod Base
pub mod Bytes
pub mod Value
pub mod Common
pub mod Wal
pub mod Wire
pub mod Shard
pub mod Parser
pub mod Storage
pub mod Server
pub mod Executor
pub mod Memory
pub mod Replication
