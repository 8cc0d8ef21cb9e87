-- ===== src/Lib.antt =====
-- HelionDB: a relational database server with multi-version concurrency control and a write-ahead
-- log, modelled from its Rust source.
--
-- The parts and how they interact. The planner turns a statement into a plan: it resolves the names of
-- columns, pushes predicates towards the scans, and chooses indexes and the algorithms of joins. The
-- executor runs the plan, evaluating expressions on rows. A statement runs in a transaction, which
-- reads tables through a snapshot and collects a write set. The commit checks the write set for
-- conflicts and against the unique constraints, appends its records to the log, hands the changes to
-- the storage engine of each table, puts the new version chains in the tables in memory, and brings
-- the indexes up to date. At start-up the records of the log are replayed into tables. Beside the
-- tables stand the user accounts, the permissions and the session tokens.
--
-- Which file models what (paths from the root of the repository):
-- - Types/Datum, Types/Order, Types/Column, Types/Coerce: src/storage/types.rs, the types and values
--   of columns, `Ord for Datum`, columns and rows, `coerce_datum`. Types/Order/Total and
--   Types/Coerce/Laws hold the proofs.
-- - Error: src/error.rs.
-- - Index: src/storage/btree.rs. The map of an index is an association list in the order of its keys,
--   and the rows of a key are a list in increasing order. Proofs in Index/Laws, Index/Unique,
--   Index/Scan.
-- - Table, Table/Indexes, Table/Constraints, Table/Validate: src/storage/table.rs, each with its
--   proofs in child modules; Table/Write: `WriteOp` and `WriteEntry` of src/storage/mvcc.rs. The
--   version chains of rows are studied in Table/Visible, Table/Chain and Table/Anomaly.
-- - Mvcc, Mvcc/WriteSet: src/storage/mvcc.rs, the active transactions, conflict detection and the
--   application of write sets. Mvcc/Accesses has the accesses of transactions to the store as a step
--   relation, in which a beginning is three; Mvcc/Steps has what every interleaving keeps, and
--   Mvcc/Race two beginnings at the same time; Mvcc/WriteSet/Rows follows single rows through a write
--   set.
-- - MemoryEngine: src/storage/engines/memory.rs. Catalog: src/storage/engine_trait.rs and
--   src/storage/catalog.rs, the interface of storage engines and the catalog over any of them; the
--   move of a table between engines in Catalog/Migrate, its proof in Catalog/Migration; opening, flush
--   and close in Catalog/Life, what the operations keep of the metadata in Catalog/Keys, and what
--   opening finds of a saved catalog in Catalog/Reopened. Catalog/Memory: the memory engine as such an
--   engine.
-- - Permissions: src/storage/permissions.rs. Users: src/storage/users.rs. Sessions:
--   src/protocol/auth.rs.
-- - Wal: the records of src/storage/wal.rs and their replay. Wal/Frames: the frames of the log file,
--   `append` and `replay_wal_buf`, with proofs in Wal/Frames/Roundtrip and Wal/Frames/Rounds.
--   Wal/Recovery: the records that `commit` of src/storage/engine.rs appends, and what their replay
--   rebuilds; Wal/Recovery/Divergence: where the replay differs from the commit.
-- - Engine: src/storage/engine.rs, `begin`, `commit`, `rollback` and `with_write_txn`, over storage
--   engines that are a parameter; proofs in Engine/Commit, Engine/Installed and Engine/Chains. A write
--   to the log that fails leaves nothing, part or the whole of its frame. Engine/Accounts: users and
--   permissions with their log records and the replay of these; proofs in Engine/Accounts/Recovery,
--   Engine/Accounts/Grants and Engine/Accounts/Lost. Engine/Access: the permission checks. Engine/Ddl:
--   the creation and removal of tables over the catalog; proof in Engine/Ddl/Creation. Engine/Written:
--   what `with_write_txn` makes of a table.
-- - Expr/Syntax: the statements and expressions of src/sql/parser.rs, the lists of arguments as a type
--   of their own. Expr/Floats, Expr/Compare, Expr/Values, Expr/Functions, Expr/Like, Expr/Eval,
--   Expr/Join: src/executor/eval.rs, the comparison of values, arithmetic, the built-in functions,
--   LIKE, and `evaluate` and `evaluate_join`; `Datum::display` of src/storage/types.rs is in
--   Expr/Values. Proofs in Expr/Compare/Laws, Expr/Like/Correct, Expr/Eval/Nulls, Expr/Eval/Unordered
--   and Expr/Join/Single; Expr/Columns has predicates on the columns of an expression.
-- - Plan: src/sql/planner.rs, the plans in Plan/Syntax, `plan` in Plan/Statements with Plan/Select and
--   Plan/Resolve, and the passes of `optimize` in Plan/Predicates, Plan/Indexes and Plan/Joins. Proofs
--   in Plan/Predicates/Split and Plan/Resolve/Bounds.
-- - Exec: src/executor/ops.rs. Exec/Scan, Exec/NestedLoop, Exec/IndexLoop and Exec/HashJoin produce
--   rows, Exec/Shape projects, sorts and cuts them, Exec/Tree is `execute_tree`; Exec/Tables has the
--   tables and column names of a plan, Exec/Filter its conditions. Exec/Query, Exec/Write and
--   Exec/Statements are the branches of `execute_as`: queries with the check of their permissions;
--   INSERT, UPDATE and DELETE; users, permissions, tables and indexes. `PartialEq` and `Hash` of
--   `Datum` in src/storage/types.rs are in Exec/HashJoin. Proofs in Exec/HashJoin/Equivalence,
--   Exec/HashJoin/Lost, Exec/HashJoin/Swapped, Exec/Shape/Pages, Exec/Shape/Ties, Exec/Tree/LeftJoin
--   and the child modules of Exec/Write: Inserted, Updated, Deleted and Denied.
-- - Base: lists, numbers, texts, ordered sets and maps, shared by all.
-- The module Tests of each part applies its theorems to concrete values.
--
-- How the code is read. A method that changes its object is a function from the old state to the new
-- one; a method that may fail returns a `Result`, and where a failure leaves a change behind, the state
-- beside it. Numbers of 64 bits are natural numbers; the counters of transactions and tokens wrap round
-- at 2^64 where the code adds, and theorems about long runs assume that they did not. Signed integers
-- are cast with the wrap-around of their width. A float is its bit pattern; a date, a time, a timestamp
-- and a UUID, values of other crates, are the numbers that their order compares. A formatted message is
-- the list of its pieces. A hash map that is only read is its lookup function; where the code walks
-- over one, the order of its keys is an argument. Writes to the log may fail: their outcomes are part of
-- the engine's state. Loops run over lists, but for the loop over the bytes of the log, which has as many
-- rounds as there are bytes: each round takes at least twelve, so they are enough; and the matcher of
-- LIKE has as much fuel as the pattern and the text have characters, and one more: each call takes a
-- character off one of them. The sort that orders rows and the order in which a hash table of a join is
-- walked over are functions in the executor's context.
--
-- What other crates and the standard library decide is a parameter: the lower-case mapping of names in
-- Permissions, the trimming and lower-case mapping of engine names in Catalog, the decoding of the
-- catalog's file in Catalog/Life, the password hashes in Users, the version number of a UUID in
-- Types/Coerce, the serialisation of records and the checksum in Wal/Frames, and in Expr/Floats,
-- Expr/Values and Expr/Functions the arithmetic and the casts of floats, the texts of numbers, dates
-- and UUIDs, the case mapping of names and the UUID that an evaluation draws.
--
-- Not modelled: the rotation of the log, checkpoints, the start-up of the engine, the disk engine (the
-- catalog takes what its opening gives as an argument), the SQL parser, EXPLAIN, structured queries,
-- and the server and client programs, which are input and output. The engine runs the three accesses
-- of a beginning with no other thread's between them; Mvcc/Accesses separates them. What a replay
-- reads behind a frame that was written in part is not modelled in the engine, whose log is the list
-- of its whole frames.
pub mod Base
pub mod Types
pub mod Error
pub mod Index
pub mod Table
pub mod Mvcc
pub mod MemoryEngine
pub mod Catalog
pub mod Permissions
pub mod Users
pub mod Sessions
pub mod Wal
pub mod Engine
pub mod Expr
pub mod Plan
pub mod Exec
