-- ===== src/Exec.antt =====
-- executor/ops.rs: the execution of plans.
pub mod Tables
pub mod Filter
pub mod NestedLoop
pub mod IndexLoop
pub mod HashJoin
pub mod Scan
pub mod Shape
pub mod Tree
pub mod Query
pub mod Write
pub mod Statements
mod Tests
