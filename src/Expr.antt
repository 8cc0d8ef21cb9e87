-- ===== src/Expr.antt =====
-- executor/eval.rs and the expressions of sql/parser.rs: expressions over rows and their values.
pub mod Syntax
pub mod Columns
pub mod Floats
pub mod Compare
pub mod Values
pub mod Functions
pub mod Like
pub mod Eval
pub mod Join
pub mod Samples
mod Tests
