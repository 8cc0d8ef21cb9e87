-- ===== src/Plan.antt =====
-- sql/planner.rs: statements, the plans that they become, and the optimizer of query plans.
pub mod Syntax
pub mod Predicates
pub mod Indexes
pub mod Joins
pub mod Resolve
pub mod Select
pub mod Statements
mod Tests
