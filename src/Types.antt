-- ===== src/Types.antt =====
-- storage/types.rs: SQL data types, values, their total order, coercion, columns and rows.
pub mod Datum
pub mod Order
pub mod Column
pub mod Coerce
mod Tests
