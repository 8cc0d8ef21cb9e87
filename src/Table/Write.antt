-- ===== src/Table/Write.antt =====
-- storage/mvcc.rs: what a transaction writes, `WriteOp` and `WriteEntry`.
use heliondb.Base.{ℕ, String}
use heliondb.Types.Column.{Row}

pub data WriteOp : Type 0 where
  insert update : Row → WriteOp
  delete : WriteOp

pub record WriteEntry : Type 0 where
  pub table_name : String
  pub row_idx : ℕ
  pub old_txid_max : ℕ
  pub operation : WriteOp
