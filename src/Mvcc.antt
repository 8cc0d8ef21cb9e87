-- ===== src/Mvcc.antt =====
-- storage/mvcc.rs: transactions, the store of active transactions, conflict detection and the
-- application of a write set.
pub mod Accesses
pub mod Steps
pub mod Race
pub mod Conflicts
pub mod WriteSet
mod Tests
use mathlib.Core.List.{reverse}
use heliondb.Base.{
  ℕ, zero, suc, ◌+◌, ◌%◌, ◌^◌, String, Bool, true, false, Option, none, some, List, [], ◌∷◌, ◌++◌,
  if◌then◌else◌, ltb, ◌==◌, get_elem?, find?,
}
use heliondb.Base.NatSet
use heliondb.Base.NatSet.{NatSet, contains}
use heliondb.Table.{Table, Chain, RowVersion, u64_max}
use heliondb.Table.Write.{WriteEntry}

pub record Snapshot : Type 0 where
  pub txid : ℕ
  pub active : NatSet

pub data TransactionStatus : Type 0 where
  in_progress committed aborted : TransactionStatus

pub record Transaction : Type 0 where
  pub tx_id : ℕ
  pub status : TransactionStatus
  pub snapshot : Snapshot
  pub write_set : List WriteEntry

abbrev pub new_transaction : ℕ → Snapshot → Transaction
new_transaction tx_id snapshot = record {
  tx_id = tx_id;
  status = TransactionStatus.in_progress;
  snapshot = snapshot;
  write_set = [];
}

abbrev pub add_write : Transaction → WriteEntry → Transaction
add_write tx entry = record tx { write_set = tx.write_set ++ entry ∷ [] }

pub record MvccStore : Type 0 where
  pub next_txid : ℕ
  pub active_txns : NatSet

pub with_start_id : ℕ → MvccStore
with_start_id start_id = record {
  next_txid = if ltb start_id 1 then 1 else start_id;
  active_txns = 0 ∷ [];
}

abbrev pub new : MvccStore
unfolding with_start_id
new = with_start_id 1

-- `fetch_add(1)` on a `u64`: the old value, and the counter with its wrap-around.
abbrev pub fetch_add : MvccStore → ℕ × MvccStore
fetch_add s = (s.next_txid, record s { next_txid = (s.next_txid + 1) % 2 ^ 64 })

unfoldable pub add_active : MvccStore → ℕ → MvccStore
unfolding NatSet.insert
add_active s tx_id = record s { active_txns = NatSet.insert tx_id s.active_txns }

-- `active_txns.read().clone()`.
abbrev pub read_active : MvccStore → NatSet
read_active s = s.active_txns

-- The transaction of a number and of the active set that was read for it.
abbrev pub begun : ℕ → NatSet → Transaction
begun tx_id active = new_transaction tx_id (record { txid = tx_id; active = active })

-- The three accesses of a beginning where no other thread's come in between: the number is taken,
-- the active set is read, and the number is registered. Mvcc/Steps has them as steps of their own.
unfoldable pub begin_transaction : MvccStore → Transaction × MvccStore
unfolding add_active
begin_transaction s =
    let (tx_id, s') = fetch_add s in (begun tx_id (read_active s'), add_active s' tx_id)

unfoldable pub commit_transaction : MvccStore → Transaction → MvccStore
unfolding NatSet.remove
commit_transaction s tx = record s { active_txns = NatSet.remove tx.tx_id s.active_txns }

unfoldable pub rollback_transaction : MvccStore → Transaction → MvccStore
unfolding NatSet.remove
rollback_transaction s tx = record s { active_txns = NatSet.remove tx.tx_id s.active_txns }

-- From the newest version back, the first one with no end.
pub current_version : Chain → Option RowVersion
current_version chain = find? (λ (v : RowVersion). v.txid_max == u64_max) (reverse chain)

conflict_with : NatSet → Option RowVersion → Option ℕ
conflict_with active none = none
conflict_with active (some v) = if contains active v.txid_min then some v.txid_min else none

chain_conflict : NatSet → Option Chain → Option ℕ
unfolding conflict_with current_version
chain_conflict active none = none
chain_conflict active (some chain) = conflict_with active (current_version chain)

table_conflict : NatSet → ℕ → Option Table → Option ℕ
unfolding chain_conflict
table_conflict active row_idx none = none
table_conflict active row_idx (some t) = chain_conflict active (get_elem? t.version_chains row_idx)

-- A `HashMap<String, Table>` that is only read, as its lookup.
abbrev pub Tables : Type 0
Tables = String → Option Table

entries_conflict : NatSet → Tables → List WriteEntry → Option ℕ
unfolding table_conflict
entries_conflict active tables [] = none
entries_conflict active tables (e ∷ entries) =
    let rest = entries_conflict active tables entries in
    elim (table_conflict active e.row_idx (tables e.table_name)) [ none ↦ rest | some t ↦ some t ]

-- `none` is `Ok(())`, and `some t` is `Err(t)`.
unfoldable pub check_conflicts : Transaction → Tables → Option ℕ
unfolding entries_conflict
check_conflicts tx tables = entries_conflict tx.snapshot.active tables tx.write_set
