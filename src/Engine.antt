-- ===== src/Engine.antt =====
-- storage/engine.rs: the database engine, and its transactions from `begin` to `commit` and `rollback`.
pub mod Accounts
pub mod Access
pub mod Ddl
pub mod Commit
pub mod Installed
pub mod Chains
pub mod Written
mod Tests
use mathlib.Core.List.{reverse}
use heliondb.Base.{
  ℕ, zero, suc, String, Bool, true, false, not, ◌&&◌, Option, none, some, List, [], ◌∷◌, ◌++◌,
  if◌then◌else◌, find?, get_elem?, ◌==◌,
}
use heliondb.Base.Text.{str_eq}
use heliondb.Types.Column.{Row}
use heliondb.Error.{HelionError, Result, ok, err, transaction, conflict, text, number}
use heliondb.Table.{Table, Chain, RowVersion, u64_max}
use heliondb.Table.Write.{WriteOp, WriteEntry}
use heliondb.Table.Constraints.{check_unique_constraints, apply_index_changes}
use heliondb.Mvcc.{
  MvccStore, Transaction, TransactionStatus, Tables, add_write, begin_transaction,
  commit_transaction, rollback_transaction, check_conflicts,
}
use heliondb.Mvcc.WriteSet.{Change, changes_for, apply_write_set}
use heliondb.Users.{UserStore}
use heliondb.Permissions.{PermissionStore}
use heliondb.Wal.{WalRecord, change_table}
use heliondb.Wal.Recovery.{commit_records}

-- What a write that fails has left of its frame in the log: an error of the serialisation leaves
-- nothing, one between the writes of the frame a part, and one of the flush or the sync the whole.
pub data Remains : Type 0 where
  nothing part whole : Remains

pub record Fault : Type 0 where
  pub error : HelionError
  pub remains : Remains

-- The engine over a state `S` of the storage engines. `log` has the records of the frames that stand
-- whole in the log, and `torn` says whether part of a frame has been left there as well, behind which
-- a replay may read the bytes otherwise. `faults` are the outcomes of the next writes to the log, a
-- fault or none; writes beyond them succeed.
pub record Engine (S : Type 0) : Type 0 where
  pub tables : List Table
  pub storage : S
  pub mvcc : MvccStore
  pub log : List WalRecord
  pub torn : Bool
  pub users : UserStore
  pub permissions : PermissionStore
  pub faults : List (Option Fault)

-- `?` on an outcome that leaves a changed state behind.
abbrev pub and_then {ℓ} :
    {S : Type ℓ} → S × Result (Unit {0}) → (S → S × Result (Unit {0})) → S × Result (Unit {0})
and_then (s, ok _) f = f s
and_then (s, err e) f = (s, err e)

-- The version that a reader of the last committed state sees.
abbrev is_current : RowVersion → Bool
is_current v = (v.txid_max == u64_max) && not v.is_deleted

abbrev row_of : Option RowVersion → Option Row
row_of none = none
row_of (some v) = some v.row

abbrev current_in : Option Chain → Option Row
current_in none = none
current_in (some chain) = row_of (find? is_current (reverse chain))

unfoldable pub get_visible_row : Table → ℕ → Option Row
get_visible_row t row_idx = current_in (get_elem? t.version_chains row_idx)

abbrev visible_row_in : Option Table → ℕ → Option Row
visible_row_in none row_idx = none
visible_row_in (some t) row_idx = get_visible_row t row_idx

-- The map of tables that a commit works with: of two tables of one name, the later.
abbrev pub snapshot_of : List Table → Tables
snapshot_of tables name = find? (λ (t : Table). str_eq t.name name) (reverse tables)

check_entry : WriteOp → ℕ → Option Table → Result (Unit {0})
check_entry operation row_idx none = ok tt
check_entry (WriteOp.insert row) row_idx (some t) = check_unique_constraints t true row_idx row
check_entry (WriteOp.update row) row_idx (some t) = check_unique_constraints t false row_idx row
check_entry WriteOp.delete row_idx (some t) = ok tt

unfoldable pub check_entries : Tables → List WriteEntry → Result (Unit {0})
unfolding check_entry
check_entries tables [] = ok tt
check_entries tables (e ∷ entries) =
    elim (check_entry e.operation e.row_idx (tables e.table_name)) [
      | ok _ ↦ check_entries tables entries
      | err x ↦ err x
    ]

-- The index changes of the entries for one table.
index_entries : Tables → String → List WriteEntry → Table → Table × Result (Unit {0})
index_entries snapshot name [] t = (t, ok tt)
index_entries snapshot name (e ∷ entries) t =
    and_then
      (if str_eq e.table_name name
        then apply_index_changes t e.operation (visible_row_in (snapshot name) e.row_idx) e.row_idx
        else (t, ok tt))
      (index_entries snapshot name entries)

pub install : Tables → String → List WriteEntry → List Chain → Table → Table × Result (Unit {0})
unfolding index_entries
install snapshot name entries chains t =
    index_entries snapshot name entries (record t { version_chains = chains })

outcome_in : (Table → Table × Result (Unit {0})) → Option Table → Result (Unit {0})
outcome_in f none = ok tt
outcome_in f (some t) = (f t).1

module _ {S : Type 0} where
  unfoldable pub begin : Engine S → Transaction × Engine S
  begin e = let (tx, mvcc) = begin_transaction e.mvcc in (tx, record e { mvcc = mvcc })

  unfoldable rollback : Engine S → Transaction → Engine S × Transaction
  rollback e tx = elim tx.status [
    | TransactionStatus.in_progress ↦ (
      record e { mvcc = rollback_transaction e.mvcc tx },
      record tx { status = TransactionStatus.aborted },
    )
    | _ ↦ (e, tx)
  ]

  left_in_log : Engine S → WalRecord → Remains → Engine S
  left_in_log e r Remains.nothing = e
  left_in_log e r Remains.part = record e { torn = true }
  left_in_log e r Remains.whole = record e { log = e.log ++ r ∷ [] }

  written : Engine S → WalRecord → List (Option Fault) → Engine S × Result (Unit {0})
  unfolding left_in_log
  written e r [] = (record e { log = e.log ++ r ∷ [] }, ok tt)
  written e r (none ∷ faults) = (record e { log = e.log ++ r ∷ []; faults = faults }, ok tt)
  written e r (some x ∷ faults) =
      (record (left_in_log e r x.remains) { faults = faults }, err x.error)

  unfoldable pub append : Engine S → WalRecord → Engine S × Result (Unit {0})
  unfolding written
  append e r = written e r e.faults

  unfoldable pub append_records : Engine S → List WalRecord → Engine S × Result (Unit {0})
  append_records e [] = (e, ok tt)
  append_records e (r ∷ records) = and_then (append e r) (λ e'. append_records e' records)

  -- What follows the checks, and the end of the transaction if all succeeds.
  finish : Transaction → Engine S × Result (Unit {0}) → (Engine S × Transaction) × Result (Unit {0})
  finish tx (e, err x) = ((e, tx), err x)
  finish tx (e, ok _) = (
    (
      record e { mvcc = commit_transaction e.mvcc tx },
      record tx { status = TransactionStatus.committed },
    ),
    ok tt,
  )

unfoldable pub add_writes : Transaction → List WriteEntry → Transaction
add_writes tx [] = tx
add_writes tx (entry ∷ entries) = add_writes (add_write tx entry) entries

module _ {S : Type 0} (store_changes : S → String → List Change → S × Result (Unit {0})) where
  -- The changes of each table go to its storage engine, in the order of a hash map's keys.
  unfoldable pub store_tables :
      Tables → Transaction → List String → Engine S → Engine S × Result (Unit {0})
  store_tables snapshot tx [] e = (e, ok tt)
  store_tables snapshot tx (name ∷ names) e =
      let (storage, result) =
        store_changes e.storage name (changes_for snapshot tx.tx_id name tx.write_set) in
      and_then (record e { storage = storage }, result) (store_tables snapshot tx names)

  update_table :
      Tables → Transaction → String → Option (List Chain) → Engine S → Engine S × Result (Unit {0})
  unfolding outcome_in install
  update_table snapshot tx name none e = (e, ok tt)
  update_table snapshot tx name (some chains) e =
      let f = install snapshot name tx.write_set chains in
      (
        record e { tables = change_table name (λ t. (f t).0) e.tables },
        outcome_in f (find? (λ (t : Table). str_eq t.name name) e.tables),
      )

  -- The new chains of each table, with the index changes, again in the order of a hash map's keys.
  unfoldable pub update_tables :
      Tables → Transaction → List String → Engine S → Engine S × Result (Unit {0})
  unfolding update_table
  update_tables snapshot tx [] e = (e, ok tt)
  update_tables snapshot tx (name ∷ names) e =
      and_then
        (update_table snapshot tx name (apply_write_set tx.write_set snapshot tx.tx_id name) e)
        (update_tables snapshot tx names)

  write_all : List String → List String → Engine S → Transaction → Engine S × Result (Unit {0})
  write_all stored updated e tx =
      let snapshot = snapshot_of e.tables in
      and_then (append_records e (commit_records tx.tx_id tx.write_set)) (λ logged.
        and_then (store_tables snapshot tx stored logged) (update_tables snapshot tx updated))

  checked :
      List String
      → List String
      → Engine S
      → Transaction
      → Option ℕ
      → Result (Unit {0})
      → (Engine S × Transaction) × Result (Unit {0})
  unfolding finish write_all
  checked stored updated e tx (some other) unique = (
    (
      record e { mvcc = rollback_transaction e.mvcc tx },
      record tx { status = TransactionStatus.aborted },
    ),
    err (conflict tx.tx_id),
  )
  checked stored updated e tx none (err x) = ((e, tx), err x)
  checked stored updated e tx none (ok _) = finish tx (write_all stored updated e tx)

  by_status :
      List String
      → List String
      → Engine S
      → Transaction
      → TransactionStatus
      → (Engine S × Transaction) × Result (Unit {0})
  unfolding checked
  by_status stored updated e tx TransactionStatus.in_progress =
      checked stored updated e tx (check_conflicts tx (snapshot_of e.tables))
        (check_entries (snapshot_of e.tables) tx.write_set)
  by_status stored updated e tx _ = (
    (e, tx),
    err (transaction (text "Transaction " ∷ number tx.tx_id ∷ text " is not in progress" ∷ [])),
  )

  -- `commit`; `stored` and `updated` are the orders of its two hash maps.
  unfoldable pub commit :
      List String
      → List String
      → Engine S
      → Transaction
      → (Engine S × Transaction) × Result (Unit {0})
  unfolding by_status
  commit stored updated e tx = by_status stored updated e tx tx.status

  -- The write set is the outcome of the function that the caller passes. A transaction whose
  -- function or commit fails is given up as it is.
  unfoldable pub with_write_txn :
      List String → List String → Engine S → Result (List WriteEntry) → Engine S × Result (Unit {0})
  with_write_txn stored updated e (err x) = ((begin e).1, err x)
  with_write_txn stored updated e (ok entries) =
      let (tx, e') = begin e in
      let ((e'', _), result) = commit stored updated e' (add_writes tx entries) in (e'', result)
