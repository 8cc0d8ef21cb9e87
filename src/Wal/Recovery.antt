-- ===== src/Wal/Recovery.antt =====
-- storage/engine.rs, `commit`: the records that a commit appends; and that replaying them rebuilds
-- the chains that the commit made.
pub mod Divergence
use heliondb.Base.{
  ℕ, String, Bool, true, false, not, Option, none, some, List, [], ◌∷◌, ◌++◌, map, ◌≡◌, ◌≢◌, refl,
  ap, sym, ◌∙◌, arith, if◌then◌else◌, find?, get_elem?, set, set-get_elem?, Bool-cases, inl, inr,
  ◌⊎◌,
}
use heliondb.Base.Text.{str_eq, str_eq_iff}
use heliondb.Types.Column.{Row, ColumnMeta}
use heliondb.Error.{ok}
use heliondb.Table.{Table, Chain, RowVersion, new_insert, new_update}
use heliondb.Table.Validate.{validate_row}
use heliondb.Table.Write.{WriteOp, WriteEntry}
use heliondb.Mvcc.{Tables}
use heliondb.Mvcc.WriteSet.{
  Change, write_chain, apply_changes, changes_for, version_of, deletion, latest, latest_in, last?,
}
use heliondb.Wal.{
  WalRecord, change_table, replay_insert, replay_update, replay_delete, delete_chain,
  apply_wal_record, replay,
}

record_for : ℕ → String → ℕ → WriteOp → WalRecord
record_for tx_id name row_idx (WriteOp.insert row) = WalRecord.insert name row tx_id
record_for tx_id name row_idx (WriteOp.update row) = WalRecord.update name row_idx row tx_id
record_for tx_id name row_idx WriteOp.delete = WalRecord.delete name row_idx tx_id

abbrev record_of : ℕ → WriteEntry → WalRecord
record_of tx_id e = record_for tx_id e.table_name e.row_idx e.operation

-- The records of the entries in order, then the commit.
unfoldable pub commit_records : ℕ → List WriteEntry → List WalRecord
unfolding record_for
commit_records tx_id [] = WalRecord.commit tx_id ∷ []
commit_records tx_id (e ∷ entries) = record_of tx_id e ∷ commit_records tx_id entries

abbrev pub table_at : List Table → Tables
table_at tables name = find? (λ (t : Table). str_eq t.name name) tables

pub table_at-change :
    (name other : String) (f : Table → Table) (tables : List Table)
    → ((t : Table) → (f t).name ≡ t.name)
    → table_at (change_table name f tables) other ≡ (
        if str_eq name other
        then (elim (table_at tables other) [ none ↦ none | some t ↦ some (f t) ])
        else table_at tables other)
unfolding change_table
table_at-change name other f [] keeps = ground arith
table_at-change name other f (t ∷ tables) keeps = ground (
  arith,
  table_at-change name other f tables keeps,
  keeps t,
  str_eq_iff t.name name,
  str_eq_iff t.name other,
  str_eq_iff name other,
)

-- The replay of one entry's record on its table.
replay_op : ℕ → ℕ → WriteOp → Table → Table
unfolding replay_insert replay_update replay_delete
replay_op tx_id row_idx (WriteOp.insert row) t = replay_insert row tx_id t
replay_op tx_id row_idx (WriteOp.update row) t = replay_update row_idx row tx_id t
replay_op tx_id row_idx WriteOp.delete t = replay_delete row_idx tx_id t

replay_op-name :
    (tx_id row_idx : ℕ) (op : WriteOp) (t : Table) → (replay_op tx_id row_idx op t).name ≡ t.name
unfolding replay_op
replay_op-name tx_id row_idx (WriteOp.insert row) t = ground arith
replay_op-name tx_id row_idx (WriteOp.update row) t = refl
replay_op-name tx_id row_idx WriteOp.delete t = refl

apply-record_for :
    (tx_id : ℕ) (name : String) (row_idx : ℕ) (op : WriteOp) (tables : List Table)
    → apply_wal_record tables (record_for tx_id name row_idx op)
      ≡ change_table name (replay_op tx_id row_idx op) tables
unfolding apply_wal_record record_for replay_op
apply-record_for tx_id name row_idx (WriteOp.insert row) tables = refl
apply-record_for tx_id name row_idx (WriteOp.update row) tables = refl
apply-record_for tx_id name row_idx WriteOp.delete tables = refl

-- The table after the version, if there is one, has been written.
abbrev written : ℕ → ℕ → Option RowVersion → Table → Table
written tx_id row_idx none t = t
written tx_id row_idx (some v) t = record t {
  version_chains =
      write_chain tx_id v t.version_chains row_idx (get_elem? t.version_chains row_idx);
}

abbrev row_of_last : Option RowVersion → Option Row
row_of_last none = none
row_of_last (some v) = some v.row

-- When the log says of an entry what the commit did: an inserted row is valid and starts a chain,
-- an updated row is there, and a deleted row's last version still has the row that it had in the
-- tables before the commit.
abbrev pub IsReplayable : Tables → ℕ → String → WriteOp → Table → Type 0
IsReplayable before row_idx name (WriteOp.insert row) t =
    (validate_row t row ≡ ok tt) × (get_elem? t.version_chains row_idx ≡ none)
IsReplayable before row_idx name (WriteOp.update row) t = get_elem? t.version_chains row_idx ≢ none
IsReplayable before row_idx name WriteOp.delete t =
    row_of_last (latest (get_elem? t.version_chains row_idx))
    ≡ row_of_last (latest_in (before name) row_idx)

abbrev version_for : Tables → ℕ → String → ℕ → WriteOp → Option RowVersion
version_for before tx_id name row_idx (WriteOp.insert row) = some (new_insert tx_id row)
version_for before tx_id name row_idx (WriteOp.update row) = some (new_update tx_id row)
version_for before tx_id name row_idx WriteOp.delete =
    deletion tx_id (latest_in (before name) row_idx)

delete-written :
    (tx_id row_idx : ℕ) (t : Table) (found : Option Chain) (old : Option RowVersion)
    → get_elem? t.version_chains row_idx ≡ found
    → row_of_last (latest found) ≡ row_of_last old
    → record t { version_chains = delete_chain row_idx tx_id t.version_chains found }
      ≡ written tx_id row_idx (deletion tx_id old) t
unfolding write_chain delete_chain
delete-written tx_id row_idx t none old e h = ground arith
delete-written tx_id row_idx t (some c) old e h =
    ground (arith, set-get_elem? t.version_chains row_idx c)

replay_op-written :
    (before : Tables) (tx_id row_idx : ℕ) (name : String) (op : WriteOp) (t : Table)
    → IsReplayable before row_idx name op t
    → replay_op tx_id row_idx op t
      ≡ written tx_id row_idx (version_for before tx_id name row_idx op) t
unfolding replay_op write_chain
replay_op-written before tx_id row_idx name (WriteOp.insert row) t h = ground arith
replay_op-written before tx_id row_idx name (WriteOp.update row) t h = ground arith
replay_op-written before tx_id row_idx name WriteOp.delete t h =
    delete-written tx_id row_idx t (get_elem? t.version_chains row_idx)
      (latest_in (before name) row_idx) refl h

version_of-for :
    (before : Tables) (tx_id : ℕ) (e : WriteEntry)
    → version_of before tx_id e ≡ version_for before tx_id e.table_name e.row_idx e.operation
unfolding version_of
version_of-for before tx_id e = ground arith

abbrev after : Tables → ℕ → WriteEntry → Table → Table
after before tx_id e t =
    written tx_id e.row_idx (version_for before tx_id e.table_name e.row_idx e.operation) t

-- Each entry for the table is replayable where the earlier ones have been applied.
abbrev pub AllReplayable : Tables → ℕ → String → List WriteEntry → Table → Type 0
AllReplayable before tx_id name [] t = Unit
AllReplayable before tx_id name (e ∷ entries) t =
    if str_eq e.table_name name
    then IsReplayable before e.row_idx e.table_name e.operation t
      × AllReplayable before tx_id name entries (after before tx_id e t)
    else AllReplayable before tx_id name entries t

-- The table with the chains that the changes make.
abbrev pub committed : ℕ → Table → List Change → Table
committed tx_id t changes = record t {
  version_chains = apply_changes tx_id t.version_chains changes;
}

committed-after :
    (before : Tables) (tx_id : ℕ) (e : WriteEntry) (entries : List WriteEntry) (t : Table)
    (name : String)
    → str_eq e.table_name name ≡ true
    → committed tx_id (after before tx_id e t) (changes_for before tx_id name entries)
      ≡ committed tx_id t (changes_for before tx_id name (e ∷ entries))
unfolding apply_changes changes_for
committed-after before tx_id e entries t name h = ground (arith, version_of-for before tx_id e)

table_at-record :
    (tx_id : ℕ) (e : WriteEntry) (tables : List Table) (name : String) (t : Table)
    → table_at tables name ≡ some t
    → table_at (apply_wal_record tables (record_of tx_id e)) name ≡ (
        if str_eq e.table_name name then some (replay_op tx_id e.row_idx e.operation t) else some t)
table_at-record tx_id e tables name t h =
    ap (λ ts. table_at ts name) (apply-record_for tx_id e.table_name e.row_idx e.operation tables)
    ∙ table_at-change e.table_name name (replay_op tx_id e.row_idx e.operation) tables
        (replay_op-name tx_id e.row_idx e.operation)
    ∙ ground arith

-- Recovery of a commit. Where the entries of a write set are replayable, replaying the records
-- that the commit appended gives the table the chains that the commit gave it.
pub replay-commit_records :
    (before : Tables) (tx_id : ℕ) (name : String) (entries : List WriteEntry) (tables : List Table)
    (t : Table)
    → table_at tables name ≡ some t
    → AllReplayable before tx_id name entries t
    → table_at (replay tables (commit_records tx_id entries)) name
      ≡ some (committed tx_id t (changes_for before tx_id name entries))
unfolding replay commit_records
replay-commit_records before tx_id name [] tables t h r =
    unfold apply_wal_record changes_for apply_changes in h
replay-commit_records before tx_id name (e ∷ entries) tables t h r =
    elim (Bool-cases (str_eq e.table_name name)) [
      | inr other ↦
          replay-commit_records before tx_id name entries
            (apply_wal_record tables (record_of tx_id e)) t
            (table_at-record tx_id e tables name t h ∙ ground arith) (ground arith)
          ∙ unfold changes_for in ground arith
      | inl same ↦
          (let split : IsReplayable before e.row_idx e.table_name e.operation t
                × AllReplayable before tx_id name entries (after before tx_id e t) =
              rw same at r in
            replay-commit_records before tx_id name entries
              (apply_wal_record tables (record_of tx_id e)) (after before tx_id e t)
              (table_at-record tx_id e tables name t h
                ∙ rw same (
                    ap some (
                      replay_op-written before tx_id e.row_idx e.table_name e.operation t split.0)))
              split.1
            ∙ ap some (committed-after before tx_id e entries t name same))
    ]
