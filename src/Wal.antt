-- ===== src/Wal.antt =====
-- storage/wal.rs: the records of the write-ahead log, and their replay into tables.
pub mod Recovery
pub mod Frames
mod Tests
use heliondb.Base.{
  ℕ, String, Bool, true, false, not, Option, none, some, List, [], ◌∷◌, ◌++◌, map, if◌then◌else◌,
  any, retain, get_elem?, set,
}
use heliondb.Base.Text.{str_eq}
use heliondb.Types.Column.{ColumnMeta, Row}
use heliondb.Error.{Result, ok, err}
use heliondb.Permissions.{Permission}
use heliondb.Table
use heliondb.Table.{Table, Chain, RowVersion, new_insert, new_update, new_delete, close_last}
use heliondb.Table.Indexes
use heliondb.Table.Validate.{validate_row}
use heliondb.Mvcc.WriteSet.{last?}

-- A table as a checkpoint holds it.
pub record TableImage : Type 0 where
  pub name : String
  pub columns : List ColumnMeta
  pub chains : List Chain

pub data WalRecord : Type 0 where
  create_table : String → List ColumnMeta → WalRecord
  drop_table : String → WalRecord
  insert : String → Row → ℕ → WalRecord
  update : String → ℕ → Row → ℕ → WalRecord
  delete : String → ℕ → ℕ → WalRecord
  commit : ℕ → WalRecord
  checkpoint : ℕ → List TableImage → WalRecord
  create_user : String → String → WalRecord
  drop_user : String → WalRecord
  grant revoke : String → String → Permission → WalRecord

-- `tables.iter_mut().find(|t| t.name == table)`: the first table of the name is changed in place.
unfoldable pub change_table : String → (Table → Table) → List Table → List Table
change_table name f [] = []
change_table name f (t ∷ tables) =
    let rest = change_table name f tables in if str_eq t.name name then f t ∷ tables else t ∷ rest

-- A row that does not fit the schema is skipped.
replay_insert : Row → ℕ → Table → Table
replay_insert row txid t = elim (validate_row t row) [
  | ok _ ↦ record t { version_chains = t.version_chains ++ (new_insert txid row ∷ []) ∷ [] }
  | err _ ↦ t
]

update_chain : ℕ → Row → ℕ → List Chain → Option Chain → List Chain
update_chain row_idx new_row txid chains none = chains
update_chain row_idx new_row txid chains (some chain) =
    set chains row_idx (close_last txid chain ++ new_update txid new_row ∷ [])

replay_update : ℕ → Row → ℕ → Table → Table
unfolding update_chain
replay_update row_idx new_row txid t = record t {
  version_chains =
      update_chain row_idx new_row txid t.version_chains (get_elem? t.version_chains row_idx);
}

-- The tombstone copies the row of the last version; a chain without versions is left alone.
bury : ℕ → Chain → Option RowVersion → Chain
bury txid chain none = chain
bury txid chain (some v) = close_last txid chain ++ new_delete txid v.row ∷ []

delete_chain : ℕ → ℕ → List Chain → Option Chain → List Chain
unfolding bury
delete_chain row_idx txid chains none = chains
delete_chain row_idx txid chains (some chain) = set chains row_idx (bury txid chain (last? chain))

replay_delete : ℕ → ℕ → Table → Table
unfolding delete_chain
replay_delete row_idx txid t = record t {
  version_chains = delete_chain row_idx txid t.version_chains (get_elem? t.version_chains row_idx);
}

abbrev restore_image : TableImage → Table
restore_image i = record (Table.Indexes.new i.name i.columns) { version_chains = i.chains }

pub apply_wal_record : List Table → WalRecord → List Table
unfolding change_table replay_insert replay_update replay_delete
apply_wal_record tables (WalRecord.create_table name columns) =
    if any (λ (t : Table). str_eq t.name name) tables
    then tables
    else tables ++ Table.Indexes.new name columns ∷ []
apply_wal_record tables (WalRecord.drop_table name) =
    retain (λ (t : Table). not (str_eq t.name name)) tables
apply_wal_record tables (WalRecord.insert name row txid) =
    change_table name (replay_insert row txid) tables
apply_wal_record tables (WalRecord.update name row_idx new_row txid) =
    change_table name (replay_update row_idx new_row txid) tables
apply_wal_record tables (WalRecord.delete name row_idx txid) =
    change_table name (replay_delete row_idx txid) tables
apply_wal_record tables (WalRecord.commit txid) = tables
apply_wal_record tables (WalRecord.checkpoint table_count images) = map restore_image images
apply_wal_record tables (WalRecord.create_user username hash) = tables
apply_wal_record tables (WalRecord.drop_user username) = tables
apply_wal_record tables (WalRecord.grant username table permission) = tables
apply_wal_record tables (WalRecord.revoke username table permission) = tables

-- The records of a log, one after the other.
pub replay : List Table → List WalRecord → List Table
unfolding apply_wal_record
replay tables [] = tables
replay tables (r ∷ records) = replay (apply_wal_record tables r) records
