-- ===== src/Mvcc/WriteSet.antt =====
-- storage/mvcc.rs and storage/engine.rs: the versions that a write set stands for, and the chains
-- that they make.
pub mod Laws
pub mod Rows
use heliondb.Base.{
  ℕ, String, Bool, true, false, Option, none, some, List, [], ◌∷◌, ◌++◌, if◌then◌else◌, ltb,
  get_elem?, length, set,
}
use heliondb.Base.Text.{str_eq}
use heliondb.Types.Column.{Row}
use heliondb.Table.{Table, Chain, RowVersion, new_insert, new_update, new_delete, close_last}
use heliondb.Table.Write.{WriteOp, WriteEntry}
use heliondb.Mvcc.{Tables}

-- `chain.last()`.
abbrev pub last? {ℓ} : {A : Type ℓ} → List A → Option A
last? [] = none
last? (x ∷ []) = some x
last? (x ∷ y ∷ xs) = last? (y ∷ xs)

abbrev pub latest : Option Chain → Option RowVersion
latest none = none
latest (some chain) = last? chain

abbrev pub latest_in : Option Table → ℕ → Option RowVersion
latest_in none row_idx = none
latest_in (some t) row_idx = latest (get_elem? t.version_chains row_idx)

-- The version that an entry adds: a deletion copies the row of the latest version of the tables as
-- they were before the write set, and adds nothing where there is none.
abbrev pub deletion : ℕ → Option RowVersion → Option RowVersion
deletion tx_id none = none
deletion tx_id (some v) = some (new_delete tx_id v.row)

unfoldable pub version_of : Tables → ℕ → WriteEntry → Option RowVersion
version_of tables tx_id e = elim e.operation [
  | WriteOp.insert row ↦ some (new_insert tx_id row)
  | WriteOp.update row ↦ some (new_update tx_id row)
  | WriteOp.delete ↦ deletion tx_id (latest_in (tables e.table_name) e.row_idx)
]

abbrev pub Change : Type 0
Change = ℕ × RowVersion

-- The changes to one table, in the order of the write set.
unfoldable pub changes_for : Tables → ℕ → String → List WriteEntry → List Change
unfolding version_of
changes_for tables tx_id name [] = []
changes_for tables tx_id name (e ∷ entries) =
    let rest = changes_for tables tx_id name entries in
    if str_eq e.table_name name
    then (elim (version_of tables tx_id e) [ none ↦ rest | some v ↦ (e.row_idx, v) ∷ rest ])
    else rest

-- One change of the chains: the last version of the row ends, the new one follows; a row number
-- out of range adds a row.
unfoldable pub write_chain : ℕ → RowVersion → List Chain → ℕ → Option Chain → List Chain
unfolding close_last
write_chain txid v chains row_idx none = chains ++ (v ∷ []) ∷ []
write_chain txid v chains row_idx (some chain) =
    set chains row_idx (close_last txid chain ++ v ∷ [])

unfoldable pub apply_changes : ℕ → List Chain → List Change → List Chain
unfolding write_chain
apply_changes tx_id chains [] = chains
apply_changes tx_id chains ((row_idx, v) ∷ changes) =
    apply_changes tx_id (write_chain tx_id v chains row_idx (get_elem? chains row_idx)) changes

-- `MvccStore::apply_write_set`, read at one table: its new chains, if an entry names it and it is
-- there.
names_table : String → List WriteEntry → Bool
names_table name [] = false
names_table name (e ∷ entries) = if str_eq e.table_name name then true else names_table name entries

new_chains : Option Table → ℕ → List Change → Option (List Chain)
unfolding apply_changes
new_chains none tx_id changes = none
new_chains (some t) tx_id changes = some (apply_changes tx_id t.version_chains changes)

unfoldable pub apply_write_set : List WriteEntry → Tables → ℕ → String → Option (List Chain)
unfolding changes_for new_chains names_table
apply_write_set write_set tables tx_id name =
    if names_table name write_set
    then new_chains (tables name) tx_id (changes_for tables tx_id name write_set)
    else none
