-- ===== src/MemoryEngine/Laws.antt =====
-- The engine as a store of tables, and that it applies a write set as `MvccStore` does.
use heliondb.Base.{
  ℕ, String, Option, none, some, List, [], ◌∷◌, ◌≡◌, refl, ap, ◌∙◌, arith, if◌then◌else◌, get_elem?,
  All,
}
use heliondb.Base.Text.{str_eq, str_eq_iff}
use heliondb.Base.HashMap.{get-insert, get-remove}
use heliondb.Types.Column.{ColumnMeta}
use heliondb.Error.{ok}
use heliondb.Table
use heliondb.Table.{Table, Chain, RowVersion}
use heliondb.Table.Indexes
use heliondb.Table.Write.{WriteEntry}
use heliondb.Mvcc.{Tables}
use heliondb.Mvcc.WriteSet
use heliondb.Mvcc.WriteSet.{Change, write_chain, apply_changes, changes_for, version_of}
use heliondb.MemoryEngine.{
  MemoryEngine, find, store, create_table, drop_table, restore_table, snapshot_table, change_chains,
  apply_write_set,
}

find-store :
    (m : MemoryEngine) (name other : String) (t : Table)
    → find (store m name t) other ≡ (if str_eq name other then some t else find m other)
unfolding find store
find-store m name other t = get-insert str_eq str_eq_iff name other t m.tables

find-drop :
    (m : MemoryEngine) (name other : String)
    → find (drop_table m name) other ≡ (if str_eq name other then none else find m other)
unfolding find drop_table
find-drop m name other = get-remove str_eq str_eq_iff name other m.tables

-- Every version of the changes was made by the transaction.
abbrev MadeBy : ℕ → Change → Type 0
MadeBy tx_id c = (c.1).txid_min ≡ tx_id

change_chains-MadeBy :
    (tx_id : ℕ) (chains : List Chain) (changes : List Change)
    → All (MadeBy tx_id) changes
    → change_chains chains changes ≡ apply_changes tx_id chains changes
unfolding change_chains apply_changes
change_chains-MadeBy tx_id chains [] h = refl
change_chains-MadeBy tx_id chains ((row_idx, v) ∷ changes) h =
    ap (λ n. change_chains (write_chain n v chains row_idx (get_elem? chains row_idx)) changes) h.0
    ∙ change_chains-MadeBy tx_id (write_chain tx_id v chains row_idx (get_elem? chains row_idx))
        changes h.1

changes_for-MadeBy :
    (tables : Tables) (tx_id : ℕ) (name : String) (entries : List WriteEntry)
    → All (MadeBy tx_id) (changes_for tables tx_id name entries)
unfolding changes_for
changes_for-MadeBy tables tx_id name [] = tt
changes_for-MadeBy tables tx_id name (e ∷ entries) =
    ground (arith, changes_for-MadeBy tables tx_id name entries)

module _ (m : MemoryEngine) (name : String) where
  -- The other engine has the given table, or none, under the name, and differs nowhere else.
  abbrev pub Sets : MemoryEngine → Option Table → Type 0
  Sets n found =
      (other : String) → find n other ≡ (if str_eq name other then found else find m other)

  -- `MvccStore::apply_write_set` and the engine's `apply_write_set`, given the changes of the same
  -- write set, make the same chains of a table, and the engine changes no other table.
  pub apply_write_set-agrees :
      (tables : Tables) (write_set : List WriteEntry) (tx_id : ℕ) (t u : Table)
      (chains : List Chain)
      → tables name ≡ some t
      → find m name ≡ some u
      → u.version_chains ≡ t.version_chains
      → WriteSet.apply_write_set write_set tables tx_id name ≡ some chains
      → let (n, result) = apply_write_set m name (changes_for tables tx_id name write_set) in
        (result ≡ ok tt) × Sets n (some (record u { version_chains = chains }))
  unfolding apply_write_set WriteSet.apply_write_set
  apply_write_set-agrees tables write_set tx_id t u chains et eu same h =
      let changes = changes_for tables tx_id name write_set in
      let eq : change_chains u.version_chains changes ≡ chains = ground (
        arith,
        same,
        change_chains-MadeBy tx_id u.version_chains changes
            (changes_for-MadeBy tables tx_id name write_set),
      ) in
      (
        ground arith,
        λ other. rw (eu, eq) (find-store m name other (record u { version_chains = chains })),
      )

-- A creation puts a new table under its name, a removal takes the table of the name away, a
-- restoration puts the given table under its own name, and none of them changes any other table;
-- a restored table is the one that a snapshot of it gives.
pub store_laws :
    (m : MemoryEngine) (name : String) (columns : List ColumnMeta) (t : Table)
    → Sets m name (create_table m name columns) (some (Table.Indexes.new name columns))
      × Sets m name (drop_table m name) none
      × Sets m t.name (restore_table m t) (some t)
      × (snapshot_table (restore_table m t) t.name ≡ ok t)
unfolding create_table restore_table snapshot_table
store_laws m name columns t = (
  λ other. find-store m name other (Table.Indexes.new name columns),
  λ other. find-drop m name other,
  λ other. find-store m t.name other t,
  ground (arith, find-store m t.name t.name t, str_eq_iff t.name t.name),
)
