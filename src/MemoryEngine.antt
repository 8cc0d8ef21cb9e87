-- ===== src/MemoryEngine.antt =====
-- storage/engines/memory.rs: the storage engine that holds its tables in a map by name.
pub mod Laws
mod Tests
use heliondb.Base.{ℕ, String, Bool, true, false, Option, none, some, List, [], ◌∷◌, get_elem?}
use heliondb.Base.NatSet.{NatSet}
use heliondb.Base.Text.{str_eq}
use heliondb.Base.HashMap
use heliondb.Base.HashMap.{HashMap}
use heliondb.Types.Column.{ColumnMeta, Row}
use heliondb.Error.{Result, ok, err, table_not_found, ◌>>=◌}
use heliondb.Table
use heliondb.Table.{Table, Chain, RowVersion}
use heliondb.Table.Indexes
use heliondb.Mvcc.WriteSet.{Change, write_chain}

pub record MemoryEngine : Type 0 where
  pub tables : HashMap String Table

abbrev pub new : MemoryEngine
new = record { tables = [] }

-- `tables.get(name)`.
pub find : MemoryEngine → String → Option Table
unfolding HashMap.get
find m name = HashMap.get str_eq name m.tables

pub store : MemoryEngine → String → Table → MemoryEngine
unfolding HashMap.insert
store m name t = record m { tables = HashMap.insert str_eq name t m.tables }

unfoldable pub create_table : MemoryEngine → String → List ColumnMeta → MemoryEngine
unfolding store
create_table m name columns = store m name (Table.Indexes.new name columns)

unfoldable pub drop_table : MemoryEngine → String → MemoryEngine
unfolding HashMap.remove
drop_table m name = record m { tables = HashMap.remove str_eq name m.tables }

abbrev is_some {ℓ} : {A : Type ℓ} → Option A → Bool
is_some none = false
is_some (some _) = true

unfoldable pub table_exists : MemoryEngine → String → Bool
unfolding find
table_exists m name = is_some (find m name)

abbrev found : String → Option Table → Result Table
found name none = err (table_not_found name)
found name (some t) = ok t

unfoldable pub get_table : MemoryEngine → String → Result Table
unfolding find
get_table m name = found name (find m name)

unfoldable pub scan_visible : MemoryEngine → String → ℕ → NatSet → Result (List (ℕ × Row))
unfolding find
scan_visible m name snapshot_txid active_txns =
    found name (find m name) >>= λ t. ok (Table.scan_visible t snapshot_txid active_txns)

unfoldable pub row_count : MemoryEngine → String → Result ℕ
unfolding find
row_count m name = found name (find m name) >>= λ t. ok (Table.row_count t)

-- The loop of `apply_write_set`: the replaced version ends at its successor's creator.
pub change_chains : List Chain → List Change → List Chain
unfolding write_chain
change_chains chains [] = chains
change_chains chains ((row_idx, v) ∷ changes) =
    change_chains (write_chain v.txid_min v chains row_idx (get_elem? chains row_idx)) changes

changed : MemoryEngine → String → List Change → Option Table → MemoryEngine × Result (Unit {0})
unfolding store change_chains
changed m name changes none = (m, err (table_not_found name))
changed m name changes (some t) =
    (store m name (record t { version_chains = change_chains t.version_chains changes }), ok tt)

unfoldable pub apply_write_set :
    MemoryEngine → String → List Change → MemoryEngine × Result (Unit {0})
unfolding changed find
apply_write_set m name changes = changed m name changes (find m name)

unfoldable pub snapshot_table : MemoryEngine → String → Result Table
unfolding find
snapshot_table m name = found name (find m name)

unfoldable pub restore_table : MemoryEngine → Table → MemoryEngine
unfolding store
restore_table m t = store m t.name t
