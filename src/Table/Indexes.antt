-- ===== src/Table/Indexes.antt =====
-- storage/table.rs: the indexes of a table and how they are built, populated and rebuilt.
pub mod Rebuild
pub mod Names
use heliondb.Base.{
  ℕ, zero, suc, String, Bool, true, false, not, ◌&&◌, Option, none, some, List, [], ◌∷◌, ◌++◌, map,
  if◌then◌else◌, length, any, find?, position, remove_at,
}
use heliondb.Base.NatSet.{NatSet}
use heliondb.Base.Text.{str_eq, concat}
use heliondb.Types.Column.{ColumnMeta, Row}
use heliondb.Error.{
  HelionError, Result, ok, err, ◌>>=◌, map_err, duplicate_key, index_already_exists,
  index_not_found,
}
use heliondb.Index.{
  Index, Key, new_unique, new_non_unique, extract_key, insert, insert_entry, clear,
}
use heliondb.Table.{Table, u64_max, scan_visible}

abbrev has_index : Table → String → Bool
has_index t name = any (λ i. str_eq i.meta.name name) t.indexes

push_if_absent : Table → String → List ℕ → Table
push_if_absent t name columns =
    if has_index t name then t else record t { indexes = t.indexes ++ new_unique name columns ∷ [] }

build_pk_index : Table → Table
unfolding push_if_absent
build_pk_index t = elim t.primary_key_idx [
  | none ↦ t
  | some pk_col ↦ push_if_absent t (concat "pk_" t.name) (pk_col ∷ [])
]

build_unique_from : Table → ℕ → List ColumnMeta → Table
unfolding push_if_absent
build_unique_from t i [] = t
build_unique_from t i (col ∷ columns) =
    build_unique_from
      (if col.is_unique && not col.is_primary_key
        then push_if_absent t (concat (concat (concat "uq_" t.name) "_") col.name) (i ∷ [])
        else t)
      (suc i) columns

build_unique_indexes : Table → Table
unfolding build_unique_from
build_unique_indexes t = build_unique_from t 0 t.columns

-- `Table::new`.
unfoldable pub new : String → List ColumnMeta → Table
unfolding build_pk_index build_unique_indexes
new name columns = build_unique_indexes (
    build_pk_index (record {
      name = name;
      columns = columns;
      version_chains = [];
      primary_key_idx = position (λ c. c.is_primary_key) columns;
      indexes = [];
    }))

-- The rows that a reader without concurrent transactions sees.
abbrev pub current_rows : Table → List (ℕ × Row)
current_rows t = scan_visible t u64_max []

abbrev pub index_row : ℕ → Row → Index → Index
index_row row_idx row i = insert_entry i (extract_key i row) row_idx

rebuild_rows : List (ℕ × Row) → List Index → List Index
rebuild_rows [] indexes = indexes
rebuild_rows ((row_idx, row) ∷ rows) indexes =
    rebuild_rows rows (map (index_row row_idx row) indexes)

pub rebuild_indexes : Table → Table
unfolding rebuild_rows
rebuild_indexes t = record t { indexes = rebuild_rows (current_rows t) (map clear t.indexes) }

-- The loop of `add_index`: a unique index refuses the second row of a key.
populate : String → Bool → List (ℕ × Row) → Index → Result Index
populate name is_unique [] i = ok i
populate name is_unique ((row_idx, row) ∷ rows) i =
    let key = extract_key i row in
    let added =
      if is_unique
      then map_err (λ _. duplicate_key name key) (insert i key row_idx)
      else ok (insert_entry i key row_idx) in
    added >>= populate name is_unique rows

unfoldable pub add_index : Table → String → List ℕ → Bool → Result Table
unfolding populate
add_index t name columns is_unique =
    let empty = if is_unique then new_unique name columns else new_non_unique name columns in
    if has_index t name then err (index_already_exists name) else (do
      i ← populate name is_unique (current_rows t) empty
      ok (record t { indexes = t.indexes ++ i ∷ [] }))

abbrev index_count : Table → ℕ
index_count t = length t.indexes

abbrev index_names : Table → List String
index_names t = map (λ i. i.meta.name) t.indexes

unfoldable pub drop_index : Table → String → Result Table
drop_index t name = elim (position (λ (i : Index). str_eq i.meta.name name) t.indexes) [
  | none ↦ err (index_not_found name)
  | some pos ↦ ok (record t { indexes = remove_at t.indexes pos })
]

abbrev find_index : Table → String → Option Index
find_index t name = find? (λ (i : Index). str_eq i.meta.name name) t.indexes
