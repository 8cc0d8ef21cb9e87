-- ===== src/Exec/Scan.antt =====
-- executor/ops.rs: `execute_table_scan`.
use heliondb.Base.{ℕ, String, Bool, Option, none, some, List, [], ◌∷◌, find?, map, retain}
use heliondb.Base.NatSet.{NatSet}
use heliondb.Base.Text.{str_eq}
use heliondb.Types.Datum.{Datum}
use heliondb.Types.Column.{ColumnMeta, Row}
use heliondb.Error.{Result, ok, err, ◌>>=◌, table_not_found, index_not_found}
use heliondb.Index.{Index}
use heliondb.Table.{Table, scan_visible}
use heliondb.Expr.Syntax.{Expression}
use heliondb.Expr.Functions.{Runtime}
use heliondb.Plan.Indexes.{table_named}
use heliondb.Exec.Tables.{type_names}
use heliondb.Exec.Filter.{DataRow, keeps}
use heliondb.Exec.HashJoin.{HashTable}
use heliondb.Exec.IndexLoop.{visible_values, rows_of}

-- `ExecContext`, with the order of hash tables and the `sort_by` of the standard library.
pub record ExecContext : Type 0 where
  pub runtime : Runtime
  pub tables : List Table
  pub snapshot_txid : ℕ
  pub active_txns : NatSet
  pub hash_order : HashTable → HashTable
  pub sort_by : (DataRow → DataRow → Prim.Native.Nat.Ordering) → List DataRow → List DataRow

-- The rows of a result, and the names and types of its columns.
abbrev pub Output : Type 0
Output = List DataRow × List String × List String

unfoldable pub table_for : List Table → String → Result Table
table_for tables name = elim (table_named tables name) [
  | none ↦ err (table_not_found name)
  | some t ↦ ok t
]

unfoldable pub index_for : Table → String → Result Index
index_for t name = elim (find? (λ i. str_eq i.meta.name name) t.indexes) [
  | none ↦ err (index_not_found name)
  | some i ↦ ok i
]

abbrev keys_or_none : Option (List Datum) → List Datum
keys_or_none none = []
keys_or_none (some keys) = keys

abbrev values_of : ℕ × Row → DataRow
values_of (_, r) = r.values

unfoldable pub visible_rows :
    ExecContext → Table → Option String → Option (List Datum) → Result (List DataRow)
unfolding scan_visible visible_values rows_of index_for
visible_rows ctx t none index_keys =
    ok (map values_of (scan_visible t ctx.snapshot_txid ctx.active_txns))
visible_rows ctx t (some index_name) index_keys = do
  idx ← index_for t index_name
  ok (visible_values t ctx.snapshot_txid ctx.active_txns (rows_of idx (keys_or_none index_keys)))

abbrev pub filter_rows : (DataRow → Bool) → List DataRow → List DataRow
filter_rows p rows = retain p rows

scanned : ExecContext → String → List ColumnMeta → Option Expression → List DataRow → List DataRow
unfolding keeps
scanned ctx table columns none rows = rows
scanned ctx table columns (some f) rows =
    filter_rows (keeps ctx.runtime ((table, 0, columns) ∷ []) f) rows

unfoldable pub execute_table_scan :
    ExecContext
    → String
    → List ColumnMeta
    → Option Expression
    → Option String
    → Option (List Datum)
    → Result Output
unfolding table_for visible_rows scanned type_names
execute_table_scan ctx table columns filter index_name index_keys = do
  t ← table_for ctx.tables table
  rows ← visible_rows ctx t index_name index_keys
  ok (scanned ctx table columns filter rows, map (λ c. c.name) columns, type_names columns)
