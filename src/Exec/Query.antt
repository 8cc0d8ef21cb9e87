-- ===== src/Exec/Query.antt =====
-- executor/ops.rs: `execute_as` on the plan of a query, and the check of its permissions.
use heliondb.Base.{
  ℕ, ◌+◌, ◌-◌, String, ◌&&◌, Option, none, some, List, [], ◌∷◌, ◌++◌, if◌then◌else◌, ltb, leb,
  length, map, find?, get_elem?, Ordering,
}
use heliondb.Base.Text.{str_eq}
use heliondb.Types.Column.{ColumnMeta}
use heliondb.Error.{Result, ok, ◌>>=◌}
use heliondb.Table.{Table}
use heliondb.Mvcc.{Snapshot, commit_transaction}
use heliondb.Engine.{Engine, begin}
use heliondb.Engine.Access.{check_select}
use heliondb.Expr.Functions.{Runtime}
use heliondb.Expr.Values.{display}
use heliondb.Plan.Syntax.{LogicalPlan, table_scan, join, projection, sort, limit}
use heliondb.Plan.Predicates.{sorted_names}
use heliondb.Plan.Indexes.{table_named}
use heliondb.Exec.Filter.{DataRow}
use heliondb.Exec.HashJoin.{HashTable}
use heliondb.Exec.Scan.{ExecContext}
use heliondb.Exec.Tree.{execute_tree}

pub record QueryResult : Type 0 where
  pub columns : List String
  pub column_types : List String
  pub rows : List (List String)
  pub rows_affected : ℕ

-- The result without columns.
abbrev pub affecting : ℕ → QueryResult
affecting n = record { columns = []; column_types = []; rows = []; rows_affected = n }

unfoldable pub collect_plan_tables : LogicalPlan → List String
collect_plan_tables (table_scan table _ _ _ _) = table ∷ []
collect_plan_tables (join left right _ _) = collect_plan_tables left ++ collect_plan_tables right
collect_plan_tables (LogicalPlan.filter input _) = collect_plan_tables input
collect_plan_tables (projection input _ _) = collect_plan_tables input
collect_plan_tables (sort input _) = collect_plan_tables input
collect_plan_tables (limit input _ _) = collect_plan_tables input
collect_plan_tables _ = []

-- The columns to check, by table, in the order in which the tables came.
abbrev pub Needed : Type 0
Needed = List (String × List String)

-- `entry(table).or_default().push(column)`.
need : String → String → Needed → Needed
need table column [] = (table, column ∷ []) ∷ []
need table column ((t, cols) ∷ m) =
    if str_eq t table then (t, cols ++ column ∷ []) ∷ m else (t, cols) ∷ need table column m

-- The table whose range of the combined row holds the column, and the column's name.
abbrev name_at : String → Option ColumnMeta → Option (String × String)
name_at table none = none
name_at table (some c) = some (table, c.name)

owner :
    List (String × List ColumnMeta)
    → ℕ
    → List (String × List ColumnMeta)
    → ℕ
    → Option (String × String)
owner table_map offset [] col_idx = none
owner table_map offset ((tname, own) ∷ tables) col_idx =
    let next = owner table_map (offset + length own) tables col_idx in
    elim (find? (λ t. str_eq t.0 tname) table_map) [
      | none ↦ next
      | some (_, cols) ↦
          if leb offset col_idx && ltb col_idx (offset + length cols)
          then name_at tname (get_elem? cols (col_idx - offset))
          else next
    ]

need_owned : Option (String × String) → Needed → Needed
unfolding need
need_owned none m = m
need_owned (some (table, column)) m = need table column m

unfoldable pub projected_columns : List (String × List ColumnMeta) → List ℕ → Needed → Needed
unfolding owner need_owned
projected_columns table_map [] m = m
projected_columns table_map (i ∷ is) m =
    projected_columns table_map is (need_owned (owner table_map 0 table_map i) m)

-- Every column of the tables that the engine has.
all_columns : List Table → List String → Needed
all_columns tables [] = []
all_columns tables (name ∷ names) =
    let rest = all_columns tables names in
    elim (table_named tables name) [
      | none ↦ rest
      | some t ↦ (name, map (λ c. c.name) t.columns) ∷ rest
    ]

unfoldable pub needed_columns : LogicalPlan → List Table → Needed
unfolding projected_columns all_columns sorted_names collect_plan_tables
needed_columns (projection _ columns table_map) tables = projected_columns table_map columns []
needed_columns plan tables = all_columns tables (sorted_names (collect_plan_tables plan))

-- What the host decides: the run-time functions, and the orders of hash maps and sorts.
pub record Host : Type 0 where
  pub runtime : Runtime
  pub hash_order : HashTable → HashTable
  pub needed_order : Needed → Needed
  pub sort_by : (DataRow → DataRow → Ordering) → List DataRow → List DataRow

abbrev pub checked_for : Option String → (String → Result (Unit {0})) → Result (Unit {0})
checked_for none check = ok tt
checked_for (some user) check = check user

abbrev context : Host → Snapshot → List Table → ExecContext
context host snapshot tables = record {
  runtime = host.runtime;
  tables = tables;
  snapshot_txid = snapshot.txid;
  active_txns = snapshot.active;
  hash_order = host.hash_order;
  sort_by = host.sort_by;
}

module _ {S : Type 0} (host : Host) where
  unfoldable pub check_each : Engine S → String → Needed → Result (Unit {0})
  unfolding check_select
  check_each e user [] = ok tt
  check_each e user ((table, columns) ∷ m) = do
    _ ← check_select host.runtime.to_lowercase e user table columns
    check_each e user m

  unfoldable pub check_plan_permissions : LogicalPlan → Engine S → String → Result (Unit {0})
  unfolding check_each needed_columns
  check_plan_permissions plan e user =
      check_each e user (host.needed_order (needed_columns plan e.tables))

  -- A snapshot, taken by a transaction that ends at once.
  unfoldable pub read_snapshot : Engine S → Snapshot × Engine S
  unfolding begin commit_transaction
  read_snapshot e =
      let (tx, e') = begin e in (tx.snapshot, record e' { mvcc = commit_transaction e'.mvcc tx })

  unfoldable pub execute_query :
      Engine S → LogicalPlan → Option String → Engine S × Result QueryResult
  unfolding read_snapshot check_plan_permissions execute_tree display
  execute_query e plan current_user =
      let (snapshot, e') = read_snapshot e in
      (
        e',
        (do
          _ ← checked_for current_user (check_plan_permissions plan e')
          (rows, names, types) ← execute_tree (context host snapshot e.tables) plan
          ok (record {
            columns = names;
            column_types = types;
            rows = map (map (display host.runtime.shows)) rows;
            rows_affected = length rows;
          })),
      )
