-- ===== src/Plan/Select.antt =====
-- sql/planner.rs: `plan_select` and `optimize`.
use heliondb.Base.{
  ℕ, ◌+◌, String, Bool, true, false, ◌||◌, Option, none, some, List, [], ◌∷◌, if◌then◌else◌, ltb,
  length, map,
}
use heliondb.Error.{Result, ok, ◌>>=◌}
use heliondb.Table.{Table, u64_max}
use heliondb.Expr.Syntax.{Expression, SelectColumn, OrderByExpr, JoinClause}
use heliondb.Plan.Syntax.{LogicalPlan, table_scan, join, projection, sort, limit, nested_loop}
use heliondb.Plan.Predicates.{push_down_predicates}
use heliondb.Plan.Indexes.{select_indexes}
use heliondb.Plan.Joins.{choose_join_algorithms}
use heliondb.Plan.Resolve.{Columns, find_table, resolve_table_list, resolve_select_columns}

-- The joins of the query, from the left.
add_joins : LogicalPlan → List JoinClause → List Table → Result LogicalPlan
unfolding find_table
add_joins plan [] tables = ok plan
add_joins plan (jc ∷ joins) tables = do
  right ← find_table tables jc.right_table
  add_joins
      (join plan (table_scan jc.right_table right.columns none none none) jc.join_type
        (nested_loop jc.on_clause))
      joins tables

add_filter : Option Expression → LogicalPlan → LogicalPlan
add_filter none plan = plan
add_filter (some predicate) plan = LogicalPlan.filter plan predicate

add_sort : List OrderByExpr → LogicalPlan → LogicalPlan
add_sort [] plan = plan
add_sort (o ∷ os) plan = sort plan (o ∷ os)

abbrev or_else : ℕ → Option ℕ → ℕ
or_else d none = d
or_else d (some n) = n

abbrev is_given : Option ℕ → Bool
is_given none = false
is_given (some _) = true

add_limit : Option ℕ → Option ℕ → LogicalPlan → LogicalPlan
add_limit n offset plan =
    if is_given n || ltb 0 (or_else 0 offset)
    then limit plan (or_else u64_max n) (or_else 0 offset)
    else plan

unfoldable pub combined_width : Columns → ℕ
combined_width [] = 0
combined_width ((_, cols) ∷ tables) = length cols + combined_width tables

unfoldable pub plan_select :
    String
    → List SelectColumn
    → Option Expression
    → List OrderByExpr
    → Option ℕ
    → Option ℕ
    → List JoinClause
    → List Table
    → Result LogicalPlan
unfolding add_joins add_filter add_sort add_limit combined_width find_table resolve_table_list
    resolve_select_columns
plan_select table_name columns where_clause order_by n offset joins tables = do
  primary ← find_table tables table_name
  joined ← add_joins (table_scan table_name primary.columns none none none) joins tables
  all_tables ← resolve_table_list table_name joins tables
  let table_map = map (λ (t : Table). (t.name, t.columns)) all_tables
  indices ← resolve_select_columns columns table_map (combined_width table_map)
  ok (
      projection (add_limit n offset (add_sort order_by (add_filter where_clause joined))) indices
        table_map)

module _ (get_version_num : List ℕ → ℕ) where
  unfoldable pub optimize : LogicalPlan → List Table → LogicalPlan
  unfolding push_down_predicates select_indexes choose_join_algorithms
  optimize plan tables =
      choose_join_algorithms (select_indexes get_version_num (push_down_predicates plan) tables)
        tables
