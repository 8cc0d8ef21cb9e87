-- ===== src/Exec/Tree.antt =====
-- executor/ops.rs: `execute_tree` and `execute_join_node`.
pub mod LeftJoin
use heliondb.Base.{ℕ, String, Bool, Option, List, [], ◌∷◌, ◌++◌, length}
use heliondb.Types.Column.{ColumnMeta}
use heliondb.Error.{Result, ok, err, ◌>>=◌, internal, text}
use heliondb.Expr.Syntax.{Expression, JoinType}
use heliondb.Expr.Eval.{TableMap}
use heliondb.Plan.Syntax.{
  LogicalPlan, table_scan, join, projection, sort, limit, JoinAlgorithm, nested_loop,
  index_nested_loop, hash_join,
}
use heliondb.Exec.Tables.{
  width, side_by_side, collect_expr_table_info, build_combined_col_names, build_combined_col_types,
}
use heliondb.Exec.Filter.{DataRow, keeps, on_match}
use heliondb.Exec.NestedLoop.{nested_loop_join}
use heliondb.Exec.IndexLoop.{index_loop_join}
use heliondb.Exec.HashJoin.{hash_join_rows}
use heliondb.Exec.Scan.{ExecContext, Output, table_for, index_for, execute_table_scan, filter_rows}
use heliondb.Exec.Shape.{project, compare_rows, slice}

-- A result with the names and types of all columns of its tables.
unfoldable pub combined : TableMap → List DataRow → Result Output
unfolding build_combined_col_names build_combined_col_types
combined info rows = ok (rows, build_combined_col_names info, build_combined_col_types info)

module _ (ctx : ExecContext) where
  unfoldable pub on : TableMap → Option Expression → DataRow → Bool
  unfolding on_match
  on tables clause = on_match ctx.runtime tables clause

  -- `execute_join_node`, on the tables and the results of the two sides; the loop over an index
  -- does not run its inner side.
  unfoldable pub execute_join_node :
      TableMap → TableMap → JoinType → JoinAlgorithm → Result Output → Result Output → Result Output
  unfolding combined on side_by_side nested_loop_join index_loop_join hash_join_rows
  execute_join_node left_info right_info join_type (nested_loop on_clause) left right = do
    (lefts, _, _) ← left
    (rights, _, _) ← right
    let info = side_by_side left_info right_info
    combined info (
        nested_loop_join (on info on_clause) join_type (width left_info) (width right_info) lefts
          rights)
  execute_join_node left_info right_info join_type
        (index_nested_loop inner_table inner_columns index_name key_indices remaining_on) left
        right =
      do
        (outers, _, _) ← left
        t ← table_for ctx.tables inner_table
        idx ← index_for t index_name
        let info = left_info ++ (inner_table, width left_info, inner_columns) ∷ []
        combined info (
            index_loop_join (on info remaining_on) t ctx.snapshot_txid ctx.active_txns join_type idx
              key_indices (length inner_columns) outers)
  execute_join_node left_info right_info join_type
        (hash_join build_left build_keys probe_keys remaining_on) left right =
      do
        (lefts, _, _) ← left
        (rights, _, _) ← right
        let info = side_by_side left_info right_info
        combined info (
            hash_join_rows (on info remaining_on) ctx.hash_order join_type build_left build_keys
              probe_keys (width left_info) (width right_info) lefts rights)

  unfoldable pub execute_tree : LogicalPlan → Result Output
  unfolding execute_join_node execute_table_scan project compare_rows slice collect_expr_table_info
      keeps
  execute_tree (table_scan table columns filter index_name index_keys) =
      execute_table_scan ctx table columns filter index_name index_keys
  execute_tree (join left right join_type algorithm) =
      execute_join_node (collect_expr_table_info left) (collect_expr_table_info right) join_type
        algorithm (execute_tree left) (execute_tree right)
  execute_tree (LogicalPlan.filter input predicate) = do
    (rows, names, types) ← execute_tree input
    ok (
      filter_rows (keeps ctx.runtime (collect_expr_table_info input) predicate) rows,
      names,
      types,
    )
  execute_tree (projection input columns table_map) = do
    (rows, _, _) ← execute_tree input
    ok (project columns table_map rows)
  execute_tree (sort input order_by) = do
    (rows, names, types) ← execute_tree input
    ok (
      ctx.sort_by (compare_rows ctx.runtime (collect_expr_table_info input) order_by) rows,
      names,
      types,
    )
  execute_tree (limit input n offset) = do
    (rows, names, types) ← execute_tree input
    ok (slice n offset rows, names, types)
  execute_tree _ = err (internal (text "Unexpected flat plan node in tree execution" ∷ []))
