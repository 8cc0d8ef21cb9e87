-- ===== src/Exec/Tests.antt =====
-- The laws of query execution at concrete rows.
use heliondb.Base.{
  ℕ, ◌≤◌, ◌≡◌, refl, Bool, true, false, List, [], ◌∷◌, ◌++◌, some, none, String, arith, All, map,
  length, ◌==◌,
}
use heliondb.Base.Int.{pos}
use heliondb.Types.Datum.{Datum, DataType, is_null}
use heliondb.Types.Column
use heliondb.Types.Column.{ColumnMeta}
use heliondb.Types.Order.{cmp}
use heliondb.Index.{key_of}
use heliondb.Table.{Table, new_insert}
use heliondb.Expr.Syntax.{Expression, JoinType, column, binary_op, BinaryOperator}
use heliondb.Expr.Samples.{runtime}
use heliondb.Plan.Syntax.{LogicalPlan, join, nested_loop, hash_join}
use heliondb.Plan.Joins.{select_join_algorithm}
use heliondb.Plan.Predicates.{push_down_predicates, only_from, decompose_conjunction}
use heliondb.Exec.Filter.{DataRow, keeps}
use heliondb.Exec.Tables.{collect_expr_table_info}
use heliondb.Exec.NestedLoop.{nested_loop_join}
use heliondb.Exec.HashJoin.{HashTable, same_key, hash_join_rows}
use heliondb.Exec.HashJoin.Equivalence.{hash_join-eq-nested_loop}
use heliondb.Exec.HashJoin.Swapped.{scan_of, wide_left_join_empty}
use heliondb.Exec.Scan.{ExecContext}
use heliondb.Exec.Tree.{execute_tree}
use heliondb.Exec.Tree.LeftJoin.{Covers, left_join_unfiltered}

abbrev same_order : HashTable → HashTable
same_order t = t

-- Orders with the number of their user, and users with their number.
abbrev orders : List DataRow
orders =
    (Datum.integer (pos 7) ∷ Datum.text "ink" ∷ Datum.integer (pos 1) ∷ [])
    ∷ (Datum.integer (pos 8) ∷ Datum.text "pen" ∷ Datum.integer (pos 2) ∷ [])
    ∷ []

abbrev users : List DataRow
users = (Datum.integer (pos 1) ∷ Datum.text "ada" ∷ []) ∷ []

-- `orders.user = users.id`, for numbers.
abbrev same_number : Datum → Datum → Bool
same_number (Datum.integer (pos m)) (Datum.integer (pos n)) = m == n
same_number _ _ = false

abbrev of_user : DataRow → Bool
of_user (_ ∷ _ ∷ a ∷ b ∷ _) = same_number a b
of_user _ = false

hash_join-eq-nested_loop_example :
    hash_join_rows of_user same_order JoinType.inner false (2 ∷ []) (0 ∷ []) 3 2 orders users
    ≡ nested_loop_join of_user JoinType.inner 3 2 orders users
unfolding key_of is_null same_key cmp
hash_join-eq-nested_loop_example =
    hash_join-eq-nested_loop of_user same_order JoinType.inner (2 ∷ []) (0 ∷ []) 3 2 orders users
      refl ((λ _. (refl, refl), tt), ((λ h. (refl, cc), tt), tt))

abbrev order_table : Table
order_table = record {
  name = "orders";
  columns =
      Column.new "order" DataType.integer
      ∷ Column.new "item" DataType.text
      ∷ Column.new "buyer" DataType.integer
      ∷ [];
  version_chains =
      (new_insert 1 (record {
        values = Datum.integer (pos 7) ∷ Datum.text "ink" ∷ Datum.integer (pos 1) ∷ [];
      })
        ∷ [])
      ∷ [];
  primary_key_idx = none;
  indexes = [];
}

abbrev user_table : Table
user_table = record {
  name = "users";
  columns = Column.new "id" DataType.integer ∷ Column.new "name" DataType.text ∷ [];
  version_chains =
      (new_insert 1 (record { values = Datum.integer (pos 1) ∷ Datum.text "ada" ∷ [] }) ∷ []) ∷ [];
  primary_key_idx = none;
  indexes = [];
}

abbrev tables : List Table
tables = order_table ∷ user_table ∷ []

wide_left_join_empty_example :
    (select_join_algorithm
        (scan_of order_table)
        (scan_of user_table)
        (some (binary_op (column "buyer") BinaryOperator.eq (column "id")))
        tables
      ≡ hash_join false
          (0 ∷ [])
          (2 ∷ [])
          (some (binary_op (column "buyer") BinaryOperator.eq (column "id"))))
    × (hash_join_rows of_user same_order JoinType.inner false (0 ∷ []) (2 ∷ []) 3 2 orders users
        ≡ [])
unfolding heliondb.Base.Text.eq_ignore_ascii_case
wide_left_join_empty_example =
    wide_left_join_empty tables order_table user_table "buyer" "id" refl refl refl refl
      (omega arith) of_user same_order 3 2 orders users (omega arith) (omega arith)

abbrev context : ExecContext
context = record {
  runtime = runtime;
  tables = tables;
  snapshot_txid = 5;
  active_txns = [];
  hash_order = same_order;
  sort_by = λ c rows. rows;
}

abbrev joined : LogicalPlan
joined =
    join (scan_of order_table) (scan_of user_table) JoinType.left
      (nested_loop (some (binary_op (column "buyer") BinaryOperator.eq (column "id"))))

abbrev no_name : Expression
no_name = Expression.is_null (column "name")

abbrev one_order : List DataRow
one_order = (Datum.integer (pos 7) ∷ Datum.text "ink" ∷ Datum.integer (pos 1) ∷ []) ∷ []

abbrev padded_order : List DataRow
padded_order =
    (Datum.integer (pos 7)
      ∷ Datum.text "ink"
      ∷ Datum.integer (pos 1)
      ∷ Datum.null
      ∷ Datum.null
      ∷ [])
    ∷ []

-- The order has a user, whose name is not NULL: no row is asked for, and yet there is one.
abbrev no_rows : List DataRow
no_rows = []

left_join_unfiltered_example :
    All (λ r. keeps runtime (collect_expr_table_info joined) no_name r ≡ true) no_rows
    × Covers one_order padded_order
unfolding execute_tree push_down_predicates only_from decompose_conjunction is_null keeps
    heliondb.Base.Text.eq_ignore_ascii_case heliondb.Types.Datum.name
left_join_unfiltered_example =
    left_join_unfiltered (scan_of order_table) (scan_of user_table)
      (some (binary_op (column "buyer") BinaryOperator.eq (column "id"))) no_name refl context
      one_order no_rows padded_order ("order" ∷ "item" ∷ "buyer" ∷ [])
      ("INTEGER" ∷ "TEXT" ∷ "INTEGER" ∷ []) ("order" ∷ "item" ∷ "buyer" ∷ "id" ∷ "name" ∷ [])
      ("INTEGER" ∷ "TEXT" ∷ "INTEGER" ∷ "INTEGER" ∷ "TEXT" ∷ [])
      ("order" ∷ "item" ∷ "buyer" ∷ "id" ∷ "name" ∷ [])
      ("INTEGER" ∷ "TEXT" ∷ "INTEGER" ∷ "INTEGER" ∷ "TEXT" ∷ []) refl refl refl refl refl
