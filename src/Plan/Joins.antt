-- ===== src/Plan/Joins.antt =====
-- sql/planner.rs: the choice of a join algorithm.
use heliondb.Base.{
  ℕ, ◌+◌, String, Bool, Option, none, some, List, [], ◌∷◌, ◌++◌, if◌then◌else◌, any, leb, position,
  length, map,
}
use heliondb.Base.Text.{eq_ignore_ascii_case}
use heliondb.Types.Column.{ColumnMeta}
use heliondb.Table.{Table}
use heliondb.Expr.Syntax.{Expression, column, binary_op, BinaryOperator}
use heliondb.Plan.Syntax.{
  LogicalPlan, table_scan, join, projection, sort, limit, JoinAlgorithm, nested_loop,
  index_nested_loop, hash_join,
}
use heliondb.Plan.Indexes.{index_on, table_named}

unfoldable extract_equi_join_pairs : Expression → List (Expression × Expression)
extract_equi_join_pairs (binary_op left BinaryOperator.eq right) = (left, right) ∷ []
extract_equi_join_pairs (binary_op left BinaryOperator.and right) =
    extract_equi_join_pairs left ++ extract_equi_join_pairs right
extract_equi_join_pairs _ = []

extract_single_table : LogicalPlan → Option (String × List ColumnMeta)
extract_single_table (table_scan table columns _ _ _) = some (table, columns)
extract_single_table _ = none

abbrev pub column_of : List ColumnMeta → String → Option ℕ
column_of columns name = position (λ c. eq_ignore_ascii_case c.name name) columns

-- The list of one column index that the code returns is that index here.
extract_column_index : Expression → LogicalPlan → Option ℕ
extract_column_index (column c) (table_scan _ columns _ _ _) = column_of columns c
extract_column_index _ _ = none

count_output_columns : LogicalPlan → ℕ
count_output_columns (table_scan _ columns _ _ _) = length columns
count_output_columns (join left right _ _) = count_output_columns left + count_output_columns right
count_output_columns (LogicalPlan.filter input _) = count_output_columns input
count_output_columns (projection _ columns _) = length columns
count_output_columns (sort input _) = count_output_columns input
count_output_columns (limit input _ _) = count_output_columns input
count_output_columns _ = 0

-- The side of an equality that is a column of the right table, with the other side.
unfoldable pub inner_side : Table → Expression × Expression → Option (String × Expression)
inner_side rt (l, r) = side l r
  where
    has : String → Bool
    has c = any (λ col. eq_ignore_ascii_case col.name c) rt.columns

    second : Expression → Expression → Option (String × Expression)
    second e (column c) = if has c then some (c, e) else none
    second _ _ = none

    side : Expression → Expression → Option (String × Expression)
    side (column c) e = if has c then some (c, e) else second (column c) e
    side e f = second e f

-- An index on the column, and the column of the outer rows that is its key.
unfoldable pub indexed_by : Table → LogicalPlan → Option (String × Expression) → Option (String × ℕ)
unfolding extract_column_index index_on
indexed_by rt left none = none
indexed_by rt left (some (name, outer)) = elim (column_of rt.columns name) [
  | none ↦ none
  | some ci ↦ elim (index_on ci rt.indexes) [
    | none ↦ none
    | some idx ↦ elim (extract_column_index outer left) [
      | none ↦ none
      | some oi ↦ some (idx.meta.name, oi)
    ]
  ]
]

unfoldable pub first_indexed :
    Table → LogicalPlan → List (Expression × Expression) → Option (String × ℕ)
unfolding inner_side indexed_by
first_indexed rt left [] = none
first_indexed rt left (p ∷ ps) = elim (indexed_by rt left (inner_side rt p)) [
  | some found ↦ some found
  | none ↦ first_indexed rt left ps
]

-- The pairs whose sides are columns of the left and of the right scan.
unfoldable pub key_pairs : LogicalPlan → LogicalPlan → List (Expression × Expression) → List (ℕ × ℕ)
unfolding extract_column_index
key_pairs left right [] = []
key_pairs left right ((l, r) ∷ ps) =
    let rest = key_pairs left right ps in
    elim (extract_column_index l left) [
      | none ↦ rest
      | some li ↦ elim (extract_column_index r right) [ none ↦ rest | some ri ↦ (li, ri) ∷ rest ]
    ]

abbrev lefts : List (ℕ × ℕ) → List ℕ
lefts ps = map (λ p. p.0) ps

abbrev rights : List (ℕ × ℕ) → List ℕ
rights ps = map (λ p. p.1) ps

-- The full ON clause stays the remaining predicate.
unfoldable pub hash_or_loop : LogicalPlan → LogicalPlan → Expression → List (ℕ × ℕ) → JoinAlgorithm
unfolding count_output_columns
hash_or_loop left right on [] = nested_loop (some on)
hash_or_loop left right on (p ∷ ps) =
    let build_left = leb (count_output_columns left) (count_output_columns right) in
    hash_join build_left (if build_left then lefts (p ∷ ps) else rights (p ∷ ps))
      (if build_left then rights (p ∷ ps) else lefts (p ∷ ps)) (some on)

unfoldable pub by_index :
    List Table
    → LogicalPlan
    → List (Expression × Expression)
    → Option (String × List ColumnMeta)
    → Option (String × List ColumnMeta × String × ℕ)
unfolding first_indexed
by_index tables left pairs none = none
by_index tables left pairs (some (name, cols)) = elim (table_named tables name) [
  | none ↦ none
  | some rt ↦ elim (first_indexed rt left pairs) [
    | none ↦ none
    | some (idx, oi) ↦ some (name, cols, idx, oi)
  ]
]

unfoldable pub select_join_algorithm :
    LogicalPlan → LogicalPlan → Option Expression → List Table → JoinAlgorithm
unfolding extract_equi_join_pairs extract_single_table by_index hash_or_loop key_pairs
select_join_algorithm left right none tables = nested_loop none
select_join_algorithm left right (some on) tables =
    elim (by_index tables left (extract_equi_join_pairs on) (extract_single_table right)) [
      | some (name, cols, idx, oi) ↦ index_nested_loop name cols idx (oi ∷ []) (some on)
      | none ↦ hash_or_loop left right on (key_pairs left right (extract_equi_join_pairs on))
    ]

choose_algorithm : LogicalPlan → LogicalPlan → JoinAlgorithm → List Table → JoinAlgorithm
unfolding select_join_algorithm
choose_algorithm left right (nested_loop on_clause) tables =
    select_join_algorithm left right on_clause tables
choose_algorithm left right other tables = other

unfoldable pub choose_join_algorithms : LogicalPlan → List Table → LogicalPlan
unfolding choose_algorithm
choose_join_algorithms (join left right join_type algorithm) tables =
    let l = choose_join_algorithms left tables in
    let r = choose_join_algorithms right tables in
    join l r join_type (choose_algorithm l r algorithm tables)
choose_join_algorithms (LogicalPlan.filter input predicate) tables =
    LogicalPlan.filter (choose_join_algorithms input tables) predicate
choose_join_algorithms (projection input columns table_map) tables =
    projection (choose_join_algorithms input tables) columns table_map
choose_join_algorithms (sort input order_by) tables =
    sort (choose_join_algorithms input tables) order_by
choose_join_algorithms (limit input n offset) tables =
    limit (choose_join_algorithms input tables) n offset
choose_join_algorithms other tables = other
