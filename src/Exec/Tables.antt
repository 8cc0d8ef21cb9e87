-- ===== src/Exec/Tables.antt =====
-- executor/ops.rs: the tables under a plan, and the names and types of the columns of a result.
use heliondb.Base.{ℕ, suc, ◌+◌, String, List, [], ◌∷◌, ◌++◌, if◌then◌else◌, ltb, length, map}
use heliondb.Base.Text.{str_eq}
use heliondb.Types.Datum.{name}
use heliondb.Types.Column.{ColumnMeta}
use heliondb.Expr.Eval.{TableMap, dotted}
use heliondb.Plan.Syntax.{LogicalPlan, table_scan, join, projection, sort, limit}

-- The width of the tables together.
unfoldable pub width : TableMap → ℕ
width [] = 0
width ((_, _, columns) ∷ tables) = length columns + width tables

unfoldable pub shift : ℕ → TableMap → TableMap
shift k [] = []
shift k ((n, o, c) ∷ tables) = (n, o + k, c) ∷ shift k tables

-- The tables of two sides, the right ones behind the left ones.
unfoldable pub side_by_side : TableMap → TableMap → TableMap
unfolding shift width
side_by_side left right = left ++ shift (width left) right

unfoldable pub collect_expr_table_info : LogicalPlan → TableMap
unfolding side_by_side
collect_expr_table_info (table_scan table columns _ _ _) = (table, 0, columns) ∷ []
collect_expr_table_info (join left right _ _) =
    side_by_side (collect_expr_table_info left) (collect_expr_table_info right)
collect_expr_table_info (LogicalPlan.filter input _) = collect_expr_table_info input
collect_expr_table_info (projection input _ _) = collect_expr_table_info input
collect_expr_table_info (sort input _) = collect_expr_table_info input
collect_expr_table_info (limit input _ _) = collect_expr_table_info input
collect_expr_table_info _ = []

-- How often a name occurs among the columns: the map `name_counts`.
count_in : String → List ColumnMeta → ℕ
count_in n [] = 0
count_in n (c ∷ cs) = let rest = count_in n cs in if str_eq c.name n then suc rest else rest

name_count : String → List (String × List ColumnMeta) → ℕ
unfolding count_in
name_count n [] = 0
name_count n ((_, cols) ∷ tables) = count_in n cols + name_count n tables

-- A name that occurs twice is written with its table.
shown_name : List (String × List ColumnMeta) → String → ColumnMeta → String
unfolding name_count
shown_name all tname c = if ltb 1 (name_count c.name all) then dotted tname c.name else c.name

shown_names : List (String × List ColumnMeta) → List (String × List ColumnMeta) → List String
unfolding shown_name
shown_names all [] = []
shown_names all ((tname, cols) ∷ tables) = map (shown_name all tname) cols ++ shown_names all tables

unfoldable pub combined_col_names : List (String × List ColumnMeta) → List String
unfolding shown_names
combined_col_names tables = shown_names tables tables

abbrev pub without_offsets : TableMap → List (String × List ColumnMeta)
without_offsets [] = []
without_offsets ((n, o, c) ∷ tables) = (n, c) ∷ without_offsets tables

unfoldable pub build_combined_col_names : TableMap → List String
unfolding combined_col_names
build_combined_col_names info = combined_col_names (without_offsets info)

unfoldable pub type_names : List ColumnMeta → List String
type_names columns = map (λ c. name c.data_type) columns

unfoldable pub build_combined_col_types : TableMap → List String
unfolding type_names
build_combined_col_types [] = []
build_combined_col_types ((_, _, cols) ∷ tables) =
    type_names cols ++ build_combined_col_types tables
