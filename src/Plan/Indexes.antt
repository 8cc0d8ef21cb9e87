-- ===== src/Plan/Indexes.antt =====
-- sql/planner.rs: the choice of an index for a scan.
use heliondb.Base.{
  ℕ, String, Bool, true, false, not, ◌&&◌, Option, none, some, List, [], ◌∷◌, any, retain, ◌==◌,
  find?, get_elem?, position,
}
use heliondb.Base.Text.{eq_ignore_ascii_case, str_eq}
use heliondb.Types.Datum.{Datum}
use heliondb.Types.Column.{ColumnMeta}
use heliondb.Types.Coerce.{coerce_datum}
use heliondb.Error.{Result, ok, err}
use heliondb.Index.{Index}
use heliondb.Table.{Table}
use heliondb.Expr.Syntax.{Expression, column, literal, binary_op, BinaryOperator}
use heliondb.Plan.Syntax.{LogicalPlan, table_scan, join, projection, sort, limit}
use heliondb.Plan.Predicates.{decompose_conjunction, recompose_conjunction}

-- `(Column(c), Literal(v)) | (Literal(v), Column(c))`.
unfoldable column_and_literal : Expression → Expression → Option (String × Datum)
column_and_literal (column c) (literal v) = some (c, v)
column_and_literal (literal v) (column c) = some (c, v)
column_and_literal _ _ = none

-- An equality of a column and a literal.
unfoldable equality : Expression → Option (String × Datum)
unfolding column_and_literal
equality (binary_op left BinaryOperator.eq right) = column_and_literal left right
equality _ = none

is_on : ℕ → Index → Bool
is_on col_idx idx = elim idx.meta.columns [ [] ↦ false | c ∷ cs ↦ c == col_idx && no_more cs ]
  where
    no_more : List ℕ → Bool
    no_more [] = true
    no_more _ = false

-- The first index on this column alone.
unfoldable pub index_on : ℕ → List Index → Option Index
unfolding is_on
index_on col_idx indexes = find? (is_on col_idx) indexes

remaining : List Expression → Option Expression
unfolding recompose_conjunction
remaining [] = none
remaining (e ∷ es) = some (recompose_conjunction (e ∷ es))

matches_indexed_predicate : List ColumnMeta → Expression → Bool
unfolding equality
matches_indexed_predicate columns pred = elim (equality pred) [
  | none ↦ false
  | some (col_name, _) ↦ any (λ c. eq_ignore_ascii_case c.name col_name) columns
]

unfoldable remove_indexed_predicate : Option Expression → List ColumnMeta → Option Expression
unfolding matches_indexed_predicate remaining decompose_conjunction
remove_indexed_predicate none columns = none
remove_indexed_predicate (some filter) columns =
    remaining
      (retain (λ p. not (matches_indexed_predicate columns p)) (decompose_conjunction filter))

abbrev named : String → Table → Bool
named name t = str_eq t.name name

-- `find_table(tables, name).ok()`.
abbrev pub table_named : List Table → String → Option Table
table_named tables name = find? (named name) tables

module _ (get_version_num : List ℕ → ℕ) where
  keyed : Option Index → Result Datum → Option (String × List Datum)
  keyed _ (err _) = none
  keyed none (ok _) = none
  keyed (some idx) (ok coerced) = some (idx.meta.name, coerced ∷ [])

  -- The key is the literal in the type of the column.
  key_for : Table → Datum → Option ℕ → Option (String × List Datum)
  unfolding keyed index_on
  key_for t v none = none
  key_for t v (some col_idx) = elim (get_elem? t.columns col_idx) [
    | none ↦ none
    | some c ↦ keyed (index_on col_idx t.indexes) (coerce_datum get_version_num v c.data_type)
  ]

  unfoldable pub choose_index_for_filter : Table → Expression → Option (String × List Datum)
  unfolding equality key_for
  choose_index_for_filter t filter = elim (equality filter) [
    | none ↦ none
    | some (c, v) ↦ key_for t v (position (λ col. eq_ignore_ascii_case col.name c) t.columns)
  ]

  chosen_for : Option Table → Option Expression → Option (String × List Datum)
  unfolding choose_index_for_filter
  chosen_for none _ = none
  chosen_for (some t) none = none
  chosen_for (some t) (some filter) = choose_index_for_filter t filter

  indexed_scan :
      String → List ColumnMeta → Option Expression → Option (String × List Datum) → LogicalPlan
  unfolding remove_indexed_predicate
  indexed_scan table columns filter none = table_scan table columns filter none none
  indexed_scan table columns filter (some (idx_name, keys)) =
      table_scan table columns (remove_indexed_predicate filter columns) (some idx_name) (some keys)

  unfoldable pub select_indexes : LogicalPlan → List Table → LogicalPlan
  unfolding chosen_for indexed_scan
  select_indexes (table_scan table columns filter (some index_name) index_keys) tables =
      table_scan table columns filter (some index_name) index_keys
  select_indexes (table_scan table columns filter none index_keys) tables =
      indexed_scan table columns filter (chosen_for (table_named tables table) filter)
  select_indexes (join left right join_type algorithm) tables =
      join (select_indexes left tables) (select_indexes right tables) join_type algorithm
  select_indexes (LogicalPlan.filter input predicate) tables =
      LogicalPlan.filter (select_indexes input tables) predicate
  select_indexes (projection input columns table_map) tables =
      projection (select_indexes input tables) columns table_map
  select_indexes (sort input order_by) tables = sort (select_indexes input tables) order_by
  select_indexes (limit input n offset) tables = limit (select_indexes input tables) n offset
  select_indexes other tables = other
