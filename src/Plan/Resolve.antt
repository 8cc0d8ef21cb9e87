-- ===== src/Plan/Resolve.antt =====
-- sql/planner.rs: the columns that a SELECT names, as indices into the combined row.
pub mod Bounds
use Prim.Native.Char.{Char, code}
use heliondb.Base.{
  ℕ, zero, suc, ◌+◌, ◌-◌, String, Bool, true, false, not, ◌&&◌, Option, none, some, List, [], ◌∷◌,
  ◌++◌, if◌then◌else◌, ◌==◌, ltb, length, map, find?, position,
}
use heliondb.Base.Text.{eq_ignore_ascii_case, str_eq}
use heliondb.Types.Column.{ColumnMeta}
use heliondb.Error.{Result, ok, err, ◌>>=◌, column_not_found, ambiguous_column, table_not_found}
use heliondb.Table.{Table}
use heliondb.Expr.Syntax.{SelectColumn, JoinClause, Expression, column, qualified_column}
use heliondb.Expr.Eval.{dotted, column_at}
use heliondb.Plan.Indexes.{table_named}

abbrev pub Columns : Type 0
Columns = List (String × List ColumnMeta)

-- `find_table`.
abbrev found : String → Option Table → Result Table
found name none = err (table_not_found name)
found name (some t) = ok t

unfoldable pub find_table : List Table → String → Result Table
find_table tables name = found name (table_named tables name)

joined_tables : List Table → List JoinClause → Result (List Table)
unfolding find_table
joined_tables tables [] = ok []
joined_tables tables (jc ∷ joins) = do
  t ← find_table tables jc.right_table
  ts ← joined_tables tables joins
  ok (t ∷ ts)

unfoldable pub resolve_table_list : String → List JoinClause → List Table → Result (List Table)
unfolding joined_tables
resolve_table_list name joins tables = do
  t ← find_table tables name
  ts ← joined_tables tables joins
  ok (t ∷ ts)

-- The columns before the first table of the name.
offset_of : String → Columns → ℕ
offset_of name [] = 0
offset_of name ((tn, cols) ∷ tables) =
    let rest = offset_of name tables in if str_eq tn name then 0 else length cols + rest

-- The column of a table whose columns start at `offset`.
in_columns : String → String → ℕ → List ColumnMeta → Result ℕ
in_columns table col offset cols = elim (column_at cols col) [
  | some ci ↦ ok (offset + ci)
  | none ↦ err (column_not_found (dotted table col))
]

-- The one table of the query, whatever the reference calls it.
only_table : String → String → Columns → Result ℕ
unfolding in_columns
only_table table col ((tname, cols) ∷ []) = in_columns table col 0 cols
only_table table col _ = err (column_not_found (dotted table col))

in_first : String → String → Columns → Option (String × List ColumnMeta) → Result ℕ
unfolding in_columns offset_of only_table
in_first table col table_map none = only_table table col table_map
in_first table col table_map (some (tname, cols)) =
    in_columns table col (offset_of tname table_map) cols

unfoldable pub resolve_qualified_column : String → String → Columns → Result ℕ
unfolding in_first
resolve_qualified_column table col table_map =
    in_first table col table_map (find? (λ t. eq_ignore_ascii_case t.0 table) table_map)

all_positions : String → ℕ → Columns → List ℕ
all_positions name offset [] = []
all_positions name offset ((tname, cols) ∷ tables) =
    let rest = all_positions name (offset + length cols) tables in
    elim (column_at cols name) [ none ↦ rest | some ci ↦ (offset + ci) ∷ rest ]

only_one : String → List ℕ → Result ℕ
only_one name [] = err (column_not_found name)
only_one name (i ∷ []) = ok i
only_one name (i ∷ j ∷ is) = err (ambiguous_column name)

unfoldable pub resolve_unqualified_column : String → Columns → Result ℕ
unfolding all_positions only_one
resolve_unqualified_column name table_map = only_one name (all_positions name 0 table_map)

-- `(a .. a + n).collect()`.
unfoldable pub span : ℕ → ℕ → List ℕ
span a zero = []
span a (suc n) = a ∷ span (suc a) n

-- The number of columns of the first table of the name.
width_of : String → Columns → ℕ
width_of name [] = 0
width_of name ((tn, cols) ∷ tables) =
    let rest = width_of name tables in if str_eq tn name then length cols else rest

-- The columns of the first table that the name fits, from the offset on.
wildcard_from : String → Columns → ℕ → Columns → List ℕ
unfolding span width_of
wildcard_from table table_map offset [] = []
wildcard_from table table_map offset ((tname, cols) ∷ tables) =
    let rest = wildcard_from table table_map (offset + length cols) tables in
    if eq_ignore_ascii_case tname table then span offset (width_of tname table_map) else rest

qualified_wildcard : String → Columns → List ℕ
unfolding wildcard_from
qualified_wildcard table table_map = wildcard_from table table_map 0 table_map

-- `name.find('.')`, and the two parts.
split_dot : String → Option (String × String)
split_dot String.[] = none
split_dot (String.◌∷◌ c s) =
    let rest = split_dot s in
    if code c == b'.'
    then some ("", s)
    else elim rest [ none ↦ none | some (t, col) ↦ some (String.◌∷◌ c t, col) ]

by_name : String → Columns → Result ℕ
unfolding split_dot resolve_qualified_column resolve_unqualified_column
by_name name table_map = elim (split_dot name) [
  | some (t, c) ↦ resolve_qualified_column t c table_map
  | none ↦ resolve_unqualified_column name table_map
]

-- The indices of the columns, and whether a wildcard is among them.
resolve_each : List SelectColumn → Columns → Result (Bool × List ℕ)
unfolding by_name qualified_wildcard
resolve_each [] table_map = ok (false, [])
resolve_each (SelectColumn.wildcard ∷ cs) table_map = do
  (w, is) ← resolve_each cs table_map
  ok (true, is)
resolve_each (SelectColumn.qual_wildcard table ∷ cs) table_map = do
  (w, is) ← resolve_each cs table_map
  ok (w, qualified_wildcard table table_map ++ is)
resolve_each (SelectColumn.qualified name alias ∷ cs) table_map = do
  i ← by_name name table_map
  (w, is) ← resolve_each cs table_map
  ok (w, i ∷ is)
resolve_each (SelectColumn.expr (column name) ∷ cs) table_map = do
  i ← resolve_unqualified_column name table_map
  (w, is) ← resolve_each cs table_map
  ok (w, i ∷ is)
resolve_each (SelectColumn.expr (qualified_column t c) ∷ cs) table_map = do
  i ← resolve_qualified_column t c table_map
  (w, is) ← resolve_each cs table_map
  ok (w, i ∷ is)
resolve_each (SelectColumn.expr _ ∷ cs) table_map = do
  (w, is) ← resolve_each cs table_map
  ok (true, is)

abbrev all_if_none : ℕ → Bool × List ℕ → List ℕ
all_if_none combined_len (true, []) = span 0 combined_len
all_if_none combined_len (w, is) = is

unfoldable pub resolve_select_columns : List SelectColumn → Columns → ℕ → Result (List ℕ)
unfolding resolve_each span
resolve_select_columns [] table_map combined_len = ok (span 0 combined_len)
resolve_select_columns (c ∷ cs) table_map combined_len = do
  r ← resolve_each (c ∷ cs) table_map
  ok (all_if_none combined_len r)
