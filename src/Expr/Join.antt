-- ===== src/Expr/Join.antt =====
-- executor/eval.rs: `evaluate_join`, on the combined row of several tables.
pub mod Single
use heliondb.Base.{
  ℕ, ◌+◌, String, Bool, true, false, not, Option, none, some, List, [], ◌∷◌, if◌then◌else◌,
}
use heliondb.Base.Text.{eq_ignore_ascii_case}
use heliondb.Types.Datum.{Datum, is_null}
use heliondb.Types.Column.{ColumnMeta}
use heliondb.Error.{Result, ok, err, ◌>>=◌, column_not_found, ambiguous_column}
use heliondb.Expr.Syntax.{
  Expression, Expressions, column, qualified_column, literal, binary_op, unary_op, is_in, between,
  call, nil, cons,
}
use heliondb.Expr.Functions.{Runtime, evaluate_function}
use heliondb.Expr.Eval.{
  TableMap, at, column_at, dotted, binary, unary, within, matches_like, one_of,
}

-- The first table of the name decides.
qualified : TableMap → String → String → List Datum → Result Datum
qualified [] table col row = err (column_not_found (dotted table col))
qualified ((tname, offset, columns) ∷ tables) table col row =
    let rest = qualified tables table col row in
    if eq_ignore_ascii_case tname table
    then elim (column_at columns col) [
      | none ↦ err (column_not_found (dotted table col))
      | some idx ↦ ok (at row (offset + idx))
    ]
    else rest

-- The loop over the tables: a second one that has the column is an error.
find_column : TableMap → String → Option ℕ → Result (Option ℕ)
find_column [] name found = ok found
find_column ((tname, offset, columns) ∷ tables) name found = elim (column_at columns name) [
  | none ↦ find_column tables name found
  | some idx ↦ elim found [
    | some _ ↦ err (ambiguous_column name)
    | none ↦ find_column tables name (some (offset + idx))
  ]
]

value_at : Option ℕ → String → List Datum → Result Datum
value_at none name row = err (column_not_found name)
value_at (some idx) name row = ok (at row idx)

unqualified : TableMap → String → List Datum → Result Datum
unfolding find_column value_at
unqualified tables name row = find_column tables name none >>= λ found. value_at found name row

module _ (rt : Runtime) where
  unfoldable mutual
    unfolding qualified unqualified binary unary within matches_like one_of

    pub evaluate_join : Expression → List Datum → TableMap → Result Datum
    evaluate_join (qualified_column table col) row table_map = qualified table_map table col row
    evaluate_join (column name) row table_map = unqualified table_map name row
    evaluate_join (literal d) row table_map = ok d
    evaluate_join (binary_op left op right) row table_map = do
      left_val ← evaluate_join left row table_map
      right_val ← evaluate_join right row table_map
      binary rt op left_val right_val
    evaluate_join (unary_op op inner) row table_map = do
      val ← evaluate_join inner row table_map
      unary op val
    evaluate_join (Expression.is_null inner) row table_map = do
      val ← evaluate_join inner row table_map
      ok (Datum.boolean (is_null val))
    evaluate_join (Expression.is_not_null inner) row table_map = do
      val ← evaluate_join inner row table_map
      ok (Datum.boolean (not (is_null val)))
    evaluate_join (is_in inner list) row table_map = do
      val ← evaluate_join inner row table_map
      ok (one_of rt list val)
    evaluate_join (between inner low high) row table_map = do
      val ← evaluate_join inner row table_map
      low_val ← evaluate_join low row table_map
      high_val ← evaluate_join high row table_map
      ok (within rt val low_val high_val)
    evaluate_join (Expression.like inner pattern) row table_map = do
      val ← evaluate_join inner row table_map
      ok (matches_like rt pattern val)
    evaluate_join (call name args) row table_map = do
      values ← evaluate_join_args args row table_map
      evaluate_function rt name values

    pub evaluate_join_args : Expressions → List Datum → TableMap → Result (List Datum)
    evaluate_join_args nil row table_map = ok []
    evaluate_join_args (cons e es) row table_map = do
      d ← evaluate_join e row table_map
      ds ← evaluate_join_args es row table_map
      ok (d ∷ ds)
