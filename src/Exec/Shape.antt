-- ===== src/Exec/Shape.antt =====
-- executor/ops.rs: projection, order and limit of the rows of a result.
pub mod Pages
pub mod Ties
use heliondb.Base.{
  ℕ, zero, suc, ◌+◌, ◌-◌, String, Bool, true, false, Option, none, some, List, [], ◌∷◌, ◌++◌,
  Ordering, if◌then◌else◌, ltb, leb, length, map, any, get_elem?,
}
use heliondb.Base.Compare.{reverse_ordering}
use heliondb.Types.Datum.{Datum, name}
use heliondb.Types.Column.{ColumnMeta}
use heliondb.Error.{Result, ok, err}
use heliondb.Expr.Syntax.{OrderByExpr, OrderByDesc}
use heliondb.Expr.Compare.{compare_datums}
use heliondb.Expr.Functions.{Runtime}
use heliondb.Expr.Eval.{TableMap}
use heliondb.Expr.Join.{evaluate_join}
use heliondb.Exec.Tables.{combined_col_names}
use heliondb.Exec.Filter.{DataRow}
use heliondb.Exec.Scan.{Output}

-- `filter_map(|&i| xs.get(i).cloned())`.
unfoldable pub pick {ℓ} : {A : Type ℓ} → List ℕ → List A → List A
pick [] xs = []
pick (i ∷ is) xs =
    let rest = pick is xs in elim (get_elem? xs i) [ none ↦ rest | some x ↦ x ∷ rest ]

-- The columns of all tables together, in the order of their offsets.
all_columns : List (String × List ColumnMeta) → List ColumnMeta
all_columns [] = []
all_columns ((_, cols) ∷ tables) = cols ++ all_columns tables

-- The rows stay whole where an index is out of range.
unfoldable pub project : List ℕ → List (String × List ColumnMeta) → List DataRow → Output
unfolding combined_col_names pick all_columns
project columns table_map rows =
    let names = combined_col_names table_map in
    (
      if any (λ i. leb (length names) i) columns then rows else map (pick columns) rows,
      pick columns names,
      map (λ c. name c.data_type) (pick columns (all_columns table_map)),
    )

abbrev ordering_or_equal : Option Ordering → Ordering
ordering_or_equal none = Ordering.eq
ordering_or_equal (some o) = o

abbrev directed : OrderByDesc → Ordering → Ordering
directed OrderByDesc.desc o = reverse_ordering o
directed OrderByDesc.asc o = o

module _ (rt : Runtime) (table_map : TableMap) where
  compare_values : Result Datum → Result Datum → Ordering
  unfolding compare_datums
  compare_values (ok a) (ok b) = ordering_or_equal (compare_datums rt.floats a b)
  compare_values _ _ = Ordering.eq

  -- The comparison that the rows are sorted by: the first expression that tells them apart.
  unfoldable pub compare_rows : List OrderByExpr → DataRow → DataRow → Ordering
  unfolding compare_values evaluate_join
  compare_rows [] a b = Ordering.eq
  compare_rows (o ∷ os) a b =
      let rest = compare_rows os a b in
      elim (compare_values (evaluate_join rt o.expr a table_map)
        (evaluate_join rt o.expr b table_map)) [
          | Ordering.eq ↦ rest
          | Ordering.lt ↦ directed o.direction Ordering.lt
          | Ordering.gt ↦ directed o.direction Ordering.gt
        ]

drop_rows : ℕ → List DataRow → List DataRow
drop_rows zero rows = rows
drop_rows (suc n) [] = []
drop_rows (suc n) (r ∷ rows) = drop_rows n rows

take_rows : ℕ → List DataRow → List DataRow
take_rows zero rows = []
take_rows (suc n) [] = []
take_rows (suc n) (r ∷ rows) = r ∷ take_rows n rows

unfoldable pub slice : ℕ → ℕ → List DataRow → List DataRow
unfolding drop_rows take_rows
slice n offset rows = if leb (length rows) offset then [] else take_rows n (drop_rows offset rows)
