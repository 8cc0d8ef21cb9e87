-- ===== src/Exec/Shape/Ties.antt =====
-- executor/ops.rs: the order of rows where a value is NULL.
use heliondb.Base.{[], ◌∷◌, Ordering, ◌≡◌, refl, some, ◌≢◌, sym, ◌∙◌}
use heliondb.Types.Datum.{Datum}
use heliondb.Error.{Result, ok, err}
use heliondb.Expr.Syntax.{OrderByExpr, OrderByDesc}
use heliondb.Expr.Functions.{Runtime}
use heliondb.Expr.Compare.{compare_datums}
use heliondb.Expr.Eval.{TableMap}
use heliondb.Expr.Join.{evaluate_join}
use heliondb.Exec.Filter.{DataRow}
use heliondb.Exec.Shape.{compare_rows, compare_values, directed}

module _ (rt : Runtime) (tables : TableMap) where
  null_right : (r : Result Datum) → compare_values rt tables r (ok Datum.null) ≡ Ordering.eq
  unfolding compare_values
  null_right (ok Datum.null) = refl
  null_right (ok _) = refl
  null_right (err e) = refl

  null_left : (r : Result Datum) → compare_values rt tables (ok Datum.null) r ≡ Ordering.eq
  unfolding compare_values
  null_left (ok d) = refl
  null_left (err e) = refl

  tie :
      (o : OrderByExpr) (a b : DataRow)
      → compare_values rt tables
          (evaluate_join rt o.expr a tables)
          (evaluate_join rt o.expr b tables)
        ≡ Ordering.eq
      → compare_rows rt tables (o ∷ []) a b ≡ Ordering.eq
  unfolding compare_rows
  tie o a b h = rw (h, compare_rows) refl

  apart :
      (o : OrderByExpr) (a b : DataRow)
      → compare_values rt tables
          (evaluate_join rt o.expr a tables)
          (evaluate_join rt o.expr b tables)
        ≡ Ordering.lt
      → compare_rows rt tables (o ∷ []) a b ≡ directed o.direction Ordering.lt
  unfolding compare_rows
  apart o a b h = rw (h, compare_rows) refl

  directed-ne-eq : (d : OrderByDesc) → directed d Ordering.lt ≢ Ordering.eq
  directed-ne-eq OrderByDesc.asc = λ e. cc
  directed-ne-eq OrderByDesc.desc = λ e. cc

  -- Rows sorted by one expression: a row where it is NULL ties with every row, also with two rows
  -- of which one has the smaller value and which do not tie with each other.
  pub null_ties :
      (o : OrderByExpr) (a b c : DataRow) (x y : Datum)
      → evaluate_join rt o.expr b tables ≡ ok Datum.null
      → evaluate_join rt o.expr a tables ≡ ok x
      → evaluate_join rt o.expr c tables ≡ ok y
      → compare_datums rt.floats x y ≡ some Ordering.lt
      → (compare_rows rt tables (o ∷ []) a b ≡ Ordering.eq)
        × (compare_rows rt tables (o ∷ []) b c ≡ Ordering.eq)
        × (compare_rows rt tables (o ∷ []) a c ≢ Ordering.eq)
  unfolding compare_rows compare_values
  null_ties o a b c x y h k l less = (
    tie o a b (rw h (null_right (evaluate_join rt o.expr a tables))),
    tie o b c (rw h (null_left (evaluate_join rt o.expr c tables))),
    λ e. directed-ne-eq o.direction (sym (apart o a c (rw (k, l, less) refl)) ∙ e),
  )
