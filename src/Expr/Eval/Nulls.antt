-- ===== src/Expr/Eval/Nulls.antt =====
-- executor/eval.rs: NULL in expressions.
use heliondb.Base.{true, List, ◌≡◌, refl}
use heliondb.Types.Datum.{Datum, is_null}
use heliondb.Types.Column.{ColumnMeta}
use heliondb.Error.{ok}
use heliondb.Expr.Syntax.{Expression, BinaryOperator, UnaryOperator, binary_op, unary_op}
use heliondb.Expr.Functions.{Runtime}
use heliondb.Expr.Eval.{evaluate, binary, unary}

module _ (rt : Runtime) (row : List Datum) (columns : List ColumnMeta) where
  -- Where one operand of a binary operator is NULL and the other has a value, the result is NULL,
  -- for OR too and also where the other operand is true; and NOT of NULL is true, although the
  -- comparison that NOT turns round gives NULL.
  pub null_operand :
      (e other : Expression) (op : BinaryOperator) (d : Datum)
      → evaluate rt e row columns ≡ ok Datum.null
      → evaluate rt other row columns ≡ ok d
      → (evaluate rt (binary_op e op other) row columns ≡ ok Datum.null)
        × (evaluate rt (binary_op other op e) row columns ≡ ok Datum.null)
        × (evaluate rt (unary_op UnaryOperator.not (binary_op e op other)) row columns
            ≡ ok (Datum.boolean true))
  unfolding evaluate binary unary is_null
  null_operand e other op d h k = (rw (h, k), rw (k, h) (by_value d), rw (h, k))
    where
      by_value : (d : Datum) → binary rt op d Datum.null ≡ ok Datum.null
      by_value Datum.null = refl
      by_value _ = refl
