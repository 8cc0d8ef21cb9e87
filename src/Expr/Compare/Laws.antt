-- ===== src/Expr/Compare/Laws.antt =====
-- executor/eval.rs: what the comparison of two values answers.
use heliondb.Base.{some, ◌≡◌, arith}
use heliondb.Base.Int.{ℤ}
use heliondb.Base.Compare.{cmp_ℤ}
use heliondb.Types.Datum.{Datum}
use heliondb.Types.Coerce.Laws.{int_value}
use heliondb.Expr.Floats.{FloatOps}
use heliondb.Expr.Compare.{
  compare_datums, compare_numeric, compare_ranks, numeric_rank, signed_unsigned, unsigned_signed,
  is_numeric,
}

module _ (f : FloatOps) where
  -- Integers of whatever two widths and signs are compared by the numbers that they stand for.
  pub compare_datums-int_value :
      (a b : Datum) {x y : ℤ}
      → int_value a ≡ some x
      → int_value b ≡ some y
      → compare_datums f a b ≡ some (cmp_ℤ x y)
  unfolding compare_datums compare_numeric compare_ranks numeric_rank signed_unsigned
      unsigned_signed is_numeric
  compare_datums-int_value (Datum.small_int u) b h k = ground arith
  compare_datums-int_value (Datum.unsigned_small_int u) b h k = ground arith
  compare_datums-int_value (Datum.integer u) b h k = ground arith
  compare_datums-int_value (Datum.unsigned_integer u) b h k = ground arith
  compare_datums-int_value (Datum.big_int u) b h k = ground arith
  compare_datums-int_value (Datum.unsigned_big_int u) b h k = ground arith
  compare_datums-int_value _ b h k = cc
