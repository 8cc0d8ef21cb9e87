-- ===== src/Expr/Eval/Unordered.antt =====
-- executor/eval.rs: values that `compare_datums` does not order.
use heliondb.Base.{true, false, List, ◌≡◌, refl, arith, Bool, none}
use heliondb.Types.Datum.{Datum, is_null}
use heliondb.Types.Column.{ColumnMeta}
use heliondb.Error.{ok}
use heliondb.Expr.Syntax.{Expression, BinaryOperator, binary_op}
use heliondb.Expr.Floats.{FloatOps}
use heliondb.Expr.Compare.{compare_datums, datum_eq, is_numeric}
use heliondb.Expr.Functions.{Runtime}
use heliondb.Expr.Eval.{evaluate, binary, operate}

-- The pairs of values that the comparison has no case for.
abbrev pub AreUnordered : Datum → Datum → Type 0
AreUnordered (Datum.char _) _ = Unit
AreUnordered (Datum.binary _) _ = Unit
AreUnordered (Datum.date _) _ = Unit
AreUnordered (Datum.time _ _) _ = Unit
AreUnordered (Datum.timestamp _ _ _) _ = Unit
AreUnordered (Datum.timestamp_tz _) _ = Unit
AreUnordered (Datum.var_char _) (Datum.var_char _) = Unit
AreUnordered _ _ = ⊥

unordered_none : (f : FloatOps) (a b : Datum) → AreUnordered a b → compare_datums f a b ≡ none
unfolding compare_datums is_numeric
unordered_none f (Datum.char _) b u = ground arith
unordered_none f (Datum.binary _) b u = ground arith
unordered_none f (Datum.date _) b u = ground arith
unordered_none f (Datum.time _ _) b u = ground arith
unordered_none f (Datum.timestamp _ _ _) b u = ground arith
unordered_none f (Datum.timestamp_tz _) b u = ground arith
unordered_none f (Datum.var_char _) (Datum.var_char _) u = refl
unordered_none f _ _ u = absurd u

not_null : (a b : Datum) → AreUnordered a b → is_null a ≡ false
unfolding is_null
not_null Datum.null b u = absurd u
not_null _ b u = refl

-- What the six comparisons answer where the values are not ordered.
abbrev pub unordered_answer : BinaryOperator → Bool
unordered_answer BinaryOperator.ne = true
unordered_answer _ = false

abbrev pub IsComparison : BinaryOperator → Type 0
IsComparison BinaryOperator.eq = Unit
IsComparison BinaryOperator.ne = Unit
IsComparison BinaryOperator.lt = Unit
IsComparison BinaryOperator.le = Unit
IsComparison BinaryOperator.gt = Unit
IsComparison BinaryOperator.ge = Unit
IsComparison _ = ⊥

operate-unordered :
    (rt : Runtime) (op : BinaryOperator) (a b : Datum)
    → IsComparison op
    → compare_datums rt.floats a b ≡ none
    → operate rt op a b ≡ ok (Datum.boolean (unordered_answer op))
unfolding operate datum_eq
operate-unordered rt BinaryOperator.eq a b c h = rw h
operate-unordered rt BinaryOperator.ne a b c h = rw h
operate-unordered rt BinaryOperator.lt a b c h = rw h
operate-unordered rt BinaryOperator.le a b c h = rw h
operate-unordered rt BinaryOperator.gt a b c h = rw h
operate-unordered rt BinaryOperator.ge a b c h = rw h
operate-unordered rt _ a b c h = absurd c

module _ (rt : Runtime) (row : List Datum) (columns : List ColumnMeta) where
  -- A CHAR, a BINARY, a date, a time or a timestamp is different from every value that is not
  -- NULL, also from an equal one, and neither below it nor above it; and so is a VARCHAR from
  -- every VARCHAR.
  pub unordered_unequal :
      (e other : Expression) (op : BinaryOperator) (a b : Datum)
      → evaluate rt e row columns ≡ ok a
      → evaluate rt other row columns ≡ ok b
      → AreUnordered a b
      → is_null b ≡ false
      → IsComparison op
      → evaluate rt (binary_op e op other) row columns ≡ ok (Datum.boolean (unordered_answer op))
  unfolding evaluate binary
  unordered_unequal e other op a b h k u n c =
      rw (h, k, n, not_null a b u) (operate-unordered rt op a b c (unordered_none rt.floats a b u))
