-- ===== src/Expr/Eval.antt =====
-- executor/eval.rs: `evaluate` on the row of one table, and `evaluate_join` on a combined row.
pub mod Nulls
pub mod Unordered
use heliondb.Base.{
  ℕ, ◌+◌, String, Bool, true, false, not, ◌&&◌, ◌||◌, Option, none, some, List, [], ◌∷◌, Ordering,
  if◌then◌else◌, any, get_elem?, position,
}
use heliondb.Base.Text.{eq_ignore_ascii_case, concat, codes}
use heliondb.Types.Datum.{Datum, is_null}
use heliondb.Types.Column.{ColumnMeta}
use heliondb.Error.{Result, ok, err, ◌>>=◌, column_not_found, ambiguous_column}
use heliondb.Expr.Syntax.{
  Expression, Expressions, column, qualified_column, literal, binary_op, unary_op, is_in, between,
  call, nil, cons, BinaryOperator, UnaryOperator,
}
use heliondb.Expr.Compare.{compare_datums, datum_eq}
use heliondb.Expr.Values.{datum_to_bool, datum_to_string, datum_arith, negate_datum}
use heliondb.Expr.Functions.{Runtime, evaluate_function}
use heliondb.Expr.Like.{like_to_regex, regex_lite}

-- `row.get(idx).cloned().unwrap_or(Datum::Null)`.
abbrev pub at : List Datum → ℕ → Datum
at row idx = elim (get_elem? row idx) [ none ↦ Datum.null | some d ↦ d ]

abbrev pub column_at : List ColumnMeta → String → Option ℕ
column_at columns name = position (λ c. eq_ignore_ascii_case c.name name) columns

abbrev pub dotted : String → String → String
dotted table col = concat table (concat "." col)

abbrev is_less : Option Ordering → Bool
is_less (some Ordering.lt) = true
is_less _ = false

abbrev is_greater : Option Ordering → Bool
is_greater (some Ordering.gt) = true
is_greater _ = false

-- `.map(|o| o != Ordering::Greater).unwrap_or(false)`, and the same for `Less`.
abbrev not_greater : Option Ordering → Bool
not_greater none = false
not_greater (some Ordering.gt) = false
not_greater (some _) = true

abbrev not_less : Option Ordering → Bool
not_less none = false
not_less (some Ordering.lt) = false
not_less (some _) = true

abbrev either_null : Datum → Datum → Bool
either_null a b = is_null a || is_null b

-- `(table_name, offset_into_row, columns)`.
abbrev pub TableMap : Type 0
TableMap = List (String × ℕ × List ColumnMeta)

unfoldable pub found_in : Option ℕ → List Datum → String → Result Datum
found_in none row name = err (column_not_found name)
found_in (some idx) row name = ok (at row idx)

unfoldable pub unary : UnaryOperator → Datum → Result Datum
unfolding datum_to_bool negate_datum
unary UnaryOperator.not v = ok (Datum.boolean (not (datum_to_bool v)))
unary UnaryOperator.neg v = negate_datum v

module _ (rt : Runtime) where
  -- The `match op` on two values that are not NULL.
  unfoldable pub operate : BinaryOperator → Datum → Datum → Result Datum
  unfolding datum_eq datum_to_bool datum_arith
  operate BinaryOperator.eq a b = ok (Datum.boolean (datum_eq rt.floats a b))
  operate BinaryOperator.ne a b = ok (Datum.boolean (not (datum_eq rt.floats a b)))
  operate BinaryOperator.lt a b = ok (Datum.boolean (is_less (compare_datums rt.floats a b)))
  operate BinaryOperator.le a b = ok (Datum.boolean (not_greater (compare_datums rt.floats a b)))
  operate BinaryOperator.gt a b = ok (Datum.boolean (is_greater (compare_datums rt.floats a b)))
  operate BinaryOperator.ge a b = ok (Datum.boolean (not_less (compare_datums rt.floats a b)))
  operate BinaryOperator.and a b = ok (Datum.boolean (datum_to_bool a && datum_to_bool b))
  operate BinaryOperator.or a b = ok (Datum.boolean (datum_to_bool a || datum_to_bool b))
  operate BinaryOperator.add a b = datum_arith rt.floats a b rt.floats.add
  operate BinaryOperator.sub a b = datum_arith rt.floats a b rt.floats.sub
  operate BinaryOperator.mul a b = datum_arith rt.floats a b rt.floats.mul
  operate BinaryOperator.div a b = datum_arith rt.floats a b rt.floats.div

  unfoldable pub binary : BinaryOperator → Datum → Datum → Result Datum
  unfolding operate is_null
  binary op a b = if either_null a b then ok Datum.null else operate op a b

  unfoldable pub within : Datum → Datum → Datum → Datum
  unfolding is_null
  within v low high =
      if is_null v || either_null low high
      then Datum.null
      else Datum.boolean (
          not_less (compare_datums rt.floats v low)
          && not_greater (compare_datums rt.floats v high))

  unfoldable pub matches_like : String → Datum → Datum
  unfolding datum_to_string
  matches_like pattern v =
      Datum.boolean
        (regex_lite (like_to_regex (codes pattern)) (codes (datum_to_string rt.shows v)))

  unfoldable pub one_of : List Datum → Datum → Datum
  unfolding datum_eq
  one_of list v = Datum.boolean (any (λ d. datum_eq rt.floats d v) list)

  unfoldable mutual
    unfolding found_in binary unary within matches_like one_of

    pub evaluate : Expression → List Datum → List ColumnMeta → Result Datum
    evaluate (literal d) row columns = ok d
    evaluate (column name) row columns = found_in (column_at columns name) row name
    evaluate (qualified_column table col) row columns =
        found_in (column_at columns col) row (dotted table col)
    evaluate (binary_op left op right) row columns = do
      left_val ← evaluate left row columns
      right_val ← evaluate right row columns
      binary op left_val right_val
    evaluate (unary_op op inner) row columns = do val ← evaluate inner row columns; unary op val
    evaluate (Expression.is_null inner) row columns = do
      val ← evaluate inner row columns
      ok (Datum.boolean (is_null val))
    evaluate (Expression.is_not_null inner) row columns = do
      val ← evaluate inner row columns
      ok (Datum.boolean (not (is_null val)))
    evaluate (is_in inner list) row columns = do
      val ← evaluate inner row columns
      ok (one_of list val)
    evaluate (between inner low high) row columns = do
      val ← evaluate inner row columns
      low_val ← evaluate low row columns
      high_val ← evaluate high row columns
      ok (within val low_val high_val)
    evaluate (Expression.like inner pattern) row columns = do
      val ← evaluate inner row columns
      ok (matches_like pattern val)
    evaluate (call name args) row columns = do
      values ← evaluate_args args row columns
      evaluate_function rt name values

    pub evaluate_args : Expressions → List Datum → List ColumnMeta → Result (List Datum)
    evaluate_args nil row columns = ok []
    evaluate_args (cons e es) row columns = do
      d ← evaluate e row columns
      ds ← evaluate_args es row columns
      ok (d ∷ ds)
