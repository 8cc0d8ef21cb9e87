-- ===== src/Expr/Compare.antt =====
-- executor/eval.rs: `compare_datums`, `datum_eq` and the numeric ranks.
pub mod Laws
use heliondb.Base.{
  ℕ, String, Bool, true, false, ◌&&◌, Option, none, some, compare, Ordering, List, if◌then◌else◌,
}
use heliondb.Base.Int.{ℤ, pos, negsuc}
use heliondb.Base.Compare.{cmp_ℤ, cmp_list}
use heliondb.Types.Datum.{Datum, Float}
use heliondb.Types.Order.{cmp_bool, cmp_str}
use heliondb.Expr.Floats.{FloatOps, inf_f32, inf_f64, partial_cmp}

unfoldable pub is_numeric : Datum → Bool
is_numeric (Datum.small_int _) = true
is_numeric (Datum.unsigned_small_int _) = true
is_numeric (Datum.integer _) = true
is_numeric (Datum.unsigned_integer _) = true
is_numeric (Datum.big_int _) = true
is_numeric (Datum.unsigned_big_int _) = true
is_numeric (Datum.real _) = true
is_numeric (Datum.double _) = true
is_numeric _ = false

pub data NumericRank : Type 0 where
  signed : ℤ → NumericRank
  unsigned : ℕ → NumericRank
  float : Float → NumericRank

-- The test `a < 0` of a signed number against an unsigned one.
signed_unsigned : ℤ → ℕ → Ordering
signed_unsigned (pos a) b = compare a b
signed_unsigned (negsuc a) b = Ordering.lt

unsigned_signed : ℕ → ℤ → Ordering
unsigned_signed a (pos b) = compare a b
unsigned_signed a (negsuc b) = Ordering.gt

module _ (f : FloatOps) where
  as_f64 : NumericRank → Float
  as_f64 (NumericRank.signed v) = f.of_signed v
  as_f64 (NumericRank.unsigned v) = f.of_unsigned v
  as_f64 (NumericRank.float v) = v

  numeric_rank : Datum → Option NumericRank
  numeric_rank (Datum.small_int v) = some (NumericRank.signed v)
  numeric_rank (Datum.integer v) = some (NumericRank.signed v)
  numeric_rank (Datum.big_int v) = some (NumericRank.signed v)
  numeric_rank (Datum.unsigned_small_int v) = some (NumericRank.unsigned v)
  numeric_rank (Datum.unsigned_integer v) = some (NumericRank.unsigned v)
  numeric_rank (Datum.unsigned_big_int v) = some (NumericRank.unsigned v)
  numeric_rank (Datum.real v) = some (NumericRank.float (f.of_f32 v))
  numeric_rank (Datum.double v) = some (NumericRank.float v)
  numeric_rank _ = none

  compare_ranks : NumericRank → NumericRank → Option Ordering
  unfolding as_f64 signed_unsigned unsigned_signed
  compare_ranks (NumericRank.float a) b = partial_cmp inf_f64 a (as_f64 b)
  compare_ranks a (NumericRank.float b) = partial_cmp inf_f64 (as_f64 a) b
  compare_ranks (NumericRank.signed a) (NumericRank.signed b) = some (cmp_ℤ a b)
  compare_ranks (NumericRank.unsigned a) (NumericRank.unsigned b) = some (compare a b)
  compare_ranks (NumericRank.signed a) (NumericRank.unsigned b) = some (signed_unsigned a b)
  compare_ranks (NumericRank.unsigned a) (NumericRank.signed b) = some (unsigned_signed a b)

  compare_numeric : Datum → Datum → Option Ordering
  unfolding numeric_rank compare_ranks
  compare_numeric a b = elim (numeric_rank a) [
    | none ↦ none
    | some left ↦ elim (numeric_rank b) [ none ↦ none | some right ↦ compare_ranks left right ]
  ]

  unfoldable pub compare_datums : Datum → Datum → Option Ordering
  unfolding is_numeric compare_numeric cmp_bool cmp_str partial_cmp
  compare_datums Datum.null _ = none
  compare_datums _ Datum.null = none
  compare_datums (Datum.small_int a) (Datum.small_int b) = some (cmp_ℤ a b)
  compare_datums (Datum.unsigned_small_int a) (Datum.unsigned_small_int b) = some (compare a b)
  compare_datums (Datum.integer a) (Datum.integer b) = some (cmp_ℤ a b)
  compare_datums (Datum.unsigned_integer a) (Datum.unsigned_integer b) = some (compare a b)
  compare_datums (Datum.big_int a) (Datum.big_int b) = some (cmp_ℤ a b)
  compare_datums (Datum.unsigned_big_int a) (Datum.unsigned_big_int b) = some (compare a b)
  compare_datums (Datum.real a) (Datum.real b) = partial_cmp inf_f32 a b
  compare_datums (Datum.double a) (Datum.double b) = partial_cmp inf_f64 a b
  compare_datums (Datum.real a) (Datum.double b) = partial_cmp inf_f64 (f.of_f32 a) b
  compare_datums (Datum.double a) (Datum.real b) = partial_cmp inf_f64 a (f.of_f32 b)
  compare_datums (Datum.text a) (Datum.text b) = some (cmp_str a b)
  compare_datums (Datum.var_char a) (Datum.text b) = some (cmp_str a b)
  compare_datums (Datum.text a) (Datum.var_char b) = some (cmp_str a b)
  compare_datums (Datum.boolean a) (Datum.boolean b) = some (cmp_bool a b)
  compare_datums (Datum.uuid a) (Datum.uuid b) = some (cmp_list compare a b)
  compare_datums (Datum.uuid_v7 a) (Datum.uuid_v7 b) = some (cmp_list compare a b)
  compare_datums a b = if is_numeric a && is_numeric b then compare_numeric a b else none

  -- `compare_datums(a, b) == Some(Ordering::Equal)`.
  unfoldable pub datum_eq : Datum → Datum → Bool
  datum_eq a b = is_some_eq (compare_datums a b)
    where
      is_some_eq : Option Ordering → Bool
      is_some_eq (some Ordering.eq) = true
      is_some_eq _ = false
