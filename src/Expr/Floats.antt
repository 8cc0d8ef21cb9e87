-- ===== src/Expr/Floats.antt =====
-- The floats of the expressions: comparison, sign and absolute value on their bits, and the
-- operations of IEEE 754 that the machine computes, as a parameter.
use heliondb.Base.{
  ℕ, Bool, true, false, not, ◌&&◌, ◌||◌, Option, none, some, compare, Ordering, ltb, ◌==◌,
  if◌then◌else◌,
}
use heliondb.Base.Int.{ℤ}
use heliondb.Types.Datum.{Float}

-- Conversions and arithmetic on `f64`: `of_f32` widens an `f32`, `of_signed` and `of_unsigned`
-- are `as f64`, `to_signed w` and `to_unsigned w` the saturating casts `as iW` and `as uW`,
-- `powi` is `10f64.powi`, and `sum_start` the sum of no floats.
pub record FloatOps : Type 0 where
  pub of_f32 : Float → Float
  pub of_signed : ℤ → Float
  pub of_unsigned : ℕ → Float
  pub to_signed : ℕ → Float → ℤ
  pub to_unsigned : ℕ → Float → ℕ
  pub add : Float → Float → Float
  pub sub : Float → Float → Float
  pub mul : Float → Float → Float
  pub div : Float → Float → Float
  pub round : Float → Float
  pub powi : ℤ → Float
  pub sum_start : Float

abbrev pub zero_f64 : Float
zero_f64 = record { sign = false; magnitude = 0 }

-- The magnitude of the infinities; every larger one is a NaN.
abbrev pub inf_f32 : ℕ
inf_f32 = 2139095040

abbrev pub inf_f64 : ℕ
inf_f64 = 9218868437227405312

is_nan : ℕ → Float → Bool
is_nan inf x = ltb inf x.magnitude

-- The order of two floats that are no NaN: the two zeros are equal.
ordered : Float → Float → Ordering
ordered a b = if a.magnitude == 0 && b.magnitude == 0 then Ordering.eq else by_sign a.sign b.sign
  where
    by_sign : Bool → Bool → Ordering
    by_sign false false = compare a.magnitude b.magnitude
    by_sign false true = Ordering.gt
    by_sign true false = Ordering.lt
    by_sign true true = compare b.magnitude a.magnitude

-- `partial_cmp` of `f32` and `f64`.
unfoldable pub partial_cmp : ℕ → Float → Float → Option Ordering
unfolding is_nan ordered
partial_cmp inf a b = if is_nan inf a || is_nan inf b then none else some (ordered a b)

abbrev pub neg : Float → Float
neg x = record x { sign = not x.sign }

abbrev pub abs : Float → Float
abs x = record x { sign = false }

-- `*f != 0.0`: a NaN differs from zero too.
abbrev pub is_nonzero : Float → Bool
is_nonzero x = not (x.magnitude == 0)
