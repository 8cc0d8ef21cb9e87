-- ===== src/Expr/Values.antt =====
-- executor/eval.rs: the readings of a value as a truth value and as a text, and arithmetic.
-- storage/types.rs: `Datum::display`.
use heliondb.Base.{ℕ, zero, suc, String, Bool, true, false, not, ◌||◌, List, if◌then◌else◌, ◌==◌}
use heliondb.Base.Int.{ℤ, pos, negsuc, as_signed}
use heliondb.Types.Datum.{Datum, Float, name, data_type}
use heliondb.Error.{Result, ok, err, type_mismatch}
use heliondb.Expr.Floats.{FloatOps, neg, is_nonzero, zero_f64}
use heliondb.Expr.Compare.{is_numeric}

-- `to_string` of numbers, floats, dates and times, `hex::encode`, and the text of a UUID.
pub record Shows : Type 0 where
  pub unsigned : ℕ → String
  pub signed : ℤ → String
  pub f32 : Float → String
  pub f64 : Float → String
  pub hex : List ℕ → String
  pub date : ℤ → String
  pub time : ℕ → ℕ → String
  pub timestamp : ℤ → ℕ → ℕ → String
  pub rfc3339 : ℤ → String
  pub uuid : List ℕ → String

module _ (s : Shows) where
  -- `Datum::display`.
  unfoldable pub display : Datum → String
  display Datum.null = "NULL"
  display (Datum.boolean true) = "true"
  display (Datum.boolean false) = "false"
  display (Datum.small_int i) = s.signed i
  display (Datum.unsigned_small_int i) = s.unsigned i
  display (Datum.integer i) = s.signed i
  display (Datum.unsigned_integer i) = s.unsigned i
  display (Datum.big_int i) = s.signed i
  display (Datum.unsigned_big_int i) = s.unsigned i
  display (Datum.real f) = s.f32 f
  display (Datum.double f) = s.f64 f
  display (Datum.var_char t) = t
  display (Datum.char t) = t
  display (Datum.text t) = t
  display (Datum.binary b) = s.hex b
  display (Datum.date d) = s.date d
  display (Datum.time t n) = s.time t n
  display (Datum.timestamp d t n) = s.timestamp d t n
  display (Datum.timestamp_tz t) = s.rfc3339 t
  display (Datum.uuid u) = s.uuid u
  display (Datum.uuid_v7 u) = s.uuid u

  unfoldable pub datum_to_string : Datum → String
  unfolding display
  datum_to_string Datum.null = ""
  datum_to_string (Datum.text t) = t
  datum_to_string (Datum.var_char t) = t
  datum_to_string (Datum.char t) = t
  datum_to_string other = display other

is_empty : String → Bool
is_empty String.[] = true
is_empty (String.◌∷◌ _ _) = false

nonzero : ℤ → Bool
nonzero (pos zero) = false
nonzero _ = true

unfoldable pub datum_to_bool : Datum → Bool
unfolding is_empty nonzero
datum_to_bool (Datum.boolean b) = b
datum_to_bool Datum.null = false
datum_to_bool (Datum.small_int i) = nonzero i
datum_to_bool (Datum.unsigned_small_int i) = not (i == 0)
datum_to_bool (Datum.integer i) = nonzero i
datum_to_bool (Datum.unsigned_integer i) = not (i == 0)
datum_to_bool (Datum.big_int i) = nonzero i
datum_to_bool (Datum.unsigned_big_int i) = not (i == 0)
datum_to_bool (Datum.real f) = is_nonzero f
datum_to_bool (Datum.double f) = is_nonzero f
datum_to_bool (Datum.text s) = not (is_empty s)
datum_to_bool _ = true

-- `-i` and `i.abs()` on integers, which wrap round at the least value.
abbrev negate : ℤ → ℤ
negate (pos zero) = pos 0
negate (pos (suc n)) = negsuc n
negate (negsuc n) = pos (suc n)

abbrev magnitude : ℤ → ℤ
magnitude (pos n) = pos n
magnitude (negsuc n) = pos (suc n)

unfoldable wrapping_neg : ℕ → ℤ → ℤ
wrapping_neg w i = as_signed w (negate i)

unfoldable pub wrapping_abs : ℕ → ℤ → ℤ
wrapping_abs w i = as_signed w (magnitude i)

unfoldable pub negate_datum : Datum → Result Datum
unfolding wrapping_neg
negate_datum (Datum.small_int i) = ok (Datum.small_int (wrapping_neg 16 i))
negate_datum (Datum.integer i) = ok (Datum.integer (wrapping_neg 32 i))
negate_datum (Datum.big_int i) = ok (Datum.big_int (wrapping_neg 64 i))
negate_datum (Datum.double f) = ok (Datum.double (neg f))
negate_datum d = err (type_mismatch "numeric" (name (data_type d)))

module _ (f : FloatOps) where
  unfoldable pub numeric_to_f64 : Datum → Float
  numeric_to_f64 (Datum.small_int i) = f.of_signed i
  numeric_to_f64 (Datum.unsigned_small_int i) = f.of_unsigned i
  numeric_to_f64 (Datum.integer i) = f.of_signed i
  numeric_to_f64 (Datum.unsigned_integer i) = f.of_unsigned i
  numeric_to_f64 (Datum.big_int i) = f.of_signed i
  numeric_to_f64 (Datum.unsigned_big_int i) = f.of_unsigned i
  numeric_to_f64 (Datum.real r) = f.of_f32 r
  numeric_to_f64 (Datum.double d) = d
  numeric_to_f64 _ = zero_f64

  -- The result in the type of both operands, or in a 64-bit type by its sign.
  arith_result : Datum → Datum → Float → Datum
  arith_result (Datum.small_int _) (Datum.small_int _) r = Datum.small_int (f.to_signed 16 r)
  arith_result (Datum.unsigned_small_int _) (Datum.unsigned_small_int _) r =
      Datum.unsigned_small_int (f.to_unsigned 16 r)
  arith_result (Datum.integer _) (Datum.integer _) r = Datum.integer (f.to_signed 32 r)
  arith_result (Datum.unsigned_integer _) (Datum.unsigned_integer _) r =
      Datum.unsigned_integer (f.to_unsigned 32 r)
  arith_result (Datum.big_int _) (Datum.big_int _) r = Datum.big_int (f.to_signed 64 r)
  arith_result (Datum.unsigned_big_int _) (Datum.unsigned_big_int _) r =
      Datum.unsigned_big_int (f.to_unsigned 64 r)
  arith_result (Datum.real _) (Datum.real _) r = Datum.double r
  arith_result (Datum.double _) (Datum.double _) r = Datum.double r
  arith_result _ _ r =
      if r.sign
      then Datum.big_int (f.to_signed 64 r)
      else Datum.unsigned_big_int (f.to_unsigned 64 r)

  unfoldable pub datum_arith : Datum → Datum → (Float → Float → Float) → Result Datum
  unfolding is_numeric numeric_to_f64 arith_result
  datum_arith a b op =
      if not (is_numeric a) || not (is_numeric b)
      then err (type_mismatch (name (data_type a)) (name (data_type b)))
      else ok (arith_result a b (op (numeric_to_f64 a) (numeric_to_f64 b)))
