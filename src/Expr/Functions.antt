-- ===== src/Expr/Functions.antt =====
-- executor/eval.rs: `evaluate_function`, the functions of the query language.
use heliondb.Base.{
  ℕ, ◌+◌, String, Bool, not, ◌||◌, Option, none, some, List, [], ◌∷◌, map, Ordering, if◌then◌else◌,
  length, retain, find?, get_elem?, ltb,
}
use heliondb.Base.Int.{ℤ, pos, as_signed}
use heliondb.Base.Text.{str_eq, codes}
use heliondb.Types.Datum.{Datum, Float, name, data_type, is_null}
use heliondb.Error.{Result, ok, err, internal, type_mismatch, text}
use heliondb.Expr.Floats.{FloatOps, abs}
use heliondb.Expr.Compare.{compare_datums, is_numeric}
use heliondb.Expr.Values.{Shows, datum_to_string, numeric_to_f64, wrapping_abs}

-- What the standard library and the crate `uuid` decide: the operations on floats, the texts of
-- values, the case of texts, and the UUID that a call draws.
pub record Runtime : Type 0 where
  pub floats : FloatOps
  pub shows : Shows
  pub to_lowercase : String → String
  pub to_uppercase : String → String
  pub uuidv7_bytes : List ℕ

-- `str::len`: the bytes of a text in UTF-8.
utf8_width : ℕ → ℕ
utf8_width c = if ltb c 128 then 1 else if ltb c 2048 then 2 else if ltb c 65536 then 3 else 4

byte_length : List ℕ → ℕ
unfolding utf8_width
byte_length [] = 0
byte_length (c ∷ cs) = utf8_width c + byte_length cs

abbrev ordering_or_equal : Option Ordering → Ordering
ordering_or_equal none = Ordering.eq
ordering_or_equal (some o) = o

abbrev not_null : Datum → Bool
not_null d = not (is_null d)

abbrev or_null : Option Datum → Datum
or_null none = Datum.null
or_null (some d) = d

empty_set : String → Result Datum
empty_set message = err (internal (text message ∷ []))

module _ (rt : Runtime) where
  abbrev f : FloatOps
  f = rt.floats

  abbrev cmp_or_equal : Datum → Datum → Ordering
  cmp_or_equal a b = ordering_or_equal (compare_datums f a b)

  count_non_null : List Datum → Datum
  unfolding is_null
  count_non_null args = Datum.big_int (as_signed 64 (pos (length (retain not_null args))))

  -- The arguments of `sum` and `avg` that are numbers, as `f64`.
  numbers : List Datum → List Float
  unfolding is_numeric numeric_to_f64
  numbers args = map (numeric_to_f64 f) (retain is_numeric args)

  total : Float → List Float → Float
  total acc [] = acc
  total acc (x ∷ xs) = total (f.add acc x) xs

  average : List Float → Datum
  unfolding total
  average [] = Datum.null
  average (x ∷ xs) =
      Datum.double (f.div (total f.sum_start (x ∷ xs)) (f.of_unsigned (length (x ∷ xs))))

  -- `min_by` keeps the first of equal values, `max_by` the last.
  least : Datum → List Datum → Datum
  least d [] = d
  least d (x ∷ xs) = least (elim (cmp_or_equal d x) [ Ordering.gt ↦ x | _ ↦ d ]) xs

  greatest : Datum → List Datum → Datum
  greatest d [] = d
  greatest d (x ∷ xs) = greatest (elim (cmp_or_equal d x) [ Ordering.gt ↦ d | _ ↦ x ]) xs

  min_of : List Datum → Result Datum
  unfolding least empty_set
  min_of [] = empty_set "MIN of empty set"
  min_of (d ∷ ds) = ok (least d ds)

  max_of : List Datum → Result Datum
  unfolding greatest empty_set
  max_of [] = empty_set "MAX of empty set"
  max_of (d ∷ ds) = ok (greatest d ds)

  -- `args.first().map(datum_to_string).unwrap_or_default()`.
  first_text : List Datum → String
  unfolding datum_to_string
  first_text [] = ""
  first_text (d ∷ ds) = datum_to_string rt.shows d

  coalesce : List Datum → Datum
  unfolding is_null
  coalesce args = or_null (find? not_null args)

  if_null : List Datum → Datum
  unfolding is_null
  if_null [] = Datum.null
  if_null (d ∷ ds) = if is_null d then or_null (get_elem? ds 0) else d

  abs_of : List Datum → Result Datum
  unfolding empty_set wrapping_abs
  abs_of [] = empty_set "ABS requires 1 argument"
  abs_of (Datum.small_int i ∷ ds) = ok (Datum.small_int (wrapping_abs 16 i))
  abs_of (Datum.integer i ∷ ds) = ok (Datum.integer (wrapping_abs 32 i))
  abs_of (Datum.big_int i ∷ ds) = ok (Datum.big_int (wrapping_abs 64 i))
  abs_of (Datum.unsigned_small_int i ∷ ds) = ok (Datum.unsigned_small_int i)
  abs_of (Datum.unsigned_integer i ∷ ds) = ok (Datum.unsigned_integer i)
  abs_of (Datum.unsigned_big_int i ∷ ds) = ok (Datum.unsigned_big_int i)
  abs_of (Datum.real x ∷ ds) = ok (Datum.double (f.of_f32 (abs x)))
  abs_of (Datum.double x ∷ ds) = ok (Datum.double (abs x))
  abs_of (d ∷ ds) = err (type_mismatch "numeric" (name (data_type d)))

  decimals : Option Datum → ℤ
  decimals (some (Datum.integer i)) = i
  decimals _ = pos 0

  round_of : List Datum → Result Datum
  unfolding decimals empty_set
  round_of [] = empty_set "ROUND requires 1 argument"
  round_of (Datum.double x ∷ ds) =
      let multiplier = f.powi (decimals (get_elem? ds 0)) in
      ok (Datum.double (f.div (f.round (f.mul x multiplier)) multiplier))
  round_of (d ∷ ds) = ok d

  uuid_of : List Datum → Result Datum
  unfolding empty_set
  uuid_of [] = ok (Datum.uuid_v7 rt.uuidv7_bytes)
  uuid_of (_ ∷ _) = empty_set "UUIDV7 takes no arguments"

  dispatch : String → String → List Datum → Result Datum
  unfolding count_non_null numbers total average min_of max_of first_text coalesce if_null abs_of
      round_of uuid_of byte_length
  dispatch fn_name called args =
      if str_eq fn_name "count"
      then ok (count_non_null args)
      else if str_eq fn_name "uuidv7" || str_eq fn_name "uuid_v7"
      then uuid_of args
      else if str_eq fn_name "sum"
      then ok (Datum.double (total f.sum_start (numbers args)))
      else if str_eq fn_name "avg"
      then ok (average (numbers args))
      else if str_eq fn_name "min"
      then min_of args
      else if str_eq fn_name "max"
      then max_of args
      else if str_eq fn_name "lower" || str_eq fn_name "lcase"
      then ok (Datum.text (rt.to_lowercase (first_text args)))
      else if str_eq fn_name "upper" || str_eq fn_name "ucase"
      then ok (Datum.text (rt.to_uppercase (first_text args)))
      else if str_eq fn_name "length" || str_eq fn_name "len"
      then ok (Datum.integer (as_signed 32 (pos (byte_length (codes (first_text args))))))
      else if str_eq fn_name "coalesce"
      then ok (coalesce args)
      else if str_eq fn_name "ifnull"
      then ok (if_null args)
      else if str_eq fn_name "abs"
      then abs_of args
      else if str_eq fn_name "round"
      then round_of args
      else err (internal (text "Unknown function: " ∷ text called ∷ []))

  unfoldable pub evaluate_function : String → List Datum → Result Datum
  unfolding dispatch
  evaluate_function called args = dispatch (rt.to_lowercase called) called args
