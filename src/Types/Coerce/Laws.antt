-- ===== src/Types/Coerce/Laws.antt =====
-- A coerced value has the type of its column, and stands for the integer that it stood for.
use heliondb.Base.{ℕ, ◌<◌, ◌^◌, ◌≡◌, ◌⊎◌, Option, none, some, List, arith}
use heliondb.Base.Int.{ℤ, pos, IsSigned}
use heliondb.Types.Datum.{DataType, Datum, data_type}
use heliondb.Error.{ok}
use heliondb.Types.Coerce.{coerce_datum}

-- A type without its declared length.
abbrev pub unsized : DataType → DataType
unsized (DataType.var_char _) = DataType.var_char none
unsized (DataType.char _) = DataType.char none
unsized t = t

-- The integer that a value stands for.
abbrev pub int_value : Datum → Option ℤ
int_value (Datum.small_int v) = some v
int_value (Datum.unsigned_small_int v) = some (pos v)
int_value (Datum.integer v) = some v
int_value (Datum.unsigned_integer v) = some (pos v)
int_value (Datum.big_int v) = some v
int_value (Datum.unsigned_big_int v) = some (pos v)
int_value _ = none

-- Every integer lies in the range of its machine type.
abbrev pub IsInRange : Datum → Type 0
IsInRange (Datum.small_int v) = IsSigned 16 v
IsInRange (Datum.unsigned_small_int v) = v < 2 ^ 16
IsInRange (Datum.integer v) = IsSigned 32 v
IsInRange (Datum.unsigned_integer v) = v < 2 ^ 32
IsInRange (Datum.big_int v) = IsSigned 64 v
IsInRange (Datum.unsigned_big_int v) = v < 2 ^ 64
IsInRange _ = Unit

module _ (get_version_num : List ℕ → ℕ) where
  -- A value that is coerced to a type is NULL or of that type, the declared length aside.
  pub coerce_datum-Conforms :
      (v : Datum) (t : DataType) (d : Datum)
      → coerce_datum get_version_num v t ≡ ok d
      → (d ≡ Datum.null) ⊎ (data_type d ≡ unsized t)
  unfolding coerce_datum data_type
  coerce_datum-Conforms Datum.null _ d h = ground arith
  coerce_datum-Conforms _ _ d h = ground arith

  -- Coercion never changes the integer that a value stands for, and the result lies in the range
  -- of its own machine type, whatever the widths and signs of the two types.
  pub coerce_datum-int_value :
      (v : Datum) (t : DataType) (d : Datum)
      → coerce_datum get_version_num v t ≡ ok d
      → IsInRange v
      → (int_value d ≡ int_value v) × IsInRange d
  unfolding coerce_datum
  coerce_datum-int_value Datum.null _ d h r = ground arith
  coerce_datum-int_value _ _ d h r = ground arith
