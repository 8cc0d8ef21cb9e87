-- ===== src/Types/Coerce.antt =====
-- storage/types.rs: `coerce_datum`, which turns a value into the type of its column.
pub mod Laws
use heliondb.Base.{ℕ, ◌^◌, ◌==◌, leb, Bool, true, false, if◌then◌else◌, List, ◌&&◌}
use heliondb.Base.Int.{ℤ, pos, negsuc, as_unsigned, as_signed, is_nonneg, pos_part, neg_part}
use heliondb.Types.Datum.{DataType, Datum, name, data_type}
use heliondb.Error.{Result, ok, err, type_mismatch}

-- The last arm of the `match`.
mismatch : Datum → DataType → Result Datum
mismatch value target = err (type_mismatch (name target) (name (data_type value)))

-- An arm with a guard: where the guard fails only the last arm is left.
guarded : Bool → Datum → DataType → Datum → Result Datum
unfolding mismatch
guarded test value target d = if test then ok d else mismatch value target

-- `get_version_num` of the crate `uuid`, on the bytes of a UUID.
module _ (get_version_num : List ℕ → ℕ) where
  unfoldable pub coerce_datum : Datum → DataType → Result Datum
  unfolding guarded mismatch
  coerce_datum Datum.null _ = ok Datum.null
  coerce_datum (Datum.boolean v) DataType.boolean = ok (Datum.boolean v)
  coerce_datum (Datum.small_int v) DataType.small_int = ok (Datum.small_int v)
  coerce_datum (Datum.small_int v) DataType.integer = ok (Datum.integer (as_signed 32 v))
  coerce_datum (Datum.small_int v) DataType.big_int = ok (Datum.big_int (as_signed 64 v))
  coerce_datum (Datum.small_int v) DataType.unsigned_small_int =
      guarded (is_nonneg v) (Datum.small_int v) DataType.unsigned_small_int
        (Datum.unsigned_small_int (as_unsigned 16 v))
  coerce_datum (Datum.small_int v) DataType.unsigned_integer =
      guarded (is_nonneg v) (Datum.small_int v) DataType.unsigned_integer
        (Datum.unsigned_integer (as_unsigned 32 v))
  coerce_datum (Datum.small_int v) DataType.unsigned_big_int =
      guarded (is_nonneg v) (Datum.small_int v) DataType.unsigned_big_int
        (Datum.unsigned_big_int (as_unsigned 64 v))
  coerce_datum (Datum.unsigned_small_int v) DataType.unsigned_small_int =
      ok (Datum.unsigned_small_int v)
  coerce_datum (Datum.unsigned_small_int v) DataType.unsigned_integer =
      ok (Datum.unsigned_integer (as_unsigned 32 (pos v)))
  coerce_datum (Datum.unsigned_small_int v) DataType.unsigned_big_int =
      ok (Datum.unsigned_big_int (as_unsigned 64 (pos v)))
  coerce_datum (Datum.unsigned_small_int v) DataType.integer =
      ok (Datum.integer (as_signed 32 (pos v)))
  coerce_datum (Datum.unsigned_small_int v) DataType.big_int =
      ok (Datum.big_int (as_signed 64 (pos v)))
  coerce_datum (Datum.integer v) DataType.integer = ok (Datum.integer v)
  coerce_datum (Datum.integer v) DataType.big_int = ok (Datum.big_int (as_signed 64 v))
  coerce_datum (Datum.integer v) DataType.unsigned_integer =
      guarded (is_nonneg v) (Datum.integer v) DataType.unsigned_integer
        (Datum.unsigned_integer (as_unsigned 32 v))
  coerce_datum (Datum.integer v) DataType.unsigned_big_int =
      guarded (is_nonneg v) (Datum.integer v) DataType.unsigned_big_int
        (Datum.unsigned_big_int (as_unsigned 64 v))
  coerce_datum (Datum.unsigned_integer v) DataType.unsigned_integer = ok (Datum.unsigned_integer v)
  coerce_datum (Datum.unsigned_integer v) DataType.unsigned_big_int =
      ok (Datum.unsigned_big_int (as_unsigned 64 (pos v)))
  coerce_datum (Datum.unsigned_integer v) DataType.big_int =
      ok (Datum.big_int (as_signed 64 (pos v)))
  coerce_datum (Datum.unsigned_integer v) DataType.integer =
      guarded (leb v 2147483647) (Datum.unsigned_integer v) DataType.integer
        (Datum.integer (as_signed 32 (pos v)))
  coerce_datum (Datum.big_int v) DataType.big_int = ok (Datum.big_int v)
  coerce_datum (Datum.big_int v) DataType.unsigned_big_int =
      guarded (is_nonneg v) (Datum.big_int v) DataType.unsigned_big_int
        (Datum.unsigned_big_int (as_unsigned 64 v))
  coerce_datum (Datum.big_int v) DataType.integer =
      guarded (leb (neg_part v) 2147483648 && leb (pos_part v) 2147483647) (Datum.big_int v)
        DataType.integer (Datum.integer (as_signed 32 v))
  coerce_datum (Datum.unsigned_big_int v) DataType.unsigned_big_int = ok (Datum.unsigned_big_int v)
  coerce_datum (Datum.unsigned_big_int v) DataType.big_int =
      guarded (leb v 9223372036854775807) (Datum.unsigned_big_int v) DataType.big_int
        (Datum.big_int (as_signed 64 (pos v)))
  coerce_datum (Datum.unsigned_big_int v) DataType.integer =
      guarded (leb v 2147483647) (Datum.unsigned_big_int v) DataType.integer
        (Datum.integer (as_signed 32 (pos v)))
  coerce_datum (Datum.real v) DataType.real = ok (Datum.real v)
  coerce_datum (Datum.double v) DataType.double = ok (Datum.double v)
  coerce_datum (Datum.text v) DataType.text = ok (Datum.text v)
  coerce_datum (Datum.text v) (DataType.var_char _) = ok (Datum.var_char v)
  coerce_datum (Datum.text v) (DataType.char _) = ok (Datum.char v)
  coerce_datum (Datum.var_char v) DataType.text = ok (Datum.text v)
  coerce_datum (Datum.var_char v) (DataType.var_char _) = ok (Datum.var_char v)
  coerce_datum (Datum.var_char v) (DataType.char _) = ok (Datum.char v)
  coerce_datum (Datum.char v) DataType.text = ok (Datum.text v)
  coerce_datum (Datum.char v) (DataType.var_char _) = ok (Datum.var_char v)
  coerce_datum (Datum.char v) (DataType.char _) = ok (Datum.char v)
  coerce_datum (Datum.binary v) DataType.binary = ok (Datum.binary v)
  coerce_datum (Datum.date v) DataType.date = ok (Datum.date v)
  coerce_datum (Datum.time s n) DataType.time = ok (Datum.time s n)
  coerce_datum (Datum.timestamp d s n) DataType.timestamp = ok (Datum.timestamp d s n)
  coerce_datum (Datum.timestamp_tz v) DataType.timestamp_tz = ok (Datum.timestamp_tz v)
  coerce_datum (Datum.uuid v) DataType.uuid = ok (Datum.uuid v)
  coerce_datum (Datum.uuid_v7 v) DataType.uuid_v7 = ok (Datum.uuid_v7 v)
  coerce_datum (Datum.uuid v) DataType.uuid_v7 =
      guarded (get_version_num v == 7) (Datum.uuid v) DataType.uuid_v7 (Datum.uuid_v7 v)
  coerce_datum value target = mismatch value target
