-- ===== src/Types/Datum.antt =====
-- storage/types.rs: `DataType` and `Datum`.
--
-- A float is held as its bit pattern, a sign and the other bits read as a number; dates, times and
-- UUIDs, which are values of other crates, are held by the numbers that their order compares: a
-- date as its day number, a time as seconds and nanoseconds, a UUID as its bytes.
use heliondb.Base.{ℕ, String, Bool, true, false, Option, none, List}
use heliondb.Base.Int.{ℤ}

pub data DataType : Type 0 where
  boolean small_int unsigned_small_int integer unsigned_integer big_int : DataType
  unsigned_big_int real double : DataType
  var_char char : Option ℕ → DataType
  text binary date time timestamp timestamp_tz uuid uuid_v7 null : DataType

-- `DataType::name`, which `Display` prints.
unfoldable pub name : DataType → String
name DataType.boolean = "BOOLEAN"
name DataType.small_int = "SMALLINT"
name DataType.unsigned_small_int = "U_SMALLINT"
name DataType.integer = "INTEGER"
name DataType.unsigned_integer = "U_INTEGER"
name DataType.big_int = "BIGINT"
name DataType.unsigned_big_int = "U_BIGINT"
name DataType.real = "REAL"
name DataType.double = "DOUBLE"
name (DataType.var_char _) = "VARCHAR"
name (DataType.char _) = "CHAR"
name DataType.text = "TEXT"
name DataType.binary = "BINARY"
name DataType.date = "DATE"
name DataType.time = "TIME"
name DataType.timestamp = "TIMESTAMP"
name DataType.timestamp_tz = "TIMESTAMPTZ"
name DataType.uuid = "UUID"
name DataType.uuid_v7 = "UUIDV7"
name DataType.null = "NULL"

-- The bits of an `f32` or `f64`: the sign bit, and exponent and mantissa as one number.
pub record Float : Type 0 where
  pub sign : Bool
  pub magnitude : ℕ

pub data Datum : Type 0 where
  boolean : Bool → Datum
  small_int : ℤ → Datum
  unsigned_small_int : ℕ → Datum
  integer : ℤ → Datum
  unsigned_integer : ℕ → Datum
  big_int : ℤ → Datum
  unsigned_big_int : ℕ → Datum
  real : Float → Datum
  double : Float → Datum
  var_char : String → Datum
  char : String → Datum
  text : String → Datum
  binary : List ℕ → Datum
  date : ℤ → Datum
  time : ℕ → ℕ → Datum
  timestamp : ℤ → ℕ → ℕ → Datum
  timestamp_tz : ℤ → Datum
  uuid : List ℕ → Datum
  uuid_v7 : List ℕ → Datum
  null : Datum

-- `Datum::data_type`.
unfoldable pub data_type : Datum → DataType
data_type (Datum.boolean _) = DataType.boolean
data_type (Datum.small_int _) = DataType.small_int
data_type (Datum.unsigned_small_int _) = DataType.unsigned_small_int
data_type (Datum.integer _) = DataType.integer
data_type (Datum.unsigned_integer _) = DataType.unsigned_integer
data_type (Datum.big_int _) = DataType.big_int
data_type (Datum.unsigned_big_int _) = DataType.unsigned_big_int
data_type (Datum.real _) = DataType.real
data_type (Datum.double _) = DataType.double
data_type (Datum.var_char _) = DataType.var_char none
data_type (Datum.char _) = DataType.char none
data_type (Datum.text _) = DataType.text
data_type (Datum.binary _) = DataType.binary
data_type (Datum.date _) = DataType.date
data_type (Datum.time _ _) = DataType.time
data_type (Datum.timestamp _ _ _) = DataType.timestamp
data_type (Datum.timestamp_tz _) = DataType.timestamp_tz
data_type (Datum.uuid _) = DataType.uuid
data_type (Datum.uuid_v7 _) = DataType.uuid_v7
data_type Datum.null = DataType.null

-- `Datum::is_null`.
unfoldable pub is_null : Datum → Bool
is_null Datum.null = true
is_null _ = false
