-- ===== src/Table/Validate.antt =====
-- storage/table.rs: `validate_row` and `types_compatible`, and what a validated row satisfies.
pub mod Laws
use heliondb.Base.{
  ℕ, String, Bool, true, false, not, ◌&&◌, ◌||◌, Option, none, some, List, [], ◌∷◌, if◌then◌else◌,
  length, ◌==◌,
}
use heliondb.Types.Datum.{DataType, Datum, is_null, data_type, name}
use heliondb.Types.Column.{Row, ColumnMeta}
use heliondb.Error.{
  Result, ok, err, ◌>>=◌, internal, constraint_violation, type_mismatch, text, number,
}
use heliondb.Table.{Table}

abbrev same_length : Option ℕ → Option ℕ → Bool
same_length none none = true
same_length (some a) (some b) = a == b
same_length _ _ = false

-- `#[derive(PartialEq)]` of `DataType`.
same_type : DataType → DataType → Bool
same_type DataType.boolean DataType.boolean = true
same_type DataType.small_int DataType.small_int = true
same_type DataType.unsigned_small_int DataType.unsigned_small_int = true
same_type DataType.integer DataType.integer = true
same_type DataType.unsigned_integer DataType.unsigned_integer = true
same_type DataType.big_int DataType.big_int = true
same_type DataType.unsigned_big_int DataType.unsigned_big_int = true
same_type DataType.real DataType.real = true
same_type DataType.double DataType.double = true
same_type (DataType.var_char a) (DataType.var_char b) = same_length a b
same_type (DataType.char a) (DataType.char b) = same_length a b
same_type DataType.text DataType.text = true
same_type DataType.binary DataType.binary = true
same_type DataType.date DataType.date = true
same_type DataType.time DataType.time = true
same_type DataType.timestamp DataType.timestamp = true
same_type DataType.timestamp_tz DataType.timestamp_tz = true
same_type DataType.uuid DataType.uuid = true
same_type DataType.uuid_v7 DataType.uuid_v7 = true
same_type DataType.null DataType.null = true
same_type _ _ = false

-- The implicit casts.
castable : DataType → DataType → Bool
castable DataType.integer DataType.big_int = true
castable DataType.big_int DataType.integer = true
castable DataType.integer DataType.small_int = true
castable DataType.small_int DataType.integer = true
castable DataType.big_int DataType.small_int = true
castable DataType.small_int DataType.big_int = true
castable DataType.double DataType.integer = true
castable DataType.double DataType.big_int = true
castable DataType.integer DataType.double = true
castable DataType.big_int DataType.double = true
castable DataType.real DataType.double = true
castable DataType.double DataType.real = true
castable (DataType.var_char _) DataType.text = true
castable DataType.text (DataType.var_char _) = true
castable (DataType.var_char _) (DataType.var_char _) = true
castable (DataType.char _) DataType.text = true
castable DataType.text (DataType.char _) = true
castable (DataType.var_char _) (DataType.char _) = true
castable (DataType.char _) (DataType.var_char _) = true
castable (DataType.char _) (DataType.char _) = true
castable _ _ = false

unfoldable pub types_compatible : DataType → DataType → Bool
unfolding same_type castable
types_compatible expected actual = same_type expected actual || castable expected actual

check_value : ColumnMeta → Datum → Result (Unit {0})
check_value col datum =
    if is_null datum
    then (if not col.nullable
        then err
            (constraint_violation (text "Column '" ∷ text col.name ∷ text "' cannot be null" ∷ []))
        else ok tt)
    else if not (types_compatible col.data_type (data_type datum))
    then err (type_mismatch (name col.data_type) (name (data_type datum)))
    else ok tt

-- The loop over `columns.iter().zip(row.values.iter())`.
check_values : List ColumnMeta → List Datum → Result (Unit {0})
unfolding check_value
check_values (col ∷ columns) (datum ∷ values) =
    check_value col datum >>= λ _. check_values columns values
check_values _ _ = ok tt

unfoldable pub validate_row : Table → Row → Result (Unit {0})
unfolding check_values
validate_row t row =
    if not (length row.values == length t.columns)
    then err (
        internal (
          text "Row has "
          ∷ number (length row.values)
          ∷ text " columns but table '"
          ∷ text t.name
          ∷ text "' has "
          ∷ number (length t.columns)
          ∷ text " columns"
          ∷ []))
    else check_values t.columns row.values
