-- ===== src/Table/Validate/Laws.antt =====
-- Exactly the rows that fit the schema are valid, and coercion makes values that fit.
use heliondb.Base.{
  ℕ, true, false, List, [], ◌∷◌, ◌≡◌, ◌⊎◌, inl, inr, refl, ◌↔◌, arith, length, Bool-cases, ap,
}
use heliondb.Types.Datum.{DataType, Datum, is_null, data_type}
use heliondb.Types.Column.{Row, ColumnMeta}
use heliondb.Types.Coerce.{coerce_datum}
use heliondb.Types.Coerce.Laws.{coerce_datum-Conforms, unsized}
use heliondb.Error.{ok}
use heliondb.Table.{Table}
use heliondb.Table.Validate.{types_compatible, check_value, check_values, validate_row}

-- The value may stand in the column.
abbrev pub FitsColumn : ColumnMeta → Datum → Type 0
FitsColumn col d =
    ((is_null d ≡ true) × (col.nullable ≡ true))
    ⊎ ((is_null d ≡ false) × (types_compatible col.data_type (data_type d) ≡ true))

-- One value for each column, and each fits.
abbrev pub FitsColumns : List ColumnMeta → List Datum → Type 0
FitsColumns [] [] = Unit
FitsColumns (col ∷ columns) (d ∷ values) = FitsColumn col d × FitsColumns columns values
FitsColumns _ _ = ⊥

check_value_iff : (col : ColumnMeta) (d : Datum) → (check_value col d ≡ ok tt) ↔ FitsColumn col d
unfolding check_value
check_value_iff col d = ground arith

check_values_sound :
    (columns : List ColumnMeta) (values : List Datum)
    → length values ≡ length columns
    → check_values columns values ≡ ok tt
    → FitsColumns columns values
unfolding check_values
check_values_sound [] [] l h = tt
check_values_sound [] (d ∷ values) l h = absurd (omega arith)
check_values_sound (col ∷ columns) [] l h = absurd (omega arith)
check_values_sound (col ∷ columns) (d ∷ values) l h =
    ground (arith, check_value_iff col d, check_values_sound columns values)

check_values_complete :
    (columns : List ColumnMeta) (values : List Datum)
    → FitsColumns columns values
    → (length values ≡ length columns) × (check_values columns values ≡ ok tt)
unfolding check_values
check_values_complete [] [] f = (refl, refl)
check_values_complete [] (d ∷ values) f = absurd f
check_values_complete (col ∷ columns) [] f = absurd f
check_values_complete (col ∷ columns) (d ∷ values) f =
    ground (arith, check_value_iff col d, check_values_complete columns values f.1)

-- A row is valid exactly when it has one value for each column and each value fits: NULL in a
-- nullable column, any other value in a column of a compatible type.
pub validate_row_iff :
    (t : Table) (row : Row) → (validate_row t row ≡ ok tt) ↔ FitsColumns t.columns row.values
unfolding validate_row
validate_row_iff t row = (
  λ h. ground (arith, check_values_sound t.columns row.values),
  λ f. ground (arith, check_values_complete t.columns row.values f),
)

compatible-unsized : (t u : DataType) → u ≡ unsized t → types_compatible t u ≡ true
unfolding types_compatible
compatible-unsized DataType.boolean u e = ground arith
compatible-unsized _ u e = ground arith

-- Coercion and validation agree: what a value is coerced to for a column is valid there, except
-- NULL in a column that is not nullable.
pub coerced-FitsColumn :
    (get_version_num : List ℕ → ℕ) (col : ColumnMeta) (v d : Datum)
    → coerce_datum get_version_num v col.data_type ≡ ok d
    → (is_null d ≡ false) ⊎ (col.nullable ≡ true)
    → FitsColumn col d
unfolding is_null
coerced-FitsColumn get_version_num col v d h (inr nullable) =
    elim (coerce_datum-Conforms get_version_num v col.data_type d h) [
      | inl e ↦ rw e (inl (refl, nullable))
      | inr e ↦ elim (Bool-cases (is_null d)) [
        | inl n ↦ inl (n, nullable)
        | inr n ↦ inr (n, compatible-unsized col.data_type (data_type d) e)
      ]
    ]
coerced-FitsColumn get_version_num col v d h (inl n) =
    elim (coerce_datum-Conforms get_version_num v col.data_type d h) [
      | inl e ↦ absurd (cc (ap is_null e))
      | inr e ↦ inr (n, compatible-unsized col.data_type (data_type d) e)
    ]
