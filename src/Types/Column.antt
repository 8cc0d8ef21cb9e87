-- ===== src/Types/Column.antt =====
-- storage/types.rs: `ForeignKeyInfo`, `ColumnMeta` with its builder methods, and `Row`.
use heliondb.Base.{String, Bool, true, false, Option, none, some, List, ℕ, get_elem?}
use heliondb.Types.Datum.{DataType, Datum}

pub record ForeignKeyInfo : Type 0 where
  pub foreign_table : String
  pub foreign_column : String

pub record ColumnMeta : Type 0 where
  pub name : String
  pub data_type : DataType
  pub nullable : Bool
  pub is_primary_key : Bool
  pub is_unique : Bool
  pub default : Option Datum
  pub references : Option ForeignKeyInfo

abbrev pub new : String → DataType → ColumnMeta
new name ty = record {
  name = name;
  data_type = ty;
  nullable = true;
  is_primary_key = false;
  is_unique = false;
  default = none;
  references = none;
}

abbrev pub references : ColumnMeta → String → String → ColumnMeta
references c table column = record c {
  references = some (record { foreign_table = table; foreign_column = column });
}

abbrev not_null : ColumnMeta → ColumnMeta
not_null c = record c { nullable = false }

abbrev pub primary_key : ColumnMeta → ColumnMeta
primary_key c = record c { nullable = false; is_primary_key = true; is_unique = true }

pub record Row : Type 0 where
  pub values : List Datum

abbrev pub get : Row → ℕ → Option Datum
get r i = get_elem? r.values i
