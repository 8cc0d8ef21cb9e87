-- ===== src/Expr/Samples.antt =====
-- A runtime for the examples: floats that hold small integers, texts of one letter.
use heliondb.Base.{ℕ, ◌+◌, none, suc, true, false, List, [], ◌∷◌}
use heliondb.Base.Int.{ℤ, pos, negsuc}
use heliondb.Types.Datum.{Datum, DataType, Float}
use heliondb.Types.Column
use heliondb.Types.Column.{ColumnMeta}
use heliondb.Expr.Floats.{FloatOps}
use heliondb.Expr.Values.{Shows}
use heliondb.Expr.Functions.{Runtime}

abbrev float : ℕ → Float
float n = record { sign = false; magnitude = n }

abbrev of_int : ℤ → Float
of_int (pos n) = float n
of_int (negsuc n) = record { sign = true; magnitude = suc n }

abbrev to_int : Float → ℤ
to_int x = pos x.magnitude

abbrev pub floats : FloatOps
floats = record {
  of_f32 = λ x. x;
  of_signed = of_int;
  of_unsigned = float;
  to_signed = λ w x. to_int x;
  to_unsigned = λ w x. x.magnitude;
  add = λ a b. float (a.magnitude + b.magnitude);
  sub = λ a b. a;
  mul = λ a b. a;
  div = λ a b. a;
  round = λ x. x;
  powi = λ i. float 1;
  sum_start = float 0;
}

abbrev shows : Shows
shows = record {
  unsigned = λ n. "n";
  signed = λ n. "n";
  f32 = λ x. "f";
  f64 = λ x. "f";
  hex = λ b. "h";
  date = λ d. "d";
  time = λ t n. "t";
  timestamp = λ d t n. "s";
  rfc3339 = λ t. "s";
  uuid = λ u. "u";
}

abbrev pub runtime : Runtime
runtime = record {
  floats = floats;
  shows = shows;
  to_lowercase = λ s. s;
  to_uppercase = λ s. s;
  uuidv7_bytes = [];
}

-- A table of users with a number, a name and a code.
abbrev pub user_columns : List ColumnMeta
user_columns =
    Column.new "id" DataType.integer
    ∷ Column.new "name" DataType.text
    ∷ Column.new "code" (DataType.char none)
    ∷ []

abbrev pub ada : List Datum
ada = Datum.integer (pos 1) ∷ Datum.text "ada" ∷ Datum.char "x" ∷ []

abbrev pub unnamed : List Datum
unnamed = Datum.integer (pos 2) ∷ Datum.null ∷ Datum.char "x" ∷ []
