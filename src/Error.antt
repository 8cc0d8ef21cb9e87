-- ===== src/Error.antt =====
-- error.rs: `HelionError`, its `Display`, and `Result`.
--
-- A formatted text is the list of its pieces: the literal parts of the format string, and the
-- values that it shows.
use heliondb.Base.{ℕ, String, List, [], ◌∷◌}
use heliondb.Types.Datum.{Datum}

pub data Part : Type 0 where
  text : String → Part
  number : ℕ → Part
  key : List Datum → Part
  names : List String → Part

abbrev pub Message : Type 0
Message = List Part

pub data HelionError : Type 0 where
  parse : Message → HelionError
  table_not_found column_not_found ambiguous_column table_already_exists : String → HelionError
  type_mismatch : String → String → HelionError
  transaction constraint_violation : Message → HelionError
  duplicate_key : String → List Datum → HelionError
  index_not_found index_already_exists : String → HelionError
  conflict : ℕ → HelionError
  io serialization protocol permission_denied auth internal : Message → HelionError

-- The `#[error("…")]` lines.
unfoldable pub display : HelionError → Message
display (parse m) = text "SQL parse error: " ∷ m
display (table_not_found t) = text "Table '" ∷ text t ∷ text "' not found" ∷ []
display (column_not_found c) = text "Column '" ∷ text c ∷ text "' not found" ∷ []
display (ambiguous_column c) =
    text "Column '" ∷ text c ∷ text "' is ambiguous (exists in multiple tables)" ∷ []
display (table_already_exists t) = text "Table '" ∷ text t ∷ text "' already exists" ∷ []
display (type_mismatch e a) = text "Type mismatch: expected " ∷ text e ∷ text ", got " ∷ text a ∷ []
display (transaction m) = text "Transaction error: " ∷ m
display (constraint_violation m) = text "Constraint violation: " ∷ m
display (duplicate_key i k) =
    text "Duplicate key violation on index '" ∷ text i ∷ text "': " ∷ key k ∷ []
display (index_not_found i) = text "Index '" ∷ text i ∷ text "' not found" ∷ []
display (index_already_exists i) = text "Index '" ∷ text i ∷ text "' already exists" ∷ []
display (conflict t) =
    text "Optimistic lock conflict: transaction "
    ∷ number t
    ∷ text " aborted due to concurrent write"
    ∷ []
display (io m) = text "I/O error: " ∷ m
display (serialization m) = text "Serialization error: " ∷ m
display (protocol m) = text "Protocol error: " ∷ m
display (permission_denied m) = text "Permission denied: " ∷ m
display (auth m) = text "Authentication error: " ∷ m
display (internal m) = text "Internal error: " ∷ m

pub data Result {ℓ} (A : Type ℓ) : Type ℓ where
  ok : A → Result A
  err : HelionError → Result A

infixl 5 ◌>>=◌
abbrev pub ◌>>=◌ {ℓ κ} : {A : Type ℓ} {B : Type κ} → Result A → (A → Result B) → Result B
ok a >>= f = f a
err e >>= f = err e

-- `Result::map_err`.
abbrev pub map_err {ℓ} : {A : Type ℓ} → (HelionError → HelionError) → Result A → Result A
map_err f (ok a) = ok a
map_err f (err e) = err (f e)
