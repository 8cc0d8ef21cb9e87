-- ===== src/Engine/Ddl/Tests.antt =====
-- The laws of the creation of tables at a concrete engine.
use heliondb.Base.{◌≡◌, refl, false, none, some, List, [], ◌∷◌}
use heliondb.Types.Datum.{DataType}
use heliondb.Types.Column
use heliondb.Types.Column.{ColumnMeta}
use heliondb.Error.{Result, err, io, text}
use heliondb.MemoryEngine.{MemoryEngine}
use heliondb.Catalog.{Catalog, Texts}
use heliondb.Catalog.Memory.{memory_engine}
use heliondb.Engine.{Engine, Remains}
use heliondb.Engine.Ddl.{create_table}
use heliondb.Engine.Ddl.Creation.{LogLeft, failed_creation_is_undone}

abbrev texts : Texts
texts = record { trim = λ s. s; to_ascii_lowercase = λ s. s }

abbrev catalog : Catalog MemoryEngine
catalog = record {
  metadata = [];
  engines = ("memory", record { tables = [] }) ∷ [];
  default_engine = "memory";
  saved = some (record { default_engine = "memory"; tables = [] });
  faults = [];
}

-- The next write to the log fails.
abbrev engine : Engine (Catalog MemoryEngine)
engine = record {
  tables = [];
  storage = catalog;
  mvcc = record { next_txid = 1; active_txns = 0 ∷ [] };
  log = [];
  users = record { users = [] };
  permissions = record { grants = [] };
  torn = false;
  faults = some (record { error = io (text "disk full" ∷ []); remains = Remains.whole }) ∷ [];
}

abbrev columns : List ColumnMeta
columns = Column.new "id" DataType.integer ∷ []

abbrev attempt : Engine (Catalog MemoryEngine) × Result (Unit {0})
attempt = create_table texts memory_engine (λ s. s) 5 engine "users" columns none

attempt_fails : attempt ≡ (attempt.0, err (io (text "disk full" ∷ [])))
unfolding create_table
attempt_fails = refl

failed_creation_is_undone_example :
    (attempt.0.tables ≡ engine.tables)
    × LogLeft texts memory_engine (λ s. s) 5 engine "users" columns attempt.0
    × (attempt.0.permissions ≡ engine.permissions)
    × (attempt.0.users ≡ engine.users)
failed_creation_is_undone_example =
    failed_creation_is_undone texts memory_engine (λ s. s) 5 engine attempt.0 "users" columns none
      (io (text "disk full" ∷ [])) attempt_fails
