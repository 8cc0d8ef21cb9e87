-- ===== src/Catalog/Tests.antt =====
-- The laws of the catalog at two memory engines.
use heliondb.Base.{◌≡◌, refl, String, none, some, [], ◌∷◌}
use heliondb.Types.Datum.{DataType}
use heliondb.Types.Column
use heliondb.Error.{Result, ok, err, io, text}
use heliondb.Table.{Table}
use heliondb.MemoryEngine
use heliondb.MemoryEngine.{MemoryEngine}
use heliondb.Catalog.{
  Catalog, TableMeta, Texts, engine_at, table_engine_name, normalize_engine_name, save,
}
use heliondb.Catalog.Migrate.{migrate_table}
use heliondb.Catalog.Memory.{memory_engine}
use heliondb.Catalog.Life.{open_catalog}
use heliondb.Catalog.Keys.{Keyed}
use heliondb.Catalog.Reopened.{normalized_name, file_of, save-open_catalog}
use heliondb.Catalog.Migration.{failed_migration_keeps}

abbrev texts : Texts
texts = record { trim = λ s. s; to_ascii_lowercase = λ s. s }

abbrev users : Table
users = record {
  name = "users";
  columns = Column.new "id" DataType.integer ∷ [];
  version_chains = [];
  primary_key_idx = none;
  indexes = [];
}

abbrev holder : MemoryEngine
holder = record { tables = ("users", users) ∷ [] }

abbrev meta : TableMeta
meta = record { name = "users"; engine = "memory"; created_at = 0 }

-- The next write of the catalog's file fails.
abbrev catalog : Catalog MemoryEngine
catalog = record {
  metadata = ("users", meta) ∷ [];
  engines = ("memory", holder) ∷ ("disk", record { tables = [] }) ∷ [];
  default_engine = "memory";
  saved = some (record { default_engine = "memory"; tables = meta ∷ [] });
  faults = some (io (text "disk full" ∷ [])) ∷ [];
}

abbrev attempt : Catalog MemoryEngine × Result (Unit {0})
attempt = migrate_table texts memory_engine catalog 5 "users" "disk"

attempt_fails : attempt ≡ (attempt.0, err (io (text "disk full" ∷ [])))
unfolding migrate_table MemoryEngine.snapshot_table MemoryEngine.restore_table
    MemoryEngine.create_table MemoryEngine.drop_table
attempt_fails = refl

failed_migration_keeps_example :
    (engine_at texts memory_engine attempt.0 "memory" ≡ some holder)
    × (table_engine_name texts memory_engine attempt.0 "users" ≡ some "memory")
unfolding heliondb.Catalog.normalize_engine_name heliondb.Catalog.meta_at engine_at
failed_migration_keeps_example =
    failed_migration_keeps texts memory_engine catalog attempt.0 5 "users" "disk" holder meta
      (io (text "disk full" ∷ [])) refl refl refl refl attempt_fails

abbrev writable : Catalog MemoryEngine
writable = record catalog { faults = [] }

abbrev kept : Catalog MemoryEngine × Result (Unit {0})
kept = save texts memory_engine writable

writable-Keyed : Keyed writable.metadata
unfolding Keyed heliondb.Base.HashMap.get
writable-Keyed = (refl, refl, tt)

kept_is_written : kept ≡ (kept.0, ok tt)
unfolding save heliondb.Catalog.written
kept_is_written = refl

save-open_catalog_example :
    (e : Catalog MemoryEngine) × (open_catalog texts memory_engine holder
        (ok holder)
        (file_of texts memory_engine kept.0.saved)
        "disk"
      ≡ ok e)
    × (e.default_engine ≡ normalize_engine_name texts "memory")
    × ((n : String)
        → table_engine_name texts memory_engine e n
          ≡ normalized_name texts (table_engine_name texts memory_engine writable n))
save-open_catalog_example =
    save-open_catalog texts memory_engine writable kept.0 holder holder "disk" writable-Keyed
      kept_is_written
