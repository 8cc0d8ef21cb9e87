-- ===== src/Engine/Ddl.antt =====
-- storage/engine.rs: the creation and the removal of tables, over the catalog.
pub mod Creation
mod Tests
use heliondb.Base.{
  ℕ, String, Bool, not, Option, none, some, List, [], ◌∷◌, ◌++◌, any, find?, retain, if◌then◌else◌,
}
use heliondb.Base.Text.{eq_ignore_ascii_case}
use heliondb.Types.Column.{ColumnMeta}
use heliondb.Error.{HelionError, Result, ok, err, table_already_exists, table_not_found}
use heliondb.Table.{Table}
use heliondb.Table.Indexes
use heliondb.Users.{user_exists}
use heliondb.Permissions
use heliondb.Permissions.{Permission}
use heliondb.Wal.{WalRecord}
use heliondb.Catalog
use heliondb.Catalog.Migrate
use heliondb.Catalog.{Catalog, StorageEngine, Texts, normalize_engine_name}
use heliondb.Engine.{Engine, append}

-- `t.name.eq_ignore_ascii_case(name)`.
abbrev pub called : String → Table → Bool
called name t = eq_ignore_ascii_case t.name name

abbrev pub not_called : String → Table → Bool
not_called name t = not (called name t)

module _ (texts : Texts) {E : Type 0} (ops : StorageEngine E) (to_lowercase : String → String)
    (now : ℕ) where
  abbrev pub State : Type 0
  State = Engine (Catalog E)

  abbrev pub DdlOutcome : Type 0
  DdlOutcome = Engine (Catalog E) × Result (Unit {0})

  abbrev engine_name_for : State → Option String → String
  unfolding normalize_engine_name
  engine_name_for e none = e.storage.default_engine
  engine_name_for e (some name) = normalize_engine_name texts name

  abbrev with_storage : State → Catalog E → State
  with_storage e c = record e { storage = c }

  -- The default user gets every permission on a new table.
  granted : State → String → Bool → State
  unfolding Permissions.grant
  granted e name exists =
      if exists
      then record e {
        permissions = Permissions.grant to_lowercase e.permissions "helion" name Permission.all;
      }
      else e

  -- Without its record in the log the new table goes again.
  logged : String → DdlOutcome → DdlOutcome
  unfolding granted Catalog.drop_table
  logged name (e, ok _) = (granted e name (user_exists e.users "helion"), ok tt)
  logged name (e, err x) = (
    record e {
      storage = (Catalog.drop_table texts ops e.storage name).0;
      tables = retain (not_called name) e.tables;
    },
    err x,
  )

  in_catalog : State → String → List ColumnMeta → Catalog E × Result (Unit {0}) → DdlOutcome
  unfolding logged append Indexes.new
  in_catalog e name columns (c, err x) = (with_storage e c, err x)
  in_catalog e name columns (c, ok _) = logged name (
      append (record e { storage = c; tables = e.tables ++ Indexes.new name columns ∷ [] })
        (WalRecord.create_table name columns))

  unfoldable pub create_table : State → String → List ColumnMeta → Option String → DdlOutcome
  unfolding in_catalog engine_name_for Catalog.create_table
  create_table e name columns engine_name =
      if any (called name) e.tables
      then (e, err (table_already_exists name))
      else in_catalog e name columns (
          Catalog.create_table texts ops e.storage now name columns
            (some (engine_name_for e engine_name)))

  -- Without its record in the log the table comes back, in the catalog as far as that succeeds.
  drop_logged : String → String → Table → DdlOutcome → DdlOutcome
  unfolding Catalog.create_table Catalog.restore_table Permissions.remove_table
  drop_logged name engine_name snapshot (e, ok _) =
      (record e { permissions = Permissions.remove_table to_lowercase e.permissions name }, ok tt)
  drop_logged name engine_name snapshot (e, err x) =
      let created =
        (Catalog.create_table texts ops e.storage now snapshot.name snapshot.columns
          (some engine_name)).0 in
      (
        record e {
          storage = (Catalog.restore_table texts ops created snapshot).0;
          tables = e.tables ++ snapshot ∷ [];
        },
        err x,
      )

  out_of_catalog : State → String → String → Table → Catalog E × Result (Unit {0}) → DdlOutcome
  unfolding drop_logged append
  out_of_catalog e name engine_name snapshot (c, err x) = (with_storage e c, err x)
  out_of_catalog e name engine_name snapshot (c, ok _) = drop_logged name engine_name snapshot (
      append (record e { storage = c; tables = retain (not_called name) e.tables })
        (WalRecord.drop_table name))

  abbrev or_default : State → Option String → String
  or_default e none = e.storage.default_engine
  or_default e (some name) = name

  drop_found : State → String → Option Table → DdlOutcome
  unfolding out_of_catalog Catalog.drop_table Catalog.table_engine_name
  drop_found e name none = (e, err (table_not_found name))
  drop_found e name (some snapshot) =
      out_of_catalog e name (or_default e (Catalog.table_engine_name texts ops e.storage name))
        snapshot (Catalog.drop_table texts ops e.storage name)

  unfoldable pub drop_table : State → String → DdlOutcome
  unfolding drop_found
  drop_table e name = drop_found e name (find? (called name) e.tables)

  unfoldable pub alter_table_engine : State → String → String → DdlOutcome
  unfolding Migrate.migrate_table
  alter_table_engine e name target =
      let (c, result) = Migrate.migrate_table texts ops e.storage now name target in
      (with_storage e c, result)
