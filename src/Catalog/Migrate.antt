-- ===== src/Catalog/Migrate.antt =====
-- storage/catalog.rs: `migrate_table`, the move of a table from one engine to another.
use heliondb.Base.{ℕ, String, Option, none, some, if◌then◌else◌}
use heliondb.Base.Text.{str_eq}
use heliondb.Error.{Result, ok, err, table_not_found}
use heliondb.Table.{Table}
use heliondb.Catalog.{
  TableMeta, StorageEngine, Texts, Catalog, Outcome, then_do, unknown, normalize_engine_name,
  new_meta, engine_at, get_engine, meta_at, on_engine, set_meta, save, snapshot_table,
  table_engine_name,
}

module _ (texts : Texts) {E : Type 0} (ops : StorageEngine E) where
  -- `if let Some(m) = metadata.get_mut(name) { m.engine = … }`.
  unfoldable pub move_to : Catalog E → String → String → Option TableMeta → Catalog E
  unfolding set_meta
  move_to c name engine none = c
  move_to c name engine (some m) = set_meta texts ops c name (record m { engine = engine })

  unfoldable pub moved : Catalog E → String → String → Catalog E
  unfolding move_to meta_at
  moved c name engine = move_to c name engine (meta_at texts ops c name)

  -- An operation on an engine whose result is passed over.
  unfoldable pub try_on : Catalog E → String → (E → E × Result (Unit {0})) → Catalog E
  unfolding on_engine engine_at
  try_on c name f = elim (engine_at texts ops c name) [
    | none ↦ c
    | some s ↦ (on_engine texts ops c name (f s)).0
  ]

  unfoldable pub old_dropped : Catalog E → String → Result (String × E) → Outcome E
  unfolding on_engine
  old_dropped c name (err x) = (c, err x)
  old_dropped c name (ok (key, s)) = ((on_engine texts ops c key (ops.drop_table s name)).0, ok tt)

  -- What follows the write of the new metadata: the copy in the target goes, or the old one.
  unfoldable pub settle : String → String → String → Outcome E → Outcome E
  unfolding try_on moved old_dropped get_engine
  settle name old target (c, err x) =
      (moved (try_on c target (λ s. ops.drop_table s name)) name old, err x)
  settle name old target (c, ok _) = old_dropped c name (get_engine texts ops c old)

  -- What follows the restoration of the table in the target, which is registered under `key`.
  unfoldable pub restored : String → String → String → String → Outcome E → Outcome E
  unfolding try_on settle save moved
  restored name old target key (c, err x) = (try_on c key (λ s. ops.drop_table s name), err x)
  restored name old target key (c, ok _) =
      settle name old key (save texts ops (moved c name target))

  unfoldable pub restore_in : Table → Catalog E → String → Option E → Outcome E
  unfolding on_engine
  restore_in t c key none = (c, err (unknown key))
  restore_in t c key (some s) = on_engine texts ops c key (ops.restore_table s t)

  unfoldable pub migrate_to :
      Catalog E → ℕ → String → String → String → Table → Result (String × E) → Outcome E
  unfolding on_engine restored new_meta restore_in engine_at
  migrate_to c now name old target snapshot (err x) = (c, err x)
  migrate_to c now name old target snapshot (ok (key, s)) =
      then_do
        (on_engine texts ops c key
          (ops.create_table s (new_meta texts now name target) snapshot.columns))
        (λ d. restored name old target key (restore_in snapshot d key (engine_at texts ops d key)))

  unfoldable pub migrate_from : Catalog E → ℕ → String → String → String → Result Table → Outcome E
  unfolding migrate_to get_engine
  migrate_from c now name old target (err x) = (c, err x)
  migrate_from c now name old target (ok snapshot) =
      migrate_to c now name old target snapshot (get_engine texts ops c target)

  unfoldable pub migrate_known : Catalog E → ℕ → String → String → Option String → Outcome E
  unfolding migrate_from snapshot_table
  migrate_known c now name target none = (c, err (table_not_found name))
  migrate_known c now name target (some old) =
      if str_eq old target
      then (c, ok tt)
      else migrate_from c now name old target (snapshot_table texts ops c name)

  unfoldable pub migrate_table : Catalog E → ℕ → String → String → Outcome E
  unfolding migrate_known table_engine_name normalize_engine_name
  migrate_table c now name target_engine =
      migrate_known c now name (normalize_engine_name texts target_engine)
        (table_engine_name texts ops c name)
