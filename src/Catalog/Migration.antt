-- ===== src/Catalog/Migration.antt =====
-- storage/catalog.rs: a migration that fails.
use heliondb.Base.{
  ℕ, String, true, false, Option, none, some, List, [], ◌∷◌, ◌≡◌, ◌≢◌, refl, sym, ap, ◌∙◌, subst,
  Bool-cases, inl, inr,
}
use heliondb.Base.HashMap.{get-insert}
use heliondb.Base.Text.{str_eq, str_eq_iff}
use heliondb.Error.{HelionError, Result, ok, err}
use heliondb.Table.{Table}
use heliondb.Catalog.{
  TableMeta, StorageEngine, Texts, Catalog, Outcome, then_do, some_engine, unknown,
  normalize_engine_name, new_meta, engine_at, get_engine, meta_at, on_engine, set_meta, written,
  save, engine_name_of, table_engine_name, snapshot_table,
}
use heliondb.Catalog.Migrate.{
  move_to, moved, try_on, old_dropped, settle, restored, restore_in, migrate_to, migrate_from,
  migrate_known, migrate_table,
}

str_neq : (a b : String) → a ≢ b → str_eq a b ≡ false
str_neq a b n = elim (Bool-cases (str_eq a b)) [
  | inl h ↦ absurd (n ((str_eq_iff a b).0 h))
  | inr h ↦ h
]

module _ (texts : Texts) {E : Type 0} (ops : StorageEngine E) (name old : String) (s : E) where
  -- The engine that holds the table is as it was, and the table has metadata.
  abbrev Holds : TableMeta → Catalog E → Type 0
  Holds m c = (engine_at texts ops c old ≡ some s) × (meta_at texts ops c name ≡ some m)

  on_engine-Holds :
      (m : TableMeta) (c : Catalog E) (key : String) (o : E × Result (Unit {0}))
      → key ≢ old
      → Holds m c
      → Holds m (on_engine texts ops c key o).0
  unfolding on_engine engine_at meta_at
  on_engine-Holds m c key (e, r) n h =
      (get-insert str_eq str_eq_iff key old e c.engines ∙ rw (str_neq key old n) h.0, h.1)

  try_on-Holds :
      (m : TableMeta) (c : Catalog E) (key : String) (f : E → E × Result (Unit {0}))
      → key ≢ old
      → Holds m c
      → Holds m (try_on texts ops c key f)
  unfolding try_on
  try_on-Holds m c key f n h = tried (engine_at texts ops c key)
    where
      tried :
          (o : Option E)
          → Holds m (elim o [ none ↦ c | some s' ↦ (on_engine texts ops c key (f s')).0 ])
      tried none = h
      tried (some s') = on_engine-Holds m c key (f s') n h

  save-Holds : (m : TableMeta) (c : Catalog E) → Holds m c → Holds m (save texts ops c).0
  unfolding save written engine_at meta_at
  save-Holds m c h = saved c.faults
    where
      saved : (faults : List (Option HelionError)) → Holds m (written texts ops c faults).0
      saved [] = h
      saved (none ∷ faults) = h
      saved (some x ∷ faults) = h

  moved-Holds :
      (m : TableMeta) (c : Catalog E) (engine : String)
      → Holds m c
      → Holds (record m { engine = engine }) (moved texts ops c name engine)
  unfolding moved move_to set_meta engine_at meta_at
  moved-Holds m c engine h = rw h.1 (
    h.0,
    get-insert str_eq str_eq_iff name name (record m { engine = engine }) c.metadata
        ∙ rw ((str_eq_iff name name).1 refl) refl,
  )

  -- An outcome that is an error leaves the table in its engine.
  abbrev IsSafe : Outcome E → Type 0
  IsSafe (d, ok _) = Unit
  IsSafe (d, err x) =
      (engine_at texts ops d old ≡ some s) × (table_engine_name texts ops d name ≡ some old)

  Holds-IsSafe :
      (m : TableMeta) (c : Catalog E) (x : HelionError)
      → m.engine ≡ old
      → Holds m c
      → IsSafe (c, err x)
  unfolding table_engine_name
  Holds-IsSafe m c x e h = (h.0, ap (engine_name_of texts ops) h.1 ∙ ap some e)

  module _ (normal : normalize_engine_name texts old ≡ old) where
    settle-IsSafe :
        (m : TableMeta) (key : String) (o : Outcome E)
        → key ≢ old
        → Holds m o.0
        → IsSafe (settle texts ops name old key o)
    unfolding settle old_dropped get_engine
    settle-IsSafe m key (c, err x) n h =
        let c' = try_on texts ops c key (λ s'. ops.drop_table s' name) in
        Holds-IsSafe (record m { engine = old }) (moved texts ops c' name old) x refl
          (moved-Holds m c' old (try_on-Holds m c key (λ s'. ops.drop_table s' name) n h))
    settle-IsSafe m key (c, ok _) n h = rw (normal, h.0) tt

    restored-IsSafe :
        (m : TableMeta) (target key : String) (o : Outcome E)
        → m.engine ≡ old
        → key ≢ old
        → Holds m o.0
        → IsSafe (restored texts ops name old target key o)
    unfolding restored
    restored-IsSafe m target key (c, err x) e n h =
        Holds-IsSafe m (try_on texts ops c key (λ s'. ops.drop_table s' name)) x e
          (try_on-Holds m c key (λ s'. ops.drop_table s' name) n h)
    restored-IsSafe m target key (c, ok _) e n h =
        settle-IsSafe (record m { engine = target }) key
          (save texts ops (moved texts ops c name target)) n
          (save-Holds (record m { engine = target }) (moved texts ops c name target)
            (moved-Holds m c target h))

    restore_in-Holds :
        (m : TableMeta) (t : Table) (c : Catalog E) (key : String) (o : Option E)
        → key ≢ old
        → Holds m c
        → Holds m (restore_in texts ops t c key o).0
    unfolding restore_in
    restore_in-Holds m t c key none n h = h
    restore_in-Holds m t c key (some s') n h = on_engine-Holds m c key (ops.restore_table s' t) n h

    after_create :
        (m : TableMeta) (target key : String) (snapshot : Table) (o : Outcome E)
        → m.engine ≡ old
        → key ≢ old
        → Holds m o.0
        → IsSafe (
            then_do o (λ d.
              restored texts ops name old target key
                (restore_in texts ops snapshot d key (engine_at texts ops d key))))
    after_create m target key snapshot (c, err x) e n h = Holds-IsSafe m c x e h
    after_create m target key snapshot (c, ok _) e n h =
        restored-IsSafe m target key
          (restore_in texts ops snapshot c key (engine_at texts ops c key)) e n
          (restore_in-Holds m snapshot c key (engine_at texts ops c key) n h)

    migrate_to-IsSafe :
        (m : TableMeta) (c : Catalog E) (now : ℕ) (target key : String) (snapshot : Table)
        (found : Option E)
        → m.engine ≡ old
        → key ≢ old
        → Holds m c
        → IsSafe (migrate_to texts ops c now name old target snapshot (some_engine key found))
    unfolding migrate_to
    migrate_to-IsSafe m c now target key snapshot none e n h = Holds-IsSafe m c (unknown key) e h
    migrate_to-IsSafe m c now target key snapshot (some s') e n h =
        let o = ops.create_table s' (new_meta texts now name target) snapshot.columns in
        after_create m target key snapshot (on_engine texts ops c key o) e n
          (on_engine-Holds m c key o n h)

    migrate_from-IsSafe :
        (m : TableMeta) (c : Catalog E) (now : ℕ) (target : String) (snapshot : Result Table)
        → m.engine ≡ old
        → normalize_engine_name texts target ≢ old
        → Holds m c
        → IsSafe (migrate_from texts ops c now name old target snapshot)
    unfolding migrate_from get_engine
    migrate_from-IsSafe m c now target (err x) e n h = Holds-IsSafe m c x e h
    migrate_from-IsSafe m c now target (ok snapshot) e n h =
        migrate_to-IsSafe m c now target (normalize_engine_name texts target) snapshot
          (engine_at texts ops c (normalize_engine_name texts target)) e n h

    migrate_known-IsSafe :
        (m : TableMeta) (c : Catalog E) (now : ℕ) (target : String)
        → m.engine ≡ old
        → normalize_engine_name texts target ≡ target
        → Holds m c
        → IsSafe (migrate_known texts ops c now name target (some old))
    unfolding migrate_known
    migrate_known-IsSafe m c now target e k h = elim (Bool-cases (str_eq old target)) [
      | inl same ↦ rw same tt
      | inr differ ↦ rw differ (
          migrate_from-IsSafe m c now target (snapshot_table texts ops c name) e
            (λ q. let same : str_eq old target ≡ true = (str_eq_iff old target).1 (sym q ∙ k) in cc)
            h)
    ]

-- Engine names come out of the normalisation once and for all: `trim` and `to_ascii_lowercase` twice
-- are the same as once.
module _ (texts : Texts) {E : Type 0} (ops : StorageEngine E) where
  -- A migration that fails, at whatever step and whatever the engines do, leaves the table with its
  -- engine: the engine's state is the one before, and the catalog still names this engine for the
  -- table, where the names of the two engines are normal.
  pub failed_migration_keeps :
      (c d : Catalog E) (now : ℕ) (name target_engine : String) (s : E) (m : TableMeta)
      (x : HelionError)
      → normalize_engine_name texts m.engine ≡ m.engine
      → normalize_engine_name texts (normalize_engine_name texts target_engine)
        ≡ normalize_engine_name texts target_engine
      → meta_at texts ops c name ≡ some m
      → engine_at texts ops c m.engine ≡ some s
      → migrate_table texts ops c now name target_engine ≡ (d, err x)
      → (engine_at texts ops d m.engine ≡ some s)
        × (table_engine_name texts ops d name ≡ some m.engine)
  unfolding migrate_table table_engine_name
  failed_migration_keeps c d now name target_engine s m x n k h e run =
      let target = normalize_engine_name texts target_engine in
      let safe = migrate_known-IsSafe texts ops name m.engine s n m c now target refl k (e, h) in
      subst (IsSafe texts ops name m.engine s)
        (ap (migrate_known texts ops c now name target) (sym (ap (engine_name_of texts ops) h))
          ∙ run)
        safe
