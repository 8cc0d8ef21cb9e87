-- ===== src/Engine/Ddl/Creation.antt =====
-- storage/engine.rs: the creation of a table that fails.
use heliondb.Base.{
  ℕ, String, true, false, Option, none, some, List, [], ◌∷◌, ◌++◌, ◌≡◌, refl, ap, ◌∙◌, ◌⊎◌, subst,
  arith, any, retain, Bool-cases, inl, inr,
}
use heliondb.Base.Text.{eq_ignore_ascii_case_iff, folded}
use heliondb.Types.Column.{ColumnMeta}
use heliondb.Error.{HelionError, Result, ok, err}
use heliondb.Table.{Table}
use heliondb.Table.Indexes
use heliondb.Table.Indexes.Names.{name-new}
use heliondb.Wal.{WalRecord}
use heliondb.Catalog.{Catalog, StorageEngine, Texts}
use heliondb.Engine.{Engine, Fault, Remains, left_in_log, written, append}
use heliondb.Engine.Ddl.{called, not_called, logged, in_catalog, create_table}

-- A new table is found under its name.
called-new :
    (name : String) (columns : List ColumnMeta) → called name (Indexes.new name columns) ≡ true
called-new name columns =
    (eq_ignore_ascii_case_iff (Indexes.new name columns).name name).1
      (ap folded (name-new name columns))

retain_uncalled :
    (name : String) (tables : List Table) (t : Table)
    → any (called name) tables ≡ false
    → called name t ≡ true
    → retain (not_called name) (tables ++ t ∷ []) ≡ tables
retain_uncalled name [] t h k = ground arith
retain_uncalled name (u ∷ tables) t h k = ground (arith, retain_uncalled name tables t)

module _ (texts : Texts) {E : Type 0} (ops : StorageEngine E) (to_lowercase : String → String)
    (now : ℕ) where
  -- What a creation that fails may have left in the log: nothing, or the whole record.
  abbrev pub LogLeft : Engine (Catalog E) → String → List ColumnMeta → Engine (Catalog E) → Type 0
  LogLeft e name columns f =
      (f.log ≡ e.log) ⊎ (f.log ≡ e.log ++ WalRecord.create_table name columns ∷ [])

  -- What a statement that fails must leave as it was.
  abbrev pub IsUndone :
      String
      → List ColumnMeta
      → Engine (Catalog E)
      → Engine (Catalog E) × Result (Unit {0})
      → Type 0
  IsUndone name columns e (f, ok _) = Unit
  IsUndone name columns e (f, err x) =
      (f.tables ≡ e.tables)
      × LogLeft e name columns f
      × (f.permissions ≡ e.permissions)
      × (f.users ≡ e.users)

  left_in_log-LogLeft :
      (e f : Engine (Catalog E)) (name : String) (columns : List ColumnMeta) (left : Remains)
      → f.log ≡ e.log
      → LogLeft e name columns (left_in_log f (WalRecord.create_table name columns) left)
  unfolding left_in_log
  left_in_log-LogLeft e f name columns Remains.nothing l = inl l
  left_in_log-LogLeft e f name columns Remains.part l = inl l
  left_in_log-LogLeft e f name columns Remains.whole l =
      inr (ap (λ q. q ++ WalRecord.create_table name columns ∷ []) l)

  -- The rest of the engine is as it was, whatever is left in the log.
  left_in_log-tables :
      (f : Engine (Catalog E)) (r : WalRecord) (left : Remains)
      → ((left_in_log f r left).tables ≡ f.tables)
        × ((left_in_log f r left).permissions ≡ f.permissions)
        × ((left_in_log f r left).users ≡ f.users)
  unfolding left_in_log
  left_in_log-tables f r Remains.nothing = (refl, refl, refl)
  left_in_log-tables f r Remains.part = (refl, refl, refl)
  left_in_log-tables f r Remains.whole = (refl, refl, refl)

  logged-IsUndone :
      (e f : Engine (Catalog E)) (name : String) (columns : List ColumnMeta)
      (faults : List (Option Fault))
      → any (called name) e.tables ≡ false
      → f.tables ≡ e.tables ++ Indexes.new name columns ∷ []
      → f.log ≡ e.log
      → f.permissions ≡ e.permissions
      → f.users ≡ e.users
      → IsUndone name columns e (
          logged texts ops to_lowercase now name
            (written f (WalRecord.create_table name columns) faults))
  unfolding logged written
  logged-IsUndone e f name columns [] h t l p u = tt
  logged-IsUndone e f name columns (none ∷ faults) h t l p u = tt
  logged-IsUndone e f name columns (some x ∷ faults) h t l p u =
      let (tables, permissions, users) =
        left_in_log-tables f (WalRecord.create_table name columns) x.remains in
      (
        ap (retain (not_called name)) (tables ∙ t)
            ∙ retain_uncalled name e.tables (Indexes.new name columns) h (called-new name columns),
        left_in_log-LogLeft e f name columns x.remains l,
        permissions ∙ p,
        users ∙ u,
      )

  in_catalog-IsUndone :
      (e : Engine (Catalog E)) (name : String) (columns : List ColumnMeta)
      (o : Catalog E × Result (Unit {0}))
      → any (called name) e.tables ≡ false
      → IsUndone name columns e (in_catalog texts ops to_lowercase now e name columns o)
  unfolding in_catalog append
  in_catalog-IsUndone e name columns (c, err x) h = (refl, inl refl, refl, refl)
  in_catalog-IsUndone e name columns (c, ok _) h =
      logged-IsUndone e
        (record e { storage = c; tables = e.tables ++ Indexes.new name columns ∷ [] }) name columns
        e.faults h refl refl refl refl

  create_table-IsUndone :
      (e : Engine (Catalog E)) (name : String) (columns : List ColumnMeta)
      (engine_name : Option String)
      → IsUndone name columns e (create_table texts ops to_lowercase now e name columns engine_name)
  unfolding create_table
  create_table-IsUndone e name columns engine_name =
      elim (Bool-cases (any (called name) e.tables)) [
        | inl there ↦ rw there (refl, inl refl, refl, refl)
        | inr absent ↦ rw absent (in_catalog-IsUndone e name columns _ absent)
      ]

  -- CREATE TABLE that fails, since the name is taken, the catalog refuses or the log cannot be
  -- written, leaves the tables, the permissions and the users as they were. The whole records of the
  -- log are as they were too, or the record of the creation has been left behind them: an error of
  -- the write that comes after its frame is not undone.
  pub failed_creation_is_undone :
      (e f : Engine (Catalog E)) (name : String) (columns : List ColumnMeta)
      (engine_name : Option String) (x : HelionError)
      → create_table texts ops to_lowercase now e name columns engine_name ≡ (f, err x)
      → (f.tables ≡ e.tables)
        × LogLeft e name columns f
        × (f.permissions ≡ e.permissions)
        × (f.users ≡ e.users)
  failed_creation_is_undone e f name columns engine_name x h =
      subst (IsUndone name columns e) h (create_table-IsUndone e name columns engine_name)
