-- ===== src/Catalog.antt =====
-- storage/engine_trait.rs and storage/catalog.rs: the interface of storage engines, and the catalog,
-- which routes each table to its engine.
pub mod Migrate
pub mod Migration
pub mod Memory
pub mod Life
pub mod Keys
pub mod Reopened
mod Tests
use heliondb.Base.{
  ℕ, String, Bool, true, false, ◌||◌, Option, none, some, List, [], ◌∷◌, map, if◌then◌else◌,
}
use heliondb.Base.NatSet.{NatSet}
use heliondb.Base.Text.{str_eq}
use heliondb.Base.HashMap
use heliondb.Base.HashMap.{HashMap}
use heliondb.Types.Column.{ColumnMeta, Row}
use heliondb.Error.{HelionError, Result, ok, err, ◌>>=◌, table_not_found, internal, text}
use heliondb.Table.{Table}
use heliondb.Mvcc.WriteSet.{Change}

pub record TableMeta : Type 0 where
  pub name : String
  pub engine : String
  pub created_at : ℕ

-- The operations of a storage engine on its state, as the trait has them.
pub record StorageEngine (E : Type 0) : Type 0 where
  pub create_table : E → TableMeta → List ColumnMeta → E × Result (Unit {0})
  pub drop_table : E → String → E × Result (Unit {0})
  pub table_exists : E → String → Result Bool
  pub get_table : E → String → Result Table
  pub scan_visible : E → String → ℕ → NatSet → Result (List (ℕ × Row))
  pub row_count : E → String → Result ℕ
  pub apply_write_set : E → String → List Change → E × Result (Unit {0})
  pub snapshot_table : E → String → Result Table
  pub restore_table : E → Table → E × Result (Unit {0})
  pub flush : E → E × Result (Unit {0})
  pub close : E → E × Result (Unit {0})

-- `str::trim` and `str::to_ascii_lowercase`, of the standard library.
pub record Texts : Type 0 where
  pub trim : String → String
  pub to_ascii_lowercase : String → String

-- What the file of the catalog holds.
pub record CatalogData : Type 0 where
  pub default_engine : String
  pub tables : List TableMeta

-- `saved` is what the file of the catalog holds, where there is one, and `faults` the outcomes of the next writes to it,
-- an error or none; writes beyond them succeed.
pub record Catalog (E : Type 0) : Type 0 where
  pub metadata : HashMap String TableMeta
  pub engines : HashMap String E
  pub default_engine : String
  pub saved : Option CatalogData
  pub faults : List (Option HelionError)

abbrev pub unknown : String → HelionError
unknown engine = internal (text "Unknown engine: " ∷ text engine ∷ [])

abbrev some_engine : {E : Type 0} → String → Option E → Result (String × E)
some_engine name none = err (unknown name)
some_engine name (some s) = ok (name, s)

-- What an operation leaves of the catalog, and its result.
abbrev pub Outcome : Type 0 → Type 0
Outcome E = Catalog E × Result (Unit {0})

abbrev pub then_do : {E : Type 0} → Outcome E → (Catalog E → Outcome E) → Outcome E
then_do (c, ok _) f = f c
then_do (c, err x) f = (c, err x)

module _ (texts : Texts) where
  unfoldable pub normalize_engine_name : String → String
  normalize_engine_name engine = texts.to_ascii_lowercase (texts.trim engine)

  unfoldable pub new_meta : ℕ → String → String → TableMeta
  unfolding normalize_engine_name
  new_meta now name engine = record {
    name = name;
    engine = normalize_engine_name engine;
    created_at = now;
  }

  module _ {E : Type 0} (ops : StorageEngine E) where
    unfoldable pub engine_at : Catalog E → String → Option E
    unfolding HashMap.get
    engine_at c name = HashMap.get str_eq name c.engines

    -- The engine of a name, and the name that it is registered under.
    unfoldable pub get_engine : Catalog E → String → Result (String × E)
    unfolding engine_at normalize_engine_name
    get_engine c name =
        some_engine (normalize_engine_name name) (engine_at c (normalize_engine_name name))

    unfoldable pub meta_at : Catalog E → String → Option TableMeta
    unfolding HashMap.get
    meta_at c name = HashMap.get str_eq name c.metadata

    set_default_engine : Catalog E → String → Outcome E
    unfolding engine_at normalize_engine_name
    set_default_engine c engine = elim (engine_at c (normalize_engine_name engine)) [
      | none ↦ (c, err (unknown (normalize_engine_name engine)))
      | some _ ↦ (record c { default_engine = normalize_engine_name engine }, ok tt)
    ]

    register_engine : Catalog E → String → E → Catalog E
    unfolding HashMap.insert
    register_engine c name s = record c { engines = HashMap.insert str_eq name s c.engines }

    abbrev not_found_for : String → String → HelionError
    not_found_for engine table = internal (
        text "Engine '" ∷ text engine ∷ text "' not found for table '" ∷ text table ∷ text "'" ∷ [])

    engine_for : Catalog E → String → Option TableMeta → Result (String × E)
    unfolding engine_at
    engine_for c table none = err (table_not_found table)
    engine_for c table (some m) = elim (engine_at c m.engine) [
      | none ↦ err (not_found_for m.engine table)
      | some s ↦ ok (m.engine, s)
    ]

    unfoldable pub get_table_engine : Catalog E → String → Result (String × E)
    unfolding engine_for meta_at
    get_table_engine c table = engine_for c table (meta_at c table)

    -- An operation on the engine of a name, whose new state replaces the old one.
    unfoldable pub on_engine : Catalog E → String → E × Result (Unit {0}) → Outcome E
    unfolding HashMap.insert
    on_engine c name (s, result) =
        (record c { engines = HashMap.insert str_eq name s c.engines }, result)

    on_table : Catalog E → Result (String × E) → (E → E × Result (Unit {0})) → Outcome E
    unfolding on_engine
    on_table c (err x) f = (c, err x)
    on_table c (ok (name, s)) f = on_engine c name (f s)

    unfoldable pub set_meta : Catalog E → String → TableMeta → Catalog E
    unfolding HashMap.insert
    set_meta c name m = record c { metadata = HashMap.insert str_eq name m c.metadata }

    abbrev pub meta_of : String × TableMeta → TableMeta
    meta_of (_, m) = m

    abbrev pub data_of : Catalog E → CatalogData
    data_of c = record { default_engine = c.default_engine; tables = map meta_of c.metadata }

    written : Catalog E → List (Option HelionError) → Outcome E
    written c [] = (record c { saved = some (data_of c) }, ok tt)
    written c (none ∷ faults) = (record c { saved = some (data_of c); faults = faults }, ok tt)
    written c (some x ∷ faults) = (record c { faults = faults }, err x)

    -- The new file takes the place of the old one only when it has been written.
    unfoldable pub save : Catalog E → Outcome E
    unfolding written
    save c = written c c.faults

    created : Catalog E → ℕ → String → List ColumnMeta → String → Result (String × E) → Outcome E
    unfolding on_engine set_meta save new_meta
    created c now name columns engine (err x) = (c, err x)
    created c now name columns engine (ok (key, s)) =
        let m = new_meta now name engine in
        then_do (on_engine c key (ops.create_table s m columns)) (λ d. save (set_meta d name m))

    abbrev or_default : Catalog E → Option String → String
    or_default c none = c.default_engine
    or_default c (some engine) = engine

    unfoldable pub create_table :
        Catalog E → ℕ → String → List ColumnMeta → Option String → Outcome E
    unfolding created get_engine
    create_table c now name columns engine_name =
        let engine = or_default c engine_name in
        created c now name columns engine (get_engine c engine)

    unfoldable pub drop_table : Catalog E → String → Outcome E
    unfolding on_table save get_table_engine HashMap.remove
    drop_table c name =
        then_do (on_table c (get_table_engine c name) (λ s. ops.drop_table s name))
          (λ d. save (record d { metadata = HashMap.remove str_eq name d.metadata }))

    abbrev state_of : String × E → E
    state_of (_, s) = s

    get_table : Catalog E → String → Result Table
    unfolding get_table_engine
    get_table c name = get_table_engine c name >>= λ t. ops.get_table (state_of t) name

    scan_visible : Catalog E → String → ℕ → NatSet → Result (List (ℕ × Row))
    unfolding get_table_engine
    scan_visible c table snapshot_txid active_txns = get_table_engine c table >>= λ t.
        ops.scan_visible (state_of t) table snapshot_txid active_txns

    row_count : Catalog E → String → Result ℕ
    unfolding get_table_engine
    row_count c table = get_table_engine c table >>= λ t. ops.row_count (state_of t) table

    unfoldable pub apply_write_set : Catalog E → String → List Change → Outcome E
    unfolding on_table get_table_engine
    apply_write_set c table changes =
        on_table c (get_table_engine c table) (λ s. ops.apply_write_set s table changes)

    unfoldable pub snapshot_table : Catalog E → String → Result Table
    unfolding get_table_engine
    snapshot_table c table = get_table_engine c table >>= λ t. ops.snapshot_table (state_of t) table

    unfoldable pub restore_table : Catalog E → Table → Outcome E
    unfolding on_table get_table_engine
    restore_table c t = on_table c (get_table_engine c t.name) (λ s. ops.restore_table s t)

    abbrev pub engine_name_of : Option TableMeta → Option String
    engine_name_of none = none
    engine_name_of (some m) = some m.engine

    unfoldable pub table_engine_name : Catalog E → String → Option String
    unfolding meta_at
    table_engine_name c name = engine_name_of (meta_at c name)
