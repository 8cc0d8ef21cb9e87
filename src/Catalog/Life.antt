-- ===== src/Catalog/Life.antt =====
-- storage/catalog.rs: how a catalog is opened from its file, listed, flushed and closed. The disk
-- engine's own opening is an argument, and so is what the file of the catalog reads as.
use heliondb.Base.{String, Option, none, some, List, [], ◌∷◌, map}
use heliondb.Base.HashMap
use heliondb.Base.HashMap.{HashMap}
use heliondb.Base.Text.{str_eq}
use heliondb.Error.{Result, ok, err}
use heliondb.Catalog.{
  TableMeta, StorageEngine, Texts, CatalogData, Catalog, Outcome, then_do, normalize_engine_name,
  on_engine, meta_of, save,
}

module _ (texts : Texts) where
  unfoldable pub renormalized : TableMeta → TableMeta
  unfolding normalize_engine_name
  renormalized m = record m { engine = normalize_engine_name texts m.engine }

  -- The `collect` of the tables into a map; of two with one name the later stays.
  unfoldable pub collect : List TableMeta → HashMap String TableMeta → HashMap String TableMeta
  unfolding HashMap.insert renormalized
  collect [] metadata = metadata
  collect (m ∷ tables) metadata =
      collect tables (HashMap.insert str_eq m.name (renormalized m) metadata)

  module _ {E : Type 0} (ops : StorageEngine E) where
    abbrev pub with_engines :
        E → E → Option CatalogData → HashMap String TableMeta → String → Catalog E
    with_engines memory disk saved metadata default_engine = record {
      metadata = metadata;
      engines = ("memory", memory) ∷ ("disk", disk) ∷ [];
      default_engine = normalize_engine_name texts default_engine;
      saved = saved;
      faults = [];
    }

    -- What the file gives: nothing where there is none, or an error where it cannot be read.
    unfoldable pub loaded : E → E → Option (Result CatalogData) → String → Result (Catalog E)
    unfolding collect
    loaded memory disk none default_engine = ok (with_engines memory disk none [] default_engine)
    loaded memory disk (some (err x)) default_engine = err x
    loaded memory disk (some (ok content)) default_engine =
        ok (
          with_engines memory disk (some content) (collect content.tables [])
            content.default_engine)

    unfoldable pub open_catalog :
        E → Result E → Option (Result CatalogData) → String → Result (Catalog E)
    unfolding loaded
    open_catalog memory (err x) file default_engine = err x
    open_catalog memory (ok disk) file default_engine = loaded memory disk file default_engine

    all_table_metadata : Catalog E → List TableMeta
    all_table_metadata c = map (meta_of texts ops) c.metadata

    abbrev key_of : String × TableMeta → String
    key_of (name, _) = name

    table_names : Catalog E → List String
    table_names c = map key_of c.metadata

    -- An operation on each engine in turn; the first error ends the loop.
    unfoldable pub each : (E → E × Result (Unit {0})) → Catalog E → List (String × E) → Outcome E
    unfolding on_engine
    each f c [] = (c, ok tt)
    each f c ((name, s) ∷ engines) =
        then_do (on_engine texts ops c name (f s)) (λ d. each f d engines)

    unfoldable pub flush : Catalog E → Outcome E
    unfolding each
    flush c = each ops.flush c c.engines

    unfoldable pub close : Catalog E → Outcome E
    unfolding each save
    close c = then_do (each ops.close c c.engines) (save texts ops)
