-- ===== src/Catalog/Reopened.antt =====
-- storage/catalog.rs: a catalog that is saved and opened again.
use heliondb.Base.{
  ◌≡◌, refl, sym, ap, ◌∙◌, String, Bool-cases, inl, inr, true, Option, none, some, List, [], ◌∷◌,
  map, if◌then◌else◌, arith,
}
use heliondb.Base.HashMap
use heliondb.Base.HashMap.{HashMap, get-insert}
use heliondb.Base.Text.{str_eq, str_eq_iff}
use heliondb.Error.{HelionError, Result, ok}
use heliondb.Catalog.{
  TableMeta, StorageEngine, Texts, CatalogData, Catalog, normalize_engine_name, meta_at, meta_of,
  data_of, written, save, engine_name_of, table_engine_name,
}
use heliondb.Catalog.Life.{renormalized, collect, with_engines, loaded, open_catalog}
use heliondb.Catalog.Keys.{Keyed}

abbrev pub normalized_name : Texts → Option String → Option String
normalized_name texts none = none
normalized_name texts (some engine) = some (normalize_engine_name texts engine)

module _ (texts : Texts) where
  abbrev found : Option TableMeta → Option TableMeta → Option TableMeta
  found none before = before
  found (some m) before = some (renormalized texts m)

  module _ {E : Type 0} (ops : StorageEngine E) where
    inserted :
        (n k : String) (m : TableMeta) (o before : Option TableMeta)
        → (str_eq k n ≡ true → o ≡ none)
        → found o (if str_eq k n then some (renormalized texts m) else before)
          ≡ found (if str_eq k n then some m else o) before
    inserted n k m o before once = elim (Bool-cases (str_eq k n)) [
      | inl h ↦ rw (h, once h)
      | inr h ↦ rw h
    ]

    collect-get :
        (n : String) (metadata before : HashMap String TableMeta)
        → Keyed metadata
        → HashMap.get str_eq n (collect texts (map (meta_of texts ops) metadata) before)
          ≡ found (HashMap.get str_eq n metadata) (HashMap.get str_eq n before)
    unfolding Keyed HashMap.get collect
    collect-get n [] before h = refl
    collect-get n ((k, m) ∷ metadata) before (named, once, rest) =
        collect-get n metadata (HashMap.insert str_eq m.name (renormalized texts m) before) rest
        ∙ ap (found (HashMap.get str_eq n metadata))
            (get-insert str_eq str_eq_iff m.name n (renormalized texts m) before)
        ∙ inserted n m.name m (HashMap.get str_eq n metadata) (HashMap.get str_eq n before) (λ h.
          ap (λ i. HashMap.get str_eq i metadata) (sym ((str_eq_iff m.name n).0 h) ∙ named) ∙ once)
        ∙ ap
            (λ i.
              found (if str_eq i n then some m else HashMap.get str_eq n metadata)
                (HashMap.get str_eq n before))
            named

    save-kept :
        (c d : Catalog E) (faults : List (Option HelionError))
        → written texts ops c faults ≡ (d, ok tt)
        → d.saved ≡ some (data_of texts ops c)
    unfolding written
    save-kept c d [] h = sym (ap (λ o. Catalog.saved (o.0)) h)
    save-kept c d (none ∷ faults) h = sym (ap (λ o. Catalog.saved (o.0)) h)
    save-kept c d (some x ∷ faults) h = ground arith

    abbrev pub file_of : Option CatalogData → Option (Result CatalogData)
    file_of none = none
    file_of (some content) = some (ok content)

    found-name :
        (o : Option TableMeta)
        → engine_name_of texts ops (found o none)
          ≡ normalized_name texts (engine_name_of texts ops o)
    unfolding renormalized
    found-name none = refl
    found-name (some m) = refl

    -- Where the metadata of every table stands under its name and the catalog's file is written, to
    -- open the file with two working engines gives a catalog in which every table has the engine name
    -- that it had, in normal form, and so has the default engine.
    pub save-open_catalog :
        (c d : Catalog E) (memory disk : E) (default_engine : String)
        → Keyed c.metadata
        → save texts ops c ≡ (d, ok tt)
        → (e : Catalog E) × (open_catalog texts ops memory
              (ok disk)
              (file_of d.saved)
              default_engine
            ≡ ok e)
          × (e.default_engine ≡ normalize_engine_name texts c.default_engine)
          × ((n : String)
              → table_engine_name texts ops e n
                ≡ normalized_name texts (table_engine_name texts ops c n))
    unfolding save open_catalog loaded table_engine_name meta_at HashMap.get
    save-open_catalog c d memory disk default_engine keyed h = (
      with_engines texts ops memory disk (some (data_of texts ops c))
          (collect texts (map (meta_of texts ops) c.metadata) []) c.default_engine,
      rw (save-kept c d c.faults h) refl,
      refl,
      λ n.
          ap (engine_name_of texts ops) (collect-get n c.metadata [] keyed)
          ∙ found-name (HashMap.get str_eq n c.metadata),
    )
