-- ===== src/Catalog/Keys.antt =====
-- storage/catalog.rs: the metadata of tables stands under their names.
use heliondb.Base.{
  ℕ, ◌≡◌, refl, String, Bool-cases, inl, inr, Option, none, some, List, [], ◌∷◌, arith,
}
use heliondb.Base.HashMap
use heliondb.Base.HashMap.{HashMap, get-remove}
use heliondb.Base.Text.{str_eq, str_eq_iff}
use heliondb.Types.Column.{ColumnMeta}
use heliondb.Error.{HelionError, Result, ok, err}
use heliondb.Catalog.{
  then_do, on_engine, on_table, set_meta, new_meta, created, create_table, drop_table, or_default,
  get_engine, get_table_engine, TableMeta, StorageEngine, Texts, Catalog, written, save,
}
use heliondb.Catalog.Life.{renormalized, collect}

-- Each table's metadata stands under its name, and once.
unfoldable pub Keyed : HashMap String TableMeta → Type 0
unfolding HashMap.get
Keyed [] = Unit {0}
Keyed ((k, m) ∷ metadata) = (m.name ≡ k) × (HashMap.get str_eq k metadata ≡ none) × Keyed metadata

remove-Keyed :
    (n : String) (metadata : HashMap String TableMeta)
    → Keyed metadata
    → Keyed (HashMap.remove str_eq n metadata)
unfolding Keyed HashMap.remove
remove-Keyed n [] h = tt
remove-Keyed n ((k, m) ∷ metadata) (named, once, rest) = elim (Bool-cases (str_eq k n)) [
  | inl h ↦ rw h (remove-Keyed n metadata rest)
  | inr h ↦ rw h (
    named,
    ground (arith, get-remove str_eq str_eq_iff n k metadata),
    remove-Keyed n metadata rest,
  )
]

insert-Keyed :
    (m : TableMeta) (metadata : HashMap String TableMeta)
    → Keyed metadata
    → Keyed (HashMap.insert str_eq m.name m metadata)
unfolding Keyed HashMap.insert
insert-Keyed m metadata h = (
  refl,
  ground (arith, get-remove str_eq str_eq_iff m.name m.name metadata, str_eq_iff m.name m.name),
  remove-Keyed m.name metadata h,
)

module _ (texts : Texts) {E : Type 0} (ops : StorageEngine E) where
  save-Keyed : (c : Catalog E) → Keyed c.metadata → Keyed (save texts ops c).0.metadata
  unfolding save written
  save-Keyed c h = saved c.faults
    where
      saved : (faults : List (Option HelionError)) → Keyed (written texts ops c faults).0.metadata
      saved [] = h
      saved (none ∷ faults) = h
      saved (some x ∷ faults) = h

  -- Whatever it returns, the creation of a table keeps the metadata under its names.
  create_table-Keyed :
      (c : Catalog E) (now : ℕ) (name : String) (columns : List ColumnMeta) (engine : Option String)
      → Keyed c.metadata
      → Keyed (create_table texts ops c now name columns engine).0.metadata
  unfolding create_table created on_engine set_meta new_meta
  create_table-Keyed c now name columns engine h =
      made (or_default texts ops c engine) (get_engine texts ops c (or_default texts ops c engine))
    where
      stored :
          (e : String) (k : String) (o : E × Result (Unit {0}))
          → Keyed
              (then_do (on_engine texts ops c k o) (λ d.
                save texts ops (set_meta texts ops d name (new_meta texts now name e)))).0.metadata
      stored e k (s, err x) = h
      stored e k (s, ok _) =
          save-Keyed
            (set_meta texts ops (on_engine texts ops c k (s, ok tt)).0 name
              (new_meta texts now name e))
            (insert-Keyed (new_meta texts now name e) c.metadata h)

      made :
          (e : String) (r : Result (String × E))
          → Keyed (created texts ops c now name columns e r).0.metadata
      made e (err x) = h
      made e (ok (k, s)) = stored e k (ops.create_table s (new_meta texts now name e) columns)

  -- Whatever it returns, so does the removal of a table.
  drop_table-Keyed :
      (c : Catalog E) (name : String)
      → Keyed c.metadata
      → Keyed (drop_table texts ops c name).0.metadata
  unfolding drop_table on_table on_engine
  drop_table-Keyed c name h = dropped (get_table_engine texts ops c name)
    where
      gone :
          (k : String) (o : E × Result (Unit {0}))
          → Keyed
              (then_do (on_engine texts ops c k o) (λ d.
                save texts ops
                  (record d { metadata = HashMap.remove str_eq name d.metadata }))).0.metadata
      gone k (s, err x) = h
      gone k (s, ok _) =
          save-Keyed
            (record (on_engine texts ops c k (s, ok tt)).0 {
              metadata = HashMap.remove str_eq name c.metadata;
            })
            (remove-Keyed name c.metadata h)

      dropped :
          (r : Result (String × E))
          → Keyed
              (then_do (on_table texts ops c r (λ s. ops.drop_table s name)) (λ d.
                save texts ops
                  (record d { metadata = HashMap.remove str_eq name d.metadata }))).0.metadata
      dropped (err x) = h
      dropped (ok (k, s)) = gone k (ops.drop_table s name)

-- What is opened from a file is so, whatever the file holds.
collect-Keyed :
    (texts : Texts) (tables : List TableMeta) (before : HashMap String TableMeta)
    → Keyed before
    → Keyed (collect texts tables before)
unfolding collect renormalized
collect-Keyed texts [] before h = h
collect-Keyed texts (m ∷ tables) before h =
    collect-Keyed texts tables (HashMap.insert str_eq m.name (renormalized texts m) before)
      (insert-Keyed (renormalized texts m) before h)
