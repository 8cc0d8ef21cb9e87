-- ===== src/Table/Indexes/Names.antt =====
-- storage/table.rs: a new table has the name and the columns that it is made with.
use heliondb.Base.{
  ℕ, suc, String, not, ◌&&◌, List, [], ◌∷◌, ◌≡◌, refl, ◌∙◌, arith, if◌then◌else◌, position,
}
use heliondb.Base.Text.{concat}
use heliondb.Types.Column.{ColumnMeta}
use heliondb.Table.{Table}
use heliondb.Table.Indexes.{
  push_if_absent, build_pk_index, build_unique_from, build_unique_indexes, new,
}

name-push :
    (t : Table) (name : String) (columns : List ℕ) → (push_if_absent t name columns).name ≡ t.name
unfolding push_if_absent
name-push t name columns = ground arith

name-build_unique_from :
    (columns : List ColumnMeta) (t : Table) (i : ℕ) → (build_unique_from t i columns).name ≡ t.name
unfolding build_unique_from push_if_absent
name-build_unique_from [] t i = refl
name-build_unique_from (col ∷ columns) t i =
    name-build_unique_from columns
      (if col.is_unique && not col.is_primary_key
        then push_if_absent t (concat (concat (concat "uq_" t.name) "_") col.name) (i ∷ [])
        else t)
      (suc i)
    ∙ ground arith

name-build_pk_index : (t : Table) → (build_pk_index t).name ≡ t.name
unfolding build_pk_index push_if_absent
name-build_pk_index t = ground arith

pub name-new : (name : String) (columns : List ColumnMeta) → (new name columns).name ≡ name
unfolding new build_unique_indexes
name-new name columns =
    let bare : Table = record {
      name = name;
      columns = columns;
      version_chains = [];
      primary_key_idx = position (λ c. c.is_primary_key) columns;
      indexes = [];
    } in
    let keyed = build_pk_index bare in
    name-build_unique_from keyed.columns keyed 0 ∙ name-build_pk_index bare
