-- ===== src/Table/Constraints/Laws.antt =====
-- A row that passes the unique constraints enters every index.
use heliondb.Base.{ℕ, Bool, true, false, Option, List, [], ◌∷◌, map, ◌≡◌, refl, arith, All}
use heliondb.Types.Column.{Row}
use heliondb.Error.{ok}
use heliondb.Index
use heliondb.Index.{Index, Key, extract_key, insert_entry, taken}
use heliondb.Table.{Table}
use heliondb.Table.Write.{WriteOp}
use heliondb.Table.Indexes.{index_row}
use heliondb.Table.Constraints.{
  is_null_key, check_index, check_indexes, check_unique_constraints, insert_all,
  apply_index_changes,
}

-- No unique index whose key in the row is NULL throughout.
abbrev pub HasNoNullKey : Row → List Index → Type 0
HasNoNullKey row =
    All (λ (i : Index). i.meta.is_unique ≡ true → is_null_key (extract_key i row) ≡ false)

check_index-free :
    (b : Bool) (r : ℕ) (row : Row) (i : Index)
    → check_index b r row i ≡ ok tt
    → (i.meta.is_unique ≡ true → is_null_key (extract_key i row) ≡ false)
    → Index.insert i (extract_key i row) r ≡ ok (index_row r row i)
unfolding check_index Index.insert
check_index-free b r row i h n = ground arith

insert_all-checked :
    (b : Bool) (r : ℕ) (row : Row) (is : List Index)
    → check_indexes b r row is ≡ ok tt
    → HasNoNullKey row is
    → insert_all r row is ≡ (map (index_row r row) is, ok tt)
unfolding check_indexes insert_all
insert_all-checked b r row [] h n = refl
insert_all-checked b r row (i ∷ is) h n =
    ground (arith, check_index-free b r row i, n.0, insert_all-checked b r row is)

-- Where the unique constraints are met and no unique key of the row is NULL throughout, the
-- index changes of the insertion succeed, and every index gets the row under its key.
pub insert_after_check :
    (t : Table) (b : Bool) (r : ℕ) (row : Row) (old_row : Option Row)
    → check_unique_constraints t b r row ≡ ok tt
    → HasNoNullKey row t.indexes
    → apply_index_changes t (WriteOp.insert row) old_row r
      ≡ (record t { indexes = map (index_row r row) t.indexes }, ok tt)
unfolding check_unique_constraints apply_index_changes
insert_after_check t b r row old_row h n = ground (arith, insert_all-checked b r row t.indexes h n)
