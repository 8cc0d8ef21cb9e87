-- ===== src/Table/Constraints.antt =====
-- storage/table.rs: the unique constraints that a commit checks, and the index changes after it.
pub mod Laws
pub mod NullKeys
use heliondb.Base.{
  ℕ, String, Bool, true, false, not, ◌&&◌, ◌||◌, Option, none, some, List, [], ◌∷◌, if◌then◌else◌,
  length, all, ◌==◌,
}
use heliondb.Base.NatSet.{NatSet, contains}
use heliondb.Types.Datum.{is_null}
use heliondb.Types.Column.{Row}
use heliondb.Error.{HelionError, Result, ok, err, ◌>>=◌, duplicate_key, internal, text, display}
use heliondb.Index.{Index, Key, extract_key}
use heliondb.Index
use heliondb.Table.{Table}
use heliondb.Table.Write.{WriteOp}

-- The body of the loop of `check_unique_constraints` behind its two `continue`s.
check_existing : Bool → ℕ → Index → Key → Option NatSet → Result (Unit {0})
check_existing is_insert row_idx i key none = ok tt
check_existing is_insert row_idx i key (some existing) =
    if (length existing == 1) && contains existing row_idx
    then ok tt
    else if is_insert || not (contains existing row_idx)
    then err (duplicate_key i.meta.name key)
    else ok tt

abbrev pub is_null_key : Key → Bool
is_null_key = all is_null

check_index : Bool → ℕ → Row → Index → Result (Unit {0})
unfolding check_existing
check_index is_insert row_idx row i =
    if not i.meta.is_unique
    then ok tt
    else if is_null_key (extract_key i row)
    then ok tt
    else check_existing is_insert row_idx i (extract_key i row) (Index.get i (extract_key i row))

check_indexes : Bool → ℕ → Row → List Index → Result (Unit {0})
check_indexes is_insert row_idx row [] = ok tt
check_indexes is_insert row_idx row (i ∷ is) =
    check_index is_insert row_idx row i >>= λ _. check_indexes is_insert row_idx row is

unfoldable pub check_unique_constraints : Table → Bool → ℕ → Row → Result (Unit {0})
unfolding check_indexes check_index
check_unique_constraints t is_insert row_idx row = check_indexes is_insert row_idx row t.indexes

-- The loops of `apply_index_changes` change one index after the other and stop at an error: what
-- was changed before it stays changed.
abbrev and_rest : Index → List Index × Result (Unit {0}) → List Index × Result (Unit {0})
and_rest i (is, result) = (i ∷ is, result)

insert_all : ℕ → Row → List Index → List Index × Result (Unit {0})
insert_all row_idx row [] = ([], ok tt)
insert_all row_idx row (i ∷ is) = elim (Index.insert i (extract_key i row) row_idx) [
  | ok j ↦ and_rest j (insert_all row_idx row is)
  | err e ↦ (i ∷ is, err (internal (text "Index insert failed after commit: " ∷ display e)))
]

updated :
    Index × Result (Unit {0})
    → List Index
    → List Index × Result (Unit {0})
    → List Index × Result (Unit {0})
updated (j, ok _) is rest = and_rest j rest
updated (j, err e) is rest =
    (j ∷ is, err (internal (text "Index update failed after commit: " ∷ display e)))

update_all : ℕ → Option Row → Row → List Index → List Index × Result (Unit {0})
unfolding updated
update_all row_idx old_row new_row [] = ([], ok tt)
update_all row_idx none new_row (i ∷ is) =
    (i ∷ is, err (internal (text "Missing old row for index update" ∷ [])))
update_all row_idx (some old_row) new_row (i ∷ is) =
    let rest = update_all row_idx (some old_row) new_row is in
    updated (Index.update i (extract_key i old_row) (extract_key i new_row) row_idx) is rest

remove_all : ℕ → Row → List Index → List Index
remove_all row_idx old_row [] = []
remove_all row_idx old_row (i ∷ is) =
    Index.remove i (extract_key i old_row) row_idx ∷ remove_all row_idx old_row is

change_indexes : WriteOp → Option Row → ℕ → List Index → List Index × Result (Unit {0})
unfolding insert_all update_all remove_all
change_indexes (WriteOp.insert row) old_row row_idx is = insert_all row_idx row is
change_indexes (WriteOp.update new_row) old_row row_idx is = update_all row_idx old_row new_row is
change_indexes WriteOp.delete none row_idx is = (is, ok tt)
change_indexes WriteOp.delete (some old_row) row_idx is = (remove_all row_idx old_row is, ok tt)

unfoldable pub apply_index_changes : Table → WriteOp → Option Row → ℕ → Table × Result (Unit {0})
unfolding change_indexes
apply_index_changes t operation old_row row_idx =
    let (is, result) = change_indexes operation old_row row_idx t.indexes in
    (record t { indexes = is }, result)
