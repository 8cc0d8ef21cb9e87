-- ===== src/Table/Constraints/NullKeys.antt =====
-- Two rows with NULL in a unique column: the check lets the second pass, and its index change fails.
use heliondb.Base.{ℕ, true, Option, List, ◌∷◌, ◌≡◌, ◌≢◌, arith}
use heliondb.Types.Column.{Row}
use heliondb.Error.{err, internal, duplicate_key, text, display}
use heliondb.Index
use heliondb.Index.{Index, Key, extract_key, taken}
use heliondb.Index.Laws.{holds}
use heliondb.Index.Unique.{IsValid}
use heliondb.Table.{Table}
use heliondb.Table.Write.{WriteOp}
use heliondb.Table.Constraints.{is_null_key, check_unique_constraints, apply_index_changes}

insert_refused :
    (i : Index) (k : Key) (r q : ℕ)
    → IsValid i
    → i.meta.is_unique ≡ true
    → holds i k q ≡ true
    → q ≢ r
    → Index.insert i k r ≡ err (duplicate_key i.meta.name k)
unfolding Index.insert holds
insert_refused i k r q v u h ne = ground (arith, v.unique k r q)

-- Where a unique index lists another row under a key that is NULL throughout, its check does not
-- refuse a row with that key (the outcome is that of the other indexes), and yet the index change
-- after the commit fails and changes nothing.
pub null_key_insert_fails :
    (t : Table) (i : Index) (is : List Index) (row : Row) (old_row : Option Row) (r q : ℕ)
    → t.indexes ≡ i ∷ is
    → IsValid i
    → i.meta.is_unique ≡ true
    → is_null_key (extract_key i row) ≡ true
    → holds i (extract_key i row) q ≡ true
    → q ≢ r
    → (check_unique_constraints t true r row
        ≡ check_unique_constraints (record t { indexes = is }) true r row)
      × (apply_index_changes t (WriteOp.insert row) old_row r ≡ (
        t,
        err (
            internal (
              text "Index insert failed after commit: "
              ∷ display (duplicate_key i.meta.name (extract_key i row)))),
      ))
unfolding check_unique_constraints apply_index_changes
null_key_insert_fails t i is row old_row r q e v u n h ne =
    ground (arith, insert_refused i (extract_key i row) r q v u h ne)
