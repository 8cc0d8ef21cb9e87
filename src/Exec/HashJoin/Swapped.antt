-- ===== src/Exec/HashJoin/Swapped.antt =====
-- sql/planner.rs and executor/ops.rs: the keys of a hash join that builds on the right. The planner
-- names the keys of the right rows first, and the execution takes them for those of the left rows.
use mathlib.Core.List.{append-nil}
use heliondb.Base.{
  ℕ, zero, suc, ◌≤◌, ◌<◌, String, Bool, false, List, [], ◌∷◌, ◌≡◌, refl, arith, ◌∙◌, Option, none,
  some, All, length, retain,
}
use heliondb.Types.Datum.{Datum}
use heliondb.Index.{key_of}
use heliondb.Table.{Table}
use heliondb.Expr.Syntax.{Expression, column, binary_op, BinaryOperator, JoinType}
use heliondb.Plan.Syntax.{LogicalPlan, table_scan, hash_join}
use heliondb.Plan.Indexes.{table_named}
use heliondb.Plan.Joins.{
  select_join_algorithm, first_indexed, indexed_by, by_index, inner_side, column_of, key_pairs,
  hash_or_loop,
}
use heliondb.Exec.Filter.{DataRow}
use heliondb.Exec.HashJoin.{same_key, key_eq, HashTable, build, probe, matching, hash_join_rows}
use heliondb.Exec.HashJoin.Table.{is_under, lookup-build}

-- A column beyond the row gives the empty key, and one within it a key of one value.
key_beyond : (i : ℕ) (row : DataRow) → length row ≤ i → key_of (i ∷ []) row ≡ []
unfolding key_of
key_beyond i [] h = refl
key_beyond zero (x ∷ row) h = absurd (omega arith)
key_beyond (suc i) (x ∷ row) h = key_beyond i row (omega arith)

key_within : (i : ℕ) (row : DataRow) → i < length row → (d : Datum) × (key_of (i ∷ []) row ≡ d ∷ [])
unfolding key_of
key_within i [] h = absurd (omega arith)
key_within zero (x ∷ row) h = (x, refl)
key_within (suc i) (x ∷ row) h = key_within i row (omega arith)

nothing_under :
    (i : ℕ) (d : Datum) (rights : List DataRow)
    → All (λ right. length right ≤ i) rights
    → retain (is_under (i ∷ []) (d ∷ [])) rights ≡ []
unfolding same_key key_eq
nothing_under i d [] h = refl
nothing_under i d (r ∷ rights) h = rw (key_beyond i r h.0) (nothing_under i d rights h.1)

module _ (test : DataRow → Bool) (left_key right_key : ℕ) (rights : List DataRow) where
  probe_nothing :
      (lefts : List DataRow)
      → All (λ left. right_key < length left) lefts
      → All (λ right. length right ≤ left_key) rights
      → probe test false (right_key ∷ []) (build (left_key ∷ []) rights []) lefts ≡ []
  unfolding probe matching
  probe_nothing [] h k = refl
  probe_nothing (l ∷ lefts) h k =
      let (d, e) = key_within right_key l h.0 in
      rw (e, lookup-build (left_key ∷ []) (d ∷ []) rights ∙ nothing_under left_key d rights k)
        (ground (arith, probe_nothing lefts h.1 k))

not_indexed :
    (t : Table) (left : LogicalPlan) (x : Option (String × Expression))
    → t.indexes ≡ []
    → indexed_by t left x ≡ none
unfolding indexed_by
not_indexed t left none e = refl
not_indexed t left (some (name, outer)) e = ground arith

first_indexed-none :
    (t : Table) (left : LogicalPlan) (pairs : List (Expression × Expression))
    → t.indexes ≡ []
    → first_indexed t left pairs ≡ none
unfolding first_indexed
first_indexed-none t left [] e = refl
first_indexed-none t left (p ∷ ps) e =
    ground (arith, not_indexed t left (inner_side t p) e, first_indexed-none t left ps e)

abbrev pub scan_of : Table → LogicalPlan
scan_of t = table_scan t.name t.columns none none none

module _ (tables : List Table) (left right : Table) (c d : String) {li ri : ℕ}
    (right_found : table_named tables right.name ≡ some right) (unindexed : right.indexes ≡ [])
    (at_left : column_of left.columns c ≡ some li) (at_right : column_of right.columns d ≡ some ri)
    (wide : length right.columns < length left.columns) where
  abbrev equal : Expression
  equal = binary_op (column c) BinaryOperator.eq (column d)

  no_index :
      by_index tables (scan_of left) ((column c, column d) ∷ []) (some (right.name, right.columns))
      ≡ none
  unfolding by_index
  no_index =
      ground (arith, first_indexed-none right (scan_of left) ((column c, column d) ∷ []) unindexed)

  the_keys : key_pairs (scan_of left) (scan_of right) ((column c, column d) ∷ []) ≡ (li, ri) ∷ []
  unfolding key_pairs
  the_keys = ground arith

  wide_choice :
      hash_or_loop (scan_of left) (scan_of right) equal ((li, ri) ∷ [])
      ≡ hash_join false (ri ∷ []) (li ∷ []) (some equal)
  unfolding hash_or_loop
  wide_choice = ground arith

  -- Two scans joined on an equality of two columns, the left table wider than the right one, and
  -- no index on the right: the planner chooses a hash join that builds on the right. Where the
  -- column of the left table lies beyond the columns of the right one, this join gives no rows,
  -- whatever the tables hold.
  pub wide_left_join_empty :
      (test : DataRow → Bool) (hash_order : HashTable → HashTable) (left_width right_width : ℕ)
      (lefts rights : List DataRow)
      → All (λ row. ri < length row) lefts
      → All (λ row. length row ≤ li) rights
      → (select_join_algorithm (scan_of left) (scan_of right) (some equal) tables
          ≡ hash_join false (ri ∷ []) (li ∷ []) (some equal))
        × (hash_join_rows test hash_order JoinType.inner false
              (ri ∷ [])
              (li ∷ [])
              left_width
              right_width
              lefts
              rights
            ≡ [])
  unfolding select_join_algorithm hash_join_rows
  wide_left_join_empty test hash_order lw w lefts rights h k = (
    rw (no_index, select_join_algorithm) (rw the_keys wide_choice),
    append-nil _ ∙ probe_nothing test li ri rights lefts h k,
  )
