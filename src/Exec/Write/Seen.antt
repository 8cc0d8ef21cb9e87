-- ===== src/Exec/Write/Seen.antt =====
-- executor/ops.rs: the rows that later snapshots see after an update.
use heliondb.Base.{
  ℕ, suc, ◌≤◌, ◌<◌, String, false, Option, none, some, List, [], ◌∷◌, ◌≡◌, refl, ap, ◌∙◌, arith,
  length, map, get_elem?, inl,
}
use heliondb.Base.NatSet.{NatSet, contains}
use heliondb.Base.Text.{str_eq_iff}
use heliondb.Types.Datum.{Datum}
use heliondb.Types.Column.{Row}
use heliondb.Table.{Table, Chain, new_update, visible_in, get_visible_version}
use heliondb.Table.Visible.{Within, Within-map, row_at, row_of}
use heliondb.Table.Chain.{supersede_seen}
use heliondb.Mvcc.{Tables}
use heliondb.Mvcc.WriteSet.{Change, changes_for, apply_changes}
use heliondb.Mvcc.WriteSet.Rows.{change_at, extended, apply_changes-get, get_elem?-lt}
use heliondb.Exec.Write.{new_row, update_entry}

-- The changes that an update makes of the rows that it selects.
abbrev pub update_change : ℕ → List ℕ → List Datum → ℕ × Row → Change
update_change tx_id indices values (i, row) = (i, new_update tx_id (new_row indices values row))

pub changes_for-updates :
    (tables : Tables) (tx_id : ℕ) (name : String) (indices : List ℕ) (values : List Datum)
    (rows : List (ℕ × Row))
    → changes_for tables tx_id name (map (update_entry name indices values) rows)
      ≡ map (update_change tx_id indices values) rows
unfolding changes_for heliondb.Mvcc.WriteSet.version_of
changes_for-updates tables tx_id name indices values [] = refl
changes_for-updates tables tx_id name indices values ((i, row) ∷ rows) =
    rw ((str_eq_iff name name).1 refl) (
      ap (◌∷◌ (update_change tx_id indices values (i, row)))
        (changes_for-updates tables tx_id name indices values rows))

-- The row of an update, or else the row that is there.
abbrev pub updated_row : List ℕ → List Datum → Option Row → Option Row → Option Row
updated_row indices values none old = old
updated_row indices values (some row) old = some (new_row indices values row)

change_at-updates :
    (tx_id i : ℕ) (indices : List ℕ) (values : List Datum) (rows : List (ℕ × Row))
    → change_at i (map (update_change tx_id indices values) rows) ≡ (elim (row_at i rows) [
      | none ↦ none
      | some row ↦ some (new_update tx_id (new_row indices values row))
    ])
change_at-updates tx_id i indices values [] = refl
change_at-updates tx_id i indices values ((j, row) ∷ rows) =
    ground (arith, change_at-updates tx_id i indices values rows)

row_at_lt :
    (i l n : ℕ) (rows : List (ℕ × Row)) (r : Row) → Within l n rows → row_at i rows ≡ some r → i < n
row_at_lt i l n [] r w h = absurd (cc h)
row_at_lt i l n ((j, x) ∷ rows) r w h = ground (arith, row_at_lt i (suc j) n rows r w.2, w.1)

-- What a later snapshot sees of a row.
module _ (tx_id s : ℕ) (active : NatSet) (indices : List ℕ) (values : List Datum) where
  seen_chain :
      (found : Option Row) (c : Option Chain)
      → tx_id ≤ s
      → contains active tx_id ≡ false
      → ((row : Row) → found ≡ some row → (x : Chain) × (c ≡ some x))
      → row_of (
          visible_in
            (extended tx_id
              (elim found [
                | none ↦ none
                | some row ↦ some (new_update tx_id (new_row indices values row))
              ])
              c)
            s
            active)
        ≡ updated_row indices values found (row_of (visible_in c s active))
  unfolding visible_in
  seen_chain none c le free h = refl
  seen_chain (some row) none le free h = absurd (cc (h row refl).1)
  seen_chain (some row) (some c) le free h =
      supersede_seen c (new_update tx_id (new_row indices values row)) s active refl le (inl free)

  pub seen_row :
      (t t' : Table) (rows : List (ℕ × Row)) (i : ℕ)
      → tx_id ≤ s
      → contains active tx_id ≡ false
      → Within 0 (length t.version_chains) rows
      → t'.version_chains
        ≡ apply_changes tx_id t.version_chains (map (update_change tx_id indices values) rows)
      → row_of (get_visible_version t' i s active)
        ≡ updated_row indices values (row_at i rows) (row_of (get_visible_version t i s active))
  unfolding get_visible_version
  seen_row t t' rows i le free w h =
      ap (λ chains. row_of (visible_in (get_elem? chains i) s active)) h
      ∙ ap (λ c. row_of (visible_in c s active))
          (apply_changes-get tx_id 0 (length t.version_chains) i t.version_chains
              (map (update_change tx_id indices values) rows) refl
              (Within-map _ 0 (length t.version_chains) rows w)
            ∙ ap (λ v. extended tx_id v (get_elem? t.version_chains i))
                (change_at-updates tx_id i indices values rows))
      ∙ seen_chain (row_at i rows) (get_elem? t.version_chains i) le free (λ row e.
        get_elem?-lt t.version_chains i (row_at_lt i 0 (length t.version_chains) rows row w e))
