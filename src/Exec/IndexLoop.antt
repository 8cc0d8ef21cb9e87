-- ===== src/Exec/IndexLoop.antt =====
-- executor/ops.rs: `execute_index_nested_loop_join`, on the rows of its outer side.
use heliondb.Base.{ℕ, Bool, none, some, List, [], ◌∷◌, ◌++◌}
use heliondb.Base.NatSet.{NatSet}
use heliondb.Types.Datum.{Datum}
use heliondb.Index
use heliondb.Index.{Index, key_of}
use heliondb.Table.{Table, get_visible_version}
use heliondb.Expr.Syntax.{JoinType}
use heliondb.Exec.Filter.{DataRow}
use heliondb.Exec.NestedLoop.{is_left, matches_of, or_padded}

-- The values of the rows of these numbers that a snapshot sees.
unfoldable pub visible_values : Table → ℕ → NatSet → List ℕ → List DataRow
visible_values t snapshot_txid active_txns [] = []
visible_values t snapshot_txid active_txns (ri ∷ ris) =
    let rest = visible_values t snapshot_txid active_txns ris in
    elim (get_visible_version t ri snapshot_txid active_txns) [
      | none ↦ rest
      | some rv ↦ rv.row.values ∷ rest
    ]

-- `idx.get(&key)`, no rows for a key that is not there.
unfoldable pub rows_of : Index → List Datum → List ℕ
rows_of idx key = elim (Index.get idx key) [ none ↦ [] | some s ↦ s ]

module _ (test : DataRow → Bool) (t : Table) (snapshot_txid : ℕ) (active_txns : NatSet) where
  unfoldable pub index_loop_join : JoinType → Index → List ℕ → ℕ → List DataRow → List DataRow
  unfolding visible_values rows_of matches_of or_padded key_of
  index_loop_join join_type idx key_indices inner_width [] = []
  index_loop_join join_type idx key_indices inner_width (outer ∷ outers) =
      or_padded test (is_left join_type) outer inner_width (
        matches_of test outer
          (visible_values t snapshot_txid active_txns (rows_of idx (key_of key_indices outer))))
      ++ index_loop_join join_type idx key_indices inner_width outers
