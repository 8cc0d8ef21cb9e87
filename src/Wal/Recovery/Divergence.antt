-- ===== src/Wal/Recovery/Divergence.antt =====
-- An insertion whose row number was taken meanwhile: the commit and the replay of its log differ.
use heliondb.Base.{
  ℕ, zero, suc, ◌+◌, ◌<◌, String, some, List, [], ◌∷◌, ◌++◌, ◌≡◌, refl, arith, get_elem?, set,
  length, length-append, length-set, get_elem?-set_self,
}
use heliondb.Base.Text.{str_eq_iff}
use heliondb.Types.Column.{Row}
use heliondb.Error.{ok}
use heliondb.Table.{Table, Chain, new_insert, close_last, row_count}
use heliondb.Table.Validate.{validate_row}
use heliondb.Table.Write.{WriteOp, WriteEntry}
use heliondb.Mvcc.WriteSet.{apply_write_set}
use heliondb.Wal.{replay, apply_wal_record}
use heliondb.Wal.Recovery.{commit_records, table_at, table_at-change, replay_op, replay_op-name}

in_range {ℓ} : {A : Type ℓ} (xs : List A) (i : ℕ) (x : A) → get_elem? xs i ≡ some x → i < length xs
in_range [] i x h = cc
in_range (y ∷ xs) zero x h = omega arith
in_range (y ∷ xs) (suc i) x h = omega (arith, in_range xs i x h)

committed_chains :
    (name : String) (tables : List Table) (e : WriteEntry) (t : Table) (row : Row) (c : Chain)
    (tx_id : ℕ)
    → e.table_name ≡ name
    → e.operation ≡ WriteOp.insert row
    → table_at tables name ≡ some t
    → get_elem? t.version_chains e.row_idx ≡ some c
    → apply_write_set (e ∷ []) (table_at tables) tx_id name
      ≡ some (set t.version_chains e.row_idx (close_last tx_id c ++ new_insert tx_id row ∷ []))
unfolding apply_write_set
committed_chains name tables e t row c tx_id en eo et ec =
    ground (arith, str_eq_iff e.table_name name)

replayed_table :
    (tables : List Table) (e : WriteEntry) (t : Table) (row : Row) (tx_id : ℕ)
    → e.operation ≡ WriteOp.insert row
    → table_at tables e.table_name ≡ some t
    → validate_row t row ≡ ok tt
    → table_at (replay tables (commit_records tx_id (e ∷ []))) e.table_name
      ≡ some (record t { version_chains = t.version_chains ++ (new_insert tx_id row ∷ []) ∷ [] })
unfolding replay commit_records apply_wal_record replay_op
replayed_table tables e t row tx_id eo et valid = ground (
  arith,
  table_at-change e.table_name e.table_name (replay_op tx_id e.row_idx (WriteOp.insert row)) tables
      (replay_op-name tx_id e.row_idx (WriteOp.insert row)),
  str_eq_iff e.table_name e.table_name,
)

-- Where the row number of an insertion is already taken, the commit ends the other row's last
-- version and puts the new row behind it, so the table has as many rows as before; replaying the
-- records of the same commit gives the table a row more.
pub taken_insert_diverges :
    (tables : List Table) (e : WriteEntry) (t : Table) (row : Row) (c : Chain) (tx_id : ℕ)
    → e.operation ≡ WriteOp.insert row
    → table_at tables e.table_name ≡ some t
    → get_elem? t.version_chains e.row_idx ≡ some c
    → validate_row t row ≡ ok tt
    → (chains : List Chain) × (u : Table) × (apply_write_set
          (e ∷ [])
          (table_at tables)
          tx_id
          e.table_name
        ≡ some chains)
      × (get_elem? chains e.row_idx ≡ some (close_last tx_id c ++ new_insert tx_id row ∷ []))
      × (length chains ≡ row_count t)
      × (table_at (replay tables (commit_records tx_id (e ∷ []))) e.table_name ≡ some u)
      × (row_count u ≡ row_count t + 1)
taken_insert_diverges tables e t row c tx_id eo et ec valid =
    let chain = close_last tx_id c ++ new_insert tx_id row ∷ [] in
    (
      set t.version_chains e.row_idx chain,
      record t { version_chains = t.version_chains ++ (new_insert tx_id row ∷ []) ∷ [] },
      committed_chains e.table_name tables e t row c tx_id refl eo et ec,
      get_elem?-set_self t.version_chains e.row_idx chain
          (in_range t.version_chains e.row_idx c ec),
      length-set t.version_chains e.row_idx chain,
      replayed_table tables e t row tx_id eo et valid,
      length-append t.version_chains ((new_insert tx_id row ∷ []) ∷ []),
    )
