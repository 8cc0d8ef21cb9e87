-- ===== src/Table.antt =====
-- storage/table.rs: row versions, version chains, tables, and what a snapshot sees of them.
pub mod Visible
pub mod Chain
pub mod Anomaly
pub mod Indexes
pub mod Write
pub mod Constraints
pub mod Validate
mod Tests
use mathlib.Core.List.{reverse}
use heliondb.Base.{
  ℕ, zero, suc, String, Bool, true, false, not, ◌&&◌, ◌||◌, Option, none, some, List, [], ◌∷◌,
  if◌then◌else◌, ltb, leb, ◌==◌, get_elem?, length, find?, position,
}
use heliondb.Base.NatSet.{NatSet, contains}
use heliondb.Base.Text.{eq_ignore_ascii_case}
use heliondb.Types.Column.{ColumnMeta, Row}
use heliondb.Index.{Index}

-- `u64::MAX`, which stands for "no end".
abbrev pub u64_max : ℕ
u64_max = 18446744073709551615

pub record RowVersion : Type 0 where
  pub txid_min : ℕ
  pub txid_max : ℕ
  pub row : Row
  pub is_deleted : Bool

abbrev pub new_insert : ℕ → Row → RowVersion
new_insert txid row = record { txid_min = txid; txid_max = u64_max; row = row; is_deleted = false }

abbrev pub new_update : ℕ → Row → RowVersion
new_update txid row = record { txid_min = txid; txid_max = u64_max; row = row; is_deleted = false }

abbrev pub new_delete : ℕ → Row → RowVersion
new_delete txid row = record { txid_min = txid; txid_max = u64_max; row = row; is_deleted = true }

-- The versions of one row, oldest first.
abbrev pub Chain : Type 0
Chain = List RowVersion

pub record Table : Type 0 where
  pub name : String
  pub columns : List ColumnMeta
  pub version_chains : List Chain
  pub primary_key_idx : Option ℕ
  pub indexes : List Index

abbrev pub row_count : Table → ℕ
row_count t = length t.version_chains

abbrev pub column_index : Table → String → Option ℕ
column_index t name = position (λ c. eq_ignore_ascii_case c.name name) t.columns

unfoldable pub is_version_visible : RowVersion → ℕ → NatSet → Bool
is_version_visible v snapshot_txid active_txns =
    if ltb snapshot_txid v.txid_min
    then false
    else if not (v.txid_max == u64_max) && leb v.txid_max snapshot_txid
    then false
    else if contains active_txns v.txid_min && not (v.txid_min == snapshot_txid)
    then false
    else true

abbrev pub live : Option RowVersion → Option RowVersion
live none = none
live (some v) = if v.is_deleted then none else some v

-- From the newest version back, the first one that is visible; a tombstone shows no row.
pub latest_visible : Chain → ℕ → NatSet → Option RowVersion
latest_visible chain snapshot_txid active_txns =
    live (find? (λ v. is_version_visible v snapshot_txid active_txns) (reverse chain))

scan_chains : ℕ → List Chain → ℕ → NatSet → List (ℕ × Row)
scan_chains idx [] snapshot_txid active_txns = []
scan_chains idx (chain ∷ chains) snapshot_txid active_txns =
    let rest = scan_chains (suc idx) chains snapshot_txid active_txns in
    elim (latest_visible chain snapshot_txid active_txns) [
      | none ↦ rest
      | some v ↦ (idx, v.row) ∷ rest
    ]

unfoldable pub scan_visible : Table → ℕ → NatSet → List (ℕ × Row)
unfolding scan_chains latest_visible is_version_visible
scan_visible t snapshot_txid active_txns = scan_chains 0 t.version_chains snapshot_txid active_txns

unfoldable pub visible_in : Option Chain → ℕ → NatSet → Option RowVersion
visible_in none snapshot_txid active_txns = none
visible_in (some chain) snapshot_txid active_txns = latest_visible chain snapshot_txid active_txns

unfoldable pub get_visible_version : Table → ℕ → ℕ → NatSet → Option RowVersion
unfolding visible_in latest_visible is_version_visible
get_visible_version t chain_idx snapshot_txid active_txns =
    visible_in (get_elem? t.version_chains chain_idx) snapshot_txid active_txns

-- `if let Some(old) = chain.last_mut() { old.txid_max = txid }`.
unfoldable pub close_last : ℕ → Chain → Chain
close_last txid [] = []
close_last txid (v ∷ []) = record v { txid_max = txid } ∷ []
close_last txid (v ∷ w ∷ chain) = v ∷ close_last txid (w ∷ chain)
