-- ===== src/Table/Chain.antt =====
-- Version chains: what a write does to a chain, and what snapshots then see of the row.
use mathlib.Core.List.{reverse-append}
use heliondb.Base.{
  ℕ, ◌≤◌, ◌<◌, false, Option, none, some, [], ◌∷◌, ◌++◌, ◌≡◌, ◌⊎◌, refl, inl, inr, if◌then◌else◌,
  arith, ap,
}
use heliondb.Base.NatSet.{NatSet, contains}
use mathlib.Core.Path.{subst}
use heliondb.Table.Visible.{row_of}
use heliondb.Table.{
  RowVersion, Chain, u64_max, is_version_visible, latest_visible, close_last, live,
}

-- Every version but the last ends where the next begins, and the last has no end.
abbrev pub IsLinked : Chain → Type 0
IsLinked [] = Unit
IsLinked (v ∷ []) = v.txid_max ≡ u64_max
IsLinked (v ∷ w ∷ chain) = (v.txid_max ≡ w.txid_min) × IsLinked (w ∷ chain)

close_last-snoc :
    (txid : ℕ) (chain : Chain) (v : RowVersion)
    → close_last txid (chain ++ v ∷ []) ≡ chain ++ record v { txid_max = txid } ∷ []
unfolding close_last
close_last-snoc txid [] v = refl
close_last-snoc txid (w ∷ []) v = refl
close_last-snoc txid (w ∷ x ∷ chain) v = ap (◌∷◌ w) (close_last-snoc txid (x ∷ chain) v)

-- Closing the last version at its successor's creator and adding the successor keeps the links.
pub supersede-IsLinked :
    (chain : Chain) (v : RowVersion)
    → v.txid_max ≡ u64_max
    → IsLinked chain
    → IsLinked (close_last v.txid_min chain ++ v ∷ [])
unfolding close_last
supersede-IsLinked [] v h l = h
supersede-IsLinked (w ∷ []) v h l = (refl, h)
supersede-IsLinked (w ∷ x ∷ []) v h l = (l.0, (refl, h))
supersede-IsLinked (w ∷ x ∷ y ∷ chain) v h l = (l.0, supersede-IsLinked (x ∷ y ∷ chain) v h l.1)

pub latest-snoc :
    (chain : Chain) (v : RowVersion) (s : ℕ) (active : NatSet)
    → latest_visible (chain ++ v ∷ []) s active
      ≡ (if is_version_visible v s active then live (some v) else latest_visible chain s active)
unfolding latest_visible
latest-snoc chain v s active = rw (reverse-append chain (v ∷ [])) (ground arith)

-- A chain is empty or has a last version.
snoc-cases :
    (chain : Chain)
    → (chain ≡ []) ⊎ ((older : Chain) × (v : RowVersion) × (chain ≡ older ++ v ∷ []))
snoc-cases [] = inl refl
snoc-cases (v ∷ chain) = elim (snoc-cases chain) [
  | inl e ↦ inr ([], v, ap (◌∷◌ v) e)
  | inr (older, w, e) ↦ inr (v ∷ older, w, ap (◌∷◌ v) e)
]

pub last_is_open :
    (older : Chain) (v : RowVersion) → IsLinked (older ++ v ∷ []) → v.txid_max ≡ u64_max
last_is_open [] v l = l
last_is_open (w ∷ []) v l = l.1
last_is_open (w ∷ x ∷ older) v l = last_is_open (x ∷ older) v l.1

row_of_close :
    (v : RowVersion) (txid s : ℕ) (active : NatSet) (rest : Option RowVersion)
    → v.txid_max ≡ u64_max
    → s < txid
    → let w = record v { txid_max = txid } in
      row_of (if is_version_visible w s active then live (some w) else rest)
      ≡ row_of (if is_version_visible v s active then live (some v) else rest)
unfolding is_version_visible
row_of_close v txid s active rest no_end h = ground arith

first_version :
    (v : RowVersion) (s : ℕ) (active : NatSet)
    → s < v.txid_min
    → row_of (latest_visible (close_last v.txid_min [] ++ v ∷ []) s active)
      ≡ row_of (latest_visible [] s active)
unfolding latest_visible is_version_visible close_last
first_version v s active h = ground arith

-- What a transaction later than the snapshot writes to a row, an update or a tombstone, does not
-- change the row that the snapshot sees.
pub supersede_later :
    (chain : Chain) (v : RowVersion) (s : ℕ) (active : NatSet)
    → IsLinked chain
    → s < v.txid_min
    → row_of (latest_visible (close_last v.txid_min chain ++ v ∷ []) s active)
      ≡ row_of (latest_visible chain s active)
unfolding is_version_visible
supersede_later chain v s active l h = elim (snoc-cases chain) [
  | inl e ↦ rw e (first_version v s active h)
  | inr (older, w, e) ↦ rw (latest-snoc _ v s active) (
      rw e (
        rw (close_last-snoc v.txid_min older w) (
          ground (
            arith,
            latest-snoc older w s active,
            latest-snoc older (record w { txid_max = v.txid_min }) s active,
            row_of_close w v.txid_min s active (latest_visible older s active),
            last_is_open older w (subst IsLinked e l),
          ))))
]

-- A snapshot that is not earlier than a write, and for which its transaction was not active, sees
-- what was written: the new row, or no row after a deletion.
pub supersede_seen :
    (chain : Chain) (v : RowVersion) (s : ℕ) (active : NatSet)
    → v.txid_max ≡ u64_max
    → v.txid_min ≤ s
    → (contains active v.txid_min ≡ false) ⊎ (v.txid_min ≡ s)
    → row_of (latest_visible (close_last v.txid_min chain ++ v ∷ []) s active)
      ≡ (if v.is_deleted then none else some v.row)
unfolding is_version_visible
supersede_seen chain v s active no_end le free =
    rw (latest-snoc (close_last v.txid_min chain) v s active) (ground arith)
