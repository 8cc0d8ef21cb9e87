-- ===== src/Engine/Installed.antt =====
-- New chains in a table, with the index changes of a write set.
use heliondb.Base.{
  ℕ, String, Bool, true, false, ◌||◌, Option, none, some, List, [], ◌∷◌, ◌≡◌, refl, ap, ◌∙◌, arith,
  if◌then◌else◌, any, Bool-cases, inl, inr,
}
use heliondb.Base.Text.{str_eq, str_eq_iff}
use heliondb.Error.{Result, ok, err}
use heliondb.Types.Column.{Row}
use heliondb.Table.{Table, Chain}
use heliondb.Table.Write.{WriteOp, WriteEntry}
use heliondb.Table.Constraints.{apply_index_changes}
use heliondb.Mvcc.{Transaction, Tables}
use heliondb.Mvcc.WriteSet.{apply_write_set}
use heliondb.Wal.Recovery.{table_at}
use heliondb.Engine.{and_then, snapshot_of, visible_row_in, index_entries, install}

-- Index changes keep the name and the chains of a table.
abbrev KeepsChains : Table → Table × Result (Unit {0}) → Type 0
KeepsChains t (u, _) = (u.name ≡ t.name) × (u.version_chains ≡ t.version_chains)

keep_both :
    (t : Table) (o : Table × Result (Unit {0})) (next : Table → Table × Result (Unit {0}))
    → KeepsChains t o
    → ((u : Table) → KeepsChains u (next u))
    → KeepsChains t (and_then o next)
keep_both t (u, ok _) next h k = ((k u).0 ∙ h.0, (k u).1 ∙ h.1)
keep_both t (u, err x) next h k = h

apply_index_changes-KeepsChains :
    (t : Table) (op : WriteOp) (old : Option Row) (i : ℕ)
    → KeepsChains t (apply_index_changes t op old i)
unfolding apply_index_changes
apply_index_changes-KeepsChains t op old i = (refl, refl)

index_entries-KeepsChains :
    (snapshot : Tables) (name : String) (entries : List WriteEntry) (t : Table)
    → KeepsChains t (index_entries snapshot name entries t)
unfolding index_entries
index_entries-KeepsChains snapshot name [] t = (refl, refl)
index_entries-KeepsChains snapshot name (e ∷ entries) t =
    keep_both t
      (if str_eq e.table_name name
        then apply_index_changes t e.operation (visible_row_in (snapshot name) e.row_idx) e.row_idx
        else (t, ok tt))
      (index_entries snapshot name entries)
      (ground (
        arith,
        apply_index_changes-KeepsChains t e.operation (visible_row_in (snapshot name) e.row_idx)
            e.row_idx,
      ))
      (index_entries-KeepsChains snapshot name entries)

pub install-chains :
    (snapshot : Tables) (name : String) (entries : List WriteEntry) (chains : List Chain)
    (t : Table)
    → ((install snapshot name entries chains t).0.name ≡ t.name)
      × ((install snapshot name entries chains t).0.version_chains ≡ chains)
unfolding install
install-chains snapshot name entries chains t =
    index_entries-KeepsChains snapshot name entries (record t { version_chains = chains })

-- The chains of the table of a name.
abbrev pub chains_of : Option Table → Option (List Chain)
chains_of none = none
chains_of (some t) = some t.version_chains

abbrev pub chains_at : List Table → String → Option (List Chain)
chains_at tables name = chains_of (table_at tables name)

-- The chains of a table, if it is there, once new ones have been installed.
abbrev pub replaced : Option (List Chain) → Option (List Chain) → Option (List Chain)
replaced none now = now
replaced (some chains) none = none
replaced (some chains) (some old) = some chains

-- The chains that a commit should leave: those that its write set makes of the tables it touches.
abbrev pub expected : List String → Transaction → List Table → String → Option (List Chain)
expected updated tx tables name =
    if any (λ n. str_eq n name) updated
    then replaced (apply_write_set tx.write_set (snapshot_of tables) tx.tx_id name)
        (chains_at tables name)
    else chains_at tables name

replaced_twice : (c x : Option (List Chain)) → replaced c (replaced c x) ≡ replaced c x
replaced_twice none x = refl
replaced_twice (some c) none = refl
replaced_twice (some c) (some x) = refl

pub chains_of-changed :
    (f : Table → Table) (chains : List Chain) (test : Bool) (found : Option Table)
    → ((t : Table) → (f t).version_chains ≡ chains)
    → chains_of (if test then (elim found [ none ↦ none | some t ↦ some (f t) ]) else found)
      ≡ (if test then replaced (some chains) (chains_of found) else chains_of found)
chains_of-changed f chains false found k = refl
chains_of-changed f chains true none k = refl
chains_of-changed f chains true (some t) k = ap some (k t)

-- One more table, and then the others.
pub after_one :
    (new : String → Option (List Chain)) (name other : String) (later : Bool)
    (before middle : Option (List Chain))
    → middle ≡ (if str_eq name other then replaced (new name) before else before)
    → (if later then replaced (new other) middle else middle)
      ≡ (if str_eq name other || later then replaced (new other) before else before)
after_one new name other later before middle h = elim (Bool-cases (str_eq name other)) [
  | inl same ↦
      (let m : middle ≡ replaced (new other) before =
          h ∙ rw same (ap (λ c. replaced c before) (ap new ((str_eq_iff name other).0 same))) in
        rw (same, m) (ground (arith, replaced_twice (new other) before)))
  | inr differ ↦ ground arith
]
