-- ===== src/Mvcc/Conflicts.antt =====
-- What `check_conflicts` detects, and the writes of later transactions, which it does not.
use mathlib.Core.List.{reverse, reverse-append}
use heliondb.Base.{
  ℕ, ◌<◌, Bool, true, false, Option, none, some, List, [], ◌∷◌, ◌++◌, ◌≡◌, refl, ◌==◌, arith, All,
  find?, get_elem?, if◌then◌else◌, ap, ◌∙◌, sym, subst, Bool-cases, inl, inr,
}
use heliondb.Base.NatSet.{NatSet, contains}
use heliondb.Table.{Table, Chain, RowVersion, u64_max, is_version_visible}
use heliondb.Table.Chain.{IsLinked, last_is_open}
use heliondb.Table.Write.{WriteEntry}
use heliondb.Mvcc.{
  Transaction, Tables, current_version, conflict_with, chain_conflict, table_conflict,
  entries_conflict, check_conflicts,
}

-- The newest version of a chain that has no end.
abbrev pub newest_open : Chain → Option RowVersion
newest_open [] = none
newest_open (v ∷ newer) = elim (newest_open newer) [
  | none ↦ if v.txid_max == u64_max then some v else none
  | some w ↦ some w
]

find?-append :
    (p : RowVersion → Bool) (xs : Chain) (v : RowVersion)
    → find? p (xs ++ v ∷ [])
      ≡ (elim (find? p xs) [ none ↦ if p v then some v else none | some w ↦ some w ])
find?-append p [] v = ground arith
find?-append p (x ∷ xs) v = ground (arith, find?-append p xs v)

current_version-newest_open : (c : Chain) → current_version c ≡ newest_open c
unfolding current_version
current_version-newest_open [] = refl
current_version-newest_open (v ∷ newer) = rw (reverse-append (v ∷ []) newer) (
    rw
      (
        find?-append (λ (w : RowVersion). w.txid_max == u64_max) (reverse newer) v,
        current_version-newest_open newer,
      )
      refl)

-- The version that a write entry would supersede, if its table and row are there.
abbrev pub target : Tables → WriteEntry → Option RowVersion
target tables e = chain_of (tables e.table_name)
  where
    newest : Option Chain → Option RowVersion
    newest none = none
    newest (some c) = newest_open c

    chain_of : Option Table → Option RowVersion
    chain_of none = none
    chain_of (some t) = newest (get_elem? t.version_chains e.row_idx)

-- The entry's row has no current version, or its creator was not active at the snapshot.
abbrev pub IsUncontended : NatSet → Option RowVersion → Type 0
IsUncontended active none = Unit
IsUncontended active (some v) = contains active v.txid_min ≡ false

-- The entry's row has a current version that `txid` made, which was active at the snapshot.
abbrev pub IsContended : NatSet → Option RowVersion → ℕ → Type 0
IsContended active o txid =
    (v : RowVersion) × (o ≡ some v) × (v.txid_min ≡ txid) × (contains active txid ≡ true)

-- What the outcome of the check says of the entries: none is contended, or the first that is.
abbrev pub Verdict : NatSet → Tables → List WriteEntry → Option ℕ → Type 0
Verdict active tables entries none = All (λ e. IsUncontended active (target tables e)) entries
Verdict active tables entries (some txid) =
    (before : List WriteEntry) × (e : WriteEntry) × (after : List WriteEntry) × (entries
      ≡ before ++ e ∷ after)
    × All (λ b. IsUncontended active (target tables b)) before
    × IsContended active (target tables e) txid

-- What the test of one entry says.
Single : NatSet → Option RowVersion → Option ℕ → Type 0
Single active o none = IsUncontended active o
Single active o (some txid) = IsContended active o txid

conflict_with-Single :
    (active : NatSet) (o : Option RowVersion) → Single active o (conflict_with active o)
unfolding conflict_with Single
conflict_with-Single active none = tt
conflict_with-Single active (some v) = elim (Bool-cases (contains active v.txid_min)) [
  | inl h ↦ rw h (v, refl, refl, h)
  | inr h ↦ rw h h
]

table_conflict-target :
    (active : NatSet) (tables : Tables) (e : WriteEntry)
    → table_conflict active e.row_idx (tables e.table_name) ≡ conflict_with active (target tables e)
unfolding table_conflict chain_conflict conflict_with
table_conflict-target active tables e = of_table (tables e.table_name)
  where
    of_chain :
        (c : Option Chain)
        → chain_conflict active c
          ≡ conflict_with active (elim c [ none ↦ none | some c ↦ newest_open c ])
    of_chain none = refl
    of_chain (some c) = ap (conflict_with active) (current_version-newest_open c)

    of_table :
        (t : Option Table)
        → table_conflict active e.row_idx t
          ≡ conflict_with active (elim t [
            | none ↦ none
            | some t ↦ elim (get_elem? t.version_chains e.row_idx) [
              | none ↦ none
              | some c ↦ newest_open c
            ]
          ])
    of_table none = refl
    of_table (some t) = of_chain (get_elem? t.version_chains e.row_idx)

combine :
    (active : NatSet) (tables : Tables) (e : WriteEntry) (entries : List WriteEntry)
    (o rest : Option ℕ)
    → Single active (target tables e) o
    → Verdict active tables entries rest
    → Verdict active tables (e ∷ entries) (elim o [ none ↦ rest | some t ↦ some t ])
unfolding Single
combine active tables e entries (some t) rest s v = ([], e, entries, refl, tt, s)
combine active tables e entries none none s v = (s, v)
combine active tables e entries none (some t) s (before, f, after, h, passed, c) =
    (e ∷ before, f, after, ap (◌∷◌ e) h, (s, passed), c)

entries_conflict-Verdict :
    (active : NatSet) (tables : Tables) (entries : List WriteEntry)
    → Verdict active tables entries (entries_conflict active tables entries)
unfolding entries_conflict
entries_conflict-Verdict active tables [] = tt
entries_conflict-Verdict active tables (e ∷ entries) =
    combine active tables e entries (table_conflict active e.row_idx (tables e.table_name))
      (entries_conflict active tables entries)
      (subst (Single active (target tables e)) (sym (table_conflict-target active tables e))
        (conflict_with-Single active (target tables e)))
      (entries_conflict-Verdict active tables entries)

-- The check passes only where no written row has a newest version without an end that a transaction
-- made which was active at the snapshot. It fails at the first written row that has one, with the
-- number of that transaction.
pub check_conflicts-Verdict :
    (tx : Transaction) (tables : Tables)
    → Verdict tx.snapshot.active tables tx.write_set (check_conflicts tx tables)
unfolding check_conflicts
check_conflicts-Verdict tx tables = entries_conflict-Verdict tx.snapshot.active tables tx.write_set

uncontended :
    (active : NatSet) (tables : Tables) (e : WriteEntry)
    → IsUncontended active (target tables e)
    → entries_conflict active tables (e ∷ []) ≡ none
unfolding entries_conflict conflict_with
uncontended active tables e h =
    rw (entries_conflict, table_conflict-target active tables e) (passes (target tables e) h)
  where
    passes :
        (o : Option RowVersion)
        → IsUncontended active o
        → (elim (conflict_with active o) [ none ↦ none | some t ↦ some t ]) ≡ none
    passes none h = refl
    passes (some v) h = rw h refl

newest_open-snoc :
    (older : Chain) (v : RowVersion) → v.txid_max ≡ u64_max → newest_open (older ++ v ∷ []) ≡ some v
newest_open-snoc [] v h = ground arith
newest_open-snoc (w ∷ older) v h = rw (newest_open-snoc older v h) refl

unnoticed :
    (tx : Transaction) (tables : Tables) (e : WriteEntry) (t : Table) (older : Chain)
    (v : RowVersion)
    → tables e.table_name ≡ some t
    → get_elem? t.version_chains e.row_idx ≡ some (older ++ v ∷ [])
    → v.txid_max ≡ u64_max
    → contains tx.snapshot.active v.txid_min ≡ false
    → IsUncontended tx.snapshot.active (target tables e)
unnoticed tx tables e t older v et ec no_end a = ground (arith, newest_open-snoc older v no_end)

-- A lost update. The snapshot of a transaction holds only smaller numbers. If a transaction that
-- began later has already committed a new version of a row, a write to that row is not a conflict,
-- although the transaction cannot see the version that it is about to supersede.
pub later_commit_unnoticed :
    (tx : Transaction) (tables : Tables) (e : WriteEntry) (t : Table) (older : Chain)
    (v : RowVersion)
    → tx.write_set ≡ e ∷ []
    → tables e.table_name ≡ some t
    → get_elem? t.version_chains e.row_idx ≡ some (older ++ v ∷ [])
    → IsLinked (older ++ v ∷ [])
    → ((n : ℕ) → contains tx.snapshot.active n ≡ true → n < tx.tx_id)
    → tx.tx_id < v.txid_min
    → (check_conflicts tx tables ≡ none)
      × (is_version_visible v tx.tx_id tx.snapshot.active ≡ false)
unfolding is_version_visible check_conflicts
later_commit_unnoticed tx tables e t older v w et ec l below later =
    let absent : contains tx.snapshot.active v.txid_min ≡ false =
      ground (arith, below v.txid_min) in
    (
      ap (entries_conflict tx.snapshot.active tables) w
          ∙ uncontended tx.snapshot.active tables e
              (unnoticed tx tables e t older v et ec (last_is_open older v l) absent),
      ground arith,
    )
