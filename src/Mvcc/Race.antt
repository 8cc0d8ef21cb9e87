-- ===== src/Mvcc/Race.antt =====
-- storage/mvcc.rs: two transactions that begin at the same time.
use heliondb.Base.{ℕ, ◌<◌, Bool, true, false, ◌≡◌, ◌∙◌, arith}
use heliondb.Base.NatSet.{contains, contains-insert}
use heliondb.Types.Column.{Row}
use heliondb.Table.{new_insert, is_version_visible}
use heliondb.Mvcc.{read_active, begun, add_active}
use heliondb.Mvcc.Accesses.{Phase, System, initial, Reach}
use heliondb.Mvcc.Steps.{Reach-Inv, given}

-- A transaction that has its number and is not registered.
abbrev pub is_beginning : Phase → Bool
is_beginning Phase.counted = true
is_beginning (Phase.pictured tx seen) = true
is_beginning _ = false

-- Between the accesses of one beginning, another transaction that got a later number may read the
-- active set: the earlier one is missing from its snapshot, so the rows that the earlier one will
-- write are visible to it, although they are hidden from it where it reads after the registration.
pub beginning_unseen :
    (start_id : ℕ) {s : System} (a b : ℕ) (row : Row)
    → Reach (initial start_id) s
    → is_beginning (s.phases a) ≡ true
    → a < b
    → (is_version_visible (new_insert a row) b (begun b (read_active s.store)).snapshot.active
        ≡ true)
      × (is_version_visible
            (new_insert a row)
            b
            (begun b (read_active (add_active s.store a))).snapshot.active
          ≡ false)
unfolding is_version_visible add_active
beginning_unseen start_id {s} a b row r h lt =
    let i = Reach-Inv start_id r in
    let (low, high) = given s a i (ground arith) in
    let unregistered : contains s.store.active_txns a ≡ false = i.active a ∙ ground arith in
    let registered = contains-insert a a s.store.active_txns in
    (ground (arith, unregistered), ground (arith, registered))
