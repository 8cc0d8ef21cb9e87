-- ===== src/Mvcc/Tests.antt =====
-- The laws of transactions at concrete ones.
use heliondb.Base.{
  ℕ, ◌≡◌, refl, true, false, [], ◌∷◌, ◌++◌, arith, none, some, All, if◌then◌else◌, ◌<◌,
}
use heliondb.Base.NatSet.{contains}
use heliondb.Base.Text.{str_eq}
use heliondb.Types.Datum.{Datum}
use heliondb.Types.Column.{Row}
use heliondb.Table.{Table, Chain, new_insert, new_update, u64_max, is_version_visible, close_last}
use heliondb.Table.Write.{WriteOp, WriteEntry}
use heliondb.Mvcc.{
  Transaction, Tables, new_transaction, add_write, with_start_id, fetch_add, read_active, begun,
  add_active, check_conflicts,
}
use heliondb.Mvcc.Accesses.{
  Phase, System, counts, reads, Reach, here, next, initial, move_to, is_live,
}
use heliondb.Mvcc.Steps.{Inv, Reach-Inv}
use heliondb.Mvcc.Race.{is_beginning, beginning_unseen}
use heliondb.Mvcc.Conflicts.{Verdict, check_conflicts-Verdict, later_commit_unnoticed}
use heliondb.Mvcc.WriteSet.{apply_write_set}
use heliondb.Mvcc.WriteSet.Laws.{IsWellFormed, apply_write_set-IsWellFormed}

abbrev row : ℕ → Row
row n = record { values = Datum.unsigned_integer n ∷ [] }

-- One row: inserted by transaction 3, updated by transaction 9.
abbrev chain : Chain
chain = record (new_insert 3 (row 1)) { txid_max = 9 } ∷ new_update 9 (row 2) ∷ []

abbrev counters : Table
counters = record {
  name = "counters";
  columns = [];
  version_chains = chain ∷ [];
  primary_key_idx = none;
  indexes = [];
}

abbrev tables : Tables
tables name = if str_eq name "counters" then some counters else none

-- Transaction 8 updates the row; transaction 6 was active when it began.
abbrev update : WriteEntry
update = record {
  table_name = "counters";
  row_idx = 0;
  old_txid_max = u64_max;
  operation = WriteOp.update (row 5);
}

abbrev transaction_8 : Transaction
transaction_8 = add_write (new_transaction 8 (record { txid = 8; active = 6 ∷ [] })) update

check_conflicts-Verdict_example :
    Verdict (6 ∷ []) tables (update ∷ []) (check_conflicts transaction_8 tables)
check_conflicts-Verdict_example = check_conflicts-Verdict transaction_8 tables

below_8 : (n : ℕ) → contains (6 ∷ []) n ≡ true → n < 8
below_8 n h = ground arith

later_commit_unnoticed_example :
    (check_conflicts transaction_8 tables ≡ none)
    × (is_version_visible (new_update 9 (row 2)) 8 (6 ∷ []) ≡ false)
later_commit_unnoticed_example =
    later_commit_unnoticed transaction_8 tables update counters
      (record (new_insert 3 (row 1)) { txid_max = 9 } ∷ []) (new_update 9 (row 2)) refl refl refl
      (refl, refl) below_8 (omega arith)

-- Two transactions take their numbers, and the later reads and registers before the earlier reads.
abbrev one : System
one = record {
  store = (fetch_add (initial 5).store).1;
  phases = move_to (fetch_add (initial 5).store).0 Phase.counted (initial 5).phases;
}

abbrev two : System
two = record {
  store = (fetch_add one.store).1;
  phases = move_to (fetch_add one.store).0 Phase.counted one.phases;
}

abbrev three : System
three = record two {
  phases =
      move_to 6 (Phase.pictured (begun 6 (read_active two.store)) (is_live two.phases)) two.phases;
}

first_counter : (initial 5).store.next_txid ≡ 5
unfolding with_start_id
first_counter = refl

second_counter : one.store.next_txid ≡ 6
unfolding with_start_id
second_counter = refl

six_is_counted : two.phases 6 ≡ Phase.counted
unfolding with_start_id
six_is_counted = refl

five_begins : is_beginning (two.phases 5) ≡ true
unfolding with_start_id
five_begins = refl

two_reached : Reach (initial 5) two
two_reached =
    next (next here (counts (initial 5) (omega (arith, first_counter))))
      (counts one (omega (arith, second_counter)))

Reach-Inv_example : Inv three
Reach-Inv_example = Reach-Inv 5 (next two_reached (reads two 6 six_is_counted))

beginning_unseen_example :
    (is_version_visible (new_insert 5 (row 1)) 6 (begun 6 (read_active two.store)).snapshot.active
      ≡ true)
    × (is_version_visible
          (new_insert 5 (row 1))
          6
          (begun 6 (read_active (add_active two.store 5))).snapshot.active
        ≡ false)
beginning_unseen_example = beginning_unseen 5 5 6 (row 1) two_reached five_begins (omega arith)

chain-IsWellFormed : All IsWellFormed counters.version_chains
chain-IsWellFormed = (((λ e. cc e), (refl, refl)), tt)

new_chains :
    apply_write_set (update ∷ []) tables 10 "counters"
    ≡ some ((close_last 10 chain ++ new_update 10 (row 5) ∷ []) ∷ [])
unfolding apply_write_set
new_chains = refl

apply_write_set-IsWellFormed_example :
    All IsWellFormed ((close_last 10 chain ++ new_update 10 (row 5) ∷ []) ∷ [])
apply_write_set-IsWellFormed_example =
    apply_write_set-IsWellFormed (update ∷ []) tables 10 "counters" counters
      ((close_last 10 chain ++ new_update 10 (row 5) ∷ []) ∷ []) refl chain-IsWellFormed new_chains
