-- ===== src/Mvcc/Accesses.antt =====
-- storage/mvcc.rs: the life of transactions as a step relation. A beginning is three accesses to the
-- store, between which those of other threads come.
use heliondb.Base.{ℕ, ◌+◌, ◌<◌, ◌^◌, Bool, true, false, ◌||◌, ◌≡◌, ◌==◌, if◌then◌else◌}
use heliondb.Mvcc.{
  MvccStore, Transaction, with_start_id, fetch_add, read_active, begun, add_active,
  commit_transaction, rollback_transaction,
}

-- How far the transaction of a number is. With the snapshot stands which transactions were live when
-- it was read.
pub data Phase : Type 0 where
  unused counted ended : Phase
  pictured running : Transaction → (ℕ → Bool) → Phase

pub record System : Type 0 where
  pub store : MvccStore
  pub phases : ℕ → Phase

abbrev pub is_running : Phase → Bool
is_running (Phase.running tx seen) = true
is_running _ = false

-- The number 0, which stands for the state before all transactions, and those that are registered.
abbrev pub is_live : (ℕ → Phase) → ℕ → Bool
is_live phases n = (n == 0) || is_running (phases n)

abbrev pub move_to : ℕ → Phase → (ℕ → Phase) → ℕ → Phase
move_to tx_id p phases n = if n == tx_id then p else phases n

abbrev pub initial : ℕ → System
initial start_id = record { store = with_start_id start_id; phases = λ _. Phase.unused }

-- An access of a thread to the store. The counter does not wrap round.
pub data Step : System → System → Type 0 where
  counts :
      (s : System)
      → s.store.next_txid + 1 < 2 ^ 64
      → Step s (record {
        store = (fetch_add s.store).1;
        phases = move_to (fetch_add s.store).0 Phase.counted s.phases;
      })
  reads :
      (s : System) (n : ℕ)
      → s.phases n ≡ Phase.counted
      → Step s (record s {
        phases =
            move_to n (Phase.pictured (begun n (read_active s.store)) (is_live s.phases)) s.phases;
      })
  registers :
      (s : System) (n : ℕ) (tx : Transaction) (seen : ℕ → Bool)
      → s.phases n ≡ Phase.pictured tx seen
      → Step s (record {
        store = add_active s.store n;
        phases = move_to n (Phase.running tx seen) s.phases;
      })
  commits :
      (s : System) (n : ℕ) (tx : Transaction) (seen : ℕ → Bool)
      → s.phases n ≡ Phase.running tx seen
      → Step s (record {
        store = commit_transaction s.store tx;
        phases = move_to n Phase.ended s.phases;
      })
  rolls_back :
      (s : System) (n : ℕ) (tx : Transaction) (seen : ℕ → Bool)
      → s.phases n ≡ Phase.running tx seen
      → Step s (record {
        store = rollback_transaction s.store tx;
        phases = move_to n Phase.ended s.phases;
      })

pub data Reach (s : System) : System → Type 0 where
  here : Reach s s
  next : {t u : System} → Reach s t → Step t u → Reach s u
