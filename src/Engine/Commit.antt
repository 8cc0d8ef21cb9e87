-- ===== src/Engine/Commit.antt =====
-- What a commit has done, however it ends: nothing reaches the tables before the whole log record.
use mathlib.Core.List.{append_assoc, append-nil}
use heliondb.Base.{
  ℕ, String, Option, none, some, List, [], ◌∷◌, ◌++◌, ◌≡◌, ◌⊎◌, inl, inr, refl, sym, ap, ◌∙◌,
}
use heliondb.Error.{Result, ok, err, conflict}
use heliondb.Table.{Chain}
use heliondb.Mvcc.{
  Transaction, TransactionStatus, Tables, commit_transaction, rollback_transaction, check_conflicts,
}
use heliondb.Mvcc.WriteSet.{Change, changes_for, apply_write_set}
use heliondb.Wal.{WalRecord}
use heliondb.Wal.Recovery.{commit_records}
use heliondb.Engine.{
  Engine, Fault, Remains, left_in_log, and_then, written, snapshot_of, check_entries, append,
  append_records, store_tables, update_table, update_tables, finish, write_all, checked, by_status,
  commit,
}

module _ {S : Type 0} where
  -- Nothing but the log and the outcomes of later writes to it differs.
  abbrev pub IsSame : Engine S → Engine S → Type 0
  IsSame e f = (f.tables ≡ e.tables) × (f.storage ≡ e.storage) × (f.mvcc ≡ e.mvcc)

  -- The records are in the log, or the append failed.
  abbrev pub Appended : Engine S → List WalRecord → Engine S × Result (Unit {0}) → Type 0
  Appended e records (f, ok _) = IsSame e f × (f.log ≡ e.log ++ records)
  Appended e records (f, err _) = IsSame e f

  append_more :
      (e f : Engine S) (r : WalRecord) (records : List WalRecord) (o : Engine S × Result (Unit {0}))
      → Appended e (r ∷ []) (f, ok tt)
      → Appended f records o
      → Appended e (r ∷ records) o
  append_more e f r records (g, err x) a b = (b.0 ∙ a.0.0, b.1 ∙ a.0.1, b.2 ∙ a.0.2)
  append_more e f r records (g, ok _) a b = (
    (b.0.0 ∙ a.0.0, b.0.1 ∙ a.0.1, b.0.2 ∙ a.0.2),
    b.1 ∙ ap (λ l. l ++ records) a.1 ∙ append_assoc e.log (r ∷ []) records,
  )

  left-IsSame : (e : Engine S) (r : WalRecord) (left : Remains) → IsSame e (left_in_log e r left)
  unfolding left_in_log
  left-IsSame e r Remains.nothing = (refl, refl, refl)
  left-IsSame e r Remains.part = (refl, refl, refl)
  left-IsSame e r Remains.whole = (refl, refl, refl)

  -- The log and the transactions are left alone, whatever the outcome.
  abbrev KeepsLog : Engine S → Engine S × Result (Unit {0}) → Type 0
  KeepsLog e (f, _) = (f.log ≡ e.log) × (f.mvcc ≡ e.mvcc)

  keep_then :
      (e : Engine S) (o : Engine S × Result (Unit {0}))
      (next : Engine S → Engine S × Result (Unit {0}))
      → KeepsLog e o
      → ((f : Engine S) → KeepsLog f (next f))
      → KeepsLog e (and_then o next)
  keep_then e (f, ok _) next h k = ((k f).0 ∙ h.0, (k f).1 ∙ h.1)
  keep_then e (f, err x) next h k = h

module _ {S : Type 0} (store_changes : S → String → List Change → S × Result (Unit {0})) where
  written-Appended :
      (e : Engine S) (r : WalRecord) (faults : List (Option Fault))
      → Appended e (r ∷ []) (written e r faults)
  unfolding written
  written-Appended e r [] = ((refl, refl, refl), refl)
  written-Appended e r (none ∷ faults) = ((refl, refl, refl), refl)
  written-Appended e r (some x ∷ faults) = left-IsSame e r x.remains

  append-Appended : (e : Engine S) (r : WalRecord) → Appended e (r ∷ []) (append e r)
  unfolding append
  append-Appended e r = written-Appended e r e.faults

  append_then :
      (e : Engine S) (r : WalRecord) (records : List WalRecord) (o : Engine S × Result (Unit {0}))
      → Appended e (r ∷ []) o
      → ((f : Engine S) → Appended f records (append_records f records))
      → Appended e (r ∷ records) (and_then o (λ f. append_records f records))
  append_then e r records (f, ok _) a ih =
      append_more e f r records (append_records f records) a (ih f)
  append_then e r records (f, err x) a ih = a

  pub append_records-Appended :
      (records : List WalRecord) (e : Engine S) → Appended e records (append_records e records)
  unfolding append_records
  append_records-Appended [] e = ((refl, refl, refl), sym (append-nil e.log))
  append_records-Appended (r ∷ records) e =
      append_then e r records (append e r) (append-Appended e r) (append_records-Appended records)

  store_tables-KeepsLog :
      (snapshot : Tables) (tx : Transaction) (names : List String) (e : Engine S)
      → KeepsLog e (store_tables store_changes snapshot tx names e)
  unfolding store_tables
  store_tables-KeepsLog snapshot tx [] e = (refl, refl)
  store_tables-KeepsLog snapshot tx (name ∷ names) e =
      keep_then e
        (
          record e {
            storage =
                (store_changes e.storage name (changes_for snapshot tx.tx_id name tx.write_set)).0;
          },
          (store_changes e.storage name (changes_for snapshot tx.tx_id name tx.write_set)).1,
        )
        (store_tables store_changes snapshot tx names) (refl, refl)
        (store_tables-KeepsLog snapshot tx names)

  update_table-KeepsLog :
      (snapshot : Tables) (tx : Transaction) (name : String) (chains : Option (List Chain))
      (e : Engine S)
      → KeepsLog e (update_table store_changes snapshot tx name chains e)
  unfolding update_table
  update_table-KeepsLog snapshot tx name none e = (refl, refl)
  update_table-KeepsLog snapshot tx name (some chains) e = (refl, refl)

  update_tables-KeepsLog :
      (snapshot : Tables) (tx : Transaction) (names : List String) (e : Engine S)
      → KeepsLog e (update_tables store_changes snapshot tx names e)
  unfolding update_tables
  update_tables-KeepsLog snapshot tx [] e = (refl, refl)
  update_tables-KeepsLog snapshot tx (name ∷ names) e =
      keep_then e
        (update_table store_changes snapshot tx name
          (apply_write_set tx.write_set snapshot tx.tx_id name) e)
        (update_tables store_changes snapshot tx names)
        (update_table-KeepsLog snapshot tx name
          (apply_write_set tx.write_set snapshot tx.tx_id name) e)
        (update_tables-KeepsLog snapshot tx names)

module _ {S : Type 0} (e : Engine S) (tx : Transaction) where
  abbrev records : List WalRecord
  records = commit_records tx.tx_id tx.write_set

  -- Where tables or storage differ, all records of the transaction are in the log.
  abbrev WriteAhead : Engine S → Type 0
  WriteAhead f = ((f.tables ≡ e.tables) × (f.storage ≡ e.storage)) ⊎ (f.log ≡ e.log ++ records)

  abbrev Written : Engine S × Result (Unit {0}) → Type 0
  Written (f, ok _) = (f.log ≡ e.log ++ records) × (f.mvcc ≡ e.mvcc)
  Written (f, err _) = WriteAhead f × (f.mvcc ≡ e.mvcc)

  -- How a commit ends. If it succeeds, the transaction was in progress, had no conflict and met the
  -- unique constraints; its records are in the log, and it is committed and no longer active. If it
  -- fails for a conflict, the transaction is aborted and no longer active, and nothing else has
  -- changed. If it fails otherwise, the transaction is as before and as active as before, and the
  -- tables and their storage have changed only if all its records are in the log.
  abbrev pub Ended : (Engine S × Transaction) × Result (Unit {0}) → Type 0
  Ended ((f, ty), ok _) =
      (tx.status ≡ TransactionStatus.in_progress)
      × (check_conflicts tx (snapshot_of e.tables) ≡ none)
      × (check_entries (snapshot_of e.tables) tx.write_set ≡ ok tt)
      × (f.log ≡ e.log ++ records)
      × (f.mvcc ≡ commit_transaction e.mvcc tx)
      × (ty ≡ record tx { status = TransactionStatus.committed })
  Ended ((f, ty), err x) =
      ((f ≡ record e { mvcc = rollback_transaction e.mvcc tx })
        × (ty ≡ record tx { status = TransactionStatus.aborted })
        × (x ≡ conflict tx.tx_id)
        × ((t : ℕ) × (check_conflicts tx (snapshot_of e.tables) ≡ some t)))
      ⊎ (WriteAhead f × (f.mvcc ≡ e.mvcc) × (ty ≡ tx))

  outcome-Written :
      (f : Engine S) (o : Engine S × Result (Unit {0}))
      → IsSame e f
      → f.log ≡ e.log ++ records
      → KeepsLog f o
      → Written o
  outcome-Written f (g, ok _) same logged k = (k.0 ∙ logged, k.1 ∙ same.2)
  outcome-Written f (g, err x) same logged k = (inr (k.0 ∙ logged), k.1 ∙ same.2)

module _ {S : Type 0} (store_changes : S → String → List Change → S × Result (Unit {0})) where
  append_records-Written :
      (stored updated : List String) (e : Engine S) (tx : Transaction)
      (o : Engine S × Result (Unit {0}))
      → Appended e (records e tx) o
      → Written e tx (
          and_then o (λ logged.
            and_then
              (store_tables store_changes (snapshot_of e.tables) tx stored logged)
              (update_tables store_changes (snapshot_of e.tables) tx updated)))
  append_records-Written stored updated e tx (f, err x) a = (inl (a.0, a.1), a.2)
  append_records-Written stored updated e tx (f, ok _) a =
      outcome-Written e tx f
        (and_then (store_tables store_changes (snapshot_of e.tables) tx stored f)
          (update_tables store_changes (snapshot_of e.tables) tx updated))
        a.0 a.1
        (keep_then f (store_tables store_changes (snapshot_of e.tables) tx stored f)
          (update_tables store_changes (snapshot_of e.tables) tx updated)
          (store_tables-KeepsLog store_changes (snapshot_of e.tables) tx stored f)
          (update_tables-KeepsLog store_changes (snapshot_of e.tables) tx updated))

  finish-Ended :
      (e : Engine S) (tx : Transaction) (o : Engine S × Result (Unit {0}))
      → tx.status ≡ TransactionStatus.in_progress
      → check_conflicts tx (snapshot_of e.tables) ≡ none
      → check_entries (snapshot_of e.tables) tx.write_set ≡ ok tt
      → Written e tx o
      → Ended e tx (finish tx o)
  unfolding finish
  finish-Ended e tx (f, ok _) s c u w = (s, c, u, w.0, ap (λ m. commit_transaction m tx) w.1, refl)
  finish-Ended e tx (f, err x) s c u w = inr (w.0, w.1, refl)

  checked-Ended :
      (stored updated : List String) (e : Engine S) (tx : Transaction) (conflicts : Option ℕ)
      (unique : Result (Unit {0}))
      → tx.status ≡ TransactionStatus.in_progress
      → check_conflicts tx (snapshot_of e.tables) ≡ conflicts
      → check_entries (snapshot_of e.tables) tx.write_set ≡ unique
      → Ended e tx (checked store_changes stored updated e tx conflicts unique)
  unfolding checked write_all
  checked-Ended stored updated e tx (some t) unique s c u = inl (refl, refl, refl, (t, c))
  checked-Ended stored updated e tx none (err x) s c u = inr (inl (refl, refl), refl, refl)
  checked-Ended stored updated e tx none (ok _) s c u =
      finish-Ended e tx (write_all store_changes stored updated e tx) s c u (
        append_records-Written stored updated e tx
          (append_records e (commit_records tx.tx_id tx.write_set))
          (append_records-Appended store_changes (records e tx) e))

  by_status-Ended :
      (stored updated : List String) (e : Engine S) (tx : Transaction) (status : TransactionStatus)
      → tx.status ≡ status
      → Ended e tx (by_status store_changes stored updated e tx status)
  unfolding by_status
  by_status-Ended stored updated e tx TransactionStatus.in_progress s =
      checked-Ended stored updated e tx (check_conflicts tx (snapshot_of e.tables))
        (check_entries (snapshot_of e.tables) tx.write_set) s refl refl
  by_status-Ended stored updated e tx TransactionStatus.committed s =
      inr (inl (refl, refl), refl, refl)
  by_status-Ended stored updated e tx TransactionStatus.aborted s =
      inr (inl (refl, refl), refl, refl)

  -- The outcome of a commit, on every path. A commit that succeeds was checked, has all its records
  -- in the log and is no longer active. One that fails for a conflict is aborted and changes nothing
  -- but the set of active transactions. Any other failure leaves the transaction as it was, active
  -- if it was, and has changed tables or storage only if all its records are in the log.
  pub commit-Ended :
      (stored updated : List String) (e : Engine S) (tx : Transaction)
      → Ended e tx (commit store_changes stored updated e tx)
  unfolding commit
  commit-Ended stored updated e tx = by_status-Ended stored updated e tx tx.status refl
