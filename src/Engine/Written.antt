-- ===== src/Engine/Written.antt =====
-- What `with_write_txn` makes of the table that its entries name.
use mathlib.Core.List.{append_assoc, append-nil}
use heliondb.Base.{ℕ, String, true, some, List, [], ◌∷◌, ◌++◌, ◌≡◌, refl, sym, ap, ◌∙◌, any}
use heliondb.Base.Text.{str_eq}
use heliondb.Error.{Result, ok}
use heliondb.Table.{Table}
use heliondb.Table.Write.{WriteEntry}
use heliondb.Mvcc.{Transaction, add_write, begin_transaction}
use heliondb.Mvcc.WriteSet.{Change, changes_for, apply_changes}
use heliondb.Mvcc.WriteSet.Rows.{apply_write_set-one}
use heliondb.Wal.Recovery.{table_at}
use heliondb.Engine.Installed.{chains_at, expected}
use heliondb.Engine.Chains.{commit-chains}
use heliondb.Engine.{Engine, snapshot_of, begin, commit, add_writes, with_write_txn}

add_writes-fields :
    (tx : Transaction) (entries : List WriteEntry)
    → ((add_writes tx entries).write_set ≡ tx.write_set ++ entries)
      × ((add_writes tx entries).tx_id ≡ tx.tx_id)
unfolding add_writes
add_writes-fields tx [] = (sym (append-nil tx.write_set), refl)
add_writes-fields tx (e ∷ entries) =
    let (w, i) = add_writes-fields (add_write tx e) entries in
    (w ∙ append_assoc tx.write_set (e ∷ []) entries, i)

expected-one :
    (updated : List String) (tx : Transaction) (tables : List Table) (name : String) (t : Table)
    (entry : WriteEntry) (entries : List WriteEntry)
    → tx.write_set ≡ entry ∷ entries
    → str_eq entry.table_name name ≡ true
    → any (λ n. str_eq n name) updated ≡ true
    → snapshot_of tables name ≡ some t
    → table_at tables name ≡ some t
    → expected updated tx tables name
      ≡ some (
          apply_changes tx.tx_id t.version_chains
            (changes_for (snapshot_of tables) tx.tx_id name (entry ∷ entries)))
expected-one updated tx tables name t entry entries w n u s k =
    rw (u, w, k, apply_write_set-one (snapshot_of tables) tx.tx_id name t entry entries n s) refl

module _ {S : Type 0} (store_changes : S → String → List Change → S × Result (Unit {0})) where
  -- The number of the transaction that writes.
  abbrev pub writer_id : Engine S → ℕ
  writer_id e = (begin e).0.tx_id

  -- Entries for one table, which the commit walks over: the changes of the entries are applied to
  -- the chains of this table.
  pub with_write_txn-chains :
      (stored updated : List String) (e g : Engine S) (name : String) (t : Table)
      (entry : WriteEntry) (entries : List WriteEntry)
      → str_eq entry.table_name name ≡ true
      → any (λ n. str_eq n name) updated ≡ true
      → snapshot_of e.tables name ≡ some t
      → table_at e.tables name ≡ some t
      → with_write_txn store_changes stored updated e (ok (entry ∷ entries)) ≡ (g, ok tt)
      → chains_at g.tables name
        ≡ some (
            apply_changes
              (writer_id e)
              t.version_chains
              (changes_for (snapshot_of e.tables) (writer_id e) name (entry ∷ entries)))
  unfolding with_write_txn begin begin_transaction
  with_write_txn-chains stored updated e g name t entry entries n u s k h =
      let tx = add_writes (begin e).0 (entry ∷ entries) in
      let outcome = commit store_changes stored updated (begin e).1 tx in
      let (w, i) = add_writes-fields (begin e).0 (entry ∷ entries) in
      commit-chains store_changes stored updated (begin e).1 g tx outcome.0.1 name
        (ap (λ (o : Engine S × Result (Unit {0})). ((o.0, outcome.0.1), o.1)) h)
      ∙ expected-one updated tx e.tables name t entry entries w n u s k
      ∙ ap
          (λ tx_id. some (
            apply_changes tx_id t.version_chains
              (changes_for (snapshot_of e.tables) tx_id name (entry ∷ entries))))
          i
