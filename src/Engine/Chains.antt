-- ===== src/Engine/Chains.antt =====
-- What a commit that succeeds has made of the tables.
use heliondb.Base.{
  ℕ, String, Option, none, some, List, [], ◌∷◌, ◌≡◌, refl, sym, ap, subst, ◌∙◌, arith,
  if◌then◌else◌, any,
}
use heliondb.Base.Text.{str_eq}
use heliondb.Error.{Result, ok, err}
use heliondb.Table.{Table, Chain}
use heliondb.Mvcc.{Transaction, TransactionStatus, Tables, check_conflicts}
use heliondb.Mvcc.WriteSet.{Change, changes_for, apply_write_set}
use heliondb.Wal.Recovery.{commit_records, table_at, table_at-change}
use heliondb.Engine.Commit.{Appended, append_records-Appended}
use heliondb.Engine.{
  Engine, and_then, snapshot_of, check_entries, install, append_records, store_tables, update_table,
  update_tables, finish, write_all, checked, by_status, commit,
}
use heliondb.Engine.Installed.{
  install-chains, chains_of, chains_at, replaced, expected, chains_of-changed, after_one,
}

then_ok {ℓ} :
    {S : Type ℓ} (o : S × Result (Unit {0})) (next : S → S × Result (Unit {0})) (f : S)
    → and_then o next ≡ (f, ok tt)
    → (g : S) × (o ≡ (g, ok tt)) × (next g ≡ (f, ok tt))
then_ok (g, ok _) next f h = (g, refl, h)
then_ok (g, err x) next f h = absurd (cc h)

tables_then :
    {S : Type 0} (e : Engine S) (o : Engine S × Result (Unit {0}))
    (next : Engine S → Engine S × Result (Unit {0}))
    → o.0.tables ≡ e.tables
    → ((f : Engine S) → (next f).0.tables ≡ f.tables)
    → (and_then o next).0.tables ≡ e.tables
tables_then e (f, ok _) next h k = k f ∙ h
tables_then e (f, err x) next h k = h

module _ {S : Type 0} (store_changes : S → String → List Change → S × Result (Unit {0})) where
  update_table-chains :
      (snapshot : Tables) (tx : Transaction) (name other : String) (chains : Option (List Chain))
      (e : Engine S)
      → chains_at (update_table store_changes snapshot tx name chains e).0.tables other ≡ (
          if str_eq name other
          then replaced chains (chains_at e.tables other)
          else chains_at e.tables other)
  unfolding update_table
  update_table-chains snapshot tx name other none e = ground arith
  update_table-chains snapshot tx name other (some chains) e =
      let f = λ (t : Table). (install snapshot name tx.write_set chains t).0 in
      ap chains_of (
        table_at-change name other f e.tables
          (λ t. (install-chains snapshot name tx.write_set chains t).0))
      ∙ chains_of-changed f chains (str_eq name other) (table_at e.tables other)
          (λ t. (install-chains snapshot name tx.write_set chains t).1)

  update_tables-chains :
      (snapshot : Tables) (tx : Transaction) (other : String) (names : List String) (e f : Engine S)
      → update_tables store_changes snapshot tx names e ≡ (f, ok tt)
      → chains_at f.tables other ≡ (
          if any (λ n. str_eq n other) names
          then replaced
              (apply_write_set tx.write_set snapshot tx.tx_id other)
              (chains_at e.tables other)
          else chains_at e.tables other)
  unfolding update_tables
  update_tables-chains snapshot tx other [] e f h =
      ap (λ (q : Engine S × Result (Unit {0})). chains_at q.0.tables other) (sym h)
  update_tables-chains snapshot tx other (name ∷ names) e f h =
      let (g, first, rest) =
        then_ok
          (update_table store_changes snapshot tx name
            (apply_write_set tx.write_set snapshot tx.tx_id name) e)
          (update_tables store_changes snapshot tx names) f h in
      update_tables-chains snapshot tx other names g f rest
      ∙ after_one (apply_write_set tx.write_set snapshot tx.tx_id) name other
          (any (λ n. str_eq n other) names) (chains_at e.tables other) (chains_at g.tables other)
          (ap (λ (q : Engine S × Result (Unit {0})). chains_at q.0.tables other) (sym first)
            ∙ update_table-chains snapshot tx name other
                (apply_write_set tx.write_set snapshot tx.tx_id name) e)

  store_tables-tables :
      (snapshot : Tables) (tx : Transaction) (names : List String) (e : Engine S)
      → (store_tables store_changes snapshot tx names e).0.tables ≡ e.tables
  unfolding store_tables
  store_tables-tables snapshot tx [] e = refl
  store_tables-tables snapshot tx (name ∷ names) e =
      tables_then e
        (
          record e {
            storage =
                (store_changes e.storage name (changes_for snapshot tx.tx_id name tx.write_set)).0;
          },
          (store_changes e.storage name (changes_for snapshot tx.tx_id name tx.write_set)).1,
        )
        (store_tables store_changes snapshot tx names) refl (store_tables-tables snapshot tx names)

  written-chains :
      (stored updated : List String) (e f : Engine S) (tx : Transaction) (other : String)
      → write_all store_changes stored updated e tx ≡ (f, ok tt)
      → chains_at f.tables other ≡ expected updated tx e.tables other
  unfolding write_all
  written-chains stored updated e f tx other h =
      let snapshot = snapshot_of e.tables in
      let records = commit_records tx.tx_id tx.write_set in
      let (logged, appended, h1) =
        then_ok (append_records e records)
          (λ g.
            and_then (store_tables store_changes snapshot tx stored g)
              (update_tables store_changes snapshot tx updated))
          f h in
      let (saved, stores, h2) =
        then_ok (store_tables store_changes snapshot tx stored logged)
          (update_tables store_changes snapshot tx updated) f h1 in
      let same : saved.tables ≡ e.tables =
        ap (λ (q : Engine S × Result (Unit {0})). q.0.tables) (sym stores)
        ∙ store_tables-tables snapshot tx stored logged
        ∙ (subst (Appended e records) appended
            (append_records-Appended store_changes records e)).0.0 in
      update_tables-chains snapshot tx other updated saved f h2
      ∙ ap
          (λ (tables : List Table).
            if any (λ n. str_eq n other) updated
            then replaced (apply_write_set tx.write_set snapshot tx.tx_id other)
                (chains_at tables other)
            else chains_at tables other)
          same

  finished :
      (e f : Engine S) (tx ty : Transaction) (o : Engine S × Result (Unit {0}))
      → finish tx o ≡ ((f, ty), ok tt)
      → (g : Engine S) × (o ≡ (g, ok tt)) × (f.tables ≡ g.tables)
  unfolding finish
  finished e f tx ty (g, err x) h = absurd (cc h)
  finished e f tx ty (g, ok _) h =
      (g, refl, ap (λ (q : (Engine S × Transaction) × Result (Unit {0})). q.0.0.tables) (sym h))

  checked-chains :
      (stored updated : List String) (e f : Engine S) (tx ty : Transaction) (other : String)
      (conflicts : Option ℕ) (unique : Result (Unit {0}))
      → checked store_changes stored updated e tx conflicts unique ≡ ((f, ty), ok tt)
      → chains_at f.tables other ≡ expected updated tx e.tables other
  unfolding checked
  checked-chains stored updated e f tx ty other (some t) unique h = absurd (cc h)
  checked-chains stored updated e f tx ty other none (err x) h = absurd (cc h)
  checked-chains stored updated e f tx ty other none (ok _) h =
      let (g, w, same) = finished e f tx ty (write_all store_changes stored updated e tx) h in
      ap (λ (tables : List Table). chains_at tables other) same
      ∙ written-chains stored updated e g tx other w

  by_status-chains :
      (stored updated : List String) (e f : Engine S) (tx ty : Transaction) (other : String)
      (status : TransactionStatus)
      → by_status store_changes stored updated e tx status ≡ ((f, ty), ok tt)
      → chains_at f.tables other ≡ expected updated tx e.tables other
  unfolding by_status
  by_status-chains stored updated e f tx ty other TransactionStatus.in_progress h =
      checked-chains stored updated e f tx ty other (check_conflicts tx (snapshot_of e.tables))
        (check_entries (snapshot_of e.tables) tx.write_set) h
  by_status-chains stored updated e f tx ty other TransactionStatus.committed h = absurd (cc h)
  by_status-chains stored updated e f tx ty other TransactionStatus.aborted h = absurd (cc h)

  -- After a commit that succeeds, every table that it walked over has the chains that the write set
  -- makes of it, and every other table those that it had, in whatever order the tables were taken.
  pub commit-chains :
      (stored updated : List String) (e f : Engine S) (tx ty : Transaction) (other : String)
      → commit store_changes stored updated e tx ≡ ((f, ty), ok tt)
      → chains_at f.tables other ≡ expected updated tx e.tables other
  unfolding commit
  commit-chains stored updated e f tx ty other h =
      by_status-chains stored updated e f tx ty other tx.status h
