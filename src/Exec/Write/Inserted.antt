-- ===== src/Exec/Write/Inserted.antt =====
-- executor/ops.rs: what an insertion that succeeds has done.
use mathlib.Core.List.{append_assoc, append-nil}
use heliondb.Base.{
  ℕ, suc, String, true, Option, none, some, List, [], ◌∷◌, ◌++◌, ◌≡◌, refl, sym, ap, ◌∙◌, any,
  arith, length, length-append, map, get_elem?,
}
use heliondb.Base.Text.{str_eq, str_eq_iff}
use heliondb.Types.Column.{Row}
use heliondb.Error.{Result, ok}
use heliondb.Table.{Table, Chain, new_insert, row_count}
use heliondb.Table.Write.{WriteOp}
use heliondb.Mvcc.{Tables}
use heliondb.Mvcc.WriteSet.{Change, changes_for, write_chain, apply_changes}
use heliondb.Engine.{Engine, snapshot_of}
use heliondb.Engine.Access.{check_insert}
use heliondb.Engine.Installed.{chains_at}
use heliondb.Engine.Written.{writer_id, with_write_txn-chains}
use heliondb.Plan.Indexes.{table_named}
use heliondb.Exec.Query.{QueryResult, Host, checked_for}
use heliondb.Exec.Write.{
  entry, insert_entries, blank_names, insert_into, commit_entries, execute_insert,
}
use heliondb.Exec.Write.Outcomes.{reply_ok, after_ok}

insert_changes : ℕ → ℕ → List Row → List Change
insert_changes tx_id start [] = []
insert_changes tx_id start (row ∷ rows) =
    (start, new_insert tx_id row) ∷ insert_changes tx_id (suc start) rows

changes_for-inserts :
    (tables : Tables) (tx_id start : ℕ) (name : String) (rows : List Row)
    → changes_for tables tx_id name (insert_entries name start rows)
      ≡ insert_changes tx_id start rows
unfolding changes_for heliondb.Mvcc.WriteSet.version_of insert_entries insert_changes
changes_for-inserts tables tx_id start name [] = refl
changes_for-inserts tables tx_id start name (row ∷ rows) = rw ((str_eq_iff name name).1 refl) (
    ap (◌∷◌ (start, new_insert tx_id row)) (changes_for-inserts tables tx_id (suc start) name rows))

get_elem?-length {ℓ} : {A : Type ℓ} (xs : List A) → get_elem? xs (length xs) ≡ none
get_elem?-length [] = refl
get_elem?-length (x ∷ xs) = get_elem?-length xs

-- A new row has one version.
abbrev pub fresh : ℕ → Row → Chain
fresh tx_id row = new_insert tx_id row ∷ []

apply_changes-inserts :
    (tx_id start : ℕ) (chains : List Chain) (rows : List Row)
    → length chains ≡ start
    → apply_changes tx_id chains (insert_changes tx_id start rows)
      ≡ chains ++ map (fresh tx_id) rows
unfolding apply_changes write_chain insert_changes
apply_changes-inserts tx_id start chains [] h = sym (append-nil chains)
apply_changes-inserts tx_id start chains (row ∷ rows) h =
    ap
      (λ found.
        apply_changes tx_id (write_chain tx_id (new_insert tx_id row) chains start found)
          (insert_changes tx_id (suc start) rows))
      (ap (get_elem? chains) (sym h) ∙ get_elem?-length chains)
    ∙ apply_changes-inserts tx_id (suc start) (chains ++ fresh tx_id row ∷ []) rows
        (length-append chains (fresh tx_id row ∷ []) ∙ omega (arith, h))
    ∙ append_assoc chains (fresh tx_id row ∷ []) (map (fresh tx_id) rows)

module _ {S : Type 0} (host : Host)
    (store_changes : S → String → List Change → S × Result (Unit {0}))
    (stored updated : List String) where
  -- An insertion that succeeds, of at least one row into a table that is the only one of its name
  -- and among those that the commit walks over: the table has its rows and then the new ones in
  -- their order, each with one version by the transaction, and the result counts them.
  pub execute_insert-chains :
      (e g : Engine S) (user : Option String) (name : String) (t : Table) (row : Row)
      (rows : List Row) (r : QueryResult)
      → any (λ n. str_eq n name) updated ≡ true
      → snapshot_of e.tables name ≡ some t
      → table_named e.tables name ≡ some t
      → execute_insert host store_changes stored updated e user name (row ∷ rows) ≡ (g, ok r)
      → (chains_at g.tables name
          ≡ some (t.version_chains ++ map (fresh (writer_id store_changes e)) (row ∷ rows)))
        × (r.rows_affected ≡ length (row ∷ rows))
  unfolding execute_insert insert_into commit_entries heliondb.Engine.with_write_txn
  execute_insert-chains e g user name t row rows r u s k h =
      let into = insert_into host store_changes stored updated e name (row ∷ rows) in
      let entries = insert_entries name (row_count t) (row ∷ rows) in
      let run : into (some t) ≡ (g, ok r) =
        ap into (sym k)
        ∙ after_ok
            (checked_for user (λ name'.
              check_insert host.runtime.to_lowercase e name' name (blank_names (row ∷ rows))))
            e g (into (table_named e.tables name)) r h in
      let (done, count) =
        reply_ok (length (row ∷ rows)) (commit_entries host store_changes stored updated e entries)
          g r run in
      (
        with_write_txn-chains store_changes stored updated e g name t
              (entry name (row_count t) (WriteOp.insert row))
              (insert_entries name (suc (row_count t)) rows) ((str_eq_iff name name).1 refl) u s k
              done
            ∙ ap some (
                ap (apply_changes (writer_id store_changes e) t.version_chains) (
                  changes_for-inserts (snapshot_of e.tables) (writer_id store_changes e)
                    (row_count t) name (row ∷ rows))
                ∙ apply_changes-inserts (writer_id store_changes e) (row_count t) t.version_chains
                    (row ∷ rows) refl),
        sym count,
      )
