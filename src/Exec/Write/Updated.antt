-- ===== src/Exec/Write/Updated.antt =====
-- executor/ops.rs: what an update that succeeds has done.
use heliondb.Base.{
  ℕ, ◌≤◌, String, true, false, Option, some, List, [], ◌∷◌, ◌≡◌, refl, sym, ap, ◌∙◌, any, length,
  map,
}
use heliondb.Base.NatSet.{NatSet, contains}
use heliondb.Base.Text.{str_eq, str_eq_iff}
use heliondb.Types.Datum.{Datum}
use heliondb.Types.Column.{ColumnMeta, Row}
use heliondb.Error.{Result, ok}
use heliondb.Table.{Table, get_visible_version}
use heliondb.Table.Visible.{row_at, row_of}
use heliondb.Mvcc.WriteSet.{Change, apply_changes}
use heliondb.Wal.Recovery.{table_at}
use heliondb.Engine.{Engine, begin, snapshot_of}
use heliondb.Engine.Access.{check_update}
use heliondb.Engine.Installed.{chains_of, chains_at}
use heliondb.Engine.Written.{writer_id, with_write_txn-chains}
use heliondb.Expr.Syntax.{Expression}
use heliondb.Plan.Indexes.{table_named}
use heliondb.Exec.Query.{QueryResult, Host, read_snapshot, checked_for}
use heliondb.Exec.Write.{
  update_entry, write_entries, commit_entries, change_selected, execute_update, column_names,
}
use heliondb.Exec.Write.Outcomes.{
  reply_ok, after_ok, length-map, chains_found, affected-none, change_id, rows_to_change,
  rows_to_change-Within,
}
use heliondb.Exec.Write.Assigned.{Updated, updated_row-Updated}
use heliondb.Exec.Write.Seen.{update_change, changes_for-updates, seen_row}

module _ {S : Type 0} (host : Host)
    (store_changes : S → String → List Change → S × Result (Unit {0}))
    (stored updated : List String) (name : String) (indices : List ℕ) (values : List Datum) where
  updates-chains :
      (e g : Engine S) (t : Table) (rows : List (ℕ × Row)) (r : QueryResult)
      → any (λ n. str_eq n name) updated ≡ true
      → snapshot_of e.tables name ≡ some t
      → table_at e.tables name ≡ some t
      → write_entries host store_changes stored updated e
          (map (update_entry name indices values) rows)
        ≡ (g, ok r)
      → (chains_at g.tables name
          ≡ some (
              apply_changes
                (writer_id store_changes e)
                t.version_chains
                (map (update_change (writer_id store_changes e) indices values) rows)))
        × (r.rows_affected ≡ length rows)
  unfolding write_entries apply_changes heliondb.Engine.with_write_txn
  updates-chains e g t [] r u s k h = (
    ap (λ (q : Engine S × Result QueryResult). chains_at q.0.tables name) (sym h) ∙ ap chains_of k,
    affected-none e g r h,
  )
  updates-chains e g t (row ∷ rows) r u s k h =
      let entries = map (update_entry name indices values) (row ∷ rows) in
      let (done, count) =
        reply_ok (length entries) (commit_entries host store_changes stored updated e entries) g r
          h in
      (
        with_write_txn-chains store_changes stored updated e g name t
              (update_entry name indices values row) (map (update_entry name indices values) rows)
              ((str_eq_iff name name).1 refl) u s k done
            ∙ ap
                (λ changes.
                  some (apply_changes (writer_id store_changes e) t.version_chains changes))
                (changes_for-updates (snapshot_of e.tables) (writer_id store_changes e) name indices
                  values (row ∷ rows)),
        sym count ∙ length-map (update_entry name indices values) (row ∷ rows),
      )

  -- An update that succeeds, of a table that is the only one of its name and among those that the
  -- commit walks over: every snapshot that is not earlier than the change, and for which the change
  -- was not active, sees each row that the WHERE clause selected with as many columns as before, each
  -- with the last value assigned to it or else its old one, and every other row as it saw it before;
  -- and the result counts the rows that were selected.
  pub execute_update_seen :
      (e g : Engine S) (user : Option String) (where_clause : Option Expression)
      (columns : List ColumnMeta) (t : Table) (r : QueryResult) (i s : ℕ) (active : NatSet)
      → any (λ n. str_eq n name) updated ≡ true
      → snapshot_of e.tables name ≡ some t
      → table_named e.tables name ≡ some t
      → execute_update host store_changes stored updated e user name indices values where_clause
          columns
        ≡ (g, ok r)
      → change_id host store_changes e ≤ s
      → contains active (change_id host store_changes e) ≡ false
      → (t' : Table) × (table_named g.tables name ≡ some t')
        × (r.rows_affected ≡ length (rows_to_change host e t where_clause columns))
        × Updated indices values
            (row_at i (rows_to_change host e t where_clause columns))
            (row_of (get_visible_version t i s active))
            (row_of (get_visible_version t' i s active))
  unfolding execute_update change_selected read_snapshot begin
  execute_update_seen e g user where_clause columns t r i s active u last k h le free =
      let rows = rows_to_change host e t where_clause columns in
      let next =
        change_selected host store_changes stored updated (update_entry name indices values) e name
          where_clause columns in
      let run : next (some t) ≡ (g, ok r) =
        ap next (sym k)
        ∙ after_ok
            (checked_for user (λ name'.
              check_update host.runtime.to_lowercase e name' name (column_names columns indices)))
            e g (next (table_named e.tables name)) r h in
      let (chains, count) = updates-chains (read_snapshot host e).1 g t rows r u last k run in
      let (t', found, made) = chains_found (table_at g.tables name) _ chains in
      (
        t',
        found,
        count,
        updated_row-Updated indices values (row_at i rows)
            (row_of (get_visible_version t i s active)) (row_of (get_visible_version t' i s active))
            (seen_row (change_id host store_changes e) s active indices values t t' rows i le free
              (rows_to_change-Within host e t where_clause columns) made),
      )
