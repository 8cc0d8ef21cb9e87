-- ===== src/Exec/Write/Deleted.antt =====
-- executor/ops.rs: what a deletion that succeeds has done.
use heliondb.Base.{
  ℕ, suc, ◌≤◌, ◌<◌, String, true, false, Option, none, some, List, [], ◌∷◌, ◌≡◌, refl, sym, ap, ◌∙◌,
  arith, any, length, map, get_elem?, inl,
}
use heliondb.Base.NatSet.{NatSet, contains}
use heliondb.Base.Text.{str_eq, str_eq_iff}
use heliondb.Types.Column.{ColumnMeta, Row}
use heliondb.Error.{Result, ok}
use heliondb.Table.{Table, Chain, RowVersion, new_delete, visible_in, get_visible_version}
use heliondb.Table.Visible.{Within, Within-mono, latest_visible-nil, row_at, row_of}
use heliondb.Table.Chain.{supersede_seen}
use heliondb.Mvcc.{Tables, begin_transaction}
use heliondb.Mvcc.WriteSet.{Change, changes_for, apply_changes, latest, latest_in, last?, deletion}
use heliondb.Mvcc.WriteSet.Rows.{change_at, extended, apply_changes-get, change_below}
use heliondb.Wal.Recovery.{table_at}
use heliondb.Engine.{Engine, begin, snapshot_of}
use heliondb.Engine.Access.{check_delete}
use heliondb.Engine.Installed.{chains_of, chains_at}
use heliondb.Engine.Written.{writer_id, with_write_txn-chains}
use heliondb.Expr.Syntax.{Expression}
use heliondb.Plan.Indexes.{table_named}
use heliondb.Exec.Query.{QueryResult, Host, read_snapshot, checked_for}
use heliondb.Exec.Write.{
  delete_entry, write_entries, commit_entries, change_selected, execute_delete,
}
use heliondb.Exec.Write.Outcomes.{
  reply_ok, after_ok, length-map, chains_found, affected-none, change_id, rows_to_change,
  rows_to_change-Within,
}

-- The tombstones of a list of rows of one table, which copy the latest version of each.
tombstone : ℕ → ℕ → Option RowVersion → List Change → List Change
tombstone tx_id i none rest = rest
tombstone tx_id i (some v) rest = (i, new_delete tx_id v.row) ∷ rest

tombstones : Table → ℕ → List (ℕ × Row) → List Change
unfolding tombstone
tombstones t tx_id [] = []
tombstones t tx_id ((i, row) ∷ rows) =
    tombstone tx_id i (latest_in (some t) i) (tombstones t tx_id rows)

deletion-tombstone :
    (tx_id i : ℕ) (o : Option RowVersion) (rest : List Change)
    → (elim (deletion tx_id o) [ none ↦ rest | some v ↦ (i, v) ∷ rest ]) ≡ tombstone tx_id i o rest
unfolding tombstone
deletion-tombstone tx_id i none rest = refl
deletion-tombstone tx_id i (some v) rest = refl

changes_for-deletes :
    (tables : Tables) (tx_id : ℕ) (name : String) (t : Table) (rows : List (ℕ × Row))
    → tables name ≡ some t
    → changes_for tables tx_id name (map (delete_entry name) rows) ≡ tombstones t tx_id rows
unfolding changes_for heliondb.Mvcc.WriteSet.version_of tombstones
changes_for-deletes tables tx_id name t [] h = refl
changes_for-deletes tables tx_id name t ((i, row) ∷ rows) h =
    rw ((str_eq_iff name name).1 refl, h)
      (deletion-tombstone tx_id i (latest_in (some t) i)
          (changes_for tables tx_id name (map (delete_entry name) rows))
        ∙ ap (tombstone tx_id i (latest_in (some t) i))
            (changes_for-deletes tables tx_id name t rows h))

tombstone-Within :
    (tx_id i l n : ℕ) (o : Option RowVersion) (rest : List Change)
    → l ≤ i
    → i < n
    → Within (suc i) n rest
    → Within l n (tombstone tx_id i o rest)
unfolding tombstone
tombstone-Within tx_id i l n none rest h k w = Within-mono l (suc i) n rest (omega arith) w
tombstone-Within tx_id i l n (some v) rest h k w = (h, k, w)

tombstones-Within :
    (t : Table) (tx_id l n : ℕ) (rows : List (ℕ × Row))
    → Within l n rows
    → Within l n (tombstones t tx_id rows)
unfolding tombstones
tombstones-Within t tx_id l n [] w = tt
tombstones-Within t tx_id l n ((i, row) ∷ rows) w =
    tombstone-Within tx_id i l n (latest_in (some t) i) (tombstones t tx_id rows) w.0 w.1
      (tombstones-Within t tx_id (suc i) n rows w.2)

-- The tombstone of a row that was found, if it has a version to copy.
abbrev ended : ℕ → Option Row → Option RowVersion → Option RowVersion
ended tx_id none o = none
ended tx_id (some row) o = deletion tx_id o

tombstone_at :
    (tx_id i j n : ℕ) (row : Row) (rows : List (ℕ × Row)) (o now : Option RowVersion)
    (rest : List Change)
    → Within (suc j) n rest
    → (j ≡ i → o ≡ now)
    → change_at i rest ≡ ended tx_id (row_at i rows) now
    → change_at i (tombstone tx_id j o rest) ≡ ended tx_id (row_at i ((j, row) ∷ rows)) now
unfolding tombstone
tombstone_at tx_id i j n row rows none now rest w e h =
    ground (arith, change_below i (suc j) n rest)
tombstone_at tx_id i j n row rows (some v) now rest w e h = ground arith

tombstones_at :
    (t : Table) (tx_id i l n : ℕ) (rows : List (ℕ × Row))
    → Within l n rows
    → change_at i (tombstones t tx_id rows) ≡ ended tx_id (row_at i rows) (latest_in (some t) i)
unfolding tombstones
tombstones_at t tx_id i l n [] w = refl
tombstones_at t tx_id i l n ((j, row) ∷ rows) w =
    tombstone_at tx_id i j n row rows (latest_in (some t) j) (latest_in (some t) i)
      (tombstones t tx_id rows) (tombstones-Within t tx_id (suc j) n rows w.2)
      (λ e. ap (latest_in (some t)) e) (tombstones_at t tx_id i (suc j) n rows w.2)

-- A deleted row is not there, and any other as it was.
abbrev pub unless_found : Option Row → Option Row → Option Row
unless_found none old = old
unless_found (some row) old = none

last?-none : (c : Chain) → last? c ≡ none → c ≡ []
last?-none [] h = refl
last?-none (v ∷ []) h = absurd (cc h)
last?-none (v ∷ w ∷ c) h = absurd (cc (last?-none (w ∷ c) h))

module _ (tx_id s : ℕ) (active : NatSet) where
  seen_tombstone :
      (c : Chain) (o : Option RowVersion)
      → tx_id ≤ s
      → contains active tx_id ≡ false
      → last? c ≡ o
      → row_of (visible_in (extended tx_id (deletion tx_id o) (some c)) s active) ≡ none
  unfolding visible_in
  seen_tombstone c none le free h = rw (last?-none c h) (ap row_of (latest_visible-nil s active))
  seen_tombstone c (some v) le free h =
      supersede_seen c (new_delete tx_id v.row) s active refl le (inl free)

  seen_end :
      (found : Option Row) (c : Option Chain)
      → tx_id ≤ s
      → contains active tx_id ≡ false
      → row_of (visible_in (extended tx_id (ended tx_id found (latest c)) c) s active)
        ≡ unless_found found (row_of (visible_in c s active))
  unfolding visible_in
  seen_end none c le free = refl
  seen_end (some row) none le free = refl
  seen_end (some row) (some c) le free = seen_tombstone c (last? c) le free refl

  seen_row :
      (t t' : Table) (rows : List (ℕ × Row)) (i : ℕ)
      → tx_id ≤ s
      → contains active tx_id ≡ false
      → Within 0 (length t.version_chains) rows
      → t'.version_chains ≡ apply_changes tx_id t.version_chains (tombstones t tx_id rows)
      → row_of (get_visible_version t' i s active)
        ≡ unless_found (row_at i rows) (row_of (get_visible_version t i s active))
  unfolding get_visible_version
  seen_row t t' rows i le free w h =
      ap (λ chains. row_of (visible_in (get_elem? chains i) s active)) h
      ∙ ap (λ c. row_of (visible_in c s active))
          (apply_changes-get tx_id 0 (length t.version_chains) i t.version_chains
              (tombstones t tx_id rows) refl
              (tombstones-Within t tx_id 0 (length t.version_chains) rows w)
            ∙ ap (λ v. extended tx_id v (get_elem? t.version_chains i))
                (tombstones_at t tx_id i 0 (length t.version_chains) rows w))
      ∙ seen_end (row_at i rows) (get_elem? t.version_chains i) le free

module _ {S : Type 0} (host : Host)
    (store_changes : S → String → List Change → S × Result (Unit {0}))
    (stored updated : List String) (name : String) where
  deletes-chains :
      (e g : Engine S) (t : Table) (rows : List (ℕ × Row)) (r : QueryResult)
      → any (λ n. str_eq n name) updated ≡ true
      → snapshot_of e.tables name ≡ some t
      → table_at e.tables name ≡ some t
      → write_entries host store_changes stored updated e (map (delete_entry name) rows) ≡ (g, ok r)
      → (chains_at g.tables name
          ≡ some (
              apply_changes
                (writer_id store_changes e)
                t.version_chains
                (tombstones t (writer_id store_changes e) rows)))
        × (r.rows_affected ≡ length rows)
  unfolding write_entries tombstones apply_changes heliondb.Engine.with_write_txn
  deletes-chains e g t [] r u s k h = (
    ap (λ (q : Engine S × Result QueryResult). chains_at q.0.tables name) (sym h) ∙ ap chains_of k,
    affected-none e g r h,
  )
  deletes-chains e g t ((i, row) ∷ rows) r u s k h =
      let entries = map (delete_entry name) ((i, row) ∷ rows) in
      let (done, count) =
        reply_ok (length entries) (commit_entries host store_changes stored updated e entries) g r
          h in
      (
        with_write_txn-chains store_changes stored updated e g name t (delete_entry name (i, row))
              (map (delete_entry name) rows) ((str_eq_iff name name).1 refl) u s k done
            ∙ ap
                (λ changes.
                  some (apply_changes (writer_id store_changes e) t.version_chains changes))
                (changes_for-deletes (snapshot_of e.tables) (writer_id store_changes e) name t
                  ((i, row) ∷ rows) s),
        sym count ∙ length-map (delete_entry name) ((i, row) ∷ rows),
      )

  -- A deletion that succeeds, in a table that is the only one of its name and among those that the
  -- commit walks over: every snapshot that is not earlier than the change, and for which the change
  -- was not active, sees none of the rows that the WHERE clause selected, and every other row as it
  -- saw it before; and the result counts the rows that were selected.
  pub execute_delete_seen :
      (e g : Engine S) (user : Option String) (where_clause : Option Expression)
      (columns : List ColumnMeta) (t : Table) (r : QueryResult) (i s : ℕ) (active : NatSet)
      → any (λ n. str_eq n name) updated ≡ true
      → snapshot_of e.tables name ≡ some t
      → table_named e.tables name ≡ some t
      → execute_delete host store_changes stored updated e user name where_clause columns
        ≡ (g, ok r)
      → change_id host store_changes e ≤ s
      → contains active (change_id host store_changes e) ≡ false
      → (t' : Table) × (table_named g.tables name ≡ some t')
        × (r.rows_affected ≡ length (rows_to_change host e t where_clause columns))
        × (row_of (get_visible_version t' i s active)
            ≡ unless_found
                (row_at i (rows_to_change host e t where_clause columns))
                (row_of (get_visible_version t i s active)))
  unfolding execute_delete change_selected read_snapshot begin
  execute_delete_seen e g user where_clause columns t r i s active u last k h le free =
      let rows = rows_to_change host e t where_clause columns in
      let next =
        change_selected host store_changes stored updated (delete_entry name) e name where_clause
          columns in
      let run : next (some t) ≡ (g, ok r) =
        ap next (sym k)
        ∙ after_ok (checked_for user (λ name'. check_delete host.runtime.to_lowercase e name' name))
            e g (next (table_named e.tables name)) r h in
      let (chains, count) = deletes-chains (read_snapshot host e).1 g t rows r u last k run in
      let (t', found, made) = chains_found (table_at g.tables name) _ chains in
      (
        t',
        found,
        count,
        seen_row (change_id host store_changes e) s active t t' rows i le free
            (rows_to_change-Within host e t where_clause columns) made,
      )
