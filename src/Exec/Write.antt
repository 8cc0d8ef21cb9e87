-- ===== src/Exec/Write.antt =====
-- executor/ops.rs: `execute_as` on insertions, updates and deletions.
pub mod Outcomes
pub mod Seen
pub mod Assigned
pub mod Updated
pub mod Inserted
pub mod Deleted
pub mod Denied
mod Tests
use heliondb.Base.{
  ℕ, zero, suc, ◌+◌, String, Bool, true, Option, none, some, List, [], ◌∷◌, length, map, retain,
  get_elem?, set,
}
use heliondb.Types.Datum.{Datum}
use heliondb.Types.Column.{ColumnMeta, Row}
use heliondb.Error.{Result, ok, err, table_not_found}
use heliondb.Table.{Table, u64_max, row_count, scan_visible}
use heliondb.Table.Write.{WriteOp, WriteEntry}
use heliondb.Mvcc.{Snapshot}
use heliondb.Mvcc.WriteSet.{Change}
use heliondb.Engine.{Engine, with_write_txn}
use heliondb.Engine.Access.{check_insert, check_update, check_delete}
use heliondb.Expr.Syntax.{Expression}
use heliondb.Expr.Functions.{Runtime}
use heliondb.Expr.Eval.{evaluate}
use heliondb.Plan.Indexes.{table_named}
use heliondb.Exec.Filter.{is_true}
use heliondb.Exec.Query.{QueryResult, affecting, Host, read_snapshot, checked_for}

abbrev pub entry : String → ℕ → WriteOp → WriteEntry
entry table_name row_idx operation = record {
  table_name = table_name;
  row_idx = row_idx;
  old_txid_max = u64_max;
  operation = operation;
}

unfoldable pub insert_entries : String → ℕ → List Row → List WriteEntry
insert_entries table_name start_idx [] = []
insert_entries table_name start_idx (row ∷ rows) =
    entry table_name start_idx (WriteOp.insert row) ∷ insert_entries table_name (suc start_idx) rows

-- No WHERE clause takes every row.
unfoldable pub selects : Runtime → Option Expression → List ColumnMeta → ℕ × Row → Bool
unfolding evaluate
selects rt none columns (i, row) = true
selects rt (some wc) columns (i, row) = is_true (evaluate rt wc row.values columns)

-- The numbers and the values go together; a column beyond the row, where the code would stop, does
-- not come out of the planner.
unfoldable pub assign : List ℕ → List Datum → List Datum → List Datum
assign [] values row = row
assign (i ∷ is) [] row = row
assign (i ∷ is) (v ∷ values) row = assign is values (set row i v)

abbrev pub new_row : List ℕ → List Datum → Row → Row
unfolding assign
new_row indices values row = record { values = assign indices values row.values }

abbrev pub update_entry : String → List ℕ → List Datum → ℕ × Row → WriteEntry
update_entry table_name indices values (i, row) =
    entry table_name i (WriteOp.update (new_row indices values row))

abbrev pub delete_entry : String → ℕ × Row → WriteEntry
delete_entry table_name (i, row) = entry table_name i WriteOp.delete

-- `table_columns[i].name` of the columns that an update sets.
pub column_names : List ColumnMeta → List ℕ → List String
column_names columns [] = []
column_names columns (i ∷ is) =
    let rest = column_names columns is in
    elim (get_elem? columns i) [ none ↦ rest | some c ↦ c.name ∷ rest ]

-- The names that an insertion is checked for: an empty one for each value of the first row.
pub blank_names : List Row → List String
blank_names [] = []
blank_names (row ∷ rows) = map (λ _. "") row.values

abbrev pub reply {ℓ} : {E : Type ℓ} → ℕ → E × Result (Unit {0}) → E × Result QueryResult
reply n (e, ok _) = (e, ok (affecting n))
reply n (e, err x) = (e, err x)

-- `?` on a check that changes nothing.
abbrev pub after {ℓ} :
    {E : Type ℓ} → Result (Unit {0}) → E → E × Result QueryResult → E × Result QueryResult
after (ok _) e next = next
after (err x) e next = (e, err x)

-- The rows that the WHERE clause selects from a snapshot that is taken for it.
abbrev pub selected :
    Runtime → Snapshot → Table → Option Expression → List ColumnMeta → List (ℕ × Row)
unfolding selects scan_visible
selected rt snapshot t where_clause columns =
    retain (selects rt where_clause columns) (scan_visible t snapshot.txid snapshot.active)

-- `stored` and `updated` are the orders of the two hash maps of the commit.
module _ {S : Type 0} (host : Host)
    (store_changes : S → String → List Change → S × Result (Unit {0}))
    (stored updated : List String) where
  abbrev pub commit_entries : Engine S → List WriteEntry → Engine S × Result (Unit {0})
  unfolding with_write_txn
  commit_entries e entries = with_write_txn store_changes stored updated e (ok entries)

  -- Without entries there is no transaction.
  unfoldable pub write_entries : Engine S → List WriteEntry → Engine S × Result QueryResult
  write_entries e [] = (e, ok (affecting 0))
  write_entries e (entry ∷ entries) =
      reply (length (entry ∷ entries)) (commit_entries e (entry ∷ entries))

  unfoldable insert_into :
      Engine S → String → List Row → Option Table → Engine S × Result QueryResult
  unfolding insert_entries
  insert_into e table_name rows none = (e, err (table_not_found table_name))
  insert_into e table_name rows (some t) =
      reply (length rows) (commit_entries e (insert_entries table_name (row_count t) rows))

  unfoldable pub execute_insert :
      Engine S → Option String → String → List Row → Engine S × Result QueryResult
  unfolding check_insert insert_into blank_names
  execute_insert e current_user table_name rows =
      after
        (checked_for current_user
          (λ user. check_insert host.runtime.to_lowercase e user table_name (blank_names rows)))
        e (insert_into e table_name rows (table_named e.tables table_name))

  unfoldable pub change_selected :
      (ℕ × Row → WriteEntry)
      → Engine S
      → String
      → Option Expression
      → List ColumnMeta
      → Option Table
      → Engine S × Result QueryResult
  unfolding read_snapshot write_entries selected
  change_selected f e table_name where_clause columns none = (e, err (table_not_found table_name))
  change_selected f e table_name where_clause columns (some t) =
      let (snapshot, e') = read_snapshot host e in
      write_entries e' (map f (selected host.runtime snapshot t where_clause columns))

  unfoldable pub execute_update :
      Engine S
      → Option String
      → String
      → List ℕ
      → List Datum
      → Option Expression
      → List ColumnMeta
      → Engine S × Result QueryResult
  unfolding check_update change_selected column_names
  execute_update e current_user table_name set_indices set_values where_clause columns =
      after
        (checked_for current_user (λ user.
          check_update host.runtime.to_lowercase e user table_name
            (column_names columns set_indices)))
        e
        (change_selected (update_entry table_name set_indices set_values) e table_name where_clause
          columns (table_named e.tables table_name))

  unfoldable pub execute_delete :
      Engine S
      → Option String
      → String
      → Option Expression
      → List ColumnMeta
      → Engine S × Result QueryResult
  unfolding check_delete change_selected
  execute_delete e current_user table_name where_clause columns =
      after
        (checked_for current_user
          (λ user. check_delete host.runtime.to_lowercase e user table_name))
        e
        (change_selected (delete_entry table_name) e table_name where_clause columns
          (table_named e.tables table_name))
