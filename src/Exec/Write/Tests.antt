-- ===== src/Exec/Write/Tests.antt =====
-- The laws of writes at a concrete engine.
use heliondb.Base.{
  ℕ, ◌≡◌, refl, false, String, Option, none, some, List, [], ◌∷◌, ◌++◌, arith, length, map,
}
use heliondb.Base.HashMap
use heliondb.Base.Text.{eq_ignore_ascii_case}
use heliondb.Base.Int.{pos}
use heliondb.Types.Datum.{Datum, DataType, is_null}
use heliondb.Types.Order.{cmp}
use heliondb.Types.Column
use heliondb.Types.Column.{ColumnMeta, Row}
use heliondb.Error.{Result, ok, err, permission_denied}
use heliondb.Table.{Table, new_insert, get_visible_version}
use heliondb.Table.Visible.{row_at, row_of}
use heliondb.Mvcc.{begin_transaction, check_conflicts}
use heliondb.Mvcc.WriteSet.{apply_write_set}
use heliondb.Wal.Recovery.{commit_records}
use heliondb.Permissions.{Permission, has_any}
use heliondb.MemoryEngine
use heliondb.MemoryEngine.{MemoryEngine}
use heliondb.Engine.{
  Engine, with_write_txn, begin, commit, add_writes, check_entries, append_records, append,
  store_tables, update_tables, get_visible_row,
}
use heliondb.Engine.Access.{denied, denied_delete}
use heliondb.Engine.Installed.{chains_at}
use heliondb.Engine.Written.{writer_id}
use heliondb.Expr.Syntax.{Expression, column, literal, binary_op, BinaryOperator}
use heliondb.Expr.Compare.{compare_datums}
use heliondb.Table.Constraints.{check_unique_constraints, apply_index_changes}
use heliondb.Expr.Samples.{runtime}
use heliondb.Plan.Indexes.{table_named}
use heliondb.Exec.Query.{QueryResult, Host, affecting, read_snapshot}
use heliondb.Exec.Write.{blank_names, column_names, execute_insert, execute_update, execute_delete}
use heliondb.Exec.Write.Outcomes.{change_id, rows_to_change}
use heliondb.Exec.Write.Assigned.{Updated}
use heliondb.Exec.Write.Updated.{execute_update_seen}
use heliondb.Exec.Write.Inserted.{fresh, execute_insert-chains}
use heliondb.Exec.Write.Deleted.{unless_found, execute_delete_seen}
use heliondb.Exec.Write.Denied.{unpermitted_writes, column_insert_refused}

abbrev host : Host
host = record {
  runtime = runtime;
  hash_order = λ t. t;
  needed_order = λ m. m;
  sort_by = λ c rows. rows;
}

abbrev columns : List ColumnMeta
columns = Column.new "id" DataType.integer ∷ Column.new "name" DataType.text ∷ []

abbrev user : ℕ → String → Row
user n name = record { values = Datum.integer (pos n) ∷ Datum.text name ∷ [] }

abbrev users : Table
users = record {
  name = "users";
  columns = columns;
  version_chains = (new_insert 1 (user 1 "ada") ∷ []) ∷ (new_insert 1 (user 2 "bob") ∷ []) ∷ [];
  primary_key_idx = none;
  indexes = [];
}

-- Ada may insert the names of users.
abbrev engine : Engine MemoryEngine
engine = record {
  tables = users ∷ [];
  storage = record { tables = ("users", users) ∷ [] };
  mvcc = record { next_txid = 2; active_txns = 0 ∷ [] };
  log = [];
  users = record { users = [] };
  permissions = record { grants = (("ada", "users"), Permission.insert ("name" ∷ []) ∷ []) ∷ [] };
  torn = false;
  faults = [];
}

abbrev order : List String
order = "users" ∷ []

abbrev id_is_two : Option Expression
id_is_two = some (binary_op (column "id") BinaryOperator.eq (literal (Datum.integer (pos 2))))

abbrev renamed : Engine MemoryEngine × Result QueryResult
renamed =
    execute_update host MemoryEngine.apply_write_set order order engine none "users" (1 ∷ [])
      (Datum.text "eve" ∷ []) id_is_two columns

renamed_ok : renamed ≡ (renamed.0, ok (affecting 1))
unfolding execute_update begin_transaction check_conflicts with_write_txn begin commit add_writes
    check_entries append_records append store_tables update_tables apply_write_set
    check_unique_constraints apply_index_changes MemoryEngine.apply_write_set commit_records
    get_visible_row is_null cmp eq_ignore_ascii_case compare_datums
renamed_ok = refl

change_is_three : change_id host MemoryEngine.apply_write_set engine ≡ 3
unfolding read_snapshot begin begin_transaction
change_is_three = refl

abbrev chosen : List (ℕ × Row)
chosen = rows_to_change host engine users id_is_two columns

execute_update_seen_example :
    (t : Table) × (table_named renamed.0.tables "users" ≡ some t)
    × (1 ≡ length chosen)
    × Updated
        (1 ∷ [])
        (Datum.text "eve" ∷ [])
        (row_at 1 chosen)
        (row_of (get_visible_version users 1 9 (0 ∷ [])))
        (row_of (get_visible_version t 1 9 (0 ∷ [])))
execute_update_seen_example =
    execute_update_seen host MemoryEngine.apply_write_set order order "users" (1 ∷ [])
      (Datum.text "eve" ∷ []) engine renamed.0 none id_is_two columns users (affecting 1) 1 9
      (0 ∷ []) refl refl refl renamed_ok (omega (arith, change_is_three)) (rw change_is_three refl)

abbrev removed : Engine MemoryEngine × Result QueryResult
removed =
    execute_delete host MemoryEngine.apply_write_set order order engine none "users" id_is_two
      columns

removed_ok : removed ≡ (removed.0, ok (affecting 1))
unfolding execute_delete begin_transaction check_conflicts with_write_txn begin commit add_writes
    check_entries append_records append store_tables update_tables apply_write_set
    check_unique_constraints apply_index_changes MemoryEngine.apply_write_set commit_records
    get_visible_row is_null cmp eq_ignore_ascii_case compare_datums
removed_ok = refl

execute_delete_seen_example :
    (t : Table) × (table_named removed.0.tables "users" ≡ some t)
    × (1 ≡ length chosen)
    × (row_of (get_visible_version t 1 9 (0 ∷ []))
        ≡ unless_found (row_at 1 chosen) (row_of (get_visible_version users 1 9 (0 ∷ []))))
execute_delete_seen_example =
    execute_delete_seen host MemoryEngine.apply_write_set order order "users" engine removed.0 none
      id_is_two columns users (affecting 1) 1 9 (0 ∷ []) refl refl refl removed_ok
      (omega (arith, change_is_three)) (rw change_is_three refl)

abbrev added : Engine MemoryEngine × Result QueryResult
added =
    execute_insert host MemoryEngine.apply_write_set order order engine none "users"
      (user 3 "eve" ∷ user 4 "tom" ∷ [])

added_ok : added ≡ (added.0, ok (affecting 2))
unfolding execute_insert begin_transaction check_conflicts with_write_txn begin commit add_writes
    check_entries append_records append store_tables update_tables apply_write_set
    check_unique_constraints apply_index_changes MemoryEngine.apply_write_set commit_records
    get_visible_row is_null cmp eq_ignore_ascii_case compare_datums
added_ok = refl

execute_insert-chains_example :
    (chains_at added.0.tables "users"
      ≡ some (
          users.version_chains
          ++ map
              (fresh (writer_id MemoryEngine.apply_write_set engine))
              (user 3 "eve" ∷ user 4 "tom" ∷ [])))
    × (2 ≡ length (user 3 "eve" ∷ user 4 "tom" ∷ []))
execute_insert-chains_example =
    execute_insert-chains host MemoryEngine.apply_write_set order order engine added.0 none "users"
      users (user 3 "eve") (user 4 "tom" ∷ []) (affecting 2) refl refl refl added_ok

unpermitted_writes_example :
    (execute_insert host MemoryEngine.apply_write_set order order engine
        (some "bob")
        "users"
        (user 3 "eve" ∷ [])
      ≡ (
        engine,
        err (permission_denied (denied "INSERT" "bob" "users" (blank_names (user 3 "eve" ∷ [])))),
      ))
    × (execute_update host MemoryEngine.apply_write_set order order engine
          (some "bob")
          "users"
          (1 ∷ [])
          (Datum.text "eve" ∷ [])
          id_is_two
          columns
        ≡ (
          engine,
          err (permission_denied (denied "UPDATE" "bob" "users" (column_names columns (1 ∷ [])))),
        ))
    × (execute_delete host MemoryEngine.apply_write_set order order engine
          (some "bob")
          "users"
          id_is_two
          columns
        ≡ (engine, err (permission_denied (denied_delete "bob" "users"))))
unfolding has_any HashMap.get
unpermitted_writes_example =
    unpermitted_writes host MemoryEngine.apply_write_set order order engine "bob" "users"
      (user 3 "eve" ∷ []) (1 ∷ []) (Datum.text "eve" ∷ []) id_is_two columns refl

column_insert_refused_example :
    execute_insert host MemoryEngine.apply_write_set order order engine
      (some "ada")
      "users"
      (user 3 "eve" ∷ [])
    ≡ (
      engine,
      err (permission_denied (denied "INSERT" "ada" "users" (blank_names (user 3 "eve" ∷ [])))),
    )
unfolding eq_ignore_ascii_case HashMap.get
column_insert_refused_example =
    column_insert_refused host MemoryEngine.apply_write_set order order engine "ada" "users" "name"
      [] (Datum.integer (pos 3)) (Datum.text "eve" ∷ []) [] refl (refl, tt)
