-- ===== src/Exec/Write/Denied.antt =====
-- executor/ops.rs: writes by users without the permission.
use heliondb.Base.{ℕ, String, false, Option, some, List, [], ◌∷◌, ◌≡◌, refl, map, All}
use heliondb.Types.Datum.{Datum}
use heliondb.Types.Column.{ColumnMeta, Row}
use heliondb.Error.{Result, err, permission_denied}
use heliondb.Permissions.{Permission, has_any}
use heliondb.Permissions.Laws.{perms}
use heliondb.Permissions.Denied.{IsNamed, has_any-false, can_insert-blank}
use heliondb.Mvcc.WriteSet.{Change}
use heliondb.Engine.{Engine}
use heliondb.Engine.Access.{denied, denied_delete, check_insert, check_update, check_delete}
use heliondb.Expr.Syntax.{Expression}
use heliondb.Exec.Query.{Host}
use heliondb.Exec.Write.{blank_names, column_names, execute_insert, execute_update, execute_delete}

module _ {S : Type 0} (host : Host)
    (store_changes : S → String → List Change → S × Result (Unit {0}))
    (stored updated : List String) (e : Engine S) (user name : String) where
  -- A user who has no permission on a table cannot insert, update or delete in it: each statement
  -- is refused with its error, before the table is looked up, and changes nothing.
  pub unpermitted_writes :
      (rows : List Row) (indices : List ℕ) (values : List Datum) (where_clause : Option Expression)
      (columns : List ColumnMeta)
      → has_any host.runtime.to_lowercase e.permissions user name ≡ false
      → (execute_insert host store_changes stored updated e (some user) name rows
          ≡ (e, err (permission_denied (denied "INSERT" user name (blank_names rows)))))
        × (execute_update host store_changes stored updated e
              (some user)
              name
              indices
              values
              where_clause
              columns
            ≡ (
              e,
              err (permission_denied (denied "UPDATE" user name (column_names columns indices))),
            ))
        × (execute_delete host store_changes stored updated e (some user) name where_clause columns
            ≡ (e, err (permission_denied (denied_delete user name))))
  unfolding execute_insert execute_update execute_delete check_insert check_update check_delete
  unpermitted_writes rows indices values where_clause columns h = (
    rw (has_any-false host.runtime.to_lowercase e.permissions user name (blank_names rows) h).0
        refl,
    rw
        (has_any-false host.runtime.to_lowercase e.permissions user name
          (column_names columns indices) h).1
        refl,
    rw (has_any-false host.runtime.to_lowercase e.permissions user name [] h).2 refl,
  )

  -- A user whose one permission on a table is to insert named columns cannot insert into it: a row
  -- with a value is refused, whatever the columns, since no name of a column reaches the check.
  pub column_insert_refused :
      (g : String) (granted : List String) (value : Datum) (values : List Datum) (rows : List Row)
      → perms host.runtime.to_lowercase e.permissions user name
        ≡ Permission.insert (g ∷ granted) ∷ []
      → All IsNamed (g ∷ granted)
      → execute_insert host store_changes stored updated e
          (some user)
          name
          (record { values = value ∷ values } ∷ rows)
        ≡ (
          e,
          err (
              permission_denied (
                denied "INSERT" user name
                  (blank_names (record { values = value ∷ values } ∷ rows)))),
        )
  unfolding execute_insert check_insert blank_names
  column_insert_refused g granted value values rows h n =
      rw
        (can_insert-blank host.runtime.to_lowercase e.permissions user name g granted
          (map (λ _. "") values) h n)
        refl
