-- ===== src/Exec/Statements.antt =====
-- executor/ops.rs: `execute_as` on accounts, permissions, indexes and the names of tables.
use heliondb.Base.{
  ℕ, String, Bool, true, false, Option, none, some, List, [], ◌∷◌, if◌then◌else◌, any, map,
  position,
}
use heliondb.Base.Text.{str_eq}
use heliondb.Error.{
  Result, ok, err, ◌>>=◌, table_not_found, index_already_exists, column_not_found, internal, text,
}
use heliondb.Table.{Table}
use heliondb.Table.Indexes.{add_index, drop_index}
use heliondb.Permissions.{Permission}
use heliondb.Wal.{change_table}
use heliondb.Engine.{Engine}
use heliondb.Engine.Accounts
use heliondb.Engine.Ddl
use heliondb.Catalog.{Catalog, StorageEngine, Texts}
use heliondb.Types.Column.{ColumnMeta}
use heliondb.Expr.Eval.{dotted}
use heliondb.Plan.Indexes.{table_named}
use heliondb.Exec.Query.{QueryResult, affecting}
use heliondb.Exec.Write.{reply}

abbrev has_index_named : Table → String → Bool
has_index_named t name = any (λ i. str_eq i.meta.name name) t.indexes

column_indices : Table → String → List String → Result (List ℕ)
column_indices t table_name [] = ok []
column_indices t table_name (c ∷ cs) = elim (position (λ m. str_eq m.name c) t.columns) [
  | none ↦ err (column_not_found (dotted table_name c))
  | some i ↦ (do is ← column_indices t table_name cs; ok (i ∷ is))
]

module _ {S : Type 0} where
  with_table : Engine S → String → ℕ → Result Table → Engine S × Result QueryResult
  unfolding change_table
  with_table e table_name n (err x) = (e, err x)
  with_table e table_name n (ok t) =
      (record e { tables = change_table table_name (λ _. t) e.tables }, ok (affecting n))

  create_on :
      Engine S
      → String
      → String
      → List String
      → Bool
      → Bool
      → Option Table
      → Engine S × Result QueryResult
  unfolding with_table column_indices add_index
  create_on e name table_name columns unique if_not_exists none =
      (e, err (table_not_found table_name))
  create_on e name table_name columns unique if_not_exists (some t) =
      if has_index_named t name
      then (if if_not_exists then (e, ok (affecting 0)) else (e, err (index_already_exists name)))
      else with_table e table_name 1
          (do is ← column_indices t table_name columns; add_index t name is unique)

  unfoldable pub execute_create_index :
      Engine S → String → String → List String → Bool → Bool → Engine S × Result QueryResult
  unfolding create_on
  execute_create_index e name table_name columns unique if_not_exists =
      create_on e name table_name columns unique if_not_exists (table_named e.tables table_name)

  dropped_from : Engine S → String → Bool → Result Table → Engine S × Result QueryResult
  unfolding with_table
  dropped_from e table_name true (err x) = (e, ok (affecting 1))
  dropped_from e table_name false (err x) = (e, err x)
  dropped_from e table_name if_exists (ok t) = with_table e table_name 1 (ok t)

  drop_on : Engine S → String → String → Bool → Option Table → Engine S × Result QueryResult
  unfolding dropped_from drop_index
  drop_on e name table_name true none = (e, ok (affecting 1))
  drop_on e name table_name false none = (e, err (table_not_found table_name))
  drop_on e name table_name if_exists (some t) =
      dropped_from e table_name if_exists (drop_index t name)

  unfoldable pub execute_drop_index :
      Engine S → String → String → Bool → Engine S × Result QueryResult
  unfolding drop_on
  execute_drop_index e name table_name if_exists =
      drop_on e name table_name if_exists (table_named e.tables table_name)

  unfoldable pub execute_show_tables : Engine S → Engine S × Result QueryResult
  execute_show_tables e = (
    e,
    ok (record {
      columns = "table_name" ∷ [];
      column_types = "TEXT" ∷ [];
      rows = map (λ (t : Table). t.name ∷ []) e.tables;
      rows_affected = 0;
    }),
  )

  unfoldable pub execute_show_databases : Engine S → Engine S × Result QueryResult
  execute_show_databases e = (
    e,
    ok (record {
      columns = "database_name" ∷ [];
      column_types = "TEXT" ∷ [];
      rows = ("default" ∷ []) ∷ [];
      rows_affected = 1;
    }),
  )

  unfoldable pub execute_use_database : Engine S → String → Engine S × Result QueryResult
  execute_use_database e name =
      if str_eq name ""
      then (e, err (internal (text "Database name cannot be empty" ∷ [])))
      else (e, ok (affecting 0))

  module _ (hash_password : String → String → Result String)
      (verifies : String → String → Bool) where
    unfoldable pub execute_create_user :
        String → Engine S → String → String → Engine S × Result QueryResult
    unfolding Accounts.create_user
    execute_create_user salt e username password =
        reply 1 (Accounts.create_user hash_password verifies salt e username password)

    unfoldable pub execute_alter_user :
        String → Engine S → String → String → Engine S × Result QueryResult
    unfolding Accounts.alter_user_password
    execute_alter_user salt e username password =
        reply 1 (Accounts.alter_user_password hash_password verifies salt e username password)

  module _ (to_lowercase : String → String) where
    -- With IF EXISTS every error is taken as a missing user.
    user_dropped : Bool → Engine S × Result (Unit {0}) → Engine S × Result QueryResult
    user_dropped if_exists (e, ok _) = (e, ok (affecting 1))
    user_dropped true (e, err x) = (e, ok (affecting 0))
    user_dropped false (e, err x) = (e, err x)

    unfoldable pub execute_drop_user : Engine S → String → Bool → Engine S × Result QueryResult
    unfolding user_dropped Accounts.drop_user
    execute_drop_user e username if_exists =
        user_dropped if_exists (Accounts.drop_user to_lowercase e username)

    unfoldable pub execute_grant :
        Engine S → String → String → Permission → Engine S × Result QueryResult
    unfolding Accounts.grant_permission
    execute_grant e username table permission =
        reply 1 (Accounts.grant_permission to_lowercase e username table permission)

    unfoldable pub execute_revoke :
        Engine S → String → String → Permission → Engine S × Result QueryResult
    unfolding Accounts.revoke_permission
    execute_revoke e username table permission =
        reply 1 (Accounts.revoke_permission to_lowercase e username table permission)

module _ (texts : Texts) {E : Type 0} (ops : StorageEngine E) (to_lowercase : String → String)
    (now : ℕ) where
  unfoldable pub execute_create_table :
      Engine (Catalog E)
      → String
      → List ColumnMeta
      → Option String
      → Engine (Catalog E) × Result QueryResult
  unfolding Ddl.create_table
  execute_create_table e name columns table_engine =
      reply 0 (Ddl.create_table texts ops to_lowercase now e name columns table_engine)

  -- With IF EXISTS a missing table is no error.
  table_dropped :
      Bool → Engine (Catalog E) × Result (Unit {0}) → Engine (Catalog E) × Result QueryResult
  table_dropped if_exists (e, ok _) = (e, ok (affecting 0))
  table_dropped true (e, err (table_not_found t)) = (e, ok (affecting 0))
  table_dropped if_exists (e, err x) = (e, err x)

  unfoldable pub execute_drop_table :
      Engine (Catalog E) → String → Bool → Engine (Catalog E) × Result QueryResult
  unfolding table_dropped Ddl.drop_table
  execute_drop_table e name if_exists =
      table_dropped if_exists (Ddl.drop_table texts ops to_lowercase now e name)

  unfoldable pub execute_alter_table_engine :
      Engine (Catalog E) → String → String → Engine (Catalog E) × Result QueryResult
  unfolding Ddl.alter_table_engine
  execute_alter_table_engine e name engine =
      reply 0 (Ddl.alter_table_engine texts ops to_lowercase now e name engine)
