-- ===== src/Plan/Statements.antt =====
-- sql/planner.rs: `plan`, from a statement to its plan.
use heliondb.Base.{ℕ, zero, suc, String, none, some, List, [], ◌∷◌, length, get_elem?, set}
use heliondb.Types.Datum.{Datum}
use heliondb.Types.Column.{Row}
use heliondb.Types.Coerce.{coerce_datum}
use heliondb.Error.{Result, ok, err, ◌>>=◌, column_not_found}
use heliondb.Permissions.{Permission}
use heliondb.Table.{Table, column_index}
use heliondb.Table.Validate.{validate_row}
use heliondb.Expr.Syntax.{HelionStatement, GrantPermissionType}
use heliondb.Expr.Eval.{dotted}
use heliondb.Plan.Syntax.{LogicalPlan}
use heliondb.Plan.Resolve.{find_table, span}
use heliondb.Plan.Select.{plan_select, optimize}

column_number : Table → String → String → Result ℕ
column_number t table_name c = elim (column_index t c) [
  | none ↦ err (column_not_found (dotted table_name c))
  | some i ↦ ok i
]

column_numbers : Table → String → List String → Result (List ℕ)
unfolding column_number
column_numbers t table_name [] = ok []
column_numbers t table_name (c ∷ cs) = do
  i ← column_number t table_name c
  is ← column_numbers t table_name cs
  ok (i ∷ is)

-- All columns where the statement names none.
insert_columns : Table → String → List String → Result (List ℕ)
unfolding column_numbers span
insert_columns t table_name [] = ok (span 0 (length t.columns))
insert_columns t table_name (c ∷ cs) = column_numbers t table_name (c ∷ cs)

nulls : ℕ → List Datum
nulls zero = []
nulls (suc n) = Datum.null ∷ nulls n

permission_of : GrantPermissionType → List String → Permission
permission_of GrantPermissionType.select columns = Permission.select columns
permission_of GrantPermissionType.insert columns = Permission.insert columns
permission_of GrantPermissionType.update columns = Permission.update columns
permission_of GrantPermissionType.delete columns = Permission.delete
permission_of GrantPermissionType.all columns = Permission.all

module _ (get_version_num : List ℕ → ℕ) where
  -- A column number is in range, since it comes from the table.
  coerced_to : Table → ℕ → Datum → Result Datum
  unfolding coerce_datum
  coerced_to t i v = elim (get_elem? t.columns i) [
    | none ↦ ok v
    | some c ↦ coerce_datum get_version_num v c.data_type
  ]

  -- The values go to the columns in order; those beyond the columns are passed over.
  fill_row : Table → List ℕ → List Datum → List Datum → Result (List Datum)
  unfolding coerced_to
  fill_row t [] values full_row = ok full_row
  fill_row t (i ∷ is) [] full_row = ok full_row
  fill_row t (i ∷ is) (v ∷ vs) full_row = do
    d ← coerced_to t i v
    fill_row t is vs (set full_row i d)

  insert_rows : Table → List ℕ → List (List Datum) → Result (List Row)
  unfolding fill_row nulls validate_row
  insert_rows t indices [] = ok []
  insert_rows t indices (values ∷ rest) = do
    full ← fill_row t indices values (nulls (length t.columns))
    let row : Row = record { values = full }
    valid ← validate_row t row
    rows ← insert_rows t indices rest
    ok (row ∷ rows)

  assigned : Table → String → List (String × Datum) → Result (List ℕ × List Datum)
  unfolding column_number coerced_to
  assigned t table_name [] = ok ([], [])
  assigned t table_name ((c, v) ∷ rest) = do
    i ← column_number t table_name c
    d ← coerced_to t i v
    (is, ds) ← assigned t table_name rest
    ok (i ∷ is, d ∷ ds)

  unfoldable pub plan : HelionStatement → List Table → Result LogicalPlan
  unfolding find_table insert_columns insert_rows assigned permission_of plan_select optimize
  plan (HelionStatement.create_table name columns engine) tables =
      ok (LogicalPlan.create_table name columns engine)
  plan (HelionStatement.drop_table name if_exists) tables =
      ok (LogicalPlan.drop_table name if_exists)
  plan (HelionStatement.explain analyze verbose statement) tables =
      ok (LogicalPlan.explain analyze verbose statement)
  plan (HelionStatement.alter_table_engine name engine) tables =
      ok (LogicalPlan.alter_table_engine name engine)
  plan (HelionStatement.insert table_name columns values) tables = do
    t ← find_table tables table_name
    indices ← insert_columns t table_name columns
    rows ← insert_rows t indices values
    ok (LogicalPlan.insert table_name rows)
  plan (HelionStatement.select table_name columns where_clause order_by n offset joins) tables = do
    p ← plan_select table_name columns where_clause order_by n offset joins tables
    ok (optimize get_version_num p tables)
  plan (HelionStatement.update table_name assignments where_clause) tables = do
    t ← find_table tables table_name
    (indices, values) ← assigned t table_name assignments
    ok (LogicalPlan.update table_name indices values where_clause t.columns)
  plan (HelionStatement.delete table_name where_clause) tables = do
    t ← find_table tables table_name
    ok (LogicalPlan.delete table_name where_clause t.columns)
  plan (HelionStatement.create_user username password) tables =
      ok (LogicalPlan.create_user username password)
  plan (HelionStatement.drop_user username if_exists) tables =
      ok (LogicalPlan.drop_user username if_exists)
  plan (HelionStatement.alter_user username password) tables =
      ok (LogicalPlan.alter_user username password)
  plan (HelionStatement.grant username table columns type) tables =
      ok (LogicalPlan.grant username table columns (permission_of type columns))
  plan (HelionStatement.revoke username table columns type) tables =
      ok (LogicalPlan.revoke username table columns (permission_of type columns))
  plan (HelionStatement.create_index name table columns unique if_not_exists) tables = do
    t ← find_table tables table
    ok (LogicalPlan.create_index name table columns unique if_not_exists)
  plan (HelionStatement.drop_index name table if_exists) tables =
      ok (LogicalPlan.drop_index name table if_exists)
  plan HelionStatement.show_tables tables = ok LogicalPlan.show_tables
  plan HelionStatement.show_databases tables = ok LogicalPlan.show_databases
  plan (HelionStatement.use_database name) tables = ok (LogicalPlan.use_database name)
