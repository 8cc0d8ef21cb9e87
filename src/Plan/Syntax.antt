-- ===== src/Plan/Syntax.antt =====
-- sql/planner.rs: `JoinAlgorithm` and `LogicalPlan`.
use heliondb.Base.{ℕ, String, Bool, Option, List}
use heliondb.Types.Datum.{Datum}
use heliondb.Types.Column.{ColumnMeta, Row}
use heliondb.Permissions.{Permission}
use heliondb.Expr.Syntax.{Expression, JoinType, OrderByExpr}

-- The fields of a constructor stand in the order of the source.
pub data JoinAlgorithm : Type 0 where
  nested_loop : Option Expression → JoinAlgorithm
  index_nested_loop : String → List ColumnMeta → String → List ℕ → Option Expression → JoinAlgorithm
  hash_join : Bool → List ℕ → List ℕ → Option Expression → JoinAlgorithm

pub data LogicalPlan : Type 0 where
  table_scan :
      String
      → List ColumnMeta
      → Option Expression
      → Option String
      → Option (List Datum)
      → LogicalPlan
  join : LogicalPlan → LogicalPlan → JoinType → JoinAlgorithm → LogicalPlan
  filter : LogicalPlan → Expression → LogicalPlan
  projection : LogicalPlan → List ℕ → List (String × List ColumnMeta) → LogicalPlan
  sort : LogicalPlan → List OrderByExpr → LogicalPlan
  limit : LogicalPlan → ℕ → ℕ → LogicalPlan
  create_table : String → List ColumnMeta → Option String → LogicalPlan
  explain : Bool → Bool → String → LogicalPlan
  drop_table : String → Bool → LogicalPlan
  alter_table_engine : String → String → LogicalPlan
  insert : String → List Row → LogicalPlan
  update : String → List ℕ → List Datum → Option Expression → List ColumnMeta → LogicalPlan
  delete : String → Option Expression → List ColumnMeta → LogicalPlan
  create_user : String → String → LogicalPlan
  drop_user : String → Bool → LogicalPlan
  alter_user : String → String → LogicalPlan
  grant revoke : String → String → List String → Permission → LogicalPlan
  create_index : String → String → List String → Bool → Bool → LogicalPlan
  drop_index : String → String → Bool → LogicalPlan
  show_tables show_databases : LogicalPlan
  use_database : String → LogicalPlan
