-- ===== src/Expr/Syntax.antt =====
-- sql/parser.rs: `Expression`, its operators, the parts of a SELECT that hold expressions, and
-- the statements.
use heliondb.Base.{ℕ, String, Bool, Option, List}
use heliondb.Types.Datum.{Datum}
use heliondb.Types.Column.{ColumnMeta}

pub data BinaryOperator : Type 0 where
  eq ne lt le gt ge and or add sub mul div : BinaryOperator

pub data UnaryOperator : Type 0 where
  not neg : UnaryOperator

-- `In`, `Between` and `Like` take the names `is_in`, `between` and `like`. The arguments of a
-- function are a list of expressions.
mutual
  pub data Expression : Type 0 where
    column : String → Expression
    qualified_column : String → String → Expression
    literal : Datum → Expression
    binary_op : Expression → BinaryOperator → Expression → Expression
    unary_op : UnaryOperator → Expression → Expression
    is_null is_not_null : Expression → Expression
    is_in : Expression → List Datum → Expression
    between : Expression → Expression → Expression → Expression
    like : Expression → String → Expression
    call : String → Expressions → Expression

  pub data Expressions : Type 0 where
    nil : Expressions
    cons : Expression → Expressions → Expressions

pub data JoinType : Type 0 where
  inner left right cross : JoinType

pub record JoinClause : Type 0 where
  pub right_table : String
  pub join_type : JoinType
  pub on_clause : Option Expression

pub data SelectColumn : Type 0 where
  wildcard : SelectColumn
  qualified : String → Option String → SelectColumn
  qual_wildcard : String → SelectColumn
  expr : Expression → SelectColumn

pub data OrderByDesc : Type 0 where
  asc desc : OrderByDesc

pub record OrderByExpr : Type 0 where
  pub expr : Expression
  pub direction : OrderByDesc

pub data GrantPermissionType : Type 0 where
  select insert update delete all : GrantPermissionType

-- The fields of a constructor stand in the order of the source.
pub data HelionStatement : Type 0 where
  create_table : String → List ColumnMeta → Option String → HelionStatement
  explain : Bool → Bool → String → HelionStatement
  drop_table : String → Bool → HelionStatement
  alter_table_engine : String → String → HelionStatement
  insert : String → List String → List (List Datum) → HelionStatement
  select :
      String
      → List SelectColumn
      → Option Expression
      → List OrderByExpr
      → Option ℕ
      → Option ℕ
      → List JoinClause
      → HelionStatement
  update : String → List (String × Datum) → Option Expression → HelionStatement
  delete : String → Option Expression → HelionStatement
  create_user : String → String → HelionStatement
  drop_user : String → Bool → HelionStatement
  alter_user : String → String → HelionStatement
  grant revoke : String → String → List String → GrantPermissionType → HelionStatement
  create_index : String → String → List String → Bool → Bool → HelionStatement
  drop_index : String → String → Bool → HelionStatement
  show_tables show_databases : HelionStatement
  use_database : String → HelionStatement
