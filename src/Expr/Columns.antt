-- ===== src/Expr/Columns.antt =====
-- The columns that an expression reads.
use heliondb.Base.{String}
use heliondb.Expr.Syntax.{
  Expression, Expressions, column, qualified_column, literal, binary_op, unary_op, is_in, between,
  call, nil, cons,
}

module _ (P : String → Type 0) (Q : String → String → Type 0) where
  -- `P` of every plain column of the expression, and `Q` of every qualified one.
  abbrev mutual
    pub EachColumn : Expression → Type 0
    EachColumn (column c) = P c
    EachColumn (qualified_column t c) = Q t c
    EachColumn (literal _) = Unit
    EachColumn (binary_op l _ r) = EachColumn l × EachColumn r
    EachColumn (unary_op _ e) = EachColumn e
    EachColumn (Expression.is_null e) = EachColumn e
    EachColumn (Expression.is_not_null e) = EachColumn e
    EachColumn (is_in e _) = EachColumn e
    EachColumn (between e low high) = EachColumn e × EachColumn low × EachColumn high
    EachColumn (Expression.like e _) = EachColumn e
    EachColumn (call _ args) = EachColumnArgs args

    pub EachColumnArgs : Expressions → Type 0
    EachColumnArgs nil = Unit
    EachColumnArgs (cons e es) = EachColumn e × EachColumnArgs es
