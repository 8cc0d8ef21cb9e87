-- ===== src/Expr/Join/Single.antt =====
-- executor/eval.rs: on a single table the two evaluators agree.
use heliondb.Base.{String, true, List, [], ◌∷◌, ◌≡◌, refl, arith}
use heliondb.Base.Text.{eq_ignore_ascii_case}
use heliondb.Types.Datum.{Datum}
use heliondb.Types.Column.{ColumnMeta}
use heliondb.Expr.Syntax.{
  Expression, Expressions, column, qualified_column, literal, binary_op, unary_op, is_in, between,
  call, nil, cons,
}
use heliondb.Expr.Columns.{EachColumn, EachColumnArgs}
use heliondb.Expr.Functions.{Runtime}
use heliondb.Expr.Eval.{TableMap, column_at, dotted, evaluate, evaluate_args, found_in}
use heliondb.Expr.Join.{
  evaluate_join, evaluate_join_args, qualified, unqualified, find_column, value_at,
}

-- Every qualified column of the expression names the table.
abbrev pub NamesOnly : String → Expression → Type 0
NamesOnly t e = EachColumn (λ _. Unit) (λ table _. eq_ignore_ascii_case t table ≡ true) e

module _ (rt : Runtime) (t : String) (columns : List ColumnMeta) (row : List Datum) where
  abbrev single : TableMap
  single = (t, 0, columns) ∷ []

  qualified-single :
      (table col : String)
      → eq_ignore_ascii_case t table ≡ true
      → qualified single table col row ≡ found_in (column_at columns col) row (dotted table col)
  unfolding qualified found_in
  qualified-single table col h = ground arith

  unqualified-single :
      (name : String) → unqualified single name row ≡ found_in (column_at columns name) row name
  unfolding unqualified find_column value_at found_in
  unqualified-single name = ground arith

  mutual
    unfolding evaluate evaluate_join

    single_lem :
        (e : Expression) → NamesOnly t e → evaluate_join rt e row single ≡ evaluate rt e row columns
    single_lem (column name) h = unqualified-single name
    single_lem (qualified_column table col) h = qualified-single table col h
    single_lem (literal d) h = refl
    single_lem (binary_op l op r) h = rw (single_lem l h.0, single_lem r h.1)
    single_lem (unary_op op e) h = rw (single_lem e h)
    single_lem (Expression.is_null e) h = rw (single_lem e h)
    single_lem (Expression.is_not_null e) h = rw (single_lem e h)
    single_lem (is_in e list) h = rw (single_lem e h)
    single_lem (between e low high) h =
        rw (single_lem e h.0, single_lem low h.1, single_lem high h.2)
    single_lem (Expression.like e pattern) h = rw (single_lem e h)
    single_lem (call name args) h = rw (single_lem_args args h)

    single_lem_args :
        (es : Expressions)
        → EachColumnArgs (λ _. Unit) (λ table _. eq_ignore_ascii_case t table ≡ true) es
        → evaluate_join_args rt es row single ≡ evaluate_args rt es row columns
    single_lem_args nil h = refl
    single_lem_args (cons e es) h = rw (single_lem e h.0, single_lem_args es h.1)

-- The row of one table: where every qualified column names the table, the evaluation for joins
-- gives what the evaluation on the row gives, the errors included.
pub evaluate_join-single :
    (rt : Runtime) (t : String) (columns : List ColumnMeta) (row : List Datum) (e : Expression)
    → NamesOnly t e
    → evaluate_join rt e row ((t, 0, columns) ∷ []) ≡ evaluate rt e row columns
evaluate_join-single rt t columns row e h = single_lem rt t columns row e h
