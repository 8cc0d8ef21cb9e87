-- ===== src/Plan/Tests.antt =====
-- The laws of the planner at concrete statements.
use heliondb.Base.{
  ℕ, Bool, ◌<◌, ◌≡◌, ◌&&◌, refl, true, false, not, List, [], ◌∷◌, some, none, String, arith, All,
  retain,
}
use heliondb.Base.Int.{pos}
use heliondb.Types.Datum.{Datum, DataType, is_null}
use heliondb.Types.Column
use heliondb.Types.Column.{ColumnMeta}
use heliondb.Expr.Syntax.{Expression, column, literal, binary_op, BinaryOperator, SelectColumn}
use heliondb.Expr.Samples.{runtime, user_columns, ada}
use heliondb.Expr.Eval.{TableMap}
use heliondb.Expr.Join.{evaluate_join}
use heliondb.Exec.Filter.{keeps}
use heliondb.Plan.Predicates.{decompose_conjunction, recompose_conjunction}
use heliondb.Plan.Predicates.Split.{split_holds}
use heliondb.Plan.Resolve.{Columns, resolve_select_columns}
use heliondb.Plan.Resolve.Bounds.{resolve_select_columns-lt}
use heliondb.Plan.Select.{combined_width}

abbrev users : TableMap
users = ("users", 0, user_columns) ∷ []

abbrev named_one : Expression
named_one =
    binary_op (binary_op (column "id") BinaryOperator.eq (literal (Datum.integer (pos 1))))
      BinaryOperator.and (binary_op (column "name") BinaryOperator.eq (literal (Datum.text "ada")))

-- The conjuncts that are equalities go down, the others stay.
abbrev is_equality : Expression → Bool
is_equality (binary_op _ BinaryOperator.eq _) = true
is_equality _ = false

split_holds_example : keeps runtime users named_one ada ≡ (
    keeps runtime users
      (recompose_conjunction (retain is_equality (decompose_conjunction named_one)))
      ada
    && keeps runtime users
        (recompose_conjunction
          (retain (λ c. not (is_equality c)) (decompose_conjunction named_one)))
        ada)
unfolding decompose_conjunction evaluate_join is_null heliondb.Base.Text.eq_ignore_ascii_case
split_holds_example = split_holds runtime users ada named_one is_equality (tt, (tt, tt))

abbrev tables : Columns
tables = ("users", user_columns) ∷ ("tags", Column.new "tag" DataType.text ∷ []) ∷ []

resolve_select_columns-lt_example : All (λ i. i < combined_width tables) (2 ∷ 3 ∷ [])
unfolding resolve_select_columns combined_width heliondb.Base.Text.eq_ignore_ascii_case
resolve_select_columns-lt_example =
    resolve_select_columns-lt
      (SelectColumn.expr (column "code") ∷ SelectColumn.qual_wildcard "TAGS" ∷ []) tables
      (2 ∷ 3 ∷ []) refl
