-- ===== src/Exec/Filter.antt =====
-- executor/ops.rs: the test of a predicate on a row.
use heliondb.Base.{Bool, true, false, Option, none, some, List}
use heliondb.Types.Datum.{Datum}
use heliondb.Error.{Result, ok}
use heliondb.Expr.Syntax.{Expression}
use heliondb.Expr.Functions.{Runtime}
use heliondb.Expr.Eval.{TableMap}
use heliondb.Expr.Join.{evaluate_join}

abbrev pub DataRow : Type 0
DataRow = List Datum

-- `.map(|d| matches!(d, Datum::Boolean(true))).unwrap_or(false)`.
abbrev pub is_true : Result Datum → Bool
is_true (ok (Datum.boolean true)) = true
is_true _ = false

unfoldable pub keeps : Runtime → TableMap → Expression → DataRow → Bool
unfolding evaluate_join
keeps rt tables predicate row = is_true (evaluate_join rt predicate row tables)

-- `None` matches every row.
unfoldable pub on_match : Runtime → TableMap → Option Expression → DataRow → Bool
unfolding keeps
on_match rt tables none row = true
on_match rt tables (some on) row = keeps rt tables on row
