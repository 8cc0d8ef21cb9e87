-- ===== src/Expr/Tests.antt =====
-- The laws of expressions at concrete rows.
use heliondb.Base.{ℕ, ◌≡◌, ◌↔◌, refl, true, List, [], ◌∷◌, some}
use heliondb.Base.Int.{pos, negsuc}
use heliondb.Base.Compare.{cmp_ℤ}
use heliondb.Types.Datum.{Datum}
use heliondb.Expr.Syntax.{Expression, qualified_column, literal, binary_op, BinaryOperator}
use heliondb.Expr.Samples.{floats}
use heliondb.Expr.Compare.{compare_datums}
use heliondb.Expr.Compare.Laws.{compare_datums-int_value}
use heliondb.Expr.Like.{like_to_regex, regex_lite}
use heliondb.Expr.Like.Correct.{Matches, regex_lite_iff}

abbrev id_is_one : Expression
id_is_one =
    binary_op (qualified_column "Users" "id") BinaryOperator.eq (literal (Datum.big_int (pos 1)))

abbrev a_percent : List ℕ
a_percent = b'a' ∷ b'%' ∷ []

like_matches : regex_lite (like_to_regex a_percent) (b'a' ∷ b'b' ∷ []) ≡ true
unfolding like_to_regex regex_lite
like_matches = refl

regex_lite_iff_example :
    (regex_lite (like_to_regex a_percent) (b'a' ∷ b'b' ∷ []) ≡ true)
    ↔ Matches a_percent (b'a' ∷ b'b' ∷ [])
regex_lite_iff_example = regex_lite_iff a_percent (b'a' ∷ b'b' ∷ [])

compare_datums-int_value_example :
    compare_datums floats (Datum.small_int (negsuc 2)) (Datum.unsigned_big_int 5)
    ≡ some (cmp_ℤ (negsuc 2) (pos 5))
compare_datums-int_value_example =
    compare_datums-int_value floats (Datum.small_int (negsuc 2)) (Datum.unsigned_big_int 5) refl
      refl
