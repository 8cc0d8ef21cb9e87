-- ===== src/Exec/NestedLoop.antt =====
-- executor/ops.rs: `execute_nested_loop_join`, on the rows of its two sides.
use heliondb.Base.{ℕ, zero, suc, Bool, true, false, List, [], ◌∷◌, ◌++◌, if◌then◌else◌, any}
use heliondb.Types.Datum.{Datum}
use heliondb.Expr.Syntax.{JoinType}
use heliondb.Exec.Filter.{DataRow}

abbrev pub is_left : JoinType → Bool
is_left JoinType.left = true
is_left _ = false

abbrev pub is_right : JoinType → Bool
is_right JoinType.right = true
is_right _ = false

-- `vec![Datum::Null; n]`.
unfoldable pub nulls : ℕ → DataRow
nulls zero = []
nulls (suc n) = Datum.null ∷ nulls n

-- `test` is the test of the ON clause on a combined row.
module _ (test : DataRow → Bool) where
  -- The combined rows of one left row that match.
  unfoldable pub matches_of : DataRow → List DataRow → List DataRow
  matches_of left [] = []
  matches_of left (right ∷ rights) =
      let rest = matches_of left rights in
      if test (left ++ right) then (left ++ right) ∷ rest else rest

  unfoldable pub or_padded : Bool → DataRow → ℕ → List DataRow → List DataRow
  unfolding nulls
  or_padded true left right_width [] = (left ++ nulls right_width) ∷ []
  or_padded _ left right_width rows = rows

  unfoldable pub loop_left : Bool → ℕ → List DataRow → List DataRow → List DataRow
  unfolding matches_of or_padded
  loop_left outer right_width [] rights = []
  loop_left outer right_width (left ∷ lefts) rights =
      or_padded outer left right_width (matches_of left rights)
      ++ loop_left outer right_width lefts rights

  -- The right rows that no left row matches, padded on the left.
  unfoldable pub unmatched_right : ℕ → List DataRow → List DataRow → List DataRow
  unfolding nulls
  unmatched_right left_width lefts [] = []
  unmatched_right left_width lefts (right ∷ rights) =
      let rest = unmatched_right left_width lefts rights in
      if any (λ left. test (left ++ right)) lefts then rest else (nulls left_width ++ right) ∷ rest

  unfoldable pub nested_loop_join : JoinType → ℕ → ℕ → List DataRow → List DataRow → List DataRow
  unfolding loop_left unmatched_right
  nested_loop_join join_type left_width right_width lefts rights =
      loop_left (is_left join_type) right_width lefts rights
      ++ (if is_right join_type then unmatched_right left_width lefts rights else [])
