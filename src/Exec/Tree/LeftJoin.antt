-- ===== src/Exec/Tree/LeftJoin.antt =====
-- sql/planner.rs and executor/ops.rs: a predicate on the right table of a LEFT JOIN.
use heliondb.Base.{
  ℕ, ◌≤◌, Bool, true, false, List, [], ◌∷◌, ◌++◌, ◌≡◌, refl, arith, length, Option, All, Bool-cases,
  inl, inr, sym, String, subst, ap,
}
use mathlib.Core.List.{append-nil}
use heliondb.Error.{Result, ok, err, ◌>>=◌}
use heliondb.Expr.Syntax.{Expression, JoinType}
use heliondb.Plan.Syntax.{LogicalPlan, join, nested_loop}
use heliondb.Plan.Predicates.{
  push_predicates_into, push_down_predicates, only_from, collect_table_info, decompose_conjunction,
  at_most_one_table, filter_by, TableInfo,
}
use heliondb.Exec.Filter.{DataRow, keeps}
use heliondb.Exec.NestedLoop.{nulls, loop_left, or_padded, matches_of, nested_loop_join}
use heliondb.Exec.Scan.{ExecContext, Output, filter_rows}
use heliondb.Exec.Tables.{width, side_by_side, collect_expr_table_info}
use heliondb.Expr.Eval.{TableMap}
use heliondb.Exec.Tree.{execute_tree, execute_join_node, on}

-- A row that is made of a left row and something behind it.
abbrev pub Starts : DataRow → DataRow → Type 0
Starts left row = (rest : DataRow) × (row ≡ left ++ rest)

-- The rows come in blocks, one for each left row in turn: at least one row, and all start with it.
abbrev pub Covers : List DataRow → List DataRow → Type 0
Covers [] rows = rows ≡ []
Covers (left ∷ lefts) rows =
    (block : List DataRow) × (others : List DataRow) × (rows ≡ block ++ others)
    × (1 ≤ length block)
    × All (Starts left) block
    × Covers lefts others

matches-Starts :
    (test : DataRow → Bool) (left : DataRow) (rights : List DataRow)
    → All (Starts left) (matches_of test left rights)
unfolding matches_of
matches-Starts test left [] = tt
matches-Starts test left (right ∷ rights) = elim (Bool-cases (test (left ++ right))) [
  | inl h ↦ rw h ((right, refl), matches-Starts test left rights)
  | inr h ↦ rw h (matches-Starts test left rights)
]

or_padded-Starts :
    (test : DataRow → Bool) (left : DataRow) (w : ℕ) (rows : List DataRow)
    → All (Starts left) rows
    → (1 ≤ length (or_padded test true left w rows))
      × All (Starts left) (or_padded test true left w rows)
unfolding or_padded
or_padded-Starts test left w [] h = (omega arith, ((nulls w, refl), tt))
or_padded-Starts test left w (r ∷ rows) h = (omega arith, h)

loop_left-Covers :
    (test : DataRow → Bool) (w : ℕ) (lefts rights : List DataRow)
    → Covers lefts (loop_left test true w lefts rights)
unfolding loop_left
loop_left-Covers test w [] rights = refl
loop_left-Covers test w (l ∷ lefts) rights =
    let (some_row, all_start) =
      or_padded-Starts test l w (matches_of test l rights) (matches-Starts test l rights) in
    (
      or_padded test true l w (matches_of test l rights),
      loop_left test true w lefts rights,
      refl,
      some_row,
      all_start,
      loop_left-Covers test w lefts rights,
    )

nested_loop_join-Covers :
    (test : DataRow → Bool) (lw w : ℕ) (lefts rights : List DataRow)
    → Covers lefts (nested_loop_join test JoinType.left lw w lefts rights)
unfolding nested_loop_join
nested_loop_join-Covers test lw w lefts rights =
    subst (Covers lefts) (sym (append-nil (loop_left test true w lefts rights)))
      (loop_left-Covers test w lefts rights)

kept_rows : (p : DataRow → Bool) (rows : List DataRow) → All (λ r. p r ≡ true) (filter_rows p rows)
kept_rows p [] = tt
kept_rows p (r ∷ rows) = elim (Bool-cases (p r)) [
  | inl h ↦ rw h (h, kept_rows p rows)
  | inr h ↦ rw h (kept_rows p rows)
]

abbrev result_rows : Result Output → List DataRow
result_rows (ok (rows, _, _)) = rows
result_rows (err e) = []

abbrev filter_output : (DataRow → Bool) → Output → Output
filter_output p (rows, names, types) = (filter_rows p rows, names, types)

-- A filter on a result, where it succeeds.
filtered :
    (p : DataRow → Bool) (input : Result Output) (rows : List DataRow) (names types : List String)
    → (input >>= λ o. ok (filter_output p o)) ≡ ok (rows, names, types)
    → All (λ r. p r ≡ true) rows
filtered p (err e) rows n t h = absurd (cc h)
filtered p (ok (inputs, names, types)) rows n t h =
    subst (All (λ r. p r ≡ true)) (ap result_rows h) (kept_rows p inputs)

-- A left join by nested loop, where its left side gave rows.
node_rows :
    (ctx : ExecContext) (left_info right_info : TableMap) (on_clause : Option Expression)
    (lefts rows : List DataRow) (left_names left_types names types : List String)
    (right : Result Output)
    → execute_join_node ctx left_info right_info JoinType.left
        (nested_loop on_clause)
        (ok (lefts, left_names, left_types))
        right
      ≡ ok (rows, names, types)
    → Covers lefts rows
unfolding execute_join_node
node_rows ctx li ri on_clause lefts rows ln lt n t (ok (rights, _, _)) h =
    subst (Covers lefts) (ap result_rows h) (
      nested_loop_join-Covers (on ctx (side_by_side li ri) on_clause) (width li) (width ri) lefts
        rights)
node_rows ctx li ri on_clause lefts rows ln lt n t (err e) h = cc

module _ (left right : LogicalPlan) (on_clause : Option Expression) (p : Expression)
    (one : decompose_conjunction p ≡ p ∷ []) where
  abbrev both : List TableInfo
  both = collect_table_info left ++ collect_table_info right

  -- The join under the clause.
  abbrev pub as_written : LogicalPlan
  as_written = join left right JoinType.left (nested_loop on_clause)

  small_of : only_from both (collect_table_info right) p ≡ true → at_most_one_table both p ≡ true
  unfolding only_from at_most_one_table
  small_of h = ground arith

  pushed_right :
      only_from both (collect_table_info left) p ≡ false
      → only_from both (collect_table_info right) p ≡ true
      → push_down_predicates
          (LogicalPlan.filter (join left right JoinType.left (nested_loop on_clause)) p)
        ≡ join left (push_predicates_into right (p ∷ [])) JoinType.left (nested_loop on_clause)
  unfolding push_down_predicates push_predicates_into filter_by collect_table_info
  pushed_right h k = rw (one, small_of k) (rw (h, k) refl)

  -- A LEFT JOIN by nested loop under a WHERE clause of one conjunct that names only tables of the
  -- right side. Executed as the query is written, all rows that come out satisfy the clause. After the
  -- pass that pushes predicates down, every row of the left side comes out, in order, each at least
  -- once, joined or padded, whatever the clause says.
  pub left_join_unfiltered :
      (ctx : ExecContext) (lefts asked rows : List DataRow)
      (left_names left_types asked_names asked_types names types : List String)
      → only_from both (collect_table_info left) p ≡ false
      → only_from both (collect_table_info right) p ≡ true
      → execute_tree ctx left ≡ ok (lefts, left_names, left_types)
      → execute_tree ctx (LogicalPlan.filter as_written p) ≡ ok (asked, asked_names, asked_types)
      → execute_tree ctx (push_down_predicates (LogicalPlan.filter as_written p))
        ≡ ok (rows, names, types)
      → All (λ r. keeps ctx.runtime (collect_expr_table_info as_written) p r ≡ true) asked
        × Covers lefts rows
  unfolding execute_tree execute_join_node nested_loop_join
  left_join_unfiltered ctx lefts asked rows ln lt an at' n t h k run direct result =
      let pushed = push_predicates_into right (p ∷ []) in
      (
        filtered (keeps ctx.runtime (collect_expr_table_info as_written) p)
            (execute_tree ctx as_written) asked an at' direct,
        node_rows ctx (collect_expr_table_info left) (collect_expr_table_info pushed) on_clause
            lefts rows ln lt n t (execute_tree ctx pushed)
            (rw run at (rw (pushed_right h k, execute_tree) at result)),
      )
