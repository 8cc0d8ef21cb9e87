-- ===== src/Exec/HashJoin/Equivalence.antt =====
-- executor/ops.rs: where a hash join gives the rows of the nested loop.
use heliondb.Base.{
  ℕ, Bool, true, false, List, [], ◌∷◌, ◌++◌, ◌≡◌, refl, arith, ◌∙◌, sym, ap, ap₂, retain, All,
  Bool-cases, inl, inr,
}
use heliondb.Index.{key_of}
use heliondb.Expr.Syntax.{JoinType}
use heliondb.Exec.Filter.{DataRow}
use heliondb.Exec.NestedLoop.{matches_of, loop_left, or_padded, nested_loop_join, is_right}
use heliondb.Exec.HashJoin.{HashTable, build, probe, matching, has_null, hash_join_rows}
use heliondb.Exec.HashJoin.Table.{is_under, lookup-build}

module _ (test : DataRow → Bool) (left_keys right_keys : List ℕ) where
  -- A match of two rows agrees on their keys, which hold no NULL.
  abbrev pub KeysAgree : DataRow → DataRow → Type 0
  KeysAgree left right =
      test (left ++ right) ≡ true
      → (has_null (key_of left_keys left) ≡ false)
        × (is_under right_keys (key_of left_keys left) right ≡ true)

  matching-eq-matches_of :
      (left : DataRow) (rows : List DataRow)
      → matching test false left rows ≡ matches_of test left rows
  unfolding matching matches_of
  matching-eq-matches_of left [] = refl
  matching-eq-matches_of left (r ∷ rows) = ground (arith, matching-eq-matches_of left rows)

  matches-under :
      (left : DataRow) (rights : List DataRow)
      → All (KeysAgree left) rights
      → matches_of test left (retain (is_under right_keys (key_of left_keys left)) rights)
        ≡ matches_of test left rights
  unfolding matches_of
  matches-under left [] h = refl
  matches-under left (r ∷ rights) h = ground (arith, h.0, matches-under left rights h.1)

  matches-null :
      (left : DataRow) (rights : List DataRow)
      → All (KeysAgree left) rights
      → has_null (key_of left_keys left) ≡ true
      → matches_of test left rights ≡ []
  unfolding matches_of
  matches-null left [] h n = refl
  matches-null left (r ∷ rights) h n = ground (arith, h.0, matches-null left rights h.1 n)

  probed :
      (lefts rights : List DataRow) (w : ℕ)
      → All (λ left. All (KeysAgree left) rights) lefts
      → probe test false left_keys (build right_keys rights []) lefts
        ≡ loop_left test false w lefts rights
  unfolding probe loop_left or_padded
  probed [] rights w h = refl
  probed (left ∷ lefts) rights w h = elim (Bool-cases (has_null (key_of left_keys left))) [
    | inl n ↦ rw n (ap₂ ◌++◌ (sym (matches-null left rights h.0 n)) (probed lefts rights w h.1))
    | inr n ↦ rw n (
        ap₂ ◌++◌
          (ap (matching test false left) (lookup-build right_keys (key_of left_keys left) rights)
            ∙ matching-eq-matches_of left _
            ∙ matches-under left rights h.0)
          (probed lefts rights w h.1))
  ]

-- A hash join that builds on the right, given the left keys first: where matching rows agree on
-- keys without NULLs, it gives the rows of the nested loop in the same order, for an inner, a
-- cross and a left join alike, those of the inner join.
pub hash_join-eq-nested_loop :
    (test : DataRow → Bool) (hash_order : HashTable → HashTable) (join_type : JoinType)
    (left_keys right_keys : List ℕ) (left_width right_width : ℕ) (lefts rights : List DataRow)
    → is_right join_type ≡ false
    → All (λ left. All (KeysAgree test left_keys right_keys left) rights) lefts
    → hash_join_rows test hash_order join_type false left_keys right_keys left_width right_width
        lefts rights
      ≡ nested_loop_join test JoinType.inner left_width right_width lefts rights
unfolding hash_join_rows nested_loop_join
hash_join-eq-nested_loop test hash_order join_type left_keys right_keys lw w lefts rights n h =
    rw n (ap (λ rows. rows ++ []) (probed test left_keys right_keys lefts rights w h))
