-- ===== src/Exec/HashJoin/Lost.antt =====
-- executor/ops.rs: rows that a hash join loses.
use mathlib.Core.List.{append-nil}
use heliondb.Base.{ℕ, Bool, true, false, List, [], ◌∷◌, ◌++◌, ◌≡◌, refl, arith, ◌∙◌, ap, map, All}
use heliondb.Expr.Syntax.{JoinType}
use heliondb.Exec.Filter.{DataRow}
use heliondb.Exec.NestedLoop.{matches_of, loop_left, or_padded, nested_loop_join, nulls}
use heliondb.Exec.HashJoin.{HashTable, hash_join_rows}
use heliondb.Exec.HashJoin.Equivalence.{KeysAgree, hash_join-eq-nested_loop}

module _ (test : DataRow → Bool) where
  -- No right row matches the left row.
  abbrev pub IsUnmatched : List DataRow → DataRow → Type 0
  IsUnmatched rights left = All (λ right. test (left ++ right) ≡ false) rights

  matches_of-nothing :
      (left : DataRow) (rights : List DataRow)
      → IsUnmatched rights left
      → matches_of test left rights ≡ []
  unfolding matches_of
  matches_of-nothing left [] h = refl
  matches_of-nothing left (r ∷ rights) h = ground (arith, matches_of-nothing left rights h.1)

  inner-nothing :
      (w : ℕ) (lefts rights : List DataRow)
      → All (IsUnmatched rights) lefts
      → loop_left test false w lefts rights ≡ []
  unfolding loop_left or_padded
  inner-nothing w [] rights h = refl
  inner-nothing w (l ∷ lefts) rights h =
      rw (matches_of-nothing l rights h.0) (inner-nothing w lefts rights h.1)

  All-padded :
      (w : ℕ) (lefts rights : List DataRow)
      → All (IsUnmatched rights) lefts
      → loop_left test true w lefts rights ≡ map (λ left. left ++ nulls w) lefts
  unfolding loop_left or_padded
  All-padded w [] rights h = refl
  All-padded w (l ∷ lefts) rights h =
      rw (matches_of-nothing l rights h.0) (ap (◌∷◌ (l ++ nulls w)) (All-padded w lefts rights h.1))

  agree-row :
      (left_keys right_keys : List ℕ) (left : DataRow) (rights : List DataRow)
      → IsUnmatched rights left
      → All (KeysAgree test left_keys right_keys left) rights
  agree-row lk rk left [] h = tt
  agree-row lk rk left (r ∷ rights) h =
      (λ m. absurd (ground arith), agree-row lk rk left rights h.1)

  agree :
      (left_keys right_keys : List ℕ) (lefts rights : List DataRow)
      → All (IsUnmatched rights) lefts
      → All (λ left. All (KeysAgree test left_keys right_keys left) rights) lefts
  agree lk rk [] rights h = tt
  agree lk rk (l ∷ lefts) rights h = (agree-row lk rk l rights h.0, agree lk rk lefts rights h.1)

  -- A LEFT JOIN by a hash table of the right rows: where no row matches, the result is empty,
  -- and the nested loop gives every left row, padded with NULLs.
  pub unmatched_left_lost :
      (hash_order : HashTable → HashTable) (left_keys right_keys : List ℕ)
      (left_width right_width : ℕ) (lefts rights : List DataRow)
      → All (IsUnmatched rights) lefts
      → (hash_join_rows test hash_order JoinType.left false left_keys right_keys left_width
            right_width lefts rights
          ≡ [])
        × (nested_loop_join test JoinType.left left_width right_width lefts rights
            ≡ map (λ left. left ++ nulls right_width) lefts)
  unfolding nested_loop_join
  unmatched_left_lost hash_order lk rk lw w lefts rights h = (
    hash_join-eq-nested_loop test hash_order JoinType.left lk rk lw w lefts rights refl
          (agree lk rk lefts rights h)
        ∙ append-nil (loop_left test false w lefts rights)
        ∙ inner-nothing w lefts rights h,
    append-nil (loop_left test true w lefts rights) ∙ All-padded w lefts rights h,
  )
