-- ===== src/Exec/Shape/Pages.antt =====
-- executor/ops.rs: LIMIT and OFFSET cut the rows into pages.
use heliondb.Base.{
  ℕ, zero, suc, ◌+◌, ◌≤◌, List, [], ◌∷◌, ◌++◌, ◌≡◌, refl, arith, ap, leb, length, ◌∙◌, sym,
  Bool-cases, inl, inr,
}
use heliondb.Exec.Filter.{DataRow}
use heliondb.Exec.Shape.{slice, drop_rows, take_rows}

drop-beyond : (k : ℕ) (rows : List DataRow) → length rows ≤ k → drop_rows k rows ≡ []
unfolding drop_rows
drop-beyond zero [] h = refl
drop-beyond zero (r ∷ rows) h = absurd (omega arith)
drop-beyond (suc k) [] h = refl
drop-beyond (suc k) (r ∷ rows) h = drop-beyond k rows (omega arith)

take-nil : (n : ℕ) → take_rows n [] ≡ []
unfolding take_rows
take-nil zero = refl
take-nil (suc n) = refl

-- The test of the offset changes nothing.
slice-take-drop :
    (n offset : ℕ) (rows : List DataRow) → slice n offset rows ≡ take_rows n (drop_rows offset rows)
unfolding slice
slice-take-drop n offset rows = elim (Bool-cases (leb (length rows) offset)) [
  | inl e ↦ rw (e, drop-beyond offset rows (ground arith), take-nil n) refl
  | inr e ↦ rw e refl
]

drop-nil : (n : ℕ) → drop_rows n [] ≡ []
unfolding drop_rows
drop-nil zero = refl
drop-nil (suc n) = refl

drop-drop :
    (k n : ℕ) (rows : List DataRow) → drop_rows n (drop_rows k rows) ≡ drop_rows (k + n) rows
unfolding drop_rows
drop-drop zero n rows = ap (λ k. drop_rows k rows) (omega arith)
drop-drop (suc k) n [] = drop-nil n ∙ sym (drop-nil (suc k + n))
drop-drop (suc k) n (r ∷ rows) =
    drop-drop k n rows
    ∙ ap (λ j. drop_rows j (r ∷ rows)) {x = suc (k + n)} {y = suc k + n} (omega arith)

take-drop :
    (n m : ℕ) (rows : List DataRow)
    → take_rows n rows ++ take_rows m (drop_rows n rows) ≡ take_rows (n + m) rows
unfolding take_rows drop_rows
take-drop zero m rows = ap (λ k. take_rows k rows) (omega arith)
take-drop (suc n) m [] = take-nil m ∙ sym (take-nil (suc n + m))
take-drop (suc n) m (r ∷ rows) =
    ap (◌∷◌ r) (take-drop n m rows)
    ∙ ap (λ j. take_rows j (r ∷ rows)) {x = suc (n + m)} {y = suc n + m} (omega arith)

length-take : (n : ℕ) (rows : List DataRow) → length (take_rows n rows) ≤ n
unfolding take_rows
length-take zero rows = omega arith
length-take (suc n) [] = omega arith
length-take (suc n) (r ∷ rows) = omega (arith, length-take n rows)

-- Two pages that follow each other are together the page of both lengths, and a page has no more
-- rows than its limit.
pub slice-append :
    (n m offset : ℕ) (rows : List DataRow)
    → (slice n offset rows ++ slice m (offset + n) rows ≡ slice (n + m) offset rows)
      × (length (slice n offset rows) ≤ n)
slice-append n m offset rows = (
  rw
      (
        slice-take-drop n offset rows,
        slice-take-drop m (offset + n) rows,
        slice-take-drop (n + m) offset rows,
        sym (drop-drop offset n rows),
      )
      (take-drop n m (drop_rows offset rows)),
  rw (slice-take-drop n offset rows) (length-take n (drop_rows offset rows)),
)
