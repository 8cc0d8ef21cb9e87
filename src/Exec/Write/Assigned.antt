-- ===== src/Exec/Write/Assigned.antt =====
-- executor/ops.rs: the columns of a row after the assignments of an update.
use heliondb.Base.{
  ℕ, zero, suc, Option, none, some, List, [], ◌∷◌, ◌≡◌, refl, ap, ◌∙◌, arith, length, get_elem?,
  set, length-set, ◌==◌, if◌then◌else◌,
}
use heliondb.Types.Datum.{Datum}
use heliondb.Types.Column.{Row}
use heliondb.Exec.Write.{assign, new_row}
use heliondb.Exec.Write.Seen.{updated_row}

-- The value that a column is set to: of two assignments to one column, the later.
abbrev pub assigned : List ℕ → List Datum → ℕ → Option Datum
assigned [] values j = none
assigned (i ∷ is) [] j = none
assigned (i ∷ is) (v ∷ values) j = elim (assigned is values j) [
  | none ↦ if i == j then some v else none
  | some w ↦ some w
]

-- What a column holds then: the value that it is set to, or else its old one.
abbrev pub overwritten : Option Datum → Option Datum → Option Datum
overwritten new none = none
overwritten none (some x) = some x
overwritten (some v) (some x) = some v

get_elem?-set :
    (row : List Datum) (i j : ℕ) (v : Datum)
    → get_elem? (set row i v) j ≡ overwritten (if i == j then some v else none) (get_elem? row j)
get_elem?-set [] i j v = refl
get_elem?-set (x ∷ row) zero zero v = ground arith
get_elem?-set (x ∷ row) zero (suc j) v = ground arith
get_elem?-set (x ∷ row) (suc i) zero v = ground arith
get_elem?-set (x ∷ row) (suc i) (suc j) v = ground (arith, get_elem?-set row i j v)

overwritten-none : (x : Option Datum) → x ≡ overwritten none x
overwritten-none none = refl
overwritten-none (some x) = refl

later :
    (a b x : Option Datum)
    → overwritten a (overwritten b x) ≡ overwritten (elim a [ none ↦ b | some w ↦ some w ]) x
later a b none = refl
later none none (some x) = refl
later none (some w) (some x) = refl
later (some v) none (some x) = refl
later (some v) (some w) (some x) = refl

get_elem?-assign :
    (indices : List ℕ) (values row : List Datum) (j : ℕ)
    → get_elem? (assign indices values row) j
      ≡ overwritten (assigned indices values j) (get_elem? row j)
unfolding assign
get_elem?-assign [] values row j = overwritten-none (get_elem? row j)
get_elem?-assign (i ∷ is) [] row j = overwritten-none (get_elem? row j)
get_elem?-assign (i ∷ is) (v ∷ values) row j =
    get_elem?-assign is values (set row i v) j
    ∙ ap (overwritten (assigned is values j)) (get_elem?-set row i j v)
    ∙ later (assigned is values j) (if i == j then some v else none) (get_elem? row j)

length-assign :
    (indices : List ℕ) (values row : List Datum) → length (assign indices values row) ≡ length row
unfolding assign
length-assign [] values row = refl
length-assign (i ∷ is) [] row = refl
length-assign (i ∷ is) (v ∷ values) row = length-assign is values (set row i v) ∙ length-set row i v

-- Of a row that an update selected as `found`, and that was seen as `old`: what is seen as `new`. A
-- selected row has as many columns as before, each with the value that it was set to or else its
-- old one; a row that was not selected is seen as before.
abbrev pub Updated : List ℕ → List Datum → Option Row → Option Row → Option Row → Type 0
Updated indices values none old new = new ≡ old
Updated indices values (some row) old new =
    (after : Row) × (new ≡ some after)
    × (length after.values ≡ length row.values)
    × ((j : ℕ)
        → get_elem? after.values j
          ≡ overwritten (assigned indices values j) (get_elem? row.values j))

pub updated_row-Updated :
    (indices : List ℕ) (values : List Datum) (found old new : Option Row)
    → new ≡ updated_row indices values found old
    → Updated indices values found old new
unfolding new_row
updated_row-Updated indices values none old new h = h
updated_row-Updated indices values (some row) old new h = (
  new_row indices values row,
  h,
  length-assign indices values row.values,
  get_elem?-assign indices values row.values,
)
