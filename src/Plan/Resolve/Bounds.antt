-- ===== src/Plan/Resolve/Bounds.antt =====
-- sql/planner.rs: the indices that a SELECT resolves to are columns of the combined row.
use heliondb.Base.{
  ℕ, zero, suc, ◌+◌, ◌≤◌, ◌<◌, String, Bool, true, false, some, List, [], ◌∷◌, ◌++◌, ◌≡◌, refl,
  arith, ap, length, All, All-append, position, find?, Option-cases, Bool-cases, subst, inl, inr,
}
use heliondb.Base.Text.{eq_ignore_ascii_case, str_eq, str_eq_iff}
use heliondb.Types.Column.{ColumnMeta}
use heliondb.Error.{Result, ok, err, ◌>>=◌}
use heliondb.Expr.Syntax.{SelectColumn, column, qualified_column}
use heliondb.Expr.Eval.{column_at}
use heliondb.Plan.Resolve.{
  Columns, span, offset_of, in_columns, only_table, in_first, all_positions, only_one,
  resolve_qualified_column, resolve_unqualified_column, qualified_wildcard, wildcard_from, width_of,
  by_name, split_dot, resolve_each, all_if_none, resolve_select_columns,
}
use heliondb.Plan.Select.{combined_width}

abbrev value_or_nil : Result (List ℕ) → List ℕ
value_or_nil (ok is) = is
value_or_nil (err _) = []

position-lt {ℓ} :
    {A : Type ℓ} (p : A → Bool) (xs : List A) (i : ℕ) → position p xs ≡ some i → i < length xs
position-lt p [] i h = cc
position-lt p (x ∷ xs) i h = elim (Option-cases (position p xs)) [
  | inl e ↦ ground (arith, e)
  | inr (j, e) ↦ ground (arith, e, position-lt p xs j e)
]

abbrev AllBelow : ℕ → List ℕ → Type 0
AllBelow n is = All (λ i. i < n) is

AllBelow-mono : (m n : ℕ) (is : List ℕ) → m ≤ n → AllBelow m is → AllBelow n is
AllBelow-mono m n [] h a = tt
AllBelow-mono m n (i ∷ is) h a = (omega arith, AllBelow-mono m n is h a.1)

span-AllBelow : (a n k : ℕ) → a + n ≤ k → AllBelow k (span a n)
unfolding span
span-AllBelow a zero k h = tt
span-AllBelow a (suc n) k h = (omega arith, span-AllBelow (suc a) n k (omega arith))

-- The first table that passes a test of its name lies, from the offset of this name, within the
-- combined row.
offset-within :
    (p : String → Bool) (tables : Columns) (n : String) (cols : List ColumnMeta)
    → find? (λ t. p t.0) tables ≡ some (n, cols)
    → (p n ≡ true) × (offset_of n tables + length cols ≤ combined_width tables)
unfolding offset_of combined_width
offset-within p [] n cols h = cc
offset-within p ((tn, cs) ∷ tables) n cols h =
    ground (arith, str_eq_iff tn n, offset-within p tables n cols)

column_at-lt :
    (cols : List ColumnMeta) (c : String) (i : ℕ) → column_at cols c ≡ some i → i < length cols
column_at-lt cols c i h = position-lt (λ col. eq_ignore_ascii_case col.name c) cols i h

in_columns-below :
    (table col : String) (offset n i : ℕ) (cols : List ColumnMeta)
    → offset + length cols ≤ n
    → in_columns table col offset cols ≡ ok i
    → i < n
unfolding in_columns
in_columns-below table col offset n i cols w h = elim (Option-cases (column_at cols col)) [
  | inl e ↦ ground (arith, e)
  | inr (j, e) ↦ ground (arith, e, column_at-lt cols col j e)
]

only_table-below :
    (table col : String) (tables : Columns) (i : ℕ)
    → only_table table col tables ≡ ok i
    → i < combined_width tables
unfolding only_table combined_width
only_table-below table col ((tname, cols) ∷ []) i h =
    in_columns-below table col 0 (length cols + 0) i cols (omega arith) h
only_table-below table col [] i h = cc
only_table-below table col (t ∷ u ∷ tables) i h = cc

qualified-below :
    (table col : String) (tables : Columns) (i : ℕ)
    → resolve_qualified_column table col tables ≡ ok i
    → i < combined_width tables
unfolding resolve_qualified_column in_first
qualified-below table col tables i h =
    let p = λ (t : String × List ColumnMeta). eq_ignore_ascii_case t.0 table in
    elim (Option-cases (find? p tables)) [
      | inl e ↦ only_table-below table col tables i (rw (e, in_first) at h)
      | inr ((tname, cols), e) ↦
          in_columns-below table col (offset_of tname tables) (combined_width tables) i cols
            (offset-within (λ n. eq_ignore_ascii_case n table) tables tname cols e).1
            (rw (e, in_first) at h)
    ]

positions-AllBelow :
    (name : String) (offset n : ℕ) (tables : Columns)
    → offset + combined_width tables ≤ n
    → AllBelow n (all_positions name offset tables)
unfolding all_positions combined_width
positions-AllBelow name offset n [] h = tt
positions-AllBelow name offset n ((tn, cols) ∷ tables) h =
    let rest = positions-AllBelow name (offset + length cols) n tables (omega arith) in
    elim (Option-cases (column_at cols name)) [
      | inl e ↦ rw (e, all_positions) rest
      | inr (j, e) ↦ rw (e, all_positions) (omega (arith, column_at-lt cols name j e), rest)
    ]

only_one-below :
    (name : String) (is : List ℕ) (n i : ℕ) → AllBelow n is → only_one name is ≡ ok i → i < n
unfolding only_one
only_one-below name [] n i a h = cc
only_one-below name (j ∷ []) n i a h = ground (arith, a.0)
only_one-below name (j ∷ k ∷ is) n i a h = cc

unqualified-below :
    (name : String) (tables : Columns) (i : ℕ)
    → resolve_unqualified_column name tables ≡ ok i
    → i < combined_width tables
unfolding resolve_unqualified_column
unqualified-below name tables i h =
    only_one-below name (all_positions name 0 tables) (combined_width tables) i
      (positions-AllBelow name 0 (combined_width tables) tables (omega arith)) h

by_name-below :
    (name : String) (tables : Columns) (i : ℕ)
    → by_name name tables ≡ ok i
    → i < combined_width tables
unfolding by_name
by_name-below name tables i h = elim (Option-cases (split_dot name)) [
  | inl e ↦ unqualified-below name tables i (rw (e, by_name) at h)
  | inr ((t, c), e) ↦ qualified-below t c tables i (rw (e, by_name) at h)
]

-- Among the tables that are left, the first of a fitting name is the first of all tables.
abbrev SameWidths : String → Columns → Columns → Type 0
SameWidths table all tables =
    (n : String) → eq_ignore_ascii_case n table ≡ true → width_of n all ≡ width_of n tables

SameWidths-tail :
    (table tn : String) (cols : List ColumnMeta) (all tables : Columns)
    → SameWidths table all ((tn, cols) ∷ tables)
    → eq_ignore_ascii_case tn table ≡ false
    → SameWidths table all tables
unfolding width_of
SameWidths-tail table tn cols all tables same other n fits = elim (Bool-cases (str_eq tn n)) [
  | inl e ↦ absurd (ground (arith, str_eq_iff tn n))
  | inr e ↦ rw e at (same n fits)
]

wildcard-below :
    (table : String) (all : Columns) (offset n : ℕ) (tables : Columns)
    → offset + combined_width tables ≤ n
    → SameWidths table all tables
    → AllBelow n (wildcard_from table all offset tables)
unfolding wildcard_from combined_width width_of
wildcard-below table all offset n [] h same = tt
wildcard-below table all offset n ((tn, cols) ∷ tables) h same =
    elim (Bool-cases (eq_ignore_ascii_case tn table)) [
      | inl e ↦
          let w : width_of tn all ≡ length cols = ground (arith, same tn e, str_eq_iff tn tn) in
          rw (e, wildcard_from) (span-AllBelow offset (width_of tn all) n (omega arith))
      | inr e ↦
          rw (e, wildcard_from)
            (wildcard-below table all (offset + length cols) n tables (omega arith)
              (SameWidths-tail table tn cols all tables same e))
    ]

qualified_wildcard-below :
    (table : String) (tables : Columns)
    → AllBelow (combined_width tables) (qualified_wildcard table tables)
unfolding qualified_wildcard
qualified_wildcard-below table tables =
    wildcard-below table tables 0 (combined_width tables) tables (omega arith) (λ n _. refl)

-- The indices that a list of SELECT columns resolves to.
abbrev EachBelow : ℕ → Result (Bool × List ℕ) → Type 0
EachBelow n (ok (_, is)) = AllBelow n is
EachBelow n (err _) = Unit

with_index :
    (n : ℕ) (r : Result ℕ) (rest : Result (Bool × List ℕ))
    → ((i : ℕ) → r ≡ ok i → i < n)
    → EachBelow n rest
    → EachBelow n (r >>= λ i. rest >>= λ t. ok (t.0, i ∷ t.1))
with_index n (ok i) (ok (w, is)) h k = (h i refl, k)
with_index n (ok i) (err e) h k = tt
with_index n (err e) rest h k = tt

with_wildcard :
    (n : ℕ) (rest : Result (Bool × List ℕ))
    → EachBelow n rest
    → EachBelow n (rest >>= λ t. ok (true, t.1))
with_wildcard n (ok (w, is)) k = k
with_wildcard n (err e) k = tt

with_table :
    (n : ℕ) (is : List ℕ) (rest : Result (Bool × List ℕ))
    → AllBelow n is
    → EachBelow n rest
    → EachBelow n (rest >>= λ t. ok (t.0, is ++ t.1))
with_table n is (ok (w, js)) h k = All-append (λ i. i < n) is js h k
with_table n is (err e) h k = tt

resolve_each-below :
    (cs : List SelectColumn) (tables : Columns)
    → EachBelow (combined_width tables) (resolve_each cs tables)
unfolding resolve_each
resolve_each-below [] tables = tt
resolve_each-below (SelectColumn.wildcard ∷ cs) tables =
    with_wildcard (combined_width tables) (resolve_each cs tables) (resolve_each-below cs tables)
resolve_each-below (SelectColumn.qual_wildcard t ∷ cs) tables =
    with_table (combined_width tables) (qualified_wildcard t tables) (resolve_each cs tables)
      (qualified_wildcard-below t tables) (resolve_each-below cs tables)
resolve_each-below (SelectColumn.qualified name alias ∷ cs) tables =
    with_index (combined_width tables) (by_name name tables) (resolve_each cs tables)
      (by_name-below name tables) (resolve_each-below cs tables)
resolve_each-below (SelectColumn.expr (column name) ∷ cs) tables =
    with_index (combined_width tables) (resolve_unqualified_column name tables)
      (resolve_each cs tables) (unqualified-below name tables) (resolve_each-below cs tables)
resolve_each-below (SelectColumn.expr (qualified_column t c) ∷ cs) tables =
    with_index (combined_width tables) (resolve_qualified_column t c tables)
      (resolve_each cs tables) (qualified-below t c tables) (resolve_each-below cs tables)
resolve_each-below (SelectColumn.expr _ ∷ cs) tables =
    with_wildcard (combined_width tables) (resolve_each cs tables) (resolve_each-below cs tables)

all-below : (n : ℕ) (r : Bool × List ℕ) → AllBelow n r.1 → AllBelow n (all_if_none n r)
unfolding span
all-below n (true, []) h = span-AllBelow 0 n n (omega arith)
all-below n (true, i ∷ is) h = h
all-below n (false, is) h = h

abbrev resolved : ℕ → Result (Bool × List ℕ) → Result (List ℕ)
resolved n r = r >>= λ t. ok (all_if_none n t)

resolved-below :
    (n : ℕ) (r : Result (Bool × List ℕ)) (is : List ℕ)
    → EachBelow n r
    → resolved n r ≡ ok is
    → AllBelow n is
resolved-below n (ok t) is k h = subst (AllBelow n) (ap value_or_nil h) (all-below n t k)
resolved-below n (err e) is k h = cc

-- Every index that the columns of a SELECT resolve to is a column of the combined row of its
-- tables, for names with and without their table, wildcards, and tables of one name alike.
pub resolve_select_columns-lt :
    (columns : List SelectColumn) (tables : Columns) (indices : List ℕ)
    → resolve_select_columns columns tables (combined_width tables) ≡ ok indices
    → All (λ i. i < combined_width tables) indices
unfolding resolve_select_columns
resolve_select_columns-lt [] tables is h =
    subst (AllBelow (combined_width tables)) (ap value_or_nil h)
      (span-AllBelow 0 (combined_width tables) (combined_width tables) (omega arith))
resolve_select_columns-lt (c ∷ cs) tables is h =
    resolved-below (combined_width tables) (resolve_each (c ∷ cs) tables) is
      (resolve_each-below (c ∷ cs) tables) h
