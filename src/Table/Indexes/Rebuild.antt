-- ===== src/Table/Indexes/Rebuild.antt =====
-- After `rebuild_indexes` every index lists exactly the current rows under their keys.
use heliondb.Base.{
  ℕ, suc, Bool, true, false, ◌&&◌, ◌||◌, none, some, List, [], ◌∷◌, map, ◌≡◌, ◌↔◌, inl, inr, refl,
  ap, ◌∙◌, sym, ◌==◌, arith, All, any, ◌<◌, Bool-cases,
}
use heliondb.Types.Column.{Row}
use heliondb.Index.{Index, Key, insert_entry, extract_key, clear, get}
use heliondb.Index.Laws.{
  holds, IsSorted, key_eq, keys_order, holds-insert_entry, insert_entry-IsSorted,
}
use heliondb.Table.{Table, u64_max, get_visible_version}
use heliondb.Table.Visible.{row_at, row_of, Ascends, scan_visible-row_at}
use heliondb.Table.Indexes.{index_row, rebuild_rows, rebuild_indexes, current_rows}

-- The rebuilding loop for one index.
fill : List (ℕ × Row) → Index → Index
fill [] i = i
fill ((r, row) ∷ rows) i = fill rows (index_row r row i)

map-fill :
    (r : ℕ) (row : Row) (rows : List (ℕ × Row)) (is : List Index)
    → map (fill rows) (map (index_row r row) is) ≡ map (fill ((r, row) ∷ rows)) is
unfolding fill
map-fill r row rows [] = refl
map-fill r row rows (i ∷ is) = ap (◌∷◌ (fill rows (index_row r row i))) (map-fill r row rows is)

map-fill-nil : (is : List Index) → is ≡ map (fill []) is
unfolding fill
map-fill-nil [] = refl
map-fill-nil (i ∷ is) = ap (◌∷◌ i) (map-fill-nil is)

rebuild-fill : (rows : List (ℕ × Row)) (is : List Index) → rebuild_rows rows is ≡ map (fill rows) is
unfolding rebuild_rows
rebuild-fill [] is = map-fill-nil is
rebuild-fill ((r, row) ∷ rows) is =
    rebuild-fill rows (map (index_row r row) is) ∙ map-fill r row rows is

-- Is the row with number `q` listed, with key `k`?
abbrev listed : Index → Key → ℕ → List (ℕ × Row) → Bool
listed i k q = any (λ e. key_eq k (extract_key i e.1) && (e.0 == q))

extract_key-index_row :
    (i : Index) (r : ℕ) (row other : Row)
    → extract_key (index_row r row i) other ≡ extract_key i other
unfolding extract_key insert_entry
extract_key-index_row i r row other = refl

listed-index_row :
    (i : Index) (r : ℕ) (row : Row) (k : Key) (q : ℕ) (rows : List (ℕ × Row))
    → listed (index_row r row i) k q rows ≡ listed i k q rows
listed-index_row i r row k q [] = refl
listed-index_row i r row k q ((n, other) ∷ rows) =
    ground (arith, extract_key-index_row i r row other, listed-index_row i r row k q rows)

holds-fill :
    (rows : List (ℕ × Row)) (i : Index) (k : Key) (q : ℕ)
    → IsSorted i
    → holds (fill rows i) k q ≡ listed i k q rows || holds i k q
unfolding fill
holds-fill [] i k q o = refl
holds-fill ((r, row) ∷ rows) i k q o = ground (
  arith,
  holds-fill rows (index_row r row i) k q (insert_entry-IsSorted i (extract_key i row) r o),
  holds-insert_entry i (extract_key i row) k r q o,
  listed-index_row i r row k q rows,
)

row_at-Ascends : (l q : ℕ) (rows : List (ℕ × Row)) → Ascends l rows → q < l → row_at q rows ≡ none
row_at-Ascends l q [] a h = refl
row_at-Ascends l q ((j, r) ∷ rows) a h = ground (arith, row_at-Ascends (suc j) q rows a.1)

listed_iff :
    (i : Index) (k : Key) (q l : ℕ) (rows : List (ℕ × Row))
    → Ascends l rows
    → (listed i k q rows ≡ true)
      ↔ ((row : Row) × (row_at q rows ≡ some row) × (extract_key i row ≡ k))
listed_iff i k q l [] a = (λ h. cc, λ (row, e, _). cc)
listed_iff i k q l ((j, row) ∷ rows) a = elim (Bool-cases (j == q)) [
  | inl here ↦ (
    λ h. (
      row,
      ground arith,
      ground (
        arith,
        row_at-Ascends (suc j) q rows a.1,
        listed_iff i k q (suc j) rows a.1,
        keys_order.cmp_eq_iff k (extract_key i row),
      ),
    ),
    λ (other, e, x). ground (arith, keys_order.cmp_eq_iff k (extract_key i row)),
  )
  | inr there ↦ (
    λ h.
        let (other, e, x) = (listed_iff i k q (suc j) rows a.1).0 (ground arith) in
        (other, ground arith, x),
    λ (other, e, x). ground (arith, (listed_iff i k q (suc j) rows a.1).1 (other, ground arith, x)),
  )
]

-- What an index should hold: under each key the current rows that have it.
abbrev pub Reflects : Table → Index → Type 0
Reflects t i =
    (k : Key) (q : ℕ)
    → (holds i k q ≡ true) ↔ (
        (row : Row) × (row_of (get_visible_version t q u64_max []) ≡ some row)
        × (extract_key i row ≡ k))

extract_key-fill :
    (rows : List (ℕ × Row)) (i : Index) (row : Row)
    → extract_key (fill rows i) row ≡ extract_key i row
unfolding fill
extract_key-fill [] i row = refl
extract_key-fill ((r, other) ∷ rows) i row =
    extract_key-fill rows (index_row r other i) row ∙ extract_key-index_row i r other row

holds-clear : (i : Index) (k : Key) (q : ℕ) → holds (clear i) k q ≡ false
unfolding holds get
holds-clear i k q = refl

filled-Reflects : (t : Table) (i : Index) → Reflects t (fill (current_rows t) (clear i))
filled-Reflects t i k q =
    let rows = current_rows t in
    let (ascending, agree) = scan_visible-row_at t u64_max [] in
    let listing = listed_iff (clear i) k q 0 rows ascending in
    (
      λ h.
          let (row, e, x) =
            listing.0 (ground (arith, holds-fill rows (clear i) k q tt, holds-clear i k q)) in
          (row, sym (agree q) ∙ e, extract_key-fill rows (clear i) row ∙ x),
      λ (row, e, x). ground (
        arith,
        holds-fill rows (clear i) k q tt,
        listing.1 (row, agree q ∙ e, sym (extract_key-fill rows (clear i) row) ∙ x),
      ),
    )

All-filled :
    (t : Table) (is : List Index) → All (Reflects t) (map (fill (current_rows t)) (map clear is))
All-filled t [] = tt
All-filled t (i ∷ is) = (filled-Reflects t i, All-filled t is)

-- After a rebuild every index lists a row under a key exactly when a reader without concurrent
-- transactions sees the row and its columns have this key, whatever the index held before.
pub rebuild_indexes-Reflects : (t : Table) → All (Reflects t) (rebuild_indexes t).indexes
unfolding rebuild_indexes
rebuild_indexes-Reflects t =
    rw (rebuild-fill (current_rows t) (map clear t.indexes)) (All-filled t t.indexes)
