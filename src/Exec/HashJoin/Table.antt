-- ===== src/Exec/HashJoin/Table.antt =====
-- executor/ops.rs: what the hash table of `execute_hash_join` holds under a key.
use mathlib.Core.List.{append_assoc, append-nil}
use heliondb.Base.{
  ℕ, Bool, true, not, ◌&&◌, List, [], ◌∷◌, ◌++◌, ◌≡◌, refl, arith, ◌∙◌, sym, ap, retain,
  if◌then◌else◌, Bool-cases, inl, inr,
}
use heliondb.Types.Order.Total.{cmp-IsTotalOrder}
use heliondb.Index.{Key, key_of}
use heliondb.Exec.Filter.{DataRow}
use heliondb.Exec.HashJoin.{same_key, same_bits, HashTable, push, lookup_rows, build, has_null}

same_bits_sound : (a b : Key) → same_bits a b ≡ true → a ≡ b
unfolding same_bits
same_bits_sound [] [] h = refl
same_bits_sound [] (y ∷ ys) h = cc
same_bits_sound (x ∷ xs) [] h = cc
same_bits_sound (x ∷ xs) (y ∷ ys) h =
    ground (arith, cmp-IsTotalOrder.cmp_eq_iff x y, same_bits_sound xs ys)

-- Keys that meet in the table are equal. A key with a NaN meets none, not even itself.
pub same_key_sound : (a b : Key) → same_key a b ≡ true → a ≡ b
unfolding same_key
same_key_sound a b h = same_bits_sound a b (ground arith)

lookup-push :
    (key k : Key) (row : DataRow) (table : HashTable)
    → lookup_rows key (push k row table)
      ≡ (if same_key k key then lookup_rows key table ++ row ∷ [] else lookup_rows key table)
unfolding lookup_rows push
lookup-push key k row [] = refl
lookup-push key k row ((j, rows) ∷ table) = ground (
  arith,
  same_key_sound j k,
  same_key_sound j key,
  same_key_sound k key,
  lookup-push key k row table,
)

-- A row goes under the key if it has that key, with no NULL in it.
abbrev pub is_under : List ℕ → Key → DataRow → Bool
is_under keys key row = not (has_null (key_of keys row)) && same_key (key_of keys row) key

lookup-build_onto :
    (keys : List ℕ) (key : Key) (rows : List DataRow) (table : HashTable)
    → lookup_rows key (build keys rows table)
      ≡ lookup_rows key table ++ retain (is_under keys key) rows
unfolding build
lookup-build_onto keys key [] table = sym (append-nil (lookup_rows key table))
lookup-build_onto keys key (row ∷ rows) table =
    let k = key_of keys row in
    let rest = retain (is_under keys key) rows in
    let onto = lookup-build_onto keys key rows (push k row table) in
    elim (Bool-cases (has_null k)) [
      | inl n ↦ rw n (lookup-build_onto keys key rows table)
      | inr n ↦ elim (Bool-cases (same_key k key)) [
        | inl e ↦
            rw (n, e)
              (onto
                ∙ ap (λ l. l ++ rest) (rw e at (lookup-push key k row table))
                ∙ append_assoc (lookup_rows key table) (row ∷ []) rest)
        | inr e ↦ rw (n, e) (onto ∙ ap (λ l. l ++ rest) (rw e at (lookup-push key k row table)))
      ]
    ]

-- Under a key the table holds the rows of this key, in their order.
pub lookup-build :
    (keys : List ℕ) (key : Key) (rows : List DataRow)
    → lookup_rows key (build keys rows []) ≡ retain (is_under keys key) rows
unfolding lookup_rows
lookup-build keys key rows = lookup-build_onto keys key rows []
