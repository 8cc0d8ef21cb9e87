-- ===== src/Exec/HashJoin.antt =====
-- executor/ops.rs: `execute_hash_join`, on the rows of its two sides.
-- storage/types.rs: equality and hashing of `Datum`.
pub mod Table
pub mod Equivalence
pub mod Lost
pub mod Swapped
use heliondb.Base.{
  ℕ, Bool, true, false, not, ◌&&◌, ◌||◌, Option, none, some, List, [], ◌∷◌, ◌++◌, Ordering,
  if◌then◌else◌, any, map,
}
use heliondb.Base.Compare.{is_eq}
use heliondb.Types.Datum.{Datum, is_null}
use heliondb.Types.Order.{cmp}
use heliondb.Index.{Key, key_of}
use heliondb.Expr.Syntax.{JoinType}
use heliondb.Expr.Floats.{inf_f32, inf_f64, partial_cmp}
use heliondb.Exec.Filter.{DataRow}
use heliondb.Exec.NestedLoop.{is_left, is_right, nulls}

abbrev equal_floats : Option Ordering → Bool
equal_floats none = false
equal_floats (some o) = is_eq o

-- The derived `PartialEq` of `Datum`.
partial_eq : Datum → Datum → Bool
unfolding cmp partial_cmp
partial_eq (Datum.real a) (Datum.real b) = equal_floats (partial_cmp inf_f32 a b)
partial_eq (Datum.double a) (Datum.double b) = equal_floats (partial_cmp inf_f64 a b)
partial_eq a b = is_eq (cmp a b)

unfoldable pub key_eq : Key → Key → Bool
unfolding partial_eq
key_eq [] [] = true
key_eq (a ∷ xs) (b ∷ ys) = partial_eq a b && key_eq xs ys
key_eq _ _ = false

same_bits : Key → Key → Bool
unfolding cmp
same_bits [] [] = true
same_bits (a ∷ xs) (b ∷ ys) = is_eq (cmp a b) && same_bits xs ys
same_bits _ _ = false

-- Two keys meet in a hash map where they are equal and are hashed alike, by the bits of floats.
unfoldable pub same_key : Key → Key → Bool
unfolding key_eq same_bits
same_key a b = key_eq a b && same_bits a b

-- The hash table in the order in which its keys came.
abbrev pub HashTable : Type 0
HashTable = List (Key × List DataRow)

-- `entry(key).or_default().push(row)`.
unfoldable pub push : Key → DataRow → HashTable → HashTable
unfolding same_key
push key row [] = (key, row ∷ []) ∷ []
push key row ((k, rows) ∷ table) =
    if same_key k key then (k, rows ++ row ∷ []) ∷ table else (k, rows) ∷ push key row table

unfoldable pub lookup_rows : Key → HashTable → List DataRow
unfolding same_key
lookup_rows key [] = []
lookup_rows key ((k, rows) ∷ table) = if same_key k key then rows else lookup_rows key table

abbrev pub has_null : Key → Bool
has_null key = any is_null key

-- A row whose key holds a NULL does not enter the table.
unfoldable pub build : List ℕ → List DataRow → HashTable → HashTable
unfolding push is_null key_of
build keys [] table = table
build keys (row ∷ rows) table =
    build keys rows (if has_null (key_of keys row) then table else push (key_of keys row) row table)

unfoldable pub probe_has_key : Key → List DataRow → List ℕ → Bool
unfolding key_eq key_of
probe_has_key key probe_rows probe_keys = any (λ row. key_eq (key_of probe_keys row) key) probe_rows

module _ (test : DataRow → Bool) where
  abbrev joined : Bool → DataRow → DataRow → DataRow
  joined true build_row probe_row = build_row ++ probe_row
  joined false build_row probe_row = probe_row ++ build_row

  matching : Bool → DataRow → List DataRow → List DataRow
  matching build_left probe_row [] = []
  matching build_left probe_row (b ∷ bs) =
      let rest = matching build_left probe_row bs in
      if test (joined build_left b probe_row) then joined build_left b probe_row ∷ rest else rest

  unfoldable pub probe : Bool → List ℕ → HashTable → List DataRow → List DataRow
  unfolding matching lookup_rows is_null key_of
  probe build_left keys table [] = []
  probe build_left keys table (row ∷ rows) =
      (if has_null (key_of keys row)
        then []
        else matching build_left row (lookup_rows (key_of keys row) table))
      ++ probe build_left keys table rows

  padded : Bool → ℕ → DataRow → DataRow
  unfolding nulls
  padded true probe_width row = row ++ nulls probe_width
  padded false probe_width row = nulls probe_width ++ row

  -- The rows of the keys that no probe row has.
  unfoldable pub unmatched : Bool → ℕ → List ℕ → List DataRow → HashTable → List DataRow
  unfolding padded probe_has_key
  unmatched build_left probe_width probe_keys probe_rows [] = []
  unmatched build_left probe_width probe_keys probe_rows ((key, rows) ∷ table) =
      let rest = unmatched build_left probe_width probe_keys probe_rows table in
      if probe_has_key key probe_rows probe_keys
      then rest
      else map (padded build_left probe_width) rows ++ rest

  -- `hash_order` is the order in which a walk over the hash table meets its keys.
  module _ (hash_order : HashTable → HashTable) where
    unfoldable pub hash_join_rows :
        JoinType → Bool → List ℕ → List ℕ → ℕ → ℕ → List DataRow → List DataRow → List DataRow
    unfolding build probe unmatched
    hash_join_rows join_type true build_keys probe_keys left_width right_width lefts rights =
        let table = build build_keys lefts [] in
        probe true probe_keys table rights
        ++ (if is_left join_type
            then unmatched true right_width probe_keys rights (hash_order table)
            else [])
    hash_join_rows join_type false build_keys probe_keys left_width right_width lefts rights =
        let table = build probe_keys rights [] in
        probe false build_keys table lefts
        ++ (if is_right join_type
            then unmatched false left_width build_keys lefts (hash_order table)
            else [])
