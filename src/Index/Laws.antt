-- ===== src/Index/Laws.antt =====
-- An index seen as the relation between keys and rows, and what each operation does to it.
use heliondb.Base.{
  ℕ, Bool, false, ◌&&◌, ◌||◌, Option, none, some, [], ◌∷◌, ◌≡◌, refl, ◌==◌, arith, if◌then◌else◌,
}
use heliondb.Base.NatSet
use heliondb.Base.NatSet.{NatSet, contains-insert, contains-remove}
use heliondb.Base.SortedMap
use heliondb.Base.SortedMap.{get-alter, alter-IsSorted}
use heliondb.Base.Compare.{is_eq, IsTotalOrder, cmp_list-IsTotalOrder}
use heliondb.Types.Order.Total.{cmp-IsTotalOrder}
use heliondb.Index.{
  Index, Key, cmp_key, get, insert_entry, remove, add_row, drop_row, drop_if_empty,
}

-- Does the index list the row under the key?
abbrev pub in_set : Option NatSet → ℕ → Bool
in_set none r = false
in_set (some s) r = NatSet.contains s r

unfoldable pub holds : Index → Key → ℕ → Bool
holds i key row_idx = in_set (get i key) row_idx

abbrev pub key_eq : Key → Key → Bool
key_eq a b = is_eq (cmp_key a b)

abbrev pub IsSorted : Index → Type 0
IsSorted i = SortedMap.IsSorted cmp_key i.entries

pub keys_order : IsTotalOrder cmp_key
keys_order = cmp_list-IsTotalOrder cmp-IsTotalOrder

pub insert_entry-IsSorted :
    (i : Index) (k : Key) (r : ℕ) → IsSorted i → IsSorted (insert_entry i k r)
unfolding insert_entry
insert_entry-IsSorted i k r s = alter-IsSorted keys_order k (add_row r) i.entries s

pub remove-IsSorted : (i : Index) (k : Key) (r : ℕ) → IsSorted i → IsSorted (remove i k r)
unfolding remove
remove-IsSorted i k r s = alter-IsSorted keys_order k (drop_row r) i.entries s

in_set-add_row : (r q : ℕ) (o : Option NatSet) → in_set (add_row r o) q ≡ (r == q) || in_set o q
in_set-add_row r q none = ground (arith, contains-insert r q [])
in_set-add_row r q (some s) = contains-insert r q s

in_set-drop_if_empty : (q : ℕ) (s : NatSet) → in_set (drop_if_empty s) q ≡ NatSet.contains s q
unfolding drop_if_empty
in_set-drop_if_empty q [] = refl
in_set-drop_if_empty q (x ∷ s) = refl

in_set-drop_row :
    (r q : ℕ) (o : Option NatSet) → in_set (drop_row r o) q ≡ (if r == q then false else in_set o q)
unfolding drop_row
in_set-drop_row r q none = ground arith
in_set-drop_row r q (some s) =
    ground (arith, in_set-drop_if_empty q (NatSet.remove r s), contains-remove r q s)

-- `insert_entry` adds its pair of key and row and changes no other.
pub holds-insert_entry :
    (i : Index) (k j : Key) (r q : ℕ)
    → IsSorted i
    → holds (insert_entry i k r) j q ≡ (key_eq j k && (r == q)) || holds i j q
unfolding holds insert_entry get
holds-insert_entry i k j r q s = ground (
  arith,
  get-alter keys_order k j (add_row r) i.entries s,
  in_set-add_row r q (SortedMap.get cmp_key k i.entries),
  keys_order.cmp_eq_iff j k,
)

-- `remove` takes out its pair of key and row and changes no other.
pub holds-remove :
    (i : Index) (k j : Key) (r q : ℕ)
    → IsSorted i
    → holds (remove i k r) j q ≡ (if key_eq j k && (r == q) then false else holds i j q)
unfolding holds remove get
holds-remove i k j r q s = ground (
  arith,
  get-alter keys_order k j (drop_row r) i.entries s,
  in_set-drop_row r q (SortedMap.get cmp_key k i.entries),
  keys_order.cmp_eq_iff j k,
)
