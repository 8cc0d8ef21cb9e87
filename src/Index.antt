-- ===== src/Index.antt =====
-- storage/btree.rs: an index maps the values of its columns to the rows that hold them.
pub mod Laws
pub mod Unique
pub mod Scan
mod Tests
use heliondb.Base.{
  ℕ, String, Bool, true, false, not, ◌&&◌, Option, none, some, List, [], ◌∷◌, Ordering,
  if◌then◌else◌, get_elem?, length, ◌==◌,
}
use heliondb.Base.NatSet
use heliondb.Base.NatSet.{NatSet}
use heliondb.Base.SortedMap
use heliondb.Base.SortedMap.{SortedMap}
use heliondb.Base.Compare.{cmp_list}
use heliondb.Types.Datum.{Datum}
use heliondb.Types.Order.{cmp}
use heliondb.Types.Column.{Row}
use heliondb.Error.{Result, ok, err, duplicate_key, ◌>>=◌}

pub record IndexMeta : Type 0 where
  pub name : String
  pub columns : List ℕ
  pub is_unique : Bool

abbrev pub Key : Type 0
Key = List Datum

-- The order of `Vec<Datum>`.
abbrev pub cmp_key : Key → Key → Ordering
cmp_key = cmp_list cmp

pub record Index : Type 0 where
  pub meta : IndexMeta
  pub entries : SortedMap Key NatSet

abbrev pub new : IndexMeta → Index
new meta = record { meta = meta; entries = [] }

abbrev pub new_unique : String → List ℕ → Index
new_unique name columns = new (record { name = name; columns = columns; is_unique = true })

abbrev pub new_non_unique : String → List ℕ → Index
new_non_unique name columns = new (record { name = name; columns = columns; is_unique = false })

abbrev len : Index → ℕ
len i = length i.entries

abbrev is_empty : Index → Bool
is_empty i = len i == 0

-- `columns.iter().filter_map(|&i| row.values.get(i).cloned())`: a column out of range is left out.
unfoldable pub key_of : List ℕ → List Datum → Key
key_of [] values = []
key_of (c ∷ cs) values =
    let rest = key_of cs values in elim (get_elem? values c) [ none ↦ rest | some d ↦ d ∷ rest ]

unfoldable pub extract_key : Index → Row → Key
unfolding key_of
extract_key i row = key_of i.meta.columns row.values

unfoldable pub get : Index → Key → Option NatSet
unfolding SortedMap.get
get i key = SortedMap.get cmp_key key i.entries

abbrev pub is_some {ℓ} : {A : Type ℓ} → Option A → Bool
is_some none = false
is_some (some _) = true

unfoldable pub contains : Index → Key → Bool
unfolding get
contains i key = is_some (get i key)

-- `entry(key).or_default().insert(row_idx)`.
abbrev pub add_row : ℕ → Option NatSet → Option NatSet
add_row r none = some (NatSet.insert r [])
add_row r (some s) = some (NatSet.insert r s)

unfoldable pub insert_entry : Index → Key → ℕ → Index
unfolding SortedMap.alter NatSet.insert
insert_entry i key row_idx = record i {
  entries = SortedMap.alter cmp_key key (add_row row_idx) i.entries;
}

-- A unique index refuses a key that other rows hold.
abbrev pub taken : Option NatSet → ℕ → Bool
taken none row_idx = false
taken (some existing) row_idx = not (NatSet.contains existing row_idx)

unfoldable pub insert : Index → Key → ℕ → Result Index
unfolding get insert_entry
insert i key row_idx =
    if i.meta.is_unique && taken (get i key) row_idx
    then err (duplicate_key i.meta.name key)
    else ok (insert_entry i key row_idx)

-- The row leaves the set of its key, and the key goes with its last row.
drop_if_empty : NatSet → Option NatSet
drop_if_empty [] = none
drop_if_empty (x ∷ s) = some (x ∷ s)

abbrev drop_row : ℕ → Option NatSet → Option NatSet
unfolding drop_if_empty
drop_row r none = none
drop_row r (some s) = drop_if_empty (NatSet.remove r s)

unfoldable pub remove : Index → Key → ℕ → Index
unfolding SortedMap.alter NatSet.remove drop_row
remove i key row_idx = record i {
  entries = SortedMap.alter cmp_key key (drop_row row_idx) i.entries;
}

-- The index is changed in place: the old key stays removed also where the new one is refused.
pub update : Index → Key → Key → ℕ → Index × Result (Unit {0})
unfolding remove insert
update i old_key new_key row_idx =
    let j = remove i old_key row_idx in
    elim (insert j new_key row_idx) [ ok k ↦ (k, ok tt) | err e ↦ (j, err e) ]

-- All rows of the keys that pass a test, as one ordered set.
pub collect : (Key → Bool) → SortedMap Key NatSet → NatSet → NatSet
unfolding NatSet.extend
collect p [] results = results
collect p ((k, s) ∷ m) results = collect p m (if p k then NatSet.extend s results else results)

abbrev at_least : Key → Key → Bool
at_least from k = elim (cmp_key k from) [ Ordering.lt ↦ false | _ ↦ true ]

abbrev at_most : Key → Key → Bool
at_most to k = elim (cmp_key k to) [ Ordering.gt ↦ false | _ ↦ true ]

pub scan_from : Index → Key → List ℕ
unfolding collect
scan_from i from = collect (at_least from) i.entries []

pub scan_to : Index → Key → List ℕ
unfolding collect
scan_to i to = collect (at_most to) i.entries []

pub all_row_idxs : Index → List ℕ
unfolding collect
all_row_idxs i = collect (λ _. true) i.entries []

abbrev pub clear : Index → Index
clear i = record i { entries = [] }
