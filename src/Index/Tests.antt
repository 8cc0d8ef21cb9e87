-- ===== src/Index/Tests.antt =====
-- The laws of indexes at concrete ones.
use heliondb.Base.{ℕ, refl, [], ◌∷◌}
use heliondb.Base.Int.{pos}
use heliondb.Types.Datum.{Datum}
use heliondb.Index.{
  Index, Key, new_unique, new_non_unique, insert_entry, update, remove, at_least, at_most,
  scan_from, scan_to, all_row_idxs, cmp_key,
}
use heliondb.Index.Laws.{IsSorted, holds, insert_entry-IsSorted}
use heliondb.Index.Unique.{IsValid, Moved, insert-IsValid, update-Moved}
use heliondb.Index

abbrev key_of_int : ℕ → Key
key_of_int n = Datum.integer (pos n) ∷ []

abbrev ages : Index
ages = new_non_unique "idx_age" (1 ∷ [])

abbrev two_ages : Index
two_ages = insert_entry (insert_entry ages (key_of_int 40) 0) (key_of_int 30) 1

two_ages-IsSorted : IsSorted two_ages
two_ages-IsSorted =
    insert_entry-IsSorted (insert_entry ages (key_of_int 40) 0) (key_of_int 30) 1
      (insert_entry-IsSorted ages (key_of_int 40) 0 tt)

abbrev ids : Index
ids = new_unique "pk_users" (0 ∷ [])

ids-IsValid : IsValid ids
unfolding holds Index.get
ids-IsValid = record { sorted = tt; unique = λ k r q u h g. absurd (cc h) }

abbrev one_id : Index
one_id = insert_entry ids (key_of_int 7) 0

one_id-IsValid : IsValid one_id
unfolding Index.insert insert_entry
one_id-IsValid = insert-IsValid ids one_id (key_of_int 7) 0 refl ids-IsValid

update-Moved_example :
    Moved one_id (key_of_int 7) (key_of_int 8) 0 (update one_id (key_of_int 7) (key_of_int 8) 0)
update-Moved_example = update-Moved one_id (key_of_int 7) (key_of_int 8) 0 one_id-IsValid
