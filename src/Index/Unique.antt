-- ===== src/Index/Unique.antt =====
-- The invariant of an index, unique ones included, and that every operation keeps it.
use heliondb.Base.{
  ℕ, Bool, true, false, ◌&&◌, ◌||◌, Option, none, some, ◌≡◌, refl, ◌==◌, arith, if◌then◌else◌, ap,
  ◌∙◌,
}
use heliondb.Base.NatSet.{NatSet}
use heliondb.Error.{Result, ok, err}
use heliondb.Index.{Index, Key, get, insert_entry, insert, remove, update, taken}
use heliondb.Index.Laws.{
  IsSorted, holds, in_set, key_eq, keys_order, insert_entry-IsSorted, remove-IsSorted,
  holds-insert_entry, holds-remove,
}

-- The keys are in order, and a unique index lists at most one row under a key.
pub record IsValid (i : Index) : Type 0 where
  pub sorted : IsSorted i
  pub unique :
      (k : Key) (r q : ℕ)
      → i.meta.is_unique ≡ true
      → holds i k r ≡ true
      → holds i k q ≡ true
      → r ≡ q

meta-insert_entry : (i : Index) (k : Key) (r : ℕ) → (insert_entry i k r).meta ≡ i.meta
unfolding insert_entry
meta-insert_entry i k r = refl

meta-remove : (i : Index) (k : Key) (r : ℕ) → (remove i k r).meta ≡ i.meta
unfolding remove
meta-remove i k r = refl

not_taken :
    (o : Option NatSet) (r q : ℕ) → taken o r ≡ false → in_set o q ≡ true → in_set o r ≡ true
not_taken none r q t h = cc
not_taken (some s) r q t h = ground arith

-- What a successful insertion did.
insert-ok : (i j : Index) (k : Key) (r : ℕ) → insert i k r ≡ ok j → j ≡ insert_entry i k r
unfolding insert
insert-ok i j k r h = ground arith

-- Before a successful insertion, a key of a unique index listed no row but the new one.
insert_free :
    (i j : Index) (k : Key) (r q : ℕ)
    → insert i k r ≡ ok j
    → i.meta.is_unique ≡ true
    → holds i k q ≡ true
    → holds i k r ≡ true
unfolding insert holds
insert_free i j k r q h u p = ground (arith, not_taken (get i k) r q)

insert_entry-IsValid :
    (i : Index) (k : Key) (r : ℕ)
    → IsValid i
    → ((q : ℕ) → i.meta.is_unique ≡ true → holds i k q ≡ true → holds i k r ≡ true)
    → IsValid (insert_entry i k r)
insert_entry-IsValid i k r v free = record {
  sorted = insert_entry-IsSorted i k r v.sorted;
  unique = λ j p q u hp hq. ground (
    arith,
    meta-insert_entry i k r,
    holds-insert_entry i k j r p v.sorted,
    holds-insert_entry i k j r q v.sorted,
    keys_order.cmp_eq_iff j k,
    free p,
    free q,
    v.unique j p q,
    v.unique k p r,
    v.unique k q r,
  );
}

-- A successful insertion keeps the keys in order and a unique index unique.
pub insert-IsValid : (i j : Index) (k : Key) (r : ℕ) → insert i k r ≡ ok j → IsValid i → IsValid j
insert-IsValid i j k r h v =
    rw (insert-ok i j k r h) (insert_entry-IsValid i k r v (λ q. insert_free i j k r q h))

-- So does the removal of a row.
remove-IsValid : (i : Index) (k : Key) (r : ℕ) → IsValid i → IsValid (remove i k r)
remove-IsValid i k r v = record {
  sorted = remove-IsSorted i k r v.sorted;
  unique = λ j p q u hp hq. ground (
    arith,
    meta-remove i k r,
    holds-remove i k j r p v.sorted,
    holds-remove i k j r q v.sorted,
    v.unique j p q,
  );
}

abbrev is_ok {ℓ} : {A : Type ℓ} → Result A → Bool
is_ok (ok _) = true
is_ok (err _) = false

-- What `update` leaves behind, by the result of its insertion.
abbrev pub Moved : Index → Key → Key → ℕ → Index × Result (Unit {0}) → Type 0
Moved i old_key new_key r (j, result) =
    IsValid j
    × ((k : Key) (q : ℕ)
        → holds j k q
          ≡ (is_ok result && (key_eq k new_key && (r == q)))
            || (if key_eq k old_key && (r == q) then false else holds i k q))

insert_result :
    (i j : Index) (old_key new_key : Key) (r : ℕ) (result : Result Index)
    → insert j new_key r ≡ result
    → j ≡ remove i old_key r
    → IsValid i
    → Moved i old_key new_key r (elim result [ ok k ↦ (k, ok tt) | err e ↦ (j, err e) ])
insert_result i j old_key new_key r (ok m) h e v = (
  insert-IsValid j m new_key r h (rw e (remove-IsValid i old_key r v)),
  λ k q.
      ap (λ x. holds x k q) (insert-ok j m new_key r h)
      ∙ ap (λ x. holds (insert_entry x new_key r) k q) e
      ∙ holds-insert_entry (remove i old_key r) new_key k r q (remove-IsSorted i old_key r v.sorted)
      ∙ ap (λ b. key_eq k new_key && (r == q) || b) (holds-remove i old_key k r q v.sorted),
)
insert_result i j old_key new_key r (err m) h e v = (
  rw e (remove-IsValid i old_key r v),
  λ k q. ap (λ x. holds x k q) e ∙ holds-remove i old_key k r q v.sorted,
)

-- An update that returns has moved its row from the old key to the new one and no other row; one
-- that is refused has still removed the row from its old key. The index stays valid either way.
pub update-Moved :
    (i : Index) (old_key new_key : Key) (r : ℕ)
    → IsValid i
    → Moved i old_key new_key r (update i old_key new_key r)
unfolding update
update-Moved i old_key new_key r v =
    insert_result i (remove i old_key r) old_key new_key r (insert (remove i old_key r) new_key r)
      refl refl v
