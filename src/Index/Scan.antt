-- ===== src/Index/Scan.antt =====
-- The scans of an index list exactly the rows of the keys in their range.
use heliondb.Base.{
  ℕ, Bool, true, List, [], ◌∷◌, ◌≡◌, ◌↔◌, ◌⊎◌, inl, inr, arith, if◌then◌else◌, Bool-cases,
}
use heliondb.Base.NatSet
use heliondb.Base.NatSet.{NatSet, contains-extend}
use heliondb.Base.SortedMap
use heliondb.Base.SortedMap.{SortedMap, get-above}
use heliondb.Base.Compare.{is_eq}
use heliondb.Index.{
  Index, Key, cmp_key, get, collect, at_least, at_most, scan_from, scan_to, all_row_idxs,
}
use heliondb.Index.Laws.{IsSorted, holds, in_set, keys_order}

module _ (p : Key → Bool) (r : ℕ) where
  -- A key that passes the test and lists the row.
  abbrev Witness : SortedMap Key NatSet → Type 0
  Witness m = (k : Key) × (p k ≡ true) × (in_set (SortedMap.get cmp_key k m) r ≡ true)

  head_entry :
      (j : Key) (s : NatSet) (m : SortedMap Key NatSet)
      → p j ≡ true
      → NatSet.contains s r ≡ true
      → Witness ((j, s) ∷ m)
  unfolding SortedMap.get
  head_entry j s m h c = (j, h, ground (arith, keys_order.cmp_eq_iff j j))

  tail_entry :
      (j : Key) (s : NatSet) (m : SortedMap Key NatSet)
      → SortedMap.IsSorted cmp_key ((j, s) ∷ m)
      → Witness m
      → Witness ((j, s) ∷ m)
  unfolding SortedMap.get
  tail_entry j s m o (k, h, c) =
      (k, h, ground (arith, keys_order.cmp_eq_iff k j, get-above keys_order j m o.0))

  from_rest :
      (j : Key) (s results : NatSet) (m : SortedMap Key NatSet)
      → SortedMap.IsSorted cmp_key ((j, s) ∷ m)
      → (NatSet.contains (if p j then NatSet.extend s results else results) r ≡ true) ⊎ Witness m
      → (NatSet.contains results r ≡ true) ⊎ Witness ((j, s) ∷ m)
  from_rest j s results m o (inr w) = inr (tail_entry j s m o w)
  from_rest j s results m o (inl c) = elim (Bool-cases (p j)) [
    | inr skipped ↦ inl (ground arith)
    | inl taken ↦ elim (Bool-cases (NatSet.contains s r)) [
      | inl found ↦ inr (head_entry j s m taken found)
      | inr other ↦ inl (ground (arith, contains-extend s results r))
    ]
  ]

  collect_sound :
      (m : SortedMap Key NatSet) (results : NatSet)
      → SortedMap.IsSorted cmp_key m
      → NatSet.contains (collect p m results) r ≡ true
      → (NatSet.contains results r ≡ true) ⊎ Witness m
  unfolding collect
  collect_sound [] results o h = inl h
  collect_sound ((j, s) ∷ m) results o h =
      from_rest j s results m o
        (collect_sound m (if p j then NatSet.extend s results else results) o.1 h)

  collect_keeps :
      (m : SortedMap Key NatSet) (results : NatSet)
      → NatSet.contains results r ≡ true
      → NatSet.contains (collect p m results) r ≡ true
  unfolding collect
  collect_keeps [] results h = h
  collect_keeps ((j, s) ∷ m) results h =
      collect_keeps m (if p j then NatSet.extend s results else results)
        (ground (arith, contains-extend s results r))

  collect_complete :
      (m : SortedMap Key NatSet) (results : NatSet) (k : Key)
      → p k ≡ true
      → in_set (SortedMap.get cmp_key k m) r ≡ true
      → NatSet.contains (collect p m results) r ≡ true
  unfolding collect SortedMap.get
  collect_complete [] results k h c = cc
  collect_complete ((j, s) ∷ m) results k h c = elim (Bool-cases (is_eq (cmp_key k j))) [
    | inl same ↦
        collect_keeps m _ (ground (arith, keys_order.cmp_eq_iff k j, contains-extend s results r))
    | inr other ↦
        collect_complete m (if p j then NatSet.extend s results else results) k h (ground arith)
  ]

  collect_iff :
      (m : SortedMap Key NatSet)
      → SortedMap.IsSorted cmp_key m
      → (NatSet.contains (collect p m []) r ≡ true) ↔ Witness m
  collect_iff m o = (
    λ h. elim (collect_sound m [] o h) [ inl e ↦ cc | inr w ↦ w ],
    λ (k, h, c). collect_complete m [] k h c,
  )

module _ (i : Index) (r : ℕ) (sorted : IsSorted i) where
  abbrev pub Lists : (Key → Bool) → List ℕ → Type 0
  Lists p rows = (NatSet.contains rows r ≡ true) ↔ ((k : Key) × (p k ≡ true) × (holds i k r ≡ true))

  -- The scan from a key lists a row exactly when some key at or above it does, the scan up to a
  -- key exactly when some key at or below it does, and the full scan exactly when any key does.
  pub scan-Lists :
      (bound : Key)
      → Lists (at_least bound) (scan_from i bound)
        × Lists (at_most bound) (scan_to i bound)
        × Lists (λ _. true) (all_row_idxs i)
  unfolding scan_from scan_to all_row_idxs holds get
  scan-Lists bound = (
    collect_iff (at_least bound) r i.entries sorted,
    collect_iff (at_most bound) r i.entries sorted,
    collect_iff (λ _. true) r i.entries sorted,
  )
