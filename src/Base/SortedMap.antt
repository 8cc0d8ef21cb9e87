-- ===== src/Base/SortedMap.antt =====
-- `BTreeMap`: an association list in the increasing order of its keys, changed by one operation,
-- `alter`, which stands for `insert`, `remove` and the entry interface.
use Prim.Native.Nat.{Ordering}
use mathlib.Core.Path.{◌≡◌, refl}
use mathlib.Core.Option.{Option, none, some}
use mathlib.Core.List.{List, [], ◌∷◌}
use native.Mathlib.Omega.{arith}
use heliondb.Base.Tests.{if◌then◌else◌}
use heliondb.Base.Compare.{IsTotalOrder, is_eq}

abbrev pub SortedMap {ℓ κ} : Type ℓ → Type κ → Type (ℓ ⊔ κ)
SortedMap K V = List (K × V)

module _ {ℓ κ} {K : Type ℓ} {V : Type κ} where
  abbrev put_front : K → Option V → SortedMap K V → SortedMap K V
  put_front k none m = m
  put_front k (some v) m = (k, v) ∷ m

module _ {ℓ κ} {K : Type ℓ} {V : Type κ} (cmp : K → K → Ordering) where
  unfoldable pub get : K → SortedMap K V → Option V
  get k [] = none
  get k ((j, v) ∷ m) = if is_eq (cmp k j) then some v else get k m

  -- The entry of `k`, present or not, is replaced by what `f` makes of it.
  unfoldable pub alter : K → (Option V → Option V) → SortedMap K V → SortedMap K V
  alter k f [] = put_front k (f none) []
  alter k f ((j, v) ∷ m) = elim (cmp k j) [
    | Ordering.lt ↦ put_front k (f none) ((j, v) ∷ m)
    | Ordering.eq ↦ put_front j (f (some v)) m
    | Ordering.gt ↦ (j, v) ∷ alter k f m
  ]

  abbrev IsAbove : K → SortedMap K V → Type 0
  IsAbove k [] = Unit
  IsAbove k ((j, v) ∷ m) = (cmp k j ≡ Ordering.lt) × IsAbove k m

  abbrev pub IsSorted : SortedMap K V → Type 0
  IsSorted [] = Unit
  IsSorted ((k, v) ∷ m) = IsAbove k m × IsSorted m

module _ {ℓ κ} {K : Type ℓ} {V : Type κ} {cmp : K → K → Ordering} (o : IsTotalOrder cmp) where
  IsAbove-mono :
      (k j : K) (m : SortedMap K V) → cmp k j ≡ Ordering.lt → IsAbove cmp j m → IsAbove cmp k m
  IsAbove-mono k j [] h a = tt
  IsAbove-mono k j ((i, v) ∷ m) h a = (o.cmp_trans k j i h a.0, IsAbove-mono k j m h a.1)

  pub get-above : (k : K) (m : SortedMap K V) → IsAbove cmp k m → get cmp k m ≡ none
  unfolding get
  get-above k [] a = refl
  get-above k ((j, v) ∷ m) a = ground (arith, get-above k m a.1)

  -- A lookup after a change, at the changed key and at any other.
  pub get-alter :
      (k j : K) (f : Option V → Option V) (m : SortedMap K V)
      → IsSorted cmp m
      → get cmp j (alter cmp k f m) ≡ (if is_eq (cmp j k) then f (get cmp k m) else get cmp j m)
  unfolding get alter
  get-alter k j f [] s = ground arith
  get-alter k j f ((i, v) ∷ m) s = ground (
    arith,
    get-alter k j f m s.1,
    get-above k m,
    IsAbove-mono k i m,
    get-above j m,
    IsAbove-mono j i m,
    o.cmp_eq_iff k i,
    o.cmp_eq_iff j i,
    o.cmp_eq_iff j k,
    o.cmp_flip k i,
  )

  alter-IsAbove :
      (i k : K) (f : Option V → Option V) (m : SortedMap K V)
      → cmp i k ≡ Ordering.lt
      → IsAbove cmp i m
      → IsAbove cmp i (alter cmp k f m)
  unfolding alter
  alter-IsAbove i k f [] h a = ground arith
  alter-IsAbove i k f ((j, v) ∷ m) h a = ground (arith, alter-IsAbove i k f m h a.1)

  pub alter-IsSorted :
      (k : K) (f : Option V → Option V) (m : SortedMap K V)
      → IsSorted cmp m
      → IsSorted cmp (alter cmp k f m)
  unfolding alter
  alter-IsSorted k f [] s = ground arith
  alter-IsSorted k f ((j, v) ∷ m) s =
      ground
        (arith, alter-IsSorted k f m s.1, alter-IsAbove j k f m, IsAbove-mono k j m, o.cmp_flip k j)
