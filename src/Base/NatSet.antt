-- ===== src/Base/NatSet.antt =====
-- `BTreeSet` of numbers: a list in increasing order.
use Prim.Native.Nat.{ℕ, ◌<◌, compare, Ordering}
use mathlib.Core.Path.{◌≡◌, refl}
use mathlib.Core.Bool.{Bool, false, ◌||◌}
use mathlib.Core.List.{List, [], ◌∷◌}
use native.Mathlib.Omega.{arith}
use heliondb.Base.Tests.{◌==◌, if◌then◌else◌}
use heliondb.Base.Lists.{All}

abbrev pub NatSet : Type 0
NatSet = List ℕ

abbrev pub contains : NatSet → ℕ → Bool
contains [] x = false
contains (y ∷ s) x = (y == x) || contains s x

unfoldable pub insert : ℕ → NatSet → NatSet
insert x [] = x ∷ []
insert x (y ∷ s) = elim (compare x y) [
  | Ordering.lt ↦ x ∷ y ∷ s
  | Ordering.eq ↦ y ∷ s
  | Ordering.gt ↦ y ∷ insert x s
]

unfoldable pub remove : ℕ → NatSet → NatSet
remove x [] = []
remove x (y ∷ s) = let rest = remove x s in if y == x then rest else y ∷ rest

-- `extend`: every element of the first set goes into the second.
unfoldable pub extend : NatSet → NatSet → NatSet
unfolding insert
extend [] s = s
extend (x ∷ r) s = extend r (insert x s)

pub contains-insert : (x y : ℕ) (s : NatSet) → contains (insert x s) y ≡ (x == y) || contains s y
unfolding insert
contains-insert x y [] = refl
contains-insert x y (z ∷ s) = ground (arith, contains-insert x y s)

pub contains-remove :
    (x y : ℕ) (s : NatSet) → contains (remove x s) y ≡ (if x == y then false else contains s y)
unfolding remove
contains-remove x y [] = ground arith
contains-remove x y (z ∷ s) = ground (arith, contains-remove x y s)

pub contains-extend :
    (r s : NatSet) (y : ℕ) → contains (extend r s) y ≡ contains r y || contains s y
unfolding extend
contains-extend [] s y = refl
contains-extend (x ∷ r) s y =
    ground (arith, contains-extend r (insert x s) y, contains-insert x y s)

-- In increasing order, hence with no element twice.
abbrev pub IsSorted : NatSet → Type 0
IsSorted [] = Unit
IsSorted (x ∷ s) = All (λ y. x < y) s × IsSorted s

insert-Above : (l x : ℕ) (s : NatSet) → l < x → All (λ y. l < y) s → All (λ y. l < y) (insert x s)
unfolding insert
insert-Above l x [] h a = (h, tt)
insert-Above l x (y ∷ s) h a = ground (arith, insert-Above l x s h a.1)

Above-mono : (l m : ℕ) (s : NatSet) → l < m → All (λ y. m < y) s → All (λ y. l < y) s
Above-mono l m [] h a = tt
Above-mono l m (y ∷ s) h a = (omega arith, Above-mono l m s h a.1)

insert-IsSorted : (x : ℕ) (s : NatSet) → IsSorted s → IsSorted (insert x s)
unfolding insert
insert-IsSorted x [] h = (tt, tt)
insert-IsSorted x (y ∷ s) h =
    ground (arith, insert-IsSorted x s h.1, insert-Above y x s, Above-mono x y s)

remove-Above : (l x : ℕ) (s : NatSet) → All (λ y. l < y) s → All (λ y. l < y) (remove x s)
unfolding remove
remove-Above l x [] a = tt
remove-Above l x (y ∷ s) a = ground (arith, remove-Above l x s a.1)

pub remove-IsSorted : (x : ℕ) (s : NatSet) → IsSorted s → IsSorted (remove x s)
unfolding remove
remove-IsSorted x [] h = tt
remove-IsSorted x (y ∷ s) h = ground (arith, remove-IsSorted x s h.1, remove-Above y x s)
