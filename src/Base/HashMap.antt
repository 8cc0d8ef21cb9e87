-- ===== src/Base/HashMap.antt =====
-- `HashMap` with a decidable key: an association list whose order no statement depends on.
use mathlib.Core.Path.{◌≡◌}
use mathlib.Core.Bool.{Bool, true}
use mathlib.Core.Option.{Option, none, some}
use mathlib.Core.List.{List, [], ◌∷◌}
use mathlib.Core.Logic.{◌↔◌}
use native.Mathlib.Omega.{arith}
use heliondb.Base.Tests.{if◌then◌else◌}

abbrev pub HashMap {ℓ κ} : Type ℓ → Type κ → Type (ℓ ⊔ κ)
HashMap K V = List (K × V)

module _ {ℓ κ} {K : Type ℓ} {V : Type κ} (eq : K → K → Bool) where
  unfoldable pub get : K → HashMap K V → Option V
  get k [] = none
  get k ((j, v) ∷ m) = if eq j k then some v else get k m

  unfoldable pub remove : K → HashMap K V → HashMap K V
  remove k [] = []
  remove k ((j, v) ∷ m) = let rest = remove k m in if eq j k then rest else (j, v) ∷ rest

  unfoldable pub insert : K → V → HashMap K V → HashMap K V
  unfolding remove
  insert k v m = (k, v) ∷ remove k m

  module _ (eq_iff : (a b : K) → (eq a b ≡ true) ↔ (a ≡ b)) where
    pub get-remove :
        (k j : K) (m : HashMap K V) → get j (remove k m) ≡ (if eq k j then none else get j m)
    unfolding get remove
    get-remove k j [] = ground arith
    get-remove k j ((i, v) ∷ m) =
        ground (arith, get-remove k j m, eq_iff i k, eq_iff i j, eq_iff k j)

    pub get-insert :
        (k j : K) (v : V) (m : HashMap K V)
        → get j (insert k v m) ≡ (if eq k j then some v else get j m)
    unfolding get insert
    get-insert k j v m = ground (arith, get-remove k j m, eq_iff k j)
