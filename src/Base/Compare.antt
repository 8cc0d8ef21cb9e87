-- ===== src/Base/Compare.antt =====
-- Three-way comparisons (`std::cmp::Ordering`), the laws of a total order, and how they lift to
-- integers and, lexicographically, to lists.
use Prim.Native.Nat.{compare, Ordering}
use mathlib.Core.Path.{◌≡◌, refl}
use mathlib.Core.Bool.{Bool, true, false}
use mathlib.Core.Logic.{◌↔◌}
use mathlib.Core.List.{List, [], ◌∷◌}
use native.Mathlib.Omega.{arith}
use heliondb.Base.Int.{ℤ, pos, negsuc}

abbrev pub reverse_ordering : Ordering → Ordering
reverse_ordering Ordering.lt = Ordering.gt
reverse_ordering Ordering.eq = Ordering.eq
reverse_ordering Ordering.gt = Ordering.lt

abbrev pub is_eq : Ordering → Bool
is_eq Ordering.eq = true
is_eq _ = false

-- What `Ord` asks of `cmp`.
pub record IsTotalOrder {ℓ} {A : Type ℓ} (cmp : A → A → Ordering) : Type ℓ where
  pub cmp_eq_iff : (a b : A) → (cmp a b ≡ Ordering.eq) ↔ (a ≡ b)
  pub cmp_flip : (a b : A) → cmp b a ≡ reverse_ordering (cmp a b)
  pub cmp_trans :
      (a b c : A) → cmp a b ≡ Ordering.lt → cmp b c ≡ Ordering.lt → cmp a c ≡ Ordering.lt

abbrev pub cmp_ℤ : ℤ → ℤ → Ordering
cmp_ℤ (pos a) (pos b) = compare a b
cmp_ℤ (pos a) (negsuc b) = Ordering.gt
cmp_ℤ (negsuc a) (pos b) = Ordering.lt
cmp_ℤ (negsuc a) (negsuc b) = compare b a

abbrev pub then_with : Ordering → Ordering → Ordering
then_with Ordering.lt o = Ordering.lt
then_with Ordering.eq o = o
then_with Ordering.gt o = Ordering.gt

-- The order of `Vec<T>` and of slices.
module _ {ℓ} {A : Type ℓ} (cmp : A → A → Ordering) where
  abbrev pub cmp_list : List A → List A → Ordering
  cmp_list [] [] = Ordering.eq
  cmp_list [] (y ∷ ys) = Ordering.lt
  cmp_list (x ∷ xs) [] = Ordering.gt
  cmp_list (x ∷ xs) (y ∷ ys) = then_with (cmp x y) (cmp_list xs ys)

pub compare-IsTotalOrder : IsTotalOrder compare
compare-IsTotalOrder = record {
  cmp_eq_iff = λ a b. ground arith;
  cmp_flip = λ a b. ground arith;
  cmp_trans = λ a b c h k. ground arith;
}

pub cmp_ℤ-IsTotalOrder : IsTotalOrder cmp_ℤ
cmp_ℤ-IsTotalOrder = record {
  cmp_eq_iff = λ a b. ground arith;
  cmp_flip = λ a b. ground arith;
  cmp_trans = λ a b c h k. ground arith;
}

module _ {ℓ} {A : Type ℓ} {cmp : A → A → Ordering} (o : IsTotalOrder cmp) where
  list_eq_iff : (xs ys : List A) → (cmp_list cmp xs ys ≡ Ordering.eq) ↔ (xs ≡ ys)
  list_eq_iff [] [] = (λ _. refl, λ _. refl)
  list_eq_iff [] (y ∷ ys) = (λ h. cc, λ h. cc)
  list_eq_iff (x ∷ xs) [] = (λ h. cc, λ h. cc)
  list_eq_iff (x ∷ xs) (y ∷ ys) = ground (arith, o.cmp_eq_iff x y, list_eq_iff xs ys)

  list_flip : (xs ys : List A) → cmp_list cmp ys xs ≡ reverse_ordering (cmp_list cmp xs ys)
  list_flip [] [] = refl
  list_flip [] (y ∷ ys) = refl
  list_flip (x ∷ xs) [] = refl
  list_flip (x ∷ xs) (y ∷ ys) = ground (arith, o.cmp_flip x y, list_flip xs ys)

  list_trans :
      (xs ys zs : List A)
      → cmp_list cmp xs ys ≡ Ordering.lt
      → cmp_list cmp ys zs ≡ Ordering.lt
      → cmp_list cmp xs zs ≡ Ordering.lt
  list_trans [] [] zs h k = cc
  list_trans [] (y ∷ ys) [] h k = cc
  list_trans [] (y ∷ ys) (z ∷ zs) h k = refl
  list_trans (x ∷ xs) [] zs h k = cc
  list_trans (x ∷ xs) (y ∷ ys) [] h k = cc
  list_trans (x ∷ xs) (y ∷ ys) (z ∷ zs) h k =
      ground (arith, o.cmp_trans x y z, o.cmp_eq_iff x y, o.cmp_eq_iff y z, list_trans xs ys zs)

  -- The lexicographic order of a total order is total.
  pub cmp_list-IsTotalOrder : IsTotalOrder (cmp_list cmp)
  cmp_list-IsTotalOrder = record {
    cmp_eq_iff = list_eq_iff;
    cmp_flip = list_flip;
    cmp_trans = list_trans;
  }
