-- ===== src/Base/Bytes.antt =====
-- Prefixes and suffixes of lists, and numbers as bytes in little-endian order.
use Prim.Native.Nat.{ℕ, zero, suc, ◌+◌, ◌*◌, ◌/◌, ◌%◌, ◌^◌, ◌<◌, ◌≤◌}
use mathlib.Core.Path.{◌≡◌, refl, ap, sym, ◌∙◌}
use mathlib.Core.List.{List, [], ◌∷◌, ◌++◌}
use native.Mathlib.Omega.{arith}
use heliondb.Base.Lists.{length}

module _ {ℓ} {A : Type ℓ} where
  abbrev pub take : ℕ → List A → List A
  take zero xs = []
  take (suc n) [] = []
  take (suc n) (x ∷ xs) = x ∷ take n xs

  abbrev pub drop : ℕ → List A → List A
  drop zero xs = xs
  drop (suc n) [] = []
  drop (suc n) (x ∷ xs) = drop n xs

  pub take-append : (xs ys : List A) → take (length xs) (xs ++ ys) ≡ xs
  take-append [] ys = refl
  take-append (x ∷ xs) ys = ap (◌∷◌ x) (take-append xs ys)

  pub drop-append : (xs ys : List A) → drop (length xs) (xs ++ ys) ≡ ys
  drop-append [] ys = refl
  drop-append (x ∷ xs) ys = drop-append xs ys

  pub length-drop : (n : ℕ) (xs : List A) → n ≤ length xs → length (drop n xs) + n ≡ length xs
  length-drop zero xs h = omega arith
  length-drop (suc n) [] h = absurd (omega arith)
  length-drop (suc n) (x ∷ xs) h = omega (arith, length-drop n xs (omega arith))

-- `to_le_bytes` of a number of `k` bytes, and `from_le_bytes`.
unfoldable pub le_bytes : ℕ → ℕ → List ℕ
le_bytes zero n = []
le_bytes (suc k) n = n % 256 ∷ le_bytes k (n / 256)

unfoldable pub from_le_bytes : List ℕ → ℕ
from_le_bytes [] = 0
from_le_bytes (b ∷ bs) = b + 256 * from_le_bytes bs

pub length-le_bytes : (k n : ℕ) → length (le_bytes k n) ≡ k
unfolding le_bytes
length-le_bytes zero n = refl
length-le_bytes (suc k) n = ap suc (length-le_bytes k (n / 256))

pub from_le_bytes-le_bytes : (k n : ℕ) → n < 256 ^ k → from_le_bytes (le_bytes k n) ≡ n
unfolding le_bytes from_le_bytes
from_le_bytes-le_bytes zero n h = omega arith
from_le_bytes-le_bytes (suc k) n h =
    let below : n / 256 < 256 ^ k = omega arith in
    omega (arith, from_le_bytes-le_bytes k (n / 256) below)

pub take-le_bytes : (k n : ℕ) (ys : List ℕ) → take k (le_bytes k n ++ ys) ≡ le_bytes k n
take-le_bytes k n ys =
    ap (λ j. take j (le_bytes k n ++ ys)) (sym (length-le_bytes k n))
    ∙ take-append (le_bytes k n) ys

pub drop-le_bytes : (k n : ℕ) (ys : List ℕ) → drop k (le_bytes k n ++ ys) ≡ ys
drop-le_bytes k n ys =
    ap (λ j. drop j (le_bytes k n ++ ys)) (sym (length-le_bytes k n))
    ∙ drop-append (le_bytes k n) ys
