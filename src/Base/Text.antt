-- ===== src/Base/Text.antt =====
-- Texts: equality, code points, and the ASCII case folding of `eq_ignore_ascii_case`.
use Prim.Native.Nat.{ℕ, ◌+◌}
use Prim.Native.Char.{code}
use Prim.Native.String.{String}
use mathlib.Core.Path.{◌≡◌, refl, ap₂}
use text.Mathlib.TextEquality.{Char-path}
pub use text.Mathlib.Text.{◌==◌ as str_eq}
pub use text.Mathlib.TextEquality.{eq_iff as str_eq_iff}
pub use Prim.Native.String.{◌++◌ as concat}
use mathlib.Core.Bool.{Bool, true, false, ◌&&◌}
use mathlib.Core.Logic.{◌↔◌}
use mathlib.Core.List.{List, [], ◌∷◌, map}
use native.Mathlib.Omega.{arith}
use heliondb.Base.Tests.{leb, if◌then◌else◌, ◌==◌}

abbrev pub codes : String → List ℕ
codes String.[] = []
codes (String.◌∷◌ c s) = code c ∷ codes s

to_ascii_lower : ℕ → ℕ
to_ascii_lower c = if leb b'A' c && leb c b'Z' then c + 32 else c

abbrev same_codes : List ℕ → List ℕ → Bool
same_codes [] [] = true
same_codes (x ∷ xs) (y ∷ ys) = (x == y) && same_codes xs ys
same_codes _ _ = false

-- Texts compared as `str::eq_ignore_ascii_case` does.
pub folded : String → List ℕ
folded s = map to_ascii_lower (codes s)

unfoldable pub eq_ignore_ascii_case : String → String → Bool
unfolding folded to_ascii_lower
eq_ignore_ascii_case a b = same_codes (folded a) (folded b)

same_codes_iff : (xs ys : List ℕ) → (same_codes xs ys ≡ true) ↔ (xs ≡ ys)
same_codes_iff [] [] = (λ _. refl, λ _. refl)
same_codes_iff [] (y ∷ ys) = (λ h. cc, λ h. cc)
same_codes_iff (x ∷ xs) [] = (λ h. cc, λ h. cc)
same_codes_iff (x ∷ xs) (y ∷ ys) = ground (arith, same_codes_iff xs ys)

-- Two texts are equal up to ASCII case exactly when they fold to one list of code points.
pub eq_ignore_ascii_case_iff :
    (a b : String) → (eq_ignore_ascii_case a b ≡ true) ↔ (folded a ≡ folded b)
unfolding eq_ignore_ascii_case
eq_ignore_ascii_case_iff a b = same_codes_iff (folded a) (folded b)

-- A text is determined by its code points.
pub codes-injective : (a b : String) → codes a ≡ codes b → a ≡ b
codes-injective String.[] String.[] h = refl
codes-injective String.[] (String.◌∷◌ d t) h = cc
codes-injective (String.◌∷◌ c s) String.[] h = cc
codes-injective (String.◌∷◌ c s) (String.◌∷◌ d t) h =
    ap₂ String.◌∷◌ (Char-path c d (cc)) (codes-injective s t (cc))
