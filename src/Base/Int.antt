-- ===== src/Base/Int.antt =====
-- Signed integers over the native numbers, under the library's names, and the casts of Rust.
use Prim.Native.Nat.{ℕ, suc, ◌+◌, ◌-◌, ◌%◌, ◌^◌, ◌≤◌, ◌<◌}
use mathlib.Core.Bool.{Bool, true, false}
use heliondb.Base.Tests.{ltb, if◌then◌else◌}

-- `negsuc n` is -(n + 1).
pub data ℤ : Type 0 where
  pos : ℕ → ℤ
  negsuc : ℕ → ℤ

abbrev pub pos_part : ℤ → ℕ
pos_part (pos n) = n
pos_part (negsuc n) = 0

abbrev pub neg_part : ℤ → ℕ
neg_part (pos n) = 0
neg_part (negsuc n) = suc n

infix 50 ◌≤ℤ◌
abbrev pub ◌≤ℤ◌ : ℤ → ℤ → Type 0
a ≤ℤ b = pos_part a + neg_part b ≤ pos_part b + neg_part a

-- `v as uW`, and `v as iW`: the value modulo 2^W, read unsigned or in two's complement.
abbrev pub as_unsigned : ℕ → ℤ → ℕ
as_unsigned w (pos n) = n % 2 ^ w
as_unsigned w (negsuc n) = 2 ^ w - 1 - n % 2 ^ w

abbrev pub as_signed : ℕ → ℤ → ℤ
as_signed w z =
    let u = as_unsigned w z in if ltb u (2 ^ (w - 1)) then pos u else negsuc (2 ^ w - 1 - u)

-- The values of `iW` and `uW`.
abbrev pub IsSigned : ℕ → ℤ → Type 0
IsSigned w z = (pos_part z < 2 ^ (w - 1)) × (neg_part z ≤ 2 ^ (w - 1))

abbrev pub is_nonneg : ℤ → Bool
is_nonneg (pos n) = true
is_nonneg (negsuc n) = false
