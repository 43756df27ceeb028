-- ===== src/Base/Int.antt =====
-- The `int` of C as an integer over the native numbers, for code that does not overflow: the sign
-- change and the Boolean tests.
use Prim.Native.Nat.{ℕ, zero, suc, ◌-◌, ◌^◌, ◌<◌}
use mathlib.Core.Path.{◌≡◌, refl}
use mathlib.Core.Bool.{Bool, true, false}
use native.Mathlib.Omega.{arith}
use sye.Base.Tests.{ltb, ◌==◌, if◌then◌else◌}

-- `negsuc n` is -(n + 1).
pub data ℤ : Type 0 where
  pos negsuc : ℕ → ℤ

abbrev pub neg : ℤ → ℤ
neg (pos zero) = pos zero
neg (pos (suc n)) = negsuc n
neg (negsuc n) = pos (suc n)

infix 50 ◌==ℤ◌
unfoldable pub ◌==ℤ◌ : ℤ → ℤ → Bool
pos m ==ℤ pos n = m == n
pos m ==ℤ negsuc n = false
negsuc m ==ℤ pos n = false
negsuc m ==ℤ negsuc n = m == n

abbrev pub lt_ℤ : ℤ → ℤ → Bool
lt_ℤ (pos m) (pos n) = ltb m n
lt_ℤ (pos m) (negsuc n) = false
lt_ℤ (negsuc m) (pos n) = true
lt_ℤ (negsuc m) (negsuc n) = ltb n m

pub ==ℤ-eq : (a b : ℤ) → (a ==ℤ b) ≡ true → a ≡ b
unfolding ◌==ℤ◌
==ℤ-eq (pos m) (pos n) h = ground arith
==ℤ-eq (pos m) (negsuc n) h = cc
==ℤ-eq (negsuc m) (pos n) h = cc
==ℤ-eq (negsuc m) (negsuc n) h = ground arith

pub ==ℤ-refl : (a : ℤ) → (a ==ℤ a) ≡ true
unfolding ◌==ℤ◌
==ℤ-refl (pos m) = ground arith
==ℤ-refl (negsuc m) = ground arith

-- A 32-bit word read as an int.
abbrev pub as_int : ℕ → ℤ
as_int n = if ltb n (2 ^ 31) then pos n else negsuc (2 ^ 32 - 1 - n)

pub as_int-below : (n : ℕ) → n < 2 ^ 31 → as_int n ≡ pos n
as_int-below n p = let low : ltb n (2 ^ 31) ≡ true = ground arith in rw low refl
