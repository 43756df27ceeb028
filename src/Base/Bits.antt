-- ===== src/Base/Bits.antt =====
-- The bit operations of C at variables: `&` with a mask of low ones is a remainder.
use Prim.Native.Nat.{
  ℕ, zero, suc, ◌+◌, ◌*◌, ◌/◌, ◌%◌, ◌^◌, ◌≤◌, ◌<◌, min, bit_and, digits, bit_and-bitwise,
}
use mathlib.Core.Path.{◌≡◌, refl, sym, ◌∙◌}
use native.Mathlib.Omega.{arith}

-- `x >> k` and `x << k` before any narrowing.
infixl 75 ◌<<<◌ ◌>>>◌
abbrev pub ◌<<<◌ : ℕ → ℕ → ℕ
x <<< k = x * 2 ^ k

abbrev pub ◌>>>◌ : ℕ → ℕ → ℕ
x >>> k = x / 2 ^ k

-- The casts to `uint8_t`, `uint16_t` and `uint32_t`.
abbrev pub u8 : ℕ → ℕ
u8 n = n % 2 ^ 8

abbrev pub u16 : ℕ → ℕ
u16 n = n % 2 ^ 16

abbrev pub u32 : ℕ → ℕ
u32 n = n % 2 ^ 32

pub u32_below : (n : ℕ) → n < 2 ^ 32 → u32 n ≡ n
u32_below n p = omega arith

-- The mask of the `k` low bits, and the number that those bits of `a` make.
abbrev ones : ℕ → ℕ
ones zero = 0
ones (suc k) = ones k * 2 + 1

abbrev low : ℕ → ℕ → ℕ
low zero a = 0
low (suc k) a = low k (a / 2) * 2 + a % 2

low-zero : (k : ℕ) → low k 0 ≡ 0
low-zero zero = refl
low-zero (suc k) = omega (arith, low-zero k)

-- `bit_and` stands for a recursion on binary digits with fuel: any fuel that suffices gives `low`.
digits-low : (fuel k a : ℕ) → a ≤ fuel → digits (λ b. zero) min fuel a (ones k) ≡ low k a
digits-low zero k zero h = sym (low-zero k)
digits-low zero k (suc a) h = absurd (omega arith)
digits-low (suc fuel) k zero h = sym (low-zero k)
digits-low (suc fuel) zero (suc a) h = omega (arith, digits-low fuel 0 (suc a / 2) (omega arith))
digits-low (suc fuel) (suc k) (suc a) h =
    let half : ones (suc k) / 2 ≡ ones k = omega arith in
    rw half (omega (arith, digits-low fuel k (suc a / 2) (omega arith)))

pub bit_and-ones : (k a : ℕ) → bit_and a (ones k) ≡ low k a
bit_and-ones k a = bit_and-bitwise a (ones k) ∙ digits-low a k a (omega arith)

pub bit_and-zero : (a : ℕ) → bit_and a 0 ≡ 0
bit_and-zero a = bit_and-ones 0 a

pub bit_and-one : (a : ℕ) → bit_and a 1 ≡ a % 2
bit_and-one a = omega (arith, bit_and-ones 1 a)

pub bit_and-0x7 : (a : ℕ) → bit_and a 0x7 ≡ a % 8
bit_and-0x7 a = omega (arith, bit_and-ones 3 a)

pub bit_and-0xff : (a : ℕ) → bit_and a 0xff ≡ a % 256
bit_and-0xff a = omega (arith, bit_and-ones 8 a)

pub bit_and-0x3ff : (a : ℕ) → bit_and a 0x3ff ≡ a % 1024
bit_and-0x3ff a = omega (arith, bit_and-ones 10 a)
