-- ===== src/Prelude/Bits/Masks.antt =====
-- `& (2 ^ k - 1)` of a word of any width is its remainder.
use Prim.Native.Nat.{ℕ, zero, suc, ◌+◌, ◌*◌, ◌/◌, ◌%◌, ◌≤◌, min, bit_and, bit_and-bitwise}
use mathlib.Core.Path.{◌≡◌, refl}
use native.Mathlib.Omega.{arith}
use simply_node_framework.Prelude.Bits.{digits_enough}

pub bit_and_digit : (a b : ℕ) → bit_and a b ≡ bit_and (a / 2) (b / 2) * 2 + min (a % 2) (b % 2)
bit_and_digit zero b = omega (arith, bit_and-bitwise 0 b, bit_and-bitwise 0 (b / 2))
bit_and_digit (suc a) b = omega (
  arith,
  bit_and-bitwise (suc a) b,
  bit_and-bitwise (suc a / 2) (b / 2),
  digits_enough (λ b. zero) min a (suc a / 2) (suc a / 2) (b / 2) (omega arith) (omega arith),
)

bit_and_zero : (n a : ℕ) → a ≤ n → bit_and a 0 ≡ 0
bit_and_zero zero zero h = refl
bit_and_zero zero (suc a) h = absurd (omega arith)
bit_and_zero (suc n) zero h = refl
bit_and_zero (suc n) (suc a) h =
    omega (arith, bit_and_digit (suc a) 0, bit_and_zero n (suc a / 2) (omega arith))

bit_and_0x1 : (a : ℕ) → bit_and a 0x1 ≡ a % 2
bit_and_0x1 a = omega (arith, bit_and_digit a 0x1, bit_and_zero (a / 2) (a / 2) (omega arith))

bit_and_0x3 : (a : ℕ) → bit_and a 0x3 ≡ a % 4
bit_and_0x3 a = omega (arith, bit_and_digit a 0x3, bit_and_0x1 (a / 2))

bit_and_0x7 : (a : ℕ) → bit_and a 0x7 ≡ a % 8
bit_and_0x7 a = omega (arith, bit_and_digit a 0x7, bit_and_0x3 (a / 2))

bit_and_0xf : (a : ℕ) → bit_and a 0xf ≡ a % 16
bit_and_0xf a = omega (arith, bit_and_digit a 0xf, bit_and_0x7 (a / 2))

bit_and_0x1f : (a : ℕ) → bit_and a 0x1f ≡ a % 32
bit_and_0x1f a = omega (arith, bit_and_digit a 0x1f, bit_and_0xf (a / 2))

pub bit_and_0x3f : (a : ℕ) → bit_and a 0x3f ≡ a % 64
bit_and_0x3f a = omega (arith, bit_and_digit a 0x3f, bit_and_0x1f (a / 2))

bit_and_0x7f : (a : ℕ) → bit_and a 0x7f ≡ a % 128
bit_and_0x7f a = omega (arith, bit_and_digit a 0x7f, bit_and_0x3f (a / 2))

pub bit_and_0xff : (a : ℕ) → bit_and a 0xff ≡ a % 256
bit_and_0xff a = omega (arith, bit_and_digit a 0xff, bit_and_0x7f (a / 2))
