-- ===== src/Prelude/Bits.antt =====
-- `&`, `|` and `^` at variables: masks of one byte by a table, `|` of disjoint fields as a sum, and
-- `^` as an operation that undoes itself and stays within a byte.
pub mod Masks
use Prim.Native.Nat.{
  ℕ, zero, suc, ◌+◌, ◌*◌, ◌/◌, ◌%◌, ◌^◌, ◌≤◌, ◌<◌, max, bit_and, bit_or, bit_xor, differ, digits,
  bit_or-bitwise, bit_xor-bitwise,
}
use mathlib.Core.Path.{◌≡◌, refl, ap}
use mathlib.Core.Bool.{Bool, true, ◌&&◌}
use native.Mathlib.Nat.{pow-suc}
use native.Mathlib.Omega.{arith}
use simply_node_framework.Prelude.Tests.{◌==◌, ==_iff}

-- A table over the numbers below `n`.
abbrev pub all_below : ℕ → (ℕ → Bool) → Bool
all_below zero p = true
all_below (suc n) p = p n && all_below n p

pub all_below_lem : (n : ℕ) (p : ℕ → Bool) → all_below n p ≡ true → (i : ℕ) → i < n → p i ≡ true
all_below_lem zero p e i h = absurd (omega arith)
all_below_lem (suc n) p e i h = ground (arith, all_below_lem n p (ground arith) i)

module _ (f g : ℕ → ℕ) where
  eq_of_table : (n : ℕ) → all_below n (λ i. f i == g i) ≡ true → (i : ℕ) → i < n → f i ≡ g i
  eq_of_table n e i h = (==_iff _ _).0 (all_below_lem n (λ i. f i == g i) e i h)

pub bit_and_0x80 : (b : ℕ) → b < 256 → bit_and b 0x80 ≡ b / 128 * 128
bit_and_0x80 = eq_of_table _ _ 256 refl

pub bit_and_0x70 : (b : ℕ) → b < 256 → bit_and b 0x70 ≡ b / 16 % 8 * 16
bit_and_0x70 = eq_of_table _ _ 256 refl

pub bit_and_0x0f : (b : ℕ) → b < 256 → bit_and b 0x0f ≡ b % 16
bit_and_0x0f = eq_of_table _ _ 256 refl

pub bit_and_0x7f : (b : ℕ) → b < 256 → bit_and b 0x7f ≡ b % 128
bit_and_0x7f = eq_of_table _ _ 256 refl

pub bit_or_0x80 : (b : ℕ) → b < 128 → bit_or 0x80 b ≡ 128 + b
bit_or_0x80 = eq_of_table _ _ 128 refl

-- The count of digits left does not matter once it covers the first number.
pub digits_enough :
    (z : ℕ → ℕ) (f : ℕ → ℕ → ℕ) (n m a b : ℕ) → a ≤ n → a ≤ m → digits z f n a b ≡ digits z f m a b
digits_enough z f zero zero a b p q = refl
digits_enough z f zero (suc m) zero b p q = refl
digits_enough z f zero (suc m) (suc a) b p q = absurd (omega arith)
digits_enough z f (suc n) zero zero b p q = refl
digits_enough z f (suc n) zero (suc a) b p q = absurd (omega arith)
digits_enough z f (suc n) (suc m) zero b p q = refl
digits_enough z f (suc n) (suc m) (suc a) b p q =
    omega (arith, digits_enough z f n m (suc a / 2) (b / 2) (omega arith) (omega arith))

pub bit_or_digit : (a b : ℕ) → bit_or a b ≡ bit_or (a / 2) (b / 2) * 2 + max (a % 2) (b % 2)
bit_or_digit zero b = omega (arith, bit_or-bitwise 0 b, bit_or-bitwise 0 (b / 2))
bit_or_digit (suc a) b = omega (
  arith,
  bit_or-bitwise (suc a) b,
  bit_or-bitwise (suc a / 2) (b / 2),
  digits_enough (λ b. b) max a (suc a / 2) (suc a / 2) (b / 2) (omega arith) (omega arith),
)

differ_digit : (x y : ℕ) → x < 2 → y < 2 → differ x y ≡ (x + y) % 2
differ_digit zero y h k = omega arith
differ_digit (suc zero) zero h k = refl
differ_digit (suc zero) (suc zero) h k = refl
differ_digit (suc zero) (suc (suc y)) h k = absurd (omega arith)
differ_digit (suc (suc x)) y h k = absurd (omega arith)

pub bit_xor_digit : (a b : ℕ) → bit_xor a b ≡ bit_xor (a / 2) (b / 2) * 2 + (a + b) % 2
bit_xor_digit zero b = omega (arith, bit_xor-bitwise 0 b, bit_xor-bitwise 0 (b / 2))
bit_xor_digit (suc a) b = omega (
  arith,
  bit_xor-bitwise (suc a) b,
  bit_xor-bitwise (suc a / 2) (b / 2),
  digits_enough (λ b. b) differ a (suc a / 2) (suc a / 2) (b / 2) (omega arith) (omega arith),
  differ_digit (suc a % 2) (b % 2) (omega arith) (omega arith),
)

bit_or_zero_below : (n a : ℕ) → a ≤ n → bit_or a 0 ≡ a
bit_or_zero_below zero zero h = refl
bit_or_zero_below zero (suc a) h = absurd (omega arith)
bit_or_zero_below (suc n) a h =
    ground (arith, bit_or_digit a 0, bit_or_zero_below n (a / 2), bit_or-bitwise 0 0)

-- The two numbers share no digit, so their `|` is their sum.
pub bit_or_disjoint : (k v b : ℕ) → b < 2 ^ k → bit_or (v * 2 ^ k) b ≡ v * 2 ^ k + b
bit_or_disjoint zero v b h = ground (arith, bit_or_zero_below v v)
bit_or_disjoint (suc k) v b h =
    let twice : v * 2 ^ suc k ≡ 2 * (v * 2 ^ k) =
      omega (arith, ap (λ (t : ℕ). v * t) (pow-suc 2 k)) in
    let half : v * 2 ^ suc k / 2 ≡ v * 2 ^ k = omega (arith, twice) in
    omega (
      arith,
      bit_or_digit (v * 2 ^ suc k) b,
      ap (λ (t : ℕ). bit_or t (b / 2)) half,
      twice,
      bit_or_disjoint k v (b / 2) (omega (arith, pow-suc 2 k)),
    )

-- `(v << 8) | b` for a byte `b`.
pub bit_or_byte : (v b : ℕ) → b < 256 → bit_or (v * 256) b ≡ v * 256 + b
bit_or_byte v b h = bit_or_disjoint 8 v b h

bit_xor_self_below : (n a b : ℕ) → a ≤ n → b ≤ n → bit_xor (bit_xor a b) b ≡ a
bit_xor_self_below zero a b h k =
    let a0 : a ≡ 0 = omega arith in let b0 : b ≡ 0 = omega arith in rw (a0, b0) refl
bit_xor_self_below (suc n) a b h k =
    let x = bit_xor a b in
    let half : x / 2 ≡ bit_xor (a / 2) (b / 2) = omega (arith, bit_xor_digit a b) in
    omega (
      arith,
      bit_xor_digit a b,
      bit_xor_digit x b,
      ap (λ (t : ℕ). bit_xor t (b / 2)) half,
      bit_xor_self_below n (a / 2) (b / 2) (omega arith) (omega arith),
    )

-- `^` with the same word twice gives the first word back.
pub bit_xor_self : (a b : ℕ) → bit_xor (bit_xor a b) b ≡ a
bit_xor_self a b = bit_xor_self_below (a + b) a b (omega arith) (omega arith)

bit_xor_width : (k a b : ℕ) → a < 2 ^ k → b < 2 ^ k → bit_xor a b < 2 ^ k
bit_xor_width zero a b h k =
    let a0 : a ≡ 0 = omega arith in let b0 : b ≡ 0 = omega arith in rw (a0, b0) (omega arith)
bit_xor_width (suc k) a b h h' = omega (
  arith,
  bit_xor_digit a b,
  pow-suc 2 k,
  bit_xor_width k (a / 2) (b / 2) (omega (arith, pow-suc 2 k)) (omega (arith, pow-suc 2 k)),
)

pub bit_xor-lt : (a b : ℕ) → a < 256 → b < 256 → bit_xor a b < 256
bit_xor-lt a b h k = bit_xor_width 8 a b h k
