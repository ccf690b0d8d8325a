-- ===== src/Prelude/Decimal.antt =====
-- `std::to_string` of a number that is not negative, and `std::stoul` of it.
use Prim.Native.Nat.{ℕ, zero, suc, ◌+◌, ◌-◌, ◌*◌, ◌/◌, ◌%◌, ◌^◌, ◌<◌, ◌≤◌}
use mathlib.Core.Path.{◌≡◌, refl, sym, ap, ◌∙◌, subst}
use mathlib.Core.Logic.{inl, inr}
use mathlib.Core.Bool.{Bool, true, ◌&&◌}
use mathlib.Core.List.{List, [], ◌∷◌, ◌++◌}
use mathlib.Core.Option.{some}
use native.Mathlib.Omega.{arith}
use simply_node_framework.Prelude.Tests.{if◌then◌else◌, Bool-cases, leb, ltb}
use simply_node_framework.Prelude.Lists.{All-append, All}
use simply_node_framework.Prelude.Chars.{
  digits_value, digit_value, to_lower, drop_while, is_space, stoul,
}

-- As many rounds as are enough for the number itself.
unfoldable pub decimal_on : ℕ → ℕ → List ℕ
decimal_on zero n = []
decimal_on (suc k) n =
    let front = decimal_on k (n / 10) in
    if ltb n 10 then (48 + n) ∷ [] else front ++ ((48 + n % 10) ∷ [])

unfoldable pub decimal : ℕ → List ℕ
unfolding decimal_on
decimal n = decimal_on (suc n) n

abbrev pub is_decimal : ℕ → Bool
is_decimal c = leb 48 c && leb c 57

abbrev pub IsDecimal : List ℕ → Type 0
IsDecimal s = All (λ c. is_decimal c ≡ true) s

digit_value_lem : (d : ℕ) → d < 10 → digit_value 10 (48 + d) ≡ some d
unfolding digit_value to_lower
digit_value_lem d h = ground arith

digit_value-decimal : (c : ℕ) → is_decimal c ≡ true → digit_value 10 c ≡ some (c - 48)
unfolding digit_value to_lower
digit_value-decimal c h = ground arith

digits_value-append :
    (s : List ℕ) (acc d : ℕ)
    → IsDecimal s
    → d < 10
    → digits_value 10 acc (s ++ ((48 + d) ∷ [])) ≡ digits_value 10 acc s * 10 + d
unfolding digits_value
digits_value-append [] acc d h k = rw (digit_value_lem d k, digits_value) refl
digits_value-append (c ∷ s) acc d (h, hs) k =
    rw (digit_value-decimal c h, digits_value) (digits_value-append s (acc * 10 + (c - 48)) d hs k)

decimal_on-IsDecimal : (k n : ℕ) → IsDecimal (decimal_on k n)
unfolding decimal_on
decimal_on-IsDecimal zero n = tt
decimal_on-IsDecimal (suc k) n = elim (Bool-cases (ltb n 10)) [
  | inl small ↦ rw small (ground (arith, small), tt)
  | inr big ↦ rw big (
      All-append (λ c. is_decimal c ≡ true) (decimal_on k (n / 10)) ((48 + n % 10) ∷ [])
        (decimal_on-IsDecimal k (n / 10)) (ground arith, tt))
]

digits_value-decimal_on : (k n : ℕ) → n < k → digits_value 10 0 (decimal_on k n) ≡ n
unfolding decimal_on digits_value
digits_value-decimal_on zero n h = absurd (omega arith)
digits_value-decimal_on (suc k) n h = elim (Bool-cases (ltb n 10)) [
  | inl small ↦ rw small (digits_value-append [] 0 n tt (ground (arith, small)) ∙ omega arith)
  | inr big ↦
      let big_enough : 10 ≤ n = ground (arith, big) in
      rw big (
        digits_value-append (decimal_on k (n / 10)) 0 (n % 10) (decimal_on-IsDecimal k (n / 10))
          (omega arith)
        ∙ ap (λ v. v * 10 + n % 10) (digits_value-decimal_on k (n / 10) (omega (arith, big_enough)))
        ∙ omega arith)
]

decimal_on-first : (k n : ℕ) → n < k → (c : ℕ) × (s : List ℕ) × (decimal_on k n ≡ c ∷ s)
unfolding decimal_on
decimal_on-first zero n h = absurd (omega arith)
decimal_on-first (suc k) n h = elim (Bool-cases (ltb n 10)) [
  | inl small ↦ (48 + n, [], rw small refl)
  | inr big ↦
      let big_enough : 10 ≤ n = ground (arith, big) in
      let (c, s, e) = decimal_on-first k (n / 10) (omega (arith, big_enough)) in
      (c, s ++ ((48 + n % 10) ∷ []), rw big (ap (λ t. t ++ ((48 + n % 10) ∷ [])) e))
]

-- `stoul` of a text that begins with a digit.
stoul_digits :
    (c n : ℕ) (s : List ℕ)
    → is_decimal c ≡ true
    → n < 2 ^ 64
    → digits_value 10 0 (c ∷ s) ≡ n
    → stoul 10 (c ∷ s) ≡ some n
unfolding stoul drop_while is_space
stoul_digits c n [] d h e = ground (arith, e, digit_value-decimal c d)
stoul_digits c n (z ∷ s) d h e = ground (arith, e, digit_value-decimal c d)

pub decimal-first : (n : ℕ) → (c : ℕ) × (s : List ℕ) × (decimal n ≡ c ∷ s)
unfolding decimal
decimal-first n = decimal_on-first (suc n) n (omega arith)

pub decimal-IsDecimal : (n : ℕ) → IsDecimal (decimal n)
unfolding decimal
decimal-IsDecimal n = decimal_on-IsDecimal (suc n) n

pub stoul-decimal : (n : ℕ) → n < 2 ^ 64 → stoul 10 (decimal n) ≡ some n
unfolding decimal
stoul-decimal n h =
    let (c, s, e) = decimal_on-first (suc n) n (omega arith) in
    let digits : IsDecimal (c ∷ s) = subst IsDecimal e (decimal_on-IsDecimal (suc n) n) in
    ap (stoul 10) e
    ∙ stoul_digits c n s digits.0 h
        (ap (digits_value 10 0) (sym e) ∙ digits_value-decimal_on (suc n) n (omega arith))
