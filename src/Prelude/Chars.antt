-- ===== src/Prelude/Chars.antt =====
-- What the components use of <cctype> in the C locale, of std::istringstream and of std::stoul.
pub mod Pieces
use simply_node_framework.Prelude.Tests.{◌==◌, if◌then◌else◌, leb, ltb}
use Prim.Native.Nat.{ℕ, ◌+◌, ◌-◌, ◌*◌, ◌%◌, ◌^◌}
use mathlib.Core.Bool.{Bool, true, false, not, ◌&&◌, ◌||◌}
use mathlib.Core.List.{List, [], ◌∷◌, reverse}
use mathlib.Core.Option.{Option, none, some}

abbrev within : ℕ → ℕ → ℕ → Bool
within lo hi c = leb lo c && leb c hi

unfoldable pub is_space : ℕ → Bool
is_space c = c == b' ' || within 9 13 c

unfoldable pub to_lower : ℕ → ℕ
to_lower c = if within b'A' b'Z' c then c + 32 else c

unfoldable pub to_upper : ℕ → ℕ
to_upper c = if within b'a' b'z' c then c - 32 else c

unfoldable pub drop_while : (ℕ → Bool) → List ℕ → List ℕ
drop_while p [] = []
drop_while p (c ∷ s) = if p c then drop_while p s else c ∷ s

unfoldable pub take_while : (ℕ → Bool) → List ℕ → List ℕ
take_while p [] = []
take_while p (c ∷ s) = if p c then c ∷ take_while p s else []

unfoldable pub drop_while_end : (ℕ → Bool) → List ℕ → List ℕ
unfolding drop_while
drop_while_end p s = reverse (drop_while p (reverse s))

unfoldable pub trim_by : (ℕ → Bool) → List ℕ → List ℕ
unfolding drop_while_end
trim_by p s = drop_while_end p (drop_while p s)

-- `stream >> word`: the word, empty where the stream has no more, and what is left.
unfoldable pub next_word : List ℕ → List ℕ × List ℕ
unfolding is_space drop_while take_while
next_word s =
    let rest = drop_while is_space s in
    (take_while (λ c. not (is_space c)) rest, drop_while (λ c. not (is_space c)) rest)

-- `while (std::getline(stream, line, mark))`: an empty piece behind the last mark is not read.
unfoldable pub split_on : ℕ → List ℕ → List (List ℕ)
split_on mark [] = []
split_on mark (c ∷ s) =
    let rest = split_on mark s in
    if c == mark then [] ∷ rest else elim rest [ [] ↦ (c ∷ []) ∷ [] | l ∷ ls ↦ (c ∷ l) ∷ ls ]

-- The value of a digit in a base up to 16.
unfoldable pub digit_value : ℕ → ℕ → Option ℕ
unfolding to_lower
digit_value base c =
    let l = to_lower c in
    let v = if within b'0' b'9' l then l - b'0' else if within b'a' b'f' l then l - 87 else 16 in
    if ltb v base then some v else none

unfoldable pub digits_value : ℕ → ℕ → List ℕ → ℕ
unfolding digit_value
digits_value base acc [] = acc
digits_value base acc (c ∷ s) = elim (digit_value base c) [
  | none ↦ acc
  | some d ↦ digits_value base (acc * base + d) s
]

abbrev pub has_digit : ℕ → List ℕ → Bool
has_digit base [] = false
has_digit base (c ∷ s) = elim (digit_value base c) [ none ↦ false | some d ↦ true ]

-- The optional 0x in front of a hexadecimal number.
abbrev skip_prefix : ℕ → List ℕ → List ℕ
skip_prefix base (z ∷ x ∷ s) =
    if base == 16 && z == b'0' && (x == b'x' || x == b'X') && has_digit base s then s else z ∷ x ∷ s
skip_prefix base s = s

abbrev pub skip_sign : List ℕ → List ℕ
skip_sign [] = []
skip_sign (c ∷ s) = if c == b'+' || c == b'-' then s else c ∷ s

abbrev pub is_negative : List ℕ → Bool
is_negative [] = false
is_negative (c ∷ s) = c == b'-'

-- `std::stoul(text, nullptr, base)` with 64 bits; `none` is either exception. A minus sign negates
-- modulo 2 ^ 64.
unfoldable pub stoul : ℕ → List ℕ → Option ℕ
unfolding is_space drop_while digits_value digit_value
stoul base text =
    let signed = drop_while is_space text in
    let plain = skip_prefix base (skip_sign signed) in
    let value = digits_value base 0 plain in
    if not (has_digit base plain)
    then none
    else if leb (2 ^ 64) value
    then none
    else some (if is_negative signed then (2 ^ 64 - value) % 2 ^ 64 else value)
