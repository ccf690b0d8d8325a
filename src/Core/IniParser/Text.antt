-- ===== src/Core/IniParser/Text.antt =====
-- The texts of IniParser.cpp: comments, white space, and values that are numbers or truth values.
use simply_node_framework.Prelude.{
  ℕ, Bool, List, Option, [], drop, false, if◌then◌else◌, leb, ltb, map, none, not, some, suc, take,
  true, ◌&&◌, ◌==◌, ◌^◌, ◌||◌, ◌∷◌, zero, negsuc, pos, ℤ,
}
use simply_node_framework.Prelude.Bytes.{codes, bytes_eq}
use simply_node_framework.Prelude.Chars.{
  trim_by, is_space, to_lower, drop_while, take_while, digits_value,
}

-- Texts.
unfoldable pub trim : List ℕ → List ℕ
unfolding trim_by is_space
trim s = trim_by is_space s

abbrev pub is_mark : ℕ → Bool
is_mark c = c == b';' || c == b'#'

unfoldable pub is_comment_line : List ℕ → Bool
is_comment_line [] = false
is_comment_line (c ∷ s) = is_mark c

abbrev later : Option ℕ → Option ℕ
later none = none
later (some n) = some (suc n)

-- Where an inline comment begins; the flag says that a space is the byte before, or none is there.
unfoldable pub comment_start : Bool → List ℕ → Option ℕ
unfolding is_space
comment_start after_space [] = none
comment_start after_space (c ∷ s) =
    if is_mark c && after_space then some 0 else later (comment_start (is_space c) s)

unfoldable pub strip_inline_comment : List ℕ → List ℕ
unfolding comment_start trim
strip_inline_comment value = elim (comment_start true value) [
  | none ↦ trim value
  | some i ↦ trim (take i value)
]

abbrev negate : ℕ → ℤ
negate zero = pos zero
negate (suc n) = negsuc n

abbrev is_digit : ℕ → Bool
is_digit c = leb b'0' c && leb c b'9'

abbrev pub is_nil : List ℕ → Bool
is_nil [] = true
is_nil (c ∷ s) = false

abbrev signed_by : ℕ → List ℕ → Bool
signed_by sign [] = false
signed_by sign (c ∷ s) = c == sign

-- `strtol` up to a NUL byte, with a 32-bit `int`.
unfoldable pub parse_int : List ℕ → Option ℤ
unfolding is_space drop_while take_while digits_value
parse_int value =
    let text = drop_while is_space (take_while (λ c. not (c == 0)) value) in
    let negative = signed_by b'-' text in
    let digits = if negative || signed_by b'+' text then drop 1 text else text in
    let magnitude = digits_value 10 0 digits in
    if is_nil digits || not (is_nil (drop_while is_digit digits))
    then none
    else if negative
    then (if ltb (2 ^ 31) magnitude then none else some (negate magnitude))
    else if leb (2 ^ 31) magnitude
    then none
    else some (pos magnitude)

unfoldable pub parse_bool : List ℕ → Option Bool
unfolding bytes_eq trim to_lower
parse_bool value =
    let lowered = map to_lower (trim value) in
    if bytes_eq lowered (codes "1")
      || bytes_eq lowered (codes "true")
      || bytes_eq lowered (codes "yes")
      || bytes_eq lowered (codes "on")
    then some true
    else if bytes_eq lowered (codes "0")
        || bytes_eq lowered (codes "false")
        || bytes_eq lowered (codes "no")
        || bytes_eq lowered (codes "off")
    then some false
    else none
