-- ===== src/Snmp/Oid.antt =====
-- lib/Snmp/src/SNFSnmp/SnmpOid.h and SnmpOid.cpp: object identifiers, lists of 32-bit numbers.
pub mod Printed
pub mod Order
mod Tests
use simply_node_framework.Prelude.{
  ℕ, Bool, List, Option, [], false, if◌then◌else◌, length, ltb, none, not, some, true, ◌%◌, ◌&&◌,
  ◌++◌, ◌==◌, ◌^◌, ◌||◌, ◌∷◌,
}
use simply_node_framework.Prelude.Chars.{stoul, split_on}
use simply_node_framework.Prelude.Decimal.{decimal}

abbrev pub Oid : Type 0
Oid = List ℕ

abbrev pub is_nil : List ℕ → Bool
is_nil [] = true
is_nil (x ∷ xs) = false

-- `push_back` of a token's number, before the numbers of the others; `none` is the exception of `stoul`.
abbrev pub add_number : Option ℕ → Option Oid → Option Oid
add_number none rest = none
add_number (some n) none = none
add_number (some n) (some ns) = some (n % 2 ^ 32 ∷ ns)

-- The loop over the tokens.
pub read_tokens : List (List ℕ) → Option Oid
read_tokens [] = some []
read_tokens (token ∷ tokens) =
    let rest = read_tokens tokens in if is_nil token then rest else add_number (stoul 10 token) rest

-- The constructor from a dotted text.
pub from_dotted : List ℕ → Option Oid
unfolding read_tokens split_on
from_dotted dotted = read_tokens (split_on b'.' dotted)

-- The components behind the first, each with its dot.
pub dotted_rest : Oid → List ℕ
dotted_rest [] = []
dotted_rest (n ∷ ns) = b'.' ∷ (decimal n ++ dotted_rest ns)

pub to_string : Oid → List ℕ
unfolding dotted_rest
to_string [] = []
to_string (n ∷ ns) = decimal n ++ dotted_rest ns

abbrev pub is_valid : Oid → Bool
is_valid oid = not (is_nil oid)

pub equals : Oid → Oid → Bool
equals [] [] = true
equals [] (y ∷ ys) = false
equals (x ∷ xs) [] = false
equals (x ∷ xs) (y ∷ ys) = x == y && equals xs ys

pub is_less : Oid → Oid → Bool
is_less xs [] = false
is_less [] (y ∷ ys) = true
is_less (x ∷ xs) (y ∷ ys) = ltb x y || x == y && is_less xs ys

-- `std::equal` over the components of the first.
pub begins : Oid → Oid → Bool
begins [] ys = true
begins (x ∷ xs) [] = false
begins (x ∷ xs) (y ∷ ys) = x == y && begins xs ys

pub is_prefix_of : Oid → Oid → Bool
unfolding begins
is_prefix_of oid other = if ltb (length other) (length oid) then false else begins oid other
