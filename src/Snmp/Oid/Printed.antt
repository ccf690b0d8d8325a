-- ===== src/Snmp/Oid/Printed.antt =====
-- What SnmpOid.cpp prints, it reads back.
use mathlib.Core.Path.{subst}
use simply_node_framework.Prelude.{
  ℕ, All, List, [], arith, false, refl, some, ◌++◌, ◌<◌, ◌==◌, ◌^◌, ◌∷◌, ◌≡◌, ap, append-nil,
  if◌then◌else◌, sym, ◌∙◌,
}
use simply_node_framework.Prelude.Chars.{split_on, stoul}
use simply_node_framework.Prelude.Chars.Pieces.{split_on-piece}
use simply_node_framework.Prelude.Decimal.{
  decimal, IsDecimal, decimal-IsDecimal, decimal-first, stoul-decimal,
}
use simply_node_framework.Snmp.Oid.{
  Oid, from_dotted, read_tokens, to_string, add_number, dotted_rest, is_nil,
}

-- No dot in it.
abbrev IsToken : List ℕ → Type 0
IsToken s = All (λ c. (c == b'.') ≡ false) s

split_on-last : (c : ℕ) (s : List ℕ) → IsToken (c ∷ s) → split_on b'.' (c ∷ s) ≡ (c ∷ s) ∷ []
unfolding split_on
split_on-last c [] (h, hs) = rw h refl
split_on-last c (d ∷ s) (h, hs) = rw (h, split_on-last d s hs) refl

decimal-IsToken : (n : ℕ) → IsToken (decimal n)
decimal-IsToken n = go (decimal n) (decimal-IsDecimal n)
  where
    go : (s : List ℕ) → IsDecimal s → IsToken s
    go [] h = tt
    go (c ∷ s) (h, hs) = (ground (arith, h), go s hs)

abbrev pub Is32Bit : Oid → Type 0
Is32Bit oid = All (λ n. n < 2 ^ 32) oid

nothing_left : read_tokens [] ≡ some []
unfolding read_tokens
nothing_left = refl

one_token :
    (n : ℕ) (tokens : List (List ℕ)) (ns : Oid)
    → n < 2 ^ 32
    → read_tokens tokens ≡ some ns
    → read_tokens (decimal n ∷ tokens) ≡ some (n ∷ ns)
unfolding read_tokens
one_token n tokens ns h e =
    let (c, s, first) = decimal-first n in
    ap
      (λ b.
        if b then read_tokens tokens else add_number (stoul 10 (decimal n)) (read_tokens tokens))
      (ap is_nil first)
    ∙ ap (λ o. add_number o (read_tokens tokens)) (stoul-decimal n (omega (arith, h)))
    ∙ ap (add_number (some n)) e
    ∙ ap (λ m. some (m ∷ ns)) (omega (arith, h))

decimal-one : (n : ℕ) → split_on b'.' (decimal n) ≡ decimal n ∷ []
decimal-one n =
    let (c, s, first) = decimal-first n in
    ap (split_on b'.') first
    ∙ split_on-last c s (subst IsToken first (decimal-IsToken n))
    ∙ ap (λ t. t ∷ []) (sym first)

read_all :
    (n : ℕ) (ns : Oid)
    → n < 2 ^ 32
    → Is32Bit ns
    → read_tokens (split_on b'.' (decimal n ++ dotted_rest ns)) ≡ some (n ∷ ns)
unfolding dotted_rest
read_all n [] h hs =
    ap (λ t. read_tokens (split_on b'.' t)) (append-nil (decimal n))
    ∙ ap read_tokens (decimal-one n)
    ∙ one_token n [] [] h nothing_left
read_all n (m ∷ ms) h (k, ks) =
    ap read_tokens
      (split_on-piece b'.' (decimal n) (decimal m ++ dotted_rest ms) (decimal-IsToken n))
    ∙ one_token n (split_on b'.' (decimal m ++ dotted_rest ms)) (m ∷ ms) h (read_all m ms k ks)

-- An identifier of 32-bit components is printed to a text that is read back as the same identifier.
pub from_dotted-to_string : (oid : Oid) → Is32Bit oid → from_dotted (to_string oid) ≡ some oid
unfolding from_dotted to_string read_tokens
from_dotted-to_string [] h = refl
from_dotted-to_string (n ∷ ns) (h, hs) = read_all n ns h hs
