-- ===== src/WebSocket/Base64/Words.antt =====
-- The words of 24 bits that one group of the text carries, and the letters that are written for them.
use Prim.Native.Nat.{bit_and, bit_or}
use simply_node_framework.Prelude.{
  ℕ, Bool, ap, arith, false, get_or, none, not, refl, some, true, ◌%◌, ◌&&◌, ◌*◌, ◌+◌, ◌<◌, ◌==◌,
  ◌^◌, ◌∙◌, ◌≡◌, ◌/◌,
}
use simply_node_framework.Prelude.Bits.{all_below, all_below_lem, bit_or_disjoint}
use simply_node_framework.Prelude.Bits.Masks.{bit_and_0x3f, bit_and_0xff}
use simply_node_framework.WebSocket.Base64.{alphabet, base64_value, joined, letter, triple}

-- A byte that is read as the number it was written for.
abbrev pub reads_as : ℕ → ℕ → Bool
reads_as n c = elim (base64_value c) [ none ↦ false | some v ↦ v == n ]

abbrev pub IsLetterOf : ℕ → ℕ → Type 0
IsLetterOf n c = (base64_value c ≡ some n) × ((c == b'=') ≡ false)

letters_table :
    all_below 64 (λ n. reads_as n (get_or alphabet n 0) && not (get_or alphabet n 0 == b'=')) ≡ true
unfolding base64_value
letters_table = refl

reads_as_lem : (n c : ℕ) → reads_as n c ≡ true → base64_value c ≡ some n
reads_as_lem n c h = ground (arith, h)

pub letter_lem : (x : ℕ) → IsLetterOf (x % 64) (letter x)
unfolding letter
letter_lem x =
    let m = bit_and_0x3f x in
    let both =
      all_below_lem 64 (λ n. reads_as n (get_or alphabet n 0) && not (get_or alphabet n 0 == b'='))
        letters_table (bit_and x 0x3f) (omega (arith, m)) in
    let c = get_or alphabet (bit_and x 0x3f) 0 in
    (reads_as_lem (x % 64) c (ground (arith, m, both)), ground (arith, both))

pub triple_lem : (a b c : ℕ) → b < 256 → c < 256 → triple a b c ≡ a * 65536 + b * 256 + c
triple_lem a b c hb hc =
    let high : bit_or (a * 2 ^ 16) (b * 2 ^ 8) ≡ (a * 256 + b) * 256 =
      bit_or_disjoint 16 a (b * 256) (omega (arith, hb)) ∙ omega arith in
    ap (λ t. bit_or t c) high ∙ bit_or_disjoint 8 (a * 256 + b) c hc ∙ omega arith

pub joined_lem :
    (v0 v1 v2 v3 : ℕ)
    → v1 < 64
    → v2 < 64
    → v3 < 64
    → joined v0 v1 v2 v3 ≡ v0 * 262144 + v1 * 4096 + v2 * 64 + v3
joined_lem v0 v1 v2 v3 h1 h2 h3 =
    let first : bit_or (v0 * 2 ^ 18) (v1 * 2 ^ 12) ≡ (v0 * 64 + v1) * 4096 =
      bit_or_disjoint 18 v0 (v1 * 4096) (omega (arith, h1)) ∙ omega arith in
    let second : bit_or ((v0 * 64 + v1) * 4096) (v2 * 2 ^ 6) ≡ (v0 * 4096 + v1 * 64 + v2) * 64 =
      bit_or_disjoint 12 (v0 * 64 + v1) (v2 * 64) (omega (arith, h2)) ∙ omega arith in
    ap (λ t. bit_or (bit_or t (v2 * 2 ^ 6)) v3) first
    ∙ ap (λ t. bit_or t v3) second
    ∙ bit_or_disjoint 6 (v0 * 4096 + v1 * 64 + v2) v3 h3
    ∙ omega arith

-- The four places of a word of 24 bits, put together again.
pub joined-places :
    (t : ℕ) → t < 2 ^ 24 → joined (t / 2 ^ 18 % 64) (t / 2 ^ 12 % 64) (t / 2 ^ 6 % 64) (t % 64) ≡ t
joined-places t h =
    joined_lem (t / 2 ^ 18 % 64) (t / 2 ^ 12 % 64) (t / 2 ^ 6 % 64) (t % 64) (omega arith)
      (omega arith) (omega arith)
    ∙ omega (arith, h)

pub byte_places :
    (a b c : ℕ)
    → a < 256
    → b < 256
    → c < 256
    → (bit_and (triple a b c / 2 ^ 16) 0xff ≡ a)
      × (bit_and (triple a b c / 2 ^ 8) 0xff ≡ b)
      × (bit_and (triple a b c) 0xff ≡ c)
      × (triple a b c < 2 ^ 24)
byte_places a b c ha hb hc =
    let t = triple_lem a b c hb hc in
    (
      bit_and_0xff (triple a b c / 2 ^ 16) ∙ omega (arith, t),
      bit_and_0xff (triple a b c / 2 ^ 8) ∙ omega (arith, t),
      bit_and_0xff (triple a b c) ∙ omega (arith, t),
      omega (arith, t),
    )
