-- ===== src/WebSocket/Base64/RoundTrip.antt =====
-- What base64Encode writes, base64Decode reads back.
use Prim.Native.Nat.{bit_and}
use simply_node_framework.Prelude.{
  ℕ, ap, arith, false, refl, some, true, ◌%◌, ◌*◌, ◌+◌, ◌<◌, ◌==◌, ◌^◌, ◌∙◌, ◌≡◌, All, List, [],
  ◌++◌, ◌/◌, ◌∷◌, ◌≤◌, length, ==_iff, suc, ◌-◌,
}
use simply_node_framework.WebSocket.Base64.{
  joined, letter, triple, base64_encode, decode_groups, group_bytes, value_at, base64_decode,
  padding,
}
use simply_node_framework.WebSocket.Base64.Words.{
  letter_lem, byte_places, joined-places, joined_lem, triple_lem,
}

value_at-letter : (limit i x : ℕ) → value_at limit i (letter x) ≡ some (x % 64)
unfolding value_at
value_at-letter limit i x = let (v, p) = letter_lem x in rw p v

value_at-pad : (limit i : ℕ) → limit ≤ i → value_at limit i b'=' ≡ some 0
unfolding value_at
value_at-pad limit i h = ground (arith, h)

-- One group whose four places have values.
decode_group :
    (limit i c0 c1 c2 c3 v0 v1 v2 v3 : ℕ) (rest bytes : List ℕ)
    → value_at limit i c0 ≡ some v0
    → value_at limit (i + 1) c1 ≡ some v1
    → value_at limit (i + 2) c2 ≡ some v2
    → value_at limit (i + 3) c3 ≡ some v3
    → decode_groups limit (i + 4) rest ≡ some bytes
    → decode_groups limit i (c0 ∷ c1 ∷ c2 ∷ c3 ∷ rest)
      ≡ some (group_bytes (joined v0 v1 v2 v3) c2 c3 ++ bytes)
unfolding decode_groups
decode_group limit i c0 c1 c2 c3 v0 v1 v2 v3 rest bytes e0 e1 e2 e3 e = rw (e0, e1, e2, e3, e) refl

abbrev pub IsBytes : List ℕ → Type 0
IsBytes s = All (λ b. b < 256) s

-- How many places of the text carry bits.
abbrev data_size : List ℕ → ℕ
data_size [] = 0
data_size (a ∷ []) = 2
data_size (a ∷ b ∷ []) = 3
data_size (a ∷ b ∷ c ∷ rest) = 4 + data_size rest

group_full :
    (t c2 c3 a b c : ℕ)
    → (c2 == b'=') ≡ false
    → (c3 == b'=') ≡ false
    → bit_and (t / 2 ^ 16) 0xff ≡ a
    → bit_and (t / 2 ^ 8) 0xff ≡ b
    → bit_and t 0xff ≡ c
    → group_bytes t c2 c3 ≡ a ∷ b ∷ c ∷ []
unfolding group_bytes
group_full t c2 c3 a b c n2 n3 p q r = rw (n2, n3, p, q, r) refl

group_two :
    (t c2 a b : ℕ)
    → (c2 == b'=') ≡ false
    → bit_and (t / 2 ^ 16) 0xff ≡ a
    → bit_and (t / 2 ^ 8) 0xff ≡ b
    → group_bytes t c2 b'=' ≡ a ∷ b ∷ []
unfolding group_bytes
group_two t c2 a b n2 p q = rw (n2, p, q) refl

group_one : (t a : ℕ) → bit_and (t / 2 ^ 16) 0xff ≡ a → group_bytes t b'=' b'=' ≡ a ∷ []
unfolding group_bytes
group_one t a p = rw p refl

decode_nothing : (limit i : ℕ) → decode_groups limit i [] ≡ some []
unfolding decode_groups
decode_nothing limit i = refl

decode_groups-encode :
    (bytes : List ℕ) (limit i : ℕ)
    → IsBytes bytes
    → limit ≤ i + data_size bytes
    → decode_groups limit i (base64_encode bytes) ≡ some bytes
unfolding base64_encode
decode_groups-encode [] limit i hs h = decode_nothing limit i
decode_groups-encode (a ∷ []) limit i (ha, hs) h =
    let t = triple a 0 0 in
    let (p, q, r, w) = byte_places a 0 0 ha (omega arith) (omega arith) in
    let word : joined (t / 2 ^ 18 % 64) (t / 2 ^ 12 % 64) 0 0 ≡ t =
      joined_lem (t / 2 ^ 18 % 64) (t / 2 ^ 12 % 64) 0 0 (omega arith) (omega arith) (omega arith)
      ∙ omega (arith, triple_lem a 0 0, ha) in
    decode_group limit i (letter (t / 2 ^ 18)) (letter (t / 2 ^ 12)) b'=' b'=' _ _ 0 0 [] []
      (value_at-letter limit i (t / 2 ^ 18)) (value_at-letter limit (i + 1) (t / 2 ^ 12))
      (value_at-pad limit (i + 2) h) (value_at-pad limit (i + 3) (omega (arith, h)))
      (decode_nothing limit (i + 4))
    ∙ ap (λ g. some (g ++ [])) (ap (λ x. group_bytes x b'=' b'=') word ∙ group_one t a p)
decode_groups-encode (a ∷ b ∷ []) limit i (ha, (hb, hs)) h =
    let t = triple a b 0 in
    let (p, q, r, w) = byte_places a b 0 ha hb (omega arith) in
    let word : joined (t / 2 ^ 18 % 64) (t / 2 ^ 12 % 64) (t / 2 ^ 6 % 64) 0 ≡ t =
      joined_lem (t / 2 ^ 18 % 64) (t / 2 ^ 12 % 64) (t / 2 ^ 6 % 64) 0 (omega arith) (omega arith)
        (omega arith)
      ∙ omega (arith, triple_lem a b 0 hb, ha, hb) in
    decode_group limit i (letter (t / 2 ^ 18)) (letter (t / 2 ^ 12)) (letter (t / 2 ^ 6)) b'=' _ _ _
      0 [] [] (value_at-letter limit i (t / 2 ^ 18)) (value_at-letter limit (i + 1) (t / 2 ^ 12))
      (value_at-letter limit (i + 2) (t / 2 ^ 6)) (value_at-pad limit (i + 3) h)
      (decode_nothing limit (i + 4))
    ∙ ap (λ g. some (g ++ []))
        (ap (λ x. group_bytes x (letter (t / 2 ^ 6)) b'=') word
          ∙ group_two t (letter (t / 2 ^ 6)) a b (letter_lem (t / 2 ^ 6)).1 p q)
decode_groups-encode (a ∷ b ∷ c ∷ rest) limit i (ha, (hb, (hc, hs))) h =
    let t = triple a b c in
    let (p, q, r, w) = byte_places a b c ha hb hc in
    let c2 = letter (t / 2 ^ 6) in
    let c3 = letter t in
    decode_group limit i (letter (t / 2 ^ 18)) (letter (t / 2 ^ 12)) c2 c3 _ _ _ _
      (base64_encode rest) rest (value_at-letter limit i (t / 2 ^ 18))
      (value_at-letter limit (i + 1) (t / 2 ^ 12)) (value_at-letter limit (i + 2) (t / 2 ^ 6))
      (value_at-letter limit (i + 3) t)
      (decode_groups-encode rest limit (i + 4) hs (omega (arith, h)))
    ∙ ap (λ g. some (g ++ rest))
        (ap (λ x. group_bytes x c2 c3) (joined-places t w)
          ∙ group_full t c2 c3 a b c (letter_lem (t / 2 ^ 6)).1 (letter_lem t).1 p q r)

pub length-encode : (bytes : List ℕ) → length (base64_encode bytes) ≡ (length bytes + 2) / 3 * 4
unfolding base64_encode
length-encode [] = refl
length-encode (a ∷ []) = refl
length-encode (a ∷ b ∷ []) = refl
length-encode (a ∷ b ∷ c ∷ rest) = omega (arith, length-encode rest)

-- Four more bytes in front of a text of two bytes at least do not change its padding.
padding-front :
    (c0 c1 c2 c3 : ℕ) (s : List ℕ) → 2 ≤ length s → padding (c0 ∷ c1 ∷ c2 ∷ c3 ∷ s) ≡ padding s
unfolding padding
padding-front c0 c1 c2 c3 [] h = absurd (omega arith)
padding-front c0 c1 c2 c3 (d ∷ []) h = absurd (omega arith)
padding-front c0 c1 c2 c3 (d ∷ e ∷ s) h =
    let n = length s in
    let near : (m : ℕ) → suc m - 1 ≡ m = λ m. omega arith in
    let far : (m : ℕ) → suc (suc m) - 2 ≡ m = λ m. omega arith in
    rw (near (suc n), far n, near (suc (suc (suc (suc (suc n))))), far (suc (suc (suc (suc n)))))
      refl

padding-encode :
    (bytes : List ℕ)
    → length (base64_encode bytes) ≤ data_size bytes + padding (base64_encode bytes)
unfolding base64_encode padding
padding-encode [] = omega arith
padding-encode (a ∷ []) = omega arith
padding-encode (a ∷ b ∷ []) = omega arith
padding-encode (a ∷ b ∷ c ∷ []) = omega arith
padding-encode (a ∷ b ∷ c ∷ d ∷ rest) =
    let t = triple a b c in
    omega (
      arith,
      padding-encode (d ∷ rest),
      length-encode (d ∷ rest),
      padding-front (letter (t / 2 ^ 18)) (letter (t / 2 ^ 12)) (letter (t / 2 ^ 6)) (letter t)
          (base64_encode (d ∷ rest)) (omega (arith, length-encode (d ∷ rest))),
    )

groups-encode :
    (bytes : List ℕ)
    → IsBytes bytes
    → decode_groups
        (length (base64_encode bytes) - padding (base64_encode bytes))
        0
        (base64_encode bytes)
      ≡ some bytes
groups-encode bytes hs =
    let text = base64_encode bytes in
    decode_groups-encode bytes (length text - padding text) 0 hs
      (omega (arith, padding-encode bytes))

-- base64Decode reads back every text that base64Encode writes for at least one byte.
pub decode-encode :
    (bytes : List ℕ)
    → 0 < length bytes
    → IsBytes bytes
    → base64_decode (base64_encode bytes) ≡ some bytes
unfolding base64_decode base64_encode
decode-encode [] full hs = absurd (omega arith)
decode-encode (a ∷ []) full hs = groups-encode (a ∷ []) hs
decode-encode (a ∷ b ∷ []) full hs = groups-encode (a ∷ b ∷ []) hs
decode-encode (a ∷ b ∷ c ∷ rest) full hs =
    let fours : (length (base64_encode (a ∷ b ∷ c ∷ rest)) % 4 == 0) ≡ true =
      (==_iff _ 0).1 (omega (arith, length-encode (a ∷ b ∷ c ∷ rest))) in
    rw fours (groups-encode (a ∷ b ∷ c ∷ rest) hs)
