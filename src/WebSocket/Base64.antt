-- ===== src/WebSocket/Base64.antt =====
-- lib/WebSocket/src/SNFWebSocket/WebSocketHandshake.cpp: `base64Encode`, `base64Decode` and the test
-- of a client's key.
pub mod Words
pub mod RoundTrip
mod Tests
use Prim.Native.Nat.{bit_and, bit_or}
use simply_node_framework.Prelude.{
  ℕ, Bool, List, Option, [], false, get_or, if◌then◌else◌, leb, length, ltb, none, not, some, true,
  ◌%◌, ◌&&◌, ◌*◌, ◌++◌, ◌+◌, ◌-◌, ◌/◌, ◌==◌, ◌^◌, ◌||◌, ◌∷◌,
}
use simply_node_framework.Prelude.Bytes.{codes}

abbrev pub alphabet : List ℕ
alphabet = codes "ABCDEFGHIJKLMNOPQRSTUVWXYZabcdefghijklmnopqrstuvwxyz0123456789+/"

-- `alphabet[x & 0x3F]`
unfoldable pub letter : ℕ → ℕ
letter x = get_or alphabet (bit_and x 0x3f) 0

abbrev pub triple : ℕ → ℕ → ℕ → ℕ
triple a b c = bit_or (bit_or (a * 2 ^ 16) (b * 2 ^ 8)) c

-- One round of the loop reads up to three bytes; an octet that is not there is 0.
unfoldable pub base64_encode : List ℕ → List ℕ
unfolding letter
base64_encode [] = []
base64_encode (a ∷ []) =
    let t = triple a 0 0 in letter (t / 2 ^ 18) ∷ letter (t / 2 ^ 12) ∷ b'=' ∷ b'=' ∷ []
base64_encode (a ∷ b ∷ []) =
    let t = triple a b 0 in
    letter (t / 2 ^ 18) ∷ letter (t / 2 ^ 12) ∷ letter (t / 2 ^ 6) ∷ b'=' ∷ []
base64_encode (a ∷ b ∷ c ∷ rest) =
    let t = triple a b c in
    letter (t / 2 ^ 18) ∷ letter (t / 2 ^ 12) ∷ letter (t / 2 ^ 6) ∷ letter t ∷ base64_encode rest

-- `none` is -1.
pub base64_value : ℕ → Option ℕ
base64_value c =
    if leb b'A' c && leb c b'Z'
    then some (c - b'A')
    else if leb b'a' c && leb c b'z'
    then some (c - b'a' + 26)
    else if leb b'0' c && leb c b'9'
    then some (c - b'0' + 52)
    else if c == b'+'
    then some 62
    else if c == b'/'
    then some 63
    else none

infixl 5 ◌>>=◌
abbrev ◌>>=◌ {ℓ κ} : {A : Type ℓ} {B : Type κ} → Option A → (A → Option B) → Option B
none >>= k = none
some a >>= k = k a

-- How many `=` stand at the last two places; a text of less than two bytes is refused before.
pub padding : List ℕ → ℕ
padding input =
    (if get_or input (length input - 1) 0 == b'=' then 1 else 0)
    + (if get_or input (length input - 2) 0 == b'=' then 1 else 0)

-- The value of the byte at a place, where `=` may stand from `limit` on only.
pub value_at : ℕ → ℕ → ℕ → Option ℕ
unfolding base64_value
value_at limit place c =
    if c == b'=' then (if ltb place limit then none else some 0) else base64_value c

abbrev pub joined : ℕ → ℕ → ℕ → ℕ → ℕ
joined v0 v1 v2 v3 = bit_or (bit_or (bit_or (v0 * 2 ^ 18) (v1 * 2 ^ 12)) (v2 * 2 ^ 6)) v3

-- The bytes of one group, of which the two last places are given.
pub group_bytes : ℕ → ℕ → ℕ → List ℕ
group_bytes t c2 c3 =
    (bit_and (t / 2 ^ 16) 0xff ∷ [])
    ++ (if c2 == b'=' then [] else bit_and (t / 2 ^ 8) 0xff ∷ [])
    ++ (if c3 == b'=' then [] else bit_and t 0xff ∷ [])

-- The loop. A rest of less than four bytes is not met, since the size is a multiple of four.
pub decode_groups : ℕ → ℕ → List ℕ → Option (List ℕ)
unfolding value_at group_bytes
decode_groups limit i (c0 ∷ c1 ∷ c2 ∷ c3 ∷ rest) = do
  v0 ← value_at limit i c0
  v1 ← value_at limit (i + 1) c1
  v2 ← value_at limit (i + 2) c2
  v3 ← value_at limit (i + 3) c3
  bytes ← decode_groups limit (i + 4) rest
  some (group_bytes (joined v0 v1 v2 v3) c2 c3 ++ bytes)
decode_groups limit i _ = some []

abbrev is_empty : List ℕ → Bool
is_empty [] = true
is_empty _ = false

-- The output where the answer is `true`, else `none`.
pub base64_decode : List ℕ → Option (List ℕ)
unfolding decode_groups padding
base64_decode input =
    if is_empty input || not (length input % 4 == 0)
    then none
    else decode_groups (length input - padding input) 0 input

unfoldable pub is_valid_client_key : List ℕ → Bool
unfolding base64_decode
is_valid_client_key key = elim (base64_decode key) [
  | none ↦ false
  | some bytes ↦ length bytes == 16
]
