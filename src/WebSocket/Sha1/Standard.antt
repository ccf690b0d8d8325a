-- ===== src/WebSocket/Sha1/Standard.antt =====
-- SHA-1 as RFC 3174 describes it (sections 3 to 5, and the method of section 6.2 that keeps sixteen
-- words), written down from the RFC and not from WebSocketHandshake.cpp: bytes and words are digits
-- of numbers, and a block is read, expanded and mixed in one pass.
use Prim.Native.Nat.{bit_and, bit_or, bit_xor}
use simply_node_framework.Prelude.{
  List, [], drop, get_or, if◌then◌else◌, length, ltb, replicate, suc, take, zero, ℕ, ◌%◌, ◌*◌, ◌++◌,
  ◌+◌, ◌-◌, ◌/◌, ◌^◌, ◌∷◌,
}
use simply_node_framework.WebSocket.Sha1.{Words}

-- A number whose digits to the base 256 are given, and that many digits of a number.
abbrev pub number_from : ℕ → List ℕ → ℕ
number_from n [] = n
number_from n (b ∷ bs) = number_from (n * 256 + b) bs

abbrev pub bytes_of : ℕ → ℕ → List ℕ
bytes_of zero n = []
bytes_of (suc count) n = bytes_of count (n / 256) ++ (n % 256 ∷ [])

-- `S^n(X)` of section 3.
unfoldable pub shift : ℕ → ℕ → ℕ
shift n x = bit_or (x * 2 ^ n % 2 ^ 32) (x / 2 ^ (32 - n))

-- `f(t;B,C,D)` and `K(t)` of section 5.
unfoldable pub f : ℕ → ℕ → ℕ → ℕ → ℕ
f t b c d =
    if ltb t 20
    then bit_or (bit_and b c) (bit_and (2 ^ 32 - 1 - b) d)
    else if ltb t 40
    then bit_xor (bit_xor b c) d
    else if ltb t 60
    then bit_or (bit_or (bit_and b c) (bit_and b d)) (bit_and c d)
    else bit_xor (bit_xor b c) d

-- The whole parts of 2 ^ 30 times the square roots of 2, 3, 5 and 10.
abbrev pub root_two : ℕ
root_two = 0x5a827999

abbrev pub root_three : ℕ
root_three = 0x6ed9eba1

abbrev pub root_five : ℕ
root_five = 0x8f1bbcdc

abbrev pub root_ten : ℕ
root_ten = 0xca62c1d6

unfoldable pub constant : ℕ → ℕ
constant t =
    if ltb t 20
    then root_two
    else if ltb t 40
    then root_three
    else if ltb t 60
    then root_five
    else root_ten

-- Step (c) of section 6.2 with the word of the round.
unfoldable pub mixed : ℕ → ℕ → Words → Words
unfolding shift f constant
mixed t w v = record {
  a = (shift 5 v.a + f t v.b v.c v.d + v.e + w + constant t) % 2 ^ 32;
  b = v.a;
  c = shift 30 v.b;
  d = v.c;
  e = v.d;
}

-- The word sixteen places behind the first of sixteen.
unfoldable pub next_word : List ℕ → ℕ
unfolding shift
next_word ws =
    shift 1
      (bit_xor (bit_xor (bit_xor (get_or ws 13 0) (get_or ws 8 0)) (get_or ws 2 0)) (get_or ws 0 0))

-- Rounds from the `t`th on, over the next sixteen words.
unfoldable pub mix_all : ℕ → ℕ → List ℕ → Words → Words
unfolding mixed next_word
mix_all zero t ws v = v
mix_all (suc count) t [] v = v
mix_all (suc count) t (w ∷ ws) v =
    mix_all count (t + 1) (ws ++ (next_word (w ∷ ws) ∷ [])) (mixed t w v)

abbrev pub words_of : List ℕ → List ℕ
words_of (a ∷ b ∷ c ∷ d ∷ bs) = number_from 0 (a ∷ b ∷ c ∷ d ∷ []) ∷ words_of bs
words_of _ = []

abbrev pub plus : Words → Words → Words
plus g v = record {
  a = (g.a + v.a) % 2 ^ 32;
  b = (g.b + v.b) % 2 ^ 32;
  c = (g.c + v.c) % 2 ^ 32;
  d = (g.d + v.d) % 2 ^ 32;
  e = (g.e + v.e) % 2 ^ 32;
}

-- As many blocks as are said, from the first on.
unfoldable pub hash_blocks : ℕ → Words → List ℕ → Words
unfolding mix_all
hash_blocks zero g text = g
hash_blocks (suc count) g text =
    hash_blocks count (plus g (mix_all 80 0 (words_of (take 64 text)) g)) (drop 64 text)

-- The initial words of section 6.1.
abbrev pub initial_words : Words
initial_words = record {
  a = 0x67452301;
  b = 0xefcdab89;
  c = 0x98badcfe;
  d = 0x10325476;
  e = 0xc3d2e1f0;
}

-- Section 4: a one bit, as few zeros as leave room for 8 bytes in the last block, and the size in bits.
abbrev pub padding : ℕ → List ℕ
padding size = (0x80 ∷ []) ++ (replicate ((119 - size % 64) % 64) 0 ++ bytes_of 8 (size * 8))

abbrev pub digest_of : Words → List ℕ
digest_of g =
    bytes_of 4 g.a ++ (bytes_of 4 g.b ++ (bytes_of 4 g.c ++ (bytes_of 4 g.d ++ bytes_of 4 g.e)))

-- The digest of a message in one piece.
unfoldable pub sha1_of : List ℕ → List ℕ
unfolding hash_blocks
sha1_of message =
    let text = message ++ padding (length message) in
    digest_of (hash_blocks (length text / 64) initial_words text)
