-- ===== src/WebSocket/Sha1.antt =====
-- lib/WebSocket/src/SNFWebSocket/WebSocketHandshake.cpp: the class `Sha1`. A word is a number below
-- 2 ^ 32, its sums and shifts are taken modulo 2 ^ 32.
pub mod Standard
pub mod Schedule
pub mod Fields
pub mod Blocks
pub mod Digest
pub mod Refined
mod Tests
use Prim.Native.Nat.{bit_and, bit_or, bit_xor}
use simply_node_framework.Prelude.{
  ℕ, List, [], drop, get_or, if◌then◌else◌, leb, length, ltb, suc, take, zero, ◌%◌, ◌*◌, ◌++◌, ◌+◌,
  ◌-◌, ◌/◌, ◌==◌, ◌^◌, ◌∷◌,
}

-- `m_h0` to `m_h4`, and the five variables of a block.
pub record Words : Type 0 where
  pub a : ℕ
  pub b : ℕ
  pub c : ℕ
  pub d : ℕ
  pub e : ℕ

pub record Sha1 : Type 0 where
  pub h : Words
  pub total_bytes : ℕ
  pub buffer : List ℕ

abbrev pub new_sha1 : Sha1
new_sha1 = record {
  h = record { a = 0x67452301; b = 0xefcdab89; c = 0x98badcfe; d = 0x10325476; e = 0xc3d2e1f0 };
  total_bytes = 0;
  buffer = [];
}

abbrev pub word : ℕ → ℕ
word n = n % 2 ^ 32

-- `~value` of a word.
abbrev complement : ℕ → ℕ
complement n = 2 ^ 32 - 1 - n

pub left_rotate : ℕ → ℕ → ℕ
left_rotate value shift = bit_or (word (value * 2 ^ shift)) (value / 2 ^ (32 - shift))

pub write_word : ℕ → List ℕ
write_word value =
    bit_and (value / 2 ^ 24) 0xff
    ∷ bit_and (value / 2 ^ 16) 0xff
    ∷ bit_and (value / 2 ^ 8) 0xff
    ∷ bit_and value 0xff
    ∷ []

abbrev byte_at : List ℕ → ℕ → ℕ
byte_at block i = get_or block i 0

-- The word that begins at a byte of the block.
pub read_word : List ℕ → ℕ → ℕ
read_word block i =
    bit_or
      (bit_or (bit_or (byte_at block i * 2 ^ 24) (byte_at block (i + 1) * 2 ^ 16))
        (byte_at block (i + 2) * 2 ^ 8))
      (byte_at block (i + 3))

-- The first loop: the words of the block, from the `i`th on, `count` of them.
pub block_words : ℕ → ℕ → List ℕ → List ℕ
unfolding read_word
block_words zero i block = []
block_words (suc count) i block = read_word block (i * 4) ∷ block_words count (i + 1) block

abbrev at_word : List ℕ → ℕ → ℕ
at_word w i = get_or w i 0

-- The second loop: one word more behind the `i` that are there, `count` times.
pub expand : ℕ → ℕ → List ℕ → List ℕ
unfolding left_rotate
expand zero i w = w
expand (suc count) i w = expand count (i + 1) (
    w
    ++ (left_rotate
          (bit_xor (bit_xor (bit_xor (at_word w (i - 3)) (at_word w (i - 8))) (at_word w (i - 14)))
            (at_word w (i - 16)))
          1
        ∷ []))

-- `f` and `k` of a round.
pub mix : ℕ → Words → ℕ × ℕ
mix i v =
    if ltb i 20
    then (bit_or (bit_and v.b v.c) (bit_and (complement v.b) v.d), 0x5a827999)
    else if ltb i 40
    then (bit_xor (bit_xor v.b v.c) v.d, 0x6ed9eba1)
    else if ltb i 60
    then (bit_or (bit_or (bit_and v.b v.c) (bit_and v.b v.d)) (bit_and v.c v.d), 0x8f1bbcdc)
    else (bit_xor (bit_xor v.b v.c) v.d, 0xca62c1d6)

pub round : ℕ → ℕ → Words → Words
unfolding mix left_rotate
round i wi v =
    let (f, k) = mix i v in
    record {
      a = word (left_rotate v.a 5 + f + v.e + k + wi);
      b = v.a;
      c = left_rotate v.b 30;
      d = v.c;
      e = v.d;
    }

-- The third loop, over the words that are left.
pub rounds : ℕ → List ℕ → Words → Words
unfolding round
rounds i [] v = v
rounds i (wi ∷ ws) v = rounds (i + 1) ws (round i wi v)

-- `processBlock`.
pub process_block : List ℕ → Words → Words
unfolding block_words expand rounds
process_block block h =
    let v = rounds 0 (expand 64 16 (block_words 16 0 block)) h in
    record {
      a = word (h.a + v.a);
      b = word (h.b + v.b);
      c = word (h.c + v.c);
      d = word (h.d + v.d);
      e = word (h.e + v.e);
    }

-- `while (m_buffer.size() >= 64)`: each round takes 64 bytes, so as many rounds as there are bytes
-- are enough.
pub drain : ℕ → Words → List ℕ → Words × List ℕ
unfolding process_block
drain zero h buffer = (h, buffer)
drain (suc fuel) h buffer =
    let rest = drain fuel (process_block (take 64 buffer) h) (drop 64 buffer) in
    if leb 64 (length buffer) then rest else (h, buffer)

-- `update`.
unfoldable pub update : List ℕ → Sha1 → Sha1
unfolding drain
update bytes s =
    let buffer = s.buffer ++ bytes in
    let (h, rest) = drain (length buffer) s.h buffer in
    record { h = h; total_bytes = (s.total_bytes + length bytes) % 2 ^ 64; buffer = rest }

-- `while ((m_buffer.size() % 64) != 56)`: at most 63 rounds.
pub pad_zeros : ℕ → List ℕ → List ℕ
pad_zeros zero buffer = buffer
pad_zeros (suc fuel) buffer =
    let more = pad_zeros fuel (buffer ++ (0 ∷ [])) in
    if length buffer % 64 == 56 then buffer else more

-- `for (int shift = 56; shift >= 0; shift -= 8)`.
pub size_bytes : ℕ → List ℕ
size_bytes bits =
    bit_and (bits / 2 ^ 56) 0xff
    ∷ bit_and (bits / 2 ^ 48) 0xff
    ∷ bit_and (bits / 2 ^ 40) 0xff
    ∷ bit_and (bits / 2 ^ 32) 0xff
    ∷ bit_and (bits / 2 ^ 24) 0xff
    ∷ bit_and (bits / 2 ^ 16) 0xff
    ∷ bit_and (bits / 2 ^ 8) 0xff
    ∷ bit_and bits 0xff
    ∷ []

-- `for (offset = 0; offset < m_buffer.size(); offset += 64)`. The size is a multiple of 64 there.
pub process_all : ℕ → Words → List ℕ → Words
unfolding process_block
process_all zero h buffer = h
process_all (suc fuel) h buffer =
    let rest = process_all fuel (process_block (take 64 buffer) h) (drop 64 buffer) in
    if ltb 0 (length buffer) then rest else h

-- What `final` puts behind the buffer.
pub padded : Sha1 → List ℕ
unfolding pad_zeros size_bytes
padded s = pad_zeros 64 (s.buffer ++ (0x80 ∷ [])) ++ size_bytes (s.total_bytes * 8 % 2 ^ 64)

pub write_words : Words → List ℕ
unfolding write_word
write_words h =
    write_word h.a ++ (write_word h.b ++ (write_word h.c ++ (write_word h.d ++ write_word h.e)))

-- `final`.
unfoldable pub final : Sha1 → List ℕ
unfolding process_all padded write_words
final s = let buffer = padded s in write_words (process_all (length buffer) s.h buffer)
