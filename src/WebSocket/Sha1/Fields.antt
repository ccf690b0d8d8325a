-- ===== src/WebSocket/Sha1/Fields.antt =====
-- The words and sizes that WebSocketHandshake.cpp packs into bytes and takes out of them, as the digits
-- of numbers that they are in the RFC.
use Prim.Native.Nat.{bit_and, bit_or}
use simply_node_framework.Prelude.{
  List, [], ap, append_assoc, arith, length, length-append, refl, suc, sym, zero, ℕ, ◌%◌, ◌*◌, ◌++◌,
  ◌+◌, ◌/◌, ◌<◌, ◌^◌, ◌∙◌, ◌∷◌, ◌≡◌,
}
use simply_node_framework.Prelude.Bits.{bit_or_disjoint}
use simply_node_framework.Prelude.Bits.Masks.{bit_and_0xff}
use simply_node_framework.WebSocket.Sha1.{read_word, block_words, size_bytes, write_word}
use simply_node_framework.WebSocket.Sha1.Schedule.{get_or-append}
use simply_node_framework.WebSocket.Sha1.Standard.{bytes_of, number_from, words_of}
use simply_node_framework.WebSocket.Base64.RoundTrip.{IsBytes}

-- Dividing again and again by 256 is dividing at once.
low_byte : (n m k : ℕ) → n / m ≡ k → bit_and (n / m) 0xff ≡ k % 256
low_byte n m k e = bit_and_0xff (n / m) ∙ ap (λ x. x % 256) e

pub write_word-bytes_of : (n : ℕ) → write_word n ≡ bytes_of 4 n
unfolding write_word
write_word-bytes_of n =
    rw
      (
        low_byte n (2 ^ 24) (n / 256 / 256 / 256) (omega arith),
        low_byte n (2 ^ 16) (n / 256 / 256) (omega arith),
        low_byte n (2 ^ 8) (n / 256) (omega arith),
        bit_and_0xff n,
      )
      refl

pub size_bytes-bytes_of : (n : ℕ) → size_bytes n ≡ bytes_of 8 n
unfolding size_bytes
size_bytes-bytes_of n =
    rw
      (
        low_byte n (2 ^ 56) (n / 256 / 256 / 256 / 256 / 256 / 256 / 256) (omega arith),
        low_byte n (2 ^ 48) (n / 256 / 256 / 256 / 256 / 256 / 256) (omega arith),
        low_byte n (2 ^ 40) (n / 256 / 256 / 256 / 256 / 256) (omega arith),
        low_byte n (2 ^ 32) (n / 256 / 256 / 256 / 256) (omega arith),
        low_byte n (2 ^ 24) (n / 256 / 256 / 256) (omega arith),
        low_byte n (2 ^ 16) (n / 256 / 256) (omega arith),
        low_byte n (2 ^ 8) (n / 256) (omega arith),
        bit_and_0xff n,
      )
      refl

four_bytes :
    (a b c d : ℕ)
    → a < 256
    → b < 256
    → c < 256
    → d < 256
    → bit_or (bit_or (bit_or (a * 2 ^ 24) (b * 2 ^ 16)) (c * 2 ^ 8)) d
      ≡ number_from 0 (a ∷ b ∷ c ∷ d ∷ [])
four_bytes a b c d ha hb hc hd =
    let two : bit_or (a * 2 ^ 24) (b * 2 ^ 16) ≡ (a * 2 ^ 8 + b) * 2 ^ 16 =
      omega (arith, bit_or_disjoint 24 a (b * 2 ^ 16) (omega (arith, hb))) in
    let three : bit_or ((a * 2 ^ 8 + b) * 2 ^ 16) (c * 2 ^ 8)
        ≡ ((a * 2 ^ 8 + b) * 2 ^ 8 + c) * 2 ^ 8 =
      omega (arith, bit_or_disjoint 16 (a * 2 ^ 8 + b) (c * 2 ^ 8) (omega (arith, hc))) in
    ap (λ x. bit_or (bit_or x (c * 2 ^ 8)) d) two
    ∙ ap (λ x. bit_or x d) three
    ∙ bit_or_disjoint 8 ((a * 2 ^ 8 + b) * 2 ^ 8 + c) d hd
    ∙ omega arith

read_word-number :
    (front : List ℕ) (i a b c d : ℕ) (s : List ℕ)
    → i ≡ length front
    → IsBytes (a ∷ b ∷ c ∷ d ∷ [])
    → read_word (front ++ (a ∷ b ∷ c ∷ d ∷ s)) i ≡ number_from 0 (a ∷ b ∷ c ∷ d ∷ [])
unfolding read_word
read_word-number front i a b c d s at (ha, (hb, (hc, (hd, _)))) =
    let t = a ∷ b ∷ c ∷ d ∷ s in
    rw
      (
        get_or-append front t i 0 0 (omega (arith, at)),
        get_or-append front t (i + 1) 1 0 (omega (arith, at)),
        get_or-append front t (i + 2) 2 0 (omega (arith, at)),
        get_or-append front t (i + 3) 3 0 (omega (arith, at)),
      )
      (four_bytes a b c d ha hb hc hd)

block_words-words_of :
    (count i : ℕ) (front s : List ℕ)
    → i * 4 ≡ length front
    → length s ≡ count * 4
    → IsBytes s
    → block_words count i (front ++ s) ≡ words_of s
unfolding block_words
block_words-words_of zero i front [] at size h = refl
block_words-words_of zero i front (a ∷ s) at size h = absurd (omega (arith, size))
block_words-words_of (suc count) i front (a ∷ b ∷ c ∷ d ∷ s) at size (ha, (hb, (hc, (hd, hs)))) =
    let four = a ∷ b ∷ c ∷ d ∷ [] in
    ap (λ w. w ∷ block_words count (i + 1) (front ++ (a ∷ b ∷ c ∷ d ∷ s)))
      (read_word-number front (i * 4) a b c d s at (ha, (hb, (hc, (hd, tt)))))
    ∙ ap (λ t. number_from 0 four ∷ block_words count (i + 1) t) (sym (append_assoc front four s))
    ∙ ap (λ ws. number_from 0 four ∷ ws)
        (block_words-words_of count (i + 1) (front ++ four) s
          (omega (arith, at, length-append front four)) (omega (arith, size)) hs)
block_words-words_of (suc count) i front [] at size h = absurd (omega (arith, size))
block_words-words_of (suc count) i front (a ∷ []) at size h = absurd (omega (arith, size))
block_words-words_of (suc count) i front (a ∷ b ∷ []) at size h = absurd (omega (arith, size))
block_words-words_of (suc count) i front (a ∷ b ∷ c ∷ []) at size h = absurd (omega (arith, size))

-- The words of a block of sixteen.
pub block_words-block : (s : List ℕ) → length s ≡ 64 → IsBytes s → block_words 16 0 s ≡ words_of s
block_words-block s size h = block_words-words_of 16 0 [] s refl size h
