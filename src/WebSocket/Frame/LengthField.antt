-- ===== src/WebSocket/Frame/LengthField.antt =====
-- The length field that `encodeFrame` of WebSocketFrame.cpp writes, read by its parser.
use simply_node_framework.Prelude.{
  ℕ, List, [], ap, arith, refl, ◌%◌, ◌*◌, ◌/◌, ◌<◌, ◌^◌, ◌∙◌, ◌∷◌, ◌≡◌,
}
use simply_node_framework.Prelude.Bits.{bit_or_byte}
use simply_node_framework.WebSocket.Frame.{big_endian, extended_length, ok, read_big_endian}

big_endian_step :
    (n : ℕ) (bs : List ℕ) → n < 2 ^ 64 → big_endian (n / 256) ((n % 256) ∷ bs) ≡ big_endian n bs
unfolding big_endian
big_endian_step n bs h =
    let low : n / 256 * 256 % 2 ^ 64 ≡ n / 256 * 256 = omega arith in
    rw (low, bit_or_byte (n / 256) (n % 256) (omega arith))
      (ap (λ v. big_endian v bs) (omega arith))

big_endian_nil : (n : ℕ) → big_endian n [] ≡ n
unfolding big_endian
big_endian_nil n = refl

-- The same with the quotients written as shifts of one number.
big_endian_shift :
    (k size : ℕ) (bs : List ℕ) (upper : ℕ)
    → size / 2 ^ k < 2 ^ 64
    → upper ≡ size / 2 ^ k / 256
    → big_endian upper ((size / 2 ^ k % 256) ∷ bs) ≡ big_endian (size / 2 ^ k) bs
big_endian_shift k size bs upper h e = rw e (big_endian_step (size / 2 ^ k) bs h)

big_endian_two :
    (size : ℕ) → size < 2 ^ 16 → big_endian 0 ((size / 2 ^ 8 % 256) ∷ (size % 256) ∷ []) ≡ size
big_endian_two size h =
    big_endian_shift 8 size _ 0 (omega arith) (omega arith)
    ∙ big_endian_step size [] (omega arith)
    ∙ big_endian_nil size

big_endian_eight :
    (size : ℕ)
    → size < 2 ^ 64
    → big_endian 0 (
        (size / 2 ^ 56 % 256)
        ∷ (size / 2 ^ 48 % 256)
        ∷ (size / 2 ^ 40 % 256)
        ∷ (size / 2 ^ 32 % 256)
        ∷ (size / 2 ^ 24 % 256)
        ∷ (size / 2 ^ 16 % 256)
        ∷ (size / 2 ^ 8 % 256)
        ∷ (size / 2 ^ 0 % 256)
        ∷ [])
      ≡ size
big_endian_eight size h =
    big_endian_shift 56 size _ 0 (omega arith) (omega arith)
    ∙ big_endian_shift 48 size _ (size / 2 ^ 56) (omega arith) (omega arith)
    ∙ big_endian_shift 40 size _ (size / 2 ^ 48) (omega arith) (omega arith)
    ∙ big_endian_shift 32 size _ (size / 2 ^ 40) (omega arith) (omega arith)
    ∙ big_endian_shift 24 size _ (size / 2 ^ 32) (omega arith) (omega arith)
    ∙ big_endian_shift 16 size _ (size / 2 ^ 24) (omega arith) (omega arith)
    ∙ big_endian_shift 8 size _ (size / 2 ^ 16) (omega arith) (omega arith)
    ∙ big_endian_shift 0 size _ (size / 2 ^ 8) (omega arith) (omega arith)
    ∙ big_endian_nil (size / 2 ^ 0)
    ∙ omega arith

pub extended_length_short :
    (size : ℕ) (buffer : List ℕ) → size < 126 → extended_length size buffer ≡ ok (size, 2)
unfolding extended_length
extended_length_short size buffer h = ground arith

pub extended_length_two :
    (first second size : ℕ) (tail : List ℕ)
    → 125 < size
    → size < 2 ^ 16
    → extended_length 126 (first ∷ second ∷ (size / 2 ^ 8 % 256) ∷ (size % 256) ∷ tail)
      ≡ ok (size, 4)
unfolding extended_length read_big_endian
extended_length_two first second size tail h h' = rw (big_endian_two size h') (ground arith)

pub extended_length_eight :
    (first second size : ℕ) (tail : List ℕ)
    → 0xffff < size
    → size < 2 ^ 63
    → extended_length 127 (
        first
        ∷ second
        ∷ (size / 2 ^ 56 % 256)
        ∷ (size / 2 ^ 48 % 256)
        ∷ (size / 2 ^ 40 % 256)
        ∷ (size / 2 ^ 32 % 256)
        ∷ (size / 2 ^ 24 % 256)
        ∷ (size / 2 ^ 16 % 256)
        ∷ (size / 2 ^ 8 % 256)
        ∷ (size / 2 ^ 0 % 256)
        ∷ tail)
      ≡ ok (size, 10)
unfolding extended_length read_big_endian
extended_length_eight first second size tail h h' =
    rw (big_endian_eight size (omega arith)) (ground arith)
