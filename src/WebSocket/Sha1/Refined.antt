-- ===== src/WebSocket/Sha1/Refined.antt =====
-- The class `Sha1` of WebSocketHandshake.cpp against SHA-1 of the RFC.
use mathlib.Core.Path.{subst, fun_ext}
use simply_node_framework.Prelude.{
  All-append, All-split, List, [], ap, arith, drop, length, length-append, length-drop,
  length-replicate, length-take, refl, replicate, suc, sym, take, take-append-drop, zero, ℕ, ◌%◌,
  ◌*◌, ◌++◌, ◌-◌, ◌/◌, ◌<◌, ◌^◌, ◌∙◌, ◌∷◌, ◌≡◌,
}
use simply_node_framework.WebSocket.Base64.RoundTrip.{IsBytes}
use simply_node_framework.WebSocket.Sha1.{
  Words, process_block, block_words, final, new_sha1, process_all, rounds, write_words,
}
use simply_node_framework.WebSocket.Sha1.Standard.{
  sha1_of, plus, bytes_of, digest_of, hash_blocks, initial_words, mix_all, padding, words_of,
}
use simply_node_framework.WebSocket.Sha1.Schedule.{rounds-stream, expand-stream}
use simply_node_framework.WebSocket.Sha1.Fields.{
  block_words-block, size_bytes-bytes_of, write_word-bytes_of,
}
use simply_node_framework.WebSocket.Sha1.Blocks.{process_step, process_none}
use simply_node_framework.WebSocket.Sha1.Digest.{
  final-processed, fips_tail, joined_pieces, update_all,
}

length-block_words : (block : List ℕ) → length (block_words 16 0 block) ≡ 16
unfolding block_words
length-block_words block = refl

process_block-plus :
    (block : List ℕ) (h : Words)
    → length block ≡ 64
    → IsBytes block
    → process_block block h ≡ plus h (mix_all 80 0 (words_of block) h)
unfolding process_block
process_block-plus block h size bytes =
    let ws = block_words 16 0 block in
    ap (λ w. plus h (rounds 0 w h))
      (expand-stream 64 16 80 [] ws refl refl (length-block_words block))
    ∙ ap (plus h) (rounds-stream 80 0 ws h)
    ∙ ap (λ w. plus h (mix_all 80 0 w h)) (block_words-block block size bytes)

process_all-hash_blocks :
    (n : ℕ) (h : Words) (text : List ℕ)
    → length text ≡ n * 64
    → IsBytes text
    → process_all (length text) h text ≡ hash_blocks n h text
unfolding hash_blocks
process_all-hash_blocks zero h [] size bytes = process_none h
process_all-hash_blocks zero h (b ∷ text) size bytes = absurd (omega (arith, size))
process_all-hash_blocks (suc n) h text size bytes =
    let (front, rest) =
      All-split (λ b. b < 256) (take 64 text) (drop 64 text)
        (subst IsBytes (sym (take-append-drop 64 text)) bytes) in
    process_step h text (omega (arith, size))
    ∙ process_all-hash_blocks n (process_block (take 64 text) h) (drop 64 text)
        (omega (arith, size, length-drop 64 text)) rest
    ∙ ap (λ g. hash_blocks n g (drop 64 text))
        (process_block-plus (take 64 text) h (omega (arith, size, length-take 64 text)) front)

fips_tail-padding : (size : ℕ) → fips_tail size ≡ padding size
fips_tail-padding size =
    ap (λ s. 0x80 ∷ replicate ((119 - size % 64) % 64) 0 ++ s) (size_bytes-bytes_of (size * 8))

length-padded :
    (message : List ℕ)
    → (let text = message ++ padding (length message) in length text ≡ length text / 64 * 64)
length-padded message =
    let size = length message in
    let zeros : List ℕ = replicate ((119 - size % 64) % 64) 0 in
    omega (
      arith,
      length-append message (padding size),
      length-append zeros (bytes_of 8 (size * 8)),
      length-replicate {A = ℕ} ((119 - size % 64) % 64) 0,
    )

zeros-IsBytes : (n : ℕ) → IsBytes (replicate n 0)
zeros-IsBytes zero = tt
zeros-IsBytes (suc n) = (omega arith, zeros-IsBytes n)

bytes_of-IsBytes : (count n : ℕ) → IsBytes (bytes_of count n)
bytes_of-IsBytes zero n = tt
bytes_of-IsBytes (suc count) n =
    All-append (λ b. b < 256) (bytes_of count (n / 256)) (n % 256 ∷ [])
      (bytes_of-IsBytes count (n / 256)) (omega arith, tt)

padded-IsBytes :
    (message : List ℕ) → IsBytes message → IsBytes (message ++ padding (length message))
padded-IsBytes message h =
    let size = length message in
    let zeros : List ℕ = replicate ((119 - size % 64) % 64) 0 in
    All-append (λ b. b < 256) message (padding size) h
      (
        omega arith,
        All-append (λ b. b < 256) zeros (bytes_of 8 (size * 8))
            (zeros-IsBytes ((119 - size % 64) % 64)) (bytes_of-IsBytes 8 (size * 8)),
      )

write_words-digest_of : (h : Words) → write_words h ≡ digest_of h
unfolding write_words
write_words-digest_of h =
    ap (λ w. w h.a ++ (w h.b ++ (w h.c ++ (w h.d ++ w h.e)))) (fun_ext write_word-bytes_of)

-- A message of less than 2 ^ 61 bytes, each a number below 256, that is given to `update` in any pieces
-- has, by `final`, the digest of SHA-1 for the message in one piece. SHA-1 is written down on its own, from RFC 3174:
-- the padding, the words of a block and the digest as digits of numbers, the functions and constants
-- of the rounds, and a schedule of sixteen words that are renewed in one pass.
pub final-update_all :
    (pieces : List (List ℕ))
    → IsBytes (joined_pieces pieces)
    → length (joined_pieces pieces) < 2 ^ 61
    → final (update_all pieces new_sha1) ≡ sha1_of (joined_pieces pieces)
unfolding sha1_of
final-update_all pieces bytes small =
    let message = joined_pieces pieces in
    let text = message ++ padding (length message) in
    final-processed pieces small
    ∙ ap (λ t. write_words (process_all (length (message ++ t)) new_sha1.h (message ++ t)))
        (fips_tail-padding (length message))
    ∙ ap write_words (
        process_all-hash_blocks (length text / 64) initial_words text (length-padded message)
          (padded-IsBytes message bytes))
    ∙ write_words-digest_of (hash_blocks (length text / 64) initial_words text)
