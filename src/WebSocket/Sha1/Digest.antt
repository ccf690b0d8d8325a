-- ===== src/WebSocket/Sha1/Digest.antt =====
-- `Sha1` fed piece by piece against the blocks of the whole padded message.
use simply_node_framework.Prelude.{
  ℕ, List, [], arith, length-append, Bool-cases, ap, append-nil, append_assoc, inl, inr, length,
  replicate, suc, sym, zero, ◌%◌, ◌*◌, ◌++◌, ◌-◌, ◌==◌, ◌^◌, ◌∙◌, ◌∷◌, ◌≡◌, ◌≤◌, refl, ◌/◌, ◌<◌,
  All-append,
}
use simply_node_framework.WebSocket.Sha1.{
  process_all, Sha1, new_sha1, pad_zeros, size_bytes, update, write_words, drain, final, padded,
  write_word,
}
use simply_node_framework.Prelude.Bits.Masks.{bit_and_0xff}
use simply_node_framework.WebSocket.Base64.RoundTrip.{IsBytes}
use simply_node_framework.WebSocket.Sha1.Blocks.{absorb, drain-append, drain-rest, process-drain}

-- A one bit, as few zeros as leave room for 8 bytes in the last block, and the size in bits.
abbrev pub fips_tail : ℕ → List ℕ
fips_tail size = (0x80 ∷ []) ++ (replicate ((119 - size % 64) % 64) 0 ++ size_bytes (size * 8))

abbrev pub fips_padded : List ℕ → List ℕ
fips_padded message = message ++ fips_tail (length message)

-- Every block of the padded message is processed, from the first on.
abbrev pub processed : List ℕ → List ℕ
processed message =
    let text = fips_padded message in write_words (process_all (length text) new_sha1.h text)

abbrev pub update_all : List (List ℕ) → Sha1 → Sha1
update_all [] s = s
update_all (piece ∷ pieces) s = update_all pieces (update piece s)

abbrev pub joined_pieces : List (List ℕ) → List ℕ
joined_pieces [] = []
joined_pieces (piece ∷ pieces) = piece ++ joined_pieces pieces

-- The state after a message: its whole blocks are in the words, the rest is in the buffer.
pub record Holds (message : List ℕ) (s : Sha1) : Type 0 where
  pub taken : absorb new_sha1.h message ≡ (s.h, s.buffer)
  pub counted : s.total_bytes ≡ length message % 2 ^ 64

update-Holds :
    (piece message : List ℕ) (s : Sha1)
    → Holds message s
    → Holds (message ++ piece) (update piece s)
unfolding update absorb
update-Holds piece message s h = record {
  taken =
      drain-append (length message) (length (message ++ piece)) new_sha1.h message piece
        (omega arith) (omega arith)
      ∙ ap (λ p. absorb p.0 (p.1 ++ piece)) h.taken;
  counted = omega (arith, h.counted, length-append message piece);
}

update_all-Holds :
    (pieces : List (List ℕ)) (message : List ℕ) (s : Sha1)
    → Holds message s
    → Holds (message ++ joined_pieces pieces) (update_all pieces s)
update_all-Holds [] message s h = rw (append-nil message) h
update_all-Holds (piece ∷ pieces) message s h =
    rw (sym (append_assoc message piece (joined_pieces pieces)))
      (update_all-Holds pieces (message ++ piece) (update piece s) (update-Holds piece message s h))

new-Holds : Holds [] new_sha1
unfolding absorb drain
new-Holds = record { taken = refl; counted = refl }

pad_zeros_lem :
    (n : ℕ) (s : List ℕ)
    → (120 - length s % 64) % 64 ≤ n
    → pad_zeros n s ≡ s ++ replicate ((120 - length s % 64) % 64) 0
unfolding pad_zeros
pad_zeros_lem zero s h =
    let none_missing : (120 - length s % 64) % 64 ≡ 0 = omega (arith, h) in
    rw none_missing (sym (append-nil s))
pad_zeros_lem (suc n) s h = elim (Bool-cases (length s % 64 == 56)) [
  | inl done ↦
      let none_missing : (120 - length s % 64) % 64 ≡ 0 = ground (arith, done) in
      rw (done, none_missing) (sym (append-nil s))
  | inr short ↦
      let k = (120 - length (s ++ (0 ∷ [])) % 64) % 64 in
      let one_missing : (120 - length s % 64) % 64 ≡ suc k =
        ground (arith, short, length-append s (0 ∷ [])) in
      rw (short, one_missing)
        (pad_zeros_lem n (s ++ (0 ∷ [])) (omega (arith, h, one_missing))
          ∙ append_assoc s (0 ∷ []) (replicate k 0))
]

padded_lem :
    (size : ℕ) (s : Sha1)
    → size < 2 ^ 61
    → s.total_bytes ≡ size % 2 ^ 64
    → length s.buffer % 64 ≡ size % 64
    → padded s ≡ s.buffer ++ fips_tail size
unfolding padded
padded_lem size s small counted same =
    let b = s.buffer ++ (0x80 ∷ []) in
    let zeros : (120 - length b % 64) % 64 ≡ (119 - size % 64) % 64 =
      omega (arith, same, length-append s.buffer (0x80 ∷ [])) in
    let bits : s.total_bytes * 8 % 2 ^ 64 ≡ size * 8 = omega (arith, counted, small) in
    ap (λ z. z ++ size_bytes (s.total_bytes * 8 % 2 ^ 64)) (pad_zeros_lem 64 b (omega arith))
    ∙ ap (λ k. b ++ replicate k 0 ++ size_bytes (s.total_bytes * 8 % 2 ^ 64)) zeros
    ∙ ap (λ n. b ++ replicate ((119 - size % 64) % 64) 0 ++ size_bytes n) bits
    ∙ append_assoc b (replicate ((119 - size % 64) % 64) 0) (size_bytes (size * 8))
    ∙ append_assoc s.buffer (0x80 ∷ [])
        (replicate ((119 - size % 64) % 64) 0 ++ size_bytes (size * 8))

final-Holds :
    (message : List ℕ) (s : Sha1)
    → length message < 2 ^ 61
    → Holds message s
    → final s ≡ processed message
unfolding final absorb
final-Holds message s small h =
    let (short, same) = drain-rest (length message) new_sha1.h message (omega arith) in
    let size = length message in
    let buffer_size : length s.buffer % 64 ≡ size % 64 =
      ap (λ p. length p.1 % 64) (sym h.taken) ∙ same in
    ap (λ t. write_words (process_all (length t) s.h t))
      (padded_lem size s small h.counted buffer_size)
    ∙ ap
        (λ p.
          write_words (process_all (length (p.1 ++ fips_tail size)) p.0 (p.1 ++ fips_tail size)))
        (sym h.taken)
    ∙ ap write_words (sym (process-drain size new_sha1.h message (fips_tail size) (omega arith)))

-- The pieces make no difference, nor does it that blocks are processed before the message is whole.
pub final-processed :
    (pieces : List (List ℕ))
    → length (joined_pieces pieces) < 2 ^ 61
    → final (update_all pieces new_sha1) ≡ processed (joined_pieces pieces)
final-processed pieces small =
    final-Holds (joined_pieces pieces) (update_all pieces new_sha1) small
      (update_all-Holds pieces [] new_sha1 new-Holds)

write_word-IsBytes : (n : ℕ) → IsBytes (write_word n)
unfolding write_word
write_word-IsBytes n = (
  omega (arith, bit_and_0xff (n / 2 ^ 24)),
  (
    omega (arith, bit_and_0xff (n / 2 ^ 16)),
    (omega (arith, bit_and_0xff (n / 2 ^ 8)), (omega (arith, bit_and_0xff n), tt)),
  ),
)

pub final-IsBytes : (s : Sha1) → IsBytes (final s)
unfolding final write_words
final-IsBytes s =
    let h = process_all (length (padded s)) s.h (padded s) in
    let behind : (n : ℕ) (t : List ℕ) → IsBytes t → IsBytes (write_word n ++ t) =
      λ n t ht. All-append (λ b. b < 256) (write_word n) t (write_word-IsBytes n) ht in
    behind h.a (write_word h.b ++ (write_word h.c ++ (write_word h.d ++ write_word h.e))) (
      behind h.b (write_word h.c ++ (write_word h.d ++ write_word h.e)) (
        behind h.c (write_word h.d ++ write_word h.e)
          (behind h.d (write_word h.e) (write_word-IsBytes h.e))))

pub length-final : (s : Sha1) → length (final s) ≡ 20
unfolding final write_words write_word
length-final s = refl
