-- ===== src/WebSocket/Sha1/Tests.antt =====
-- FIPS 180: the digest of "abc".
use simply_node_framework.Prelude.Bytes.{codes}
use simply_node_framework.Prelude.{
  refl, [], arith, ◌∷◌, ◌≡◌, Bool, leb, ltb, true, ℕ, ◌&&◌, ◌*◌, ◌+◌, ◌^◌,
}
use simply_node_framework.WebSocket.Sha1.{update, final, new_sha1}
use simply_node_framework.WebSocket.Sha1.Digest.{update_all}
use simply_node_framework.WebSocket.Sha1.Refined.{final-update_all}
use simply_node_framework.WebSocket.Sha1.Standard.{
  sha1_of, constant, f, hash_blocks, mix_all, mixed, next_word, root_five, root_ten, root_three,
  root_two, shift,
}

abc_digest :
    final (update (codes "abc") new_sha1)
    ≡ 0xa9 ∷ 0x99 ∷ 0x3e ∷ 0x36 ∷ 0x47 ∷ 0x06 ∷ 0x81 ∷ 0x6a ∷ 0xba ∷ 0x3e ∷ 0x25 ∷ 0x71 ∷ 0x78
      ∷ 0x50 ∷ 0xc2 ∷ 0x6c ∷ 0x9c ∷ 0xd0 ∷ 0xd8 ∷ 0x9d ∷ []
unfolding update final
abc_digest = refl

final-update_all_example :
    final (update_all (codes "ab" ∷ [] ∷ codes "c" ∷ []) new_sha1) ≡ sha1_of (codes "abc")
final-update_all_example =
    final-update_all (codes "ab" ∷ [] ∷ codes "c" ∷ [])
      (omega arith, (omega arith, (omega arith, tt))) (omega arith)

-- `Standard` computes it too.
abc_standard :
    sha1_of (codes "abc")
    ≡ 0xa9 ∷ 0x99 ∷ 0x3e ∷ 0x36 ∷ 0x47 ∷ 0x06 ∷ 0x81 ∷ 0x6a ∷ 0xba ∷ 0x3e ∷ 0x25 ∷ 0x71 ∷ 0x78
      ∷ 0x50 ∷ 0xc2 ∷ 0x6c ∷ 0x9c ∷ 0xd0 ∷ 0xd8 ∷ 0x9d ∷ []
unfolding sha1_of hash_blocks mix_all mixed f constant shift next_word
abc_standard = refl

-- The constants are the whole parts of roots.
abbrev is_root : ℕ → ℕ → Bool
is_root n k = leb (k * k) (n * 2 ^ 60) && ltb (n * 2 ^ 60) ((k + 1) * (k + 1))

roots :
    (is_root 2 root_two && is_root 3 root_three && is_root 5 root_five && is_root 10 root_ten)
    ≡ true
roots = refl
