-- ===== src/WebSocket/Sha1/Blocks.antt =====
-- The two loops of `Sha1` over the buffer: the rounds given are enough, and bytes that come later are
-- processed as if they had been there from the start.
use simply_node_framework.Prelude.{
  ℕ, List, [], arith, length-drop, drop-append_le, take-append_le, length-append, Bool-cases, drop,
  inl, inr, leb, leb→le, length, refl, suc, take, true, zero, ◌++◌, ◌∷◌, ◌≡◌, ◌≤◌, ltb, ◌%◌, ◌<◌,
  ◌∙◌, ap,
}
use simply_node_framework.WebSocket.Sha1.{drain, Words, process_block, process_all}

pub drain_enough :
    (n m : ℕ) (h : Words) (s : List ℕ) → length s ≤ n → length s ≤ m → drain n h s ≡ drain m h s
unfolding drain
drain_enough zero zero h s p q = refl
drain_enough zero (suc m) h [] p q = refl
drain_enough zero (suc m) h (x ∷ s) p q = absurd (omega arith)
drain_enough (suc n) zero h [] p q = refl
drain_enough (suc n) zero h (x ∷ s) p q = absurd (omega arith)
drain_enough (suc n) (suc m) h s p q = elim (Bool-cases (leb 64 (length s))) [
  | inr less ↦ rw less refl
  | inl full ↦
      let big = leb→le 64 (length s) full in
      rw full (
        drain_enough n m (process_block (take 64 s) h) (drop 64 s)
          (omega (arith, length-drop 64 s, big)) (omega (arith, length-drop 64 s, big)))
]

unfoldable pub absorb : Words → List ℕ → Words × List ℕ
absorb h s = drain (length s) h s

pub drain-append :
    (n m : ℕ) (h : Words) (s more : List ℕ)
    → length s ≤ n
    → length (s ++ more) ≤ m
    → drain m h (s ++ more) ≡ absorb (drain n h s).0 ((drain n h s).1 ++ more)
unfolding drain absorb
drain-append zero m h s more p q = drain_enough m _ h (s ++ more) q (omega arith)
drain-append (suc n) zero h [] more p q = drain_enough zero (length more) h more q (omega arith)
drain-append (suc n) zero h (x ∷ s) more p q = absurd (omega arith)
drain-append (suc n) (suc m) h s more p q = elim (Bool-cases (leb 64 (length s))) [
  | inr less ↦ rw less (drain_enough (suc m) (length (s ++ more)) h (s ++ more) q (omega arith))
  | inl full ↦
      let big = leb→le 64 (length s) full in
      let still : leb 64 (length (s ++ more)) ≡ true = ground (arith, length-append s more, big) in
      rw (full, still, take-append_le 64 s more big, drop-append_le 64 s more big)
        (drain-append n m (process_block (take 64 s) h) (drop 64 s) more
          (omega (arith, length-drop 64 s, big))
          (omega
            (arith, length-append s more, length-append (drop 64 s) more, length-drop 64 s, big)))
]

-- What is left is less than a block, and is the end of the bytes.
pub drain-rest :
    (n : ℕ) (h : Words) (s : List ℕ)
    → length s ≤ n
    → (length (drain n h s).1 < 64) × (length (drain n h s).1 % 64 ≡ length s % 64)
unfolding drain
drain-rest zero h s p = (omega (arith, p), refl)
drain-rest (suc n) h s p = elim (Bool-cases (leb 64 (length s))) [
  | inr less ↦ rw less (ground (arith, less), refl)
  | inl full ↦
      let big = leb→le 64 (length s) full in
      let (short, same) =
        drain-rest n (process_block (take 64 s) h) (drop 64 s)
          (omega (arith, length-drop 64 s, big)) in
      rw full (short, omega (arith, same, length-drop 64 s, big))
]

pub process_enough :
    (n m : ℕ) (h : Words) (s : List ℕ)
    → length s ≤ n
    → length s ≤ m
    → process_all n h s ≡ process_all m h s
unfolding process_all
process_enough zero zero h s p q = refl
process_enough zero (suc m) h [] p q = refl
process_enough zero (suc m) h (x ∷ s) p q = absurd (omega arith)
process_enough (suc n) zero h [] p q = refl
process_enough (suc n) zero h (x ∷ s) p q = absurd (omega arith)
process_enough (suc n) (suc m) h [] p q = refl
process_enough (suc n) (suc m) h (x ∷ s) p q =
    let full : ltb 0 (suc (length s)) ≡ true = ground arith in
    rw full (
      process_enough n m (process_block (take 64 (x ∷ s)) h) (drop 64 (x ∷ s))
        (omega (arith, length-drop 64 (x ∷ s))) (omega (arith, length-drop 64 (x ∷ s))))

pub process_none : (h : Words) → process_all 0 h [] ≡ h
unfolding process_all
process_none h = refl

pub process_step :
    (h : Words) (s : List ℕ)
    → 64 ≤ length s
    → process_all (length s) h s
      ≡ process_all (length (drop 64 s)) (process_block (take 64 s) h) (drop 64 s)
unfolding process_all
process_step h [] big = absurd (omega arith)
process_step h (x ∷ s) big =
    let full : ltb 0 (suc (length s)) ≡ true = ground arith in
    rw full (
      process_enough (length s) (length (drop 64 (x ∷ s))) (process_block (take 64 (x ∷ s)) h)
        (drop 64 (x ∷ s)) (omega (arith, length-drop 64 (x ∷ s))) (omega arith))

process_one :
    (h : Words) (s more : List ℕ)
    → 64 ≤ length s
    → process_all (length (s ++ more)) h (s ++ more)
      ≡ process_all (length (drop 64 s ++ more)) (process_block (take 64 s) h) (drop 64 s ++ more)
process_one h s more big =
    let d = drop 64 (s ++ more) in
    process_step h (s ++ more) (omega (arith, length-append s more, big))
    ∙ ap (λ t. process_all (length d) (process_block t h) d) (take-append_le 64 s more big)
    ∙ ap (λ r. process_all (length r) (process_block (take 64 s) h) r)
        (drop-append_le 64 s more big)

-- The blocks that one loop has taken out are those that the other would process first.
pub process-drain :
    (n : ℕ) (h : Words) (s more : List ℕ)
    → length s ≤ n
    → process_all (length (s ++ more)) h (s ++ more)
      ≡ (let (g, rest) = drain n h s in process_all (length (rest ++ more)) g (rest ++ more))
unfolding drain
process-drain zero h s more p = refl
process-drain (suc n) h s more p = elim (Bool-cases (leb 64 (length s))) [
  | inr less ↦ rw less refl
  | inl full ↦
      let big = leb→le 64 (length s) full in
      rw full (
        process_one h s more big
        ∙ process-drain n (process_block (take 64 s) h) (drop 64 s) more
            (omega (arith, length-drop 64 s, big)))
]
