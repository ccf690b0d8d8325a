-- ===== src/WebSocket/Sha1/Schedule.antt =====
-- A block of WebSocketHandshake.cpp, whose eighty words are made before they are mixed, against the one
-- pass over sixteen words of the RFC.
use Prim.Native.Nat.{bit_xor}
use simply_node_framework.Prelude.{
  Bool-cases, List, [], ap, append-nil, arith, get_or, inl, inr, length, length-append, ltb, refl,
  suc, sym, take, take-append, take-append_le, zero, ℕ, ◌++◌, ◌+◌, ◌∙◌, ◌∷◌, ◌≡◌, ◌≤◌, append_assoc,
  ◌%◌, ◌-◌, ◌^◌,
}
use simply_node_framework.WebSocket.Sha1.{Words, mix, round, expand, left_rotate, rounds}
use simply_node_framework.WebSocket.Sha1.Standard.{mixed, f, constant, mix_all, next_word, shift}

-- The words that the one pass takes.
pub stream : ℕ → List ℕ → List ℕ
stream zero ws = []
stream (suc n) [] = []
stream (suc n) (w ∷ ws) = w ∷ stream n (ws ++ (next_word (w ∷ ws) ∷ []))

stream-take : (n : ℕ) (ws : List ℕ) → n ≤ length ws → stream n ws ≡ take n ws
unfolding stream
stream-take zero ws h = refl
stream-take (suc n) [] h = absurd (omega arith)
stream-take (suc n) (w ∷ ws) h =
    let more = next_word (w ∷ ws) ∷ [] in
    ap (λ s. w ∷ s)
      (stream-take n (ws ++ more) (omega (arith, h, length-append ws more))
        ∙ take-append_le n ws more (omega (arith, h)))

pub get_or-append :
    (xs ys : List ℕ) (i k d : ℕ) → i ≡ length xs + k → get_or (xs ++ ys) i d ≡ get_or ys k d
get_or-append [] ys i k d e = let same : i ≡ k = omega (arith, e) in ap (λ n. get_or ys n d) same
get_or-append (x ∷ xs) ys zero k d e = absurd (omega (arith, e))
get_or-append (x ∷ xs) ys (suc i) k d e = get_or-append xs ys i k d (omega (arith, e))

next_word_lem :
    (front ws : List ℕ) (i : ℕ)
    → i ≡ length front + 16
    → left_rotate
        (bit_xor
          (bit_xor
            (bit_xor (get_or (front ++ ws) (i - 3) 0) (get_or (front ++ ws) (i - 8) 0))
            (get_or (front ++ ws) (i - 14) 0))
          (get_or (front ++ ws) (i - 16) 0))
        1
      ≡ next_word ws
unfolding left_rotate next_word shift
next_word_lem front ws i at =
    rw
      (
        get_or-append front ws (i - 3) 13 0 (omega (arith, at)),
        get_or-append front ws (i - 8) 8 0 (omega (arith, at)),
        get_or-append front ws (i - 14) 2 0 (omega (arith, at)),
        get_or-append front ws (i - 16) 0 0 (omega (arith, at)),
      )
      refl

pub expand-stream :
    (count i n : ℕ) (front ws : List ℕ)
    → i ≡ length front + 16
    → n ≡ count + 16
    → length ws ≡ 16
    → expand count i (front ++ ws) ≡ front ++ stream n ws
unfolding expand stream
expand-stream zero i n front ws at e size =
    let all : n ≡ length ws = omega (arith, e, size) in
    ap (λ s. front ++ s)
      (sym (
        stream-take n ws (omega (arith, all))
        ∙ ap (λ k. take k ws) all
        ∙ ap (take (length ws)) (sym (append-nil ws))
        ∙ take-append ws []))
expand-stream (suc count) i n front [] at e size = absurd (omega (arith, size))
expand-stream (suc count) i zero front (w ∷ ws) at e size = absurd (omega (arith, e))
expand-stream (suc count) i (suc n) front (w ∷ ws) at e size =
    let y = next_word (w ∷ ws) in
    let later = ws ++ (y ∷ []) in
    ap (λ x. expand count (i + 1) (front ++ (w ∷ ws) ++ (x ∷ [])))
      (next_word_lem front (w ∷ ws) i at)
    ∙ ap (expand count (i + 1))
        (append_assoc front (w ∷ ws) (y ∷ []) ∙ sym (append_assoc front (w ∷ []) later))
    ∙ expand-stream count (i + 1) n (front ++ (w ∷ [])) later
        (omega (arith, at, length-append front (w ∷ []))) (omega (arith, e))
        (omega (arith, size, length-append ws (y ∷ [])))
    ∙ append_assoc front (w ∷ []) (stream n later)

left_rotate-shift : (x n : ℕ) → left_rotate x n ≡ shift n x
unfolding left_rotate shift
left_rotate-shift x n = refl

mix-standard : (t : ℕ) (v : Words) → mix t v ≡ (f t v.b v.c v.d, constant t)
unfolding mix f constant
mix-standard t v = elim (Bool-cases (ltb t 20)) [
  | inl e ↦ rw e refl
  | inr e ↦ elim (Bool-cases (ltb t 40)) [
    | inl e' ↦ rw (e, e') refl
    | inr e' ↦ elim (Bool-cases (ltb t 60)) [
      | inl e'' ↦ rw (e, e', e'') refl
      | inr e'' ↦ rw (e, e', e'') refl
    ]
  ]
]

round-mixed : (t w : ℕ) (v : Words) → round t w v ≡ mixed t w v
unfolding round mixed left_rotate shift
round-mixed t w v =
    let a : (left_rotate v.a 5 + (mix t v).0 + v.e + (mix t v).1 + w) % 2 ^ 32
        ≡ (shift 5 v.a + f t v.b v.c v.d + v.e + w + constant t) % 2 ^ 32 =
      ap (λ m. (left_rotate v.a 5 + m.0 + v.e + m.1 + w) % 2 ^ 32) (mix-standard t v)
      ∙ omega arith in
    ap (λ x. record { a = x; b = v.a; c = shift 30 v.b; d = v.c; e = v.d }) a

pub rounds-stream :
    (n t : ℕ) (ws : List ℕ) (v : Words) → rounds t (stream n ws) v ≡ mix_all n t ws v
unfolding rounds stream mix_all
rounds-stream zero t ws v = refl
rounds-stream (suc n) t [] v = refl
rounds-stream (suc n) t (w ∷ ws) v =
    rounds-stream n (t + 1) (ws ++ (next_word (w ∷ ws) ∷ [])) (round t w v)
    ∙ ap (mix_all n (t + 1) (ws ++ (next_word (w ∷ ws) ∷ []))) (round-mixed t w v)
