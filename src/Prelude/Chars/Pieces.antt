-- ===== src/Prelude/Chars/Pieces.antt =====
-- Lines, words and trimmed texts, cut out of a text that was put together of them.
use Prim.Native.Nat.{ℕ}
use mathlib.Core.Path.{◌≡◌, refl, sym, ap, ◌∙◌, subst}
use mathlib.Core.Bool.{Bool, true, false}
use mathlib.Core.List.{
  List, [], ◌∷◌, ◌++◌, append-nil, append_assoc, reverse, reverse-cons, reverse-append,
  reverse-reverse,
}
use native.Mathlib.Omega.{arith}
use simply_node_framework.Prelude.Tests.{◌==◌}
use simply_node_framework.Prelude.Bytes.{find, starts_with}
use mathlib.Core.Option.{none, some}
use simply_node_framework.Prelude.Lists.{length, All, All-append, All-split}
use simply_node_framework.Prelude.Chars.{split_on, drop_while, take_while, drop_while_end, trim_by}

-- Every byte of the text fails a test, or passes it.
abbrev pub Fails : (ℕ → Bool) → List ℕ → Type 0
Fails p s = All (λ c. p c ≡ false) s

abbrev pub Passes : (ℕ → Bool) → List ℕ → Type 0
Passes p s = All (λ c. p c ≡ true) s

-- The same as a test, for a text that is known.
abbrev pub all_fail : (ℕ → Bool) → List ℕ → Bool
all_fail p [] = true
all_fail p (c ∷ s) = elim (p c) [ true ↦ false | false ↦ all_fail p s ]

pub all_fail→Fails : (p : ℕ → Bool) (s : List ℕ) → all_fail p s ≡ true → Fails p s
all_fail→Fails p [] e = tt
all_fail→Fails p (c ∷ s) e = (ground (arith, e), all_fail→Fails p s (ground (arith, e)))

pub split_on-piece :
    (mark : ℕ) (s rest : List ℕ)
    → Fails (λ c. c == mark) s
    → split_on mark (s ++ (mark ∷ rest)) ≡ s ∷ split_on mark rest
unfolding split_on
split_on-piece mark [] rest h = ground arith
split_on-piece mark (c ∷ s) rest (h, hs) = rw (h, split_on-piece mark s rest hs) refl

module _ (p : ℕ → Bool) where
  pub drop_while-Passes : (w s : List ℕ) → Passes p w → drop_while p (w ++ s) ≡ drop_while p s
  unfolding drop_while
  drop_while-Passes [] s h = refl
  drop_while-Passes (c ∷ w) s (h, hs) = rw h (drop_while-Passes w s hs)

  pub drop_while-first : (c : ℕ) (s : List ℕ) → p c ≡ false → drop_while p (c ∷ s) ≡ c ∷ s
  unfolding drop_while
  drop_while-first c s h = rw h refl

  pub take_while-piece :
      (s : List ℕ) (c : ℕ) (rest : List ℕ)
      → Passes p s
      → p c ≡ false
      → take_while p (s ++ (c ∷ rest)) ≡ s
  unfolding take_while
  take_while-piece [] c rest h e = rw e refl
  take_while-piece (d ∷ s) c rest (h, hs) e = rw h (ap (◌∷◌ d) (take_while-piece s c rest hs e))

  All-reverse : (b : Bool) (s : List ℕ) → All (λ c. p c ≡ b) s → All (λ c. p c ≡ b) (reverse s)
  All-reverse b [] h = tt
  All-reverse b (c ∷ s) (h, hs) =
      rw (reverse-cons c s)
        (All-append (λ c. p c ≡ b) (reverse s) (c ∷ []) (All-reverse b s hs) (h, tt))

  -- A text that ends in a byte that is kept, with bytes behind it that are not.
  pub drop_while_end-kept :
      (s : List ℕ) (z : ℕ) (w : List ℕ)
      → p z ≡ false
      → Passes p w
      → drop_while_end p (s ++ (z ∷ []) ++ w) ≡ s ++ (z ∷ [])
  unfolding drop_while_end
  drop_while_end-kept s z w e h =
      let t = s ++ (z ∷ []) in
      ap (λ r. reverse (drop_while p r)) (reverse-append t w)
      ∙ ap reverse (drop_while-Passes (reverse w) (reverse t) (All-reverse true w h))
      ∙ ap (λ r. reverse (drop_while p r)) (reverse-append s (z ∷ []))
      ∙ ap reverse (drop_while-first z (reverse s) e)
      ∙ ap reverse (sym (reverse-append s (z ∷ [])))
      ∙ reverse-reverse t

  pub last_view : (c : ℕ) (s : List ℕ) → (t : List ℕ) × (z : ℕ) × (c ∷ s ≡ t ++ (z ∷ []))
  last_view c [] = ([], c, refl)
  last_view c (d ∷ s) = let (t, z, e) = last_view d s in (c ∷ t, z, ap (◌∷◌ c) e)

  -- A text that ends in bytes that are all kept.
  pub drop_while_end-Fails :
      (x : List ℕ) (c : ℕ) (k w : List ℕ)
      → Fails p (c ∷ k)
      → Passes p w
      → drop_while_end p (x ++ (c ∷ k) ++ w) ≡ x ++ (c ∷ k)
  drop_while_end-Fails x c k w h hw =
      let (t, z, e) = last_view c k in
      let ends = All-split (λ b. p b ≡ false) t (z ∷ []) (subst (Fails p) e h) in
      ap (λ s. drop_while_end p (x ++ s ++ w)) e
      ∙ ap (λ s. drop_while_end p (s ++ w)) (sym (append_assoc x t (z ∷ [])))
      ∙ drop_while_end-kept (x ++ t) z w ends.1.0 hw
      ∙ append_assoc x t (z ∷ [])
      ∙ ap (λ s. x ++ s) (sym e)

  pub trim_by-Fails : (c : ℕ) (k : List ℕ) → Fails p (c ∷ k) → trim_by p (c ∷ k) ≡ c ∷ k
  unfolding trim_by
  trim_by-Fails c k h =
      ap (drop_while_end p) (drop_while-first c k h.0 ∙ sym (append-nil (c ∷ k)))
      ∙ drop_while_end-Fails [] c k [] h tt

  pub trim_by-line :
      (d : ℕ) (x : List ℕ) (c : ℕ) (k w : List ℕ)
      → p d ≡ false
      → Fails p (c ∷ k)
      → Passes p w
      → trim_by p ((d ∷ x) ++ (c ∷ k) ++ w) ≡ (d ∷ x) ++ (c ∷ k)
  unfolding trim_by
  trim_by-line d x c k w first h hw =
      ap (drop_while_end p) (drop_while-first d (x ++ (c ∷ k) ++ w) first)
      ∙ drop_while_end-Fails (d ∷ x) c k w h hw

pub find-piece :
    (mark : ℕ) (s rest : List ℕ)
    → Fails (λ c. c == mark) s
    → find (mark ∷ []) (s ++ (mark ∷ rest)) ≡ some (length s)
unfolding find starts_with
find-piece mark [] rest h = ground arith
find-piece mark (c ∷ s) rest (h, hs) =
    let other : mark == c ≡ false = ground (arith, h) in rw (other, find-piece mark s rest hs) refl

pub find-absent : (mark : ℕ) (s : List ℕ) → Fails (λ c. c == mark) s → find (mark ∷ []) s ≡ none
unfolding find starts_with
find-absent mark [] h = refl
find-absent mark (c ∷ s) (h, hs) =
    let other : mark == c ≡ false = ground (arith, h) in rw (other, find-absent mark s hs) refl
