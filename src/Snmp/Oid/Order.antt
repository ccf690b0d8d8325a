-- ===== src/Snmp/Oid/Order.antt =====
-- How SnmpOid.cpp compares identifiers.
use simply_node_framework.Prelude.{
  [], ap, arith, not, refl, sym, true, ◌++◌, ◌↔◌, ◌∙◌, ◌∷◌, ◌≡◌, false, if◌then◌else◌, length,
  length-append, ltb, Bool-cases, inl, inr, ℕ, ◌&&◌, ◌+◌, ◌<◌, ◌≤◌, ◌⊎◌,
}
use simply_node_framework.Snmp.Oid.{Oid, begins, equals, is_less, is_prefix_of}

equals_eq : (a b : Oid) → equals a b ≡ true → a ≡ b
unfolding equals
equals_eq [] [] h = refl
equals_eq [] (y ∷ b) h = cc h
equals_eq (x ∷ a) [] h = cc h
equals_eq (x ∷ a) (y ∷ b) h = ground (arith, h, equals_eq a b)

equals_refl : (a : Oid) → equals a a ≡ true
unfolding equals
equals_refl [] = refl
equals_refl (x ∷ a) = ground (arith, equals_refl a)

begins-append : (a b : Oid) → begins a b ≡ true → (rest : Oid) × (b ≡ a ++ rest)
unfolding begins
begins-append [] b h = (b, refl)
begins-append (x ∷ a) [] h = cc h
begins-append (x ∷ a) (y ∷ b) h =
    let same : x ≡ y = ground (arith, h) in
    let (rest, e) = begins-append a b (ground (arith, h)) in
    (rest, ap (λ t. y ∷ t) e ∙ ap (λ t. t ∷ (a ++ rest)) (sym same))

append-begins : (a rest : Oid) → begins a (a ++ rest) ≡ true
unfolding begins
append-begins [] rest = refl
append-begins (x ∷ a) rest = ground (arith, append-begins a rest)

-- `isPrefixOf` says whether the other identifier is this one with components behind it, or none.
pub is_prefix_of_lem : (a b : Oid) → (is_prefix_of a b ≡ true) ↔ ((rest : Oid) × (b ≡ a ++ rest))
unfolding is_prefix_of
is_prefix_of_lem a b = (
  λ h. begins-append a b (ground (arith, h)),
  λ (rest, e).
      let room : ltb (length b) (length a) ≡ false =
        ground (arith, ap length e, length-append a rest) in
      ap (λ l. if l then false else begins a b) room ∙ ap (begins a) e ∙ append-begins a rest,
)

-- Lexicographic order: the second identifier goes on where the first ends, or they differ first in two
-- components of which the first's is less.
abbrev pub Precedes : Oid → Oid → Type 0
Precedes a b =
    ((y : ℕ) × (ys : Oid) × (b ≡ a ++ y ∷ ys))
    ⊎ ((front : Oid) × (x : ℕ) × (y : ℕ) × (xs : Oid) × (ys : Oid) × (a ≡ front ++ x ∷ xs)
        × (b ≡ front ++ y ∷ ys)
        × (x < y))

is_less-Precedes : (a b : Oid) → is_less a b ≡ true → Precedes a b
unfolding is_less
is_less-Precedes a [] h = cc h
is_less-Precedes [] (y ∷ b) h = inl (y, b, refl)
is_less-Precedes (x ∷ a) (y ∷ b) h = elim (Bool-cases (ltb x y)) [
  | inl less ↦ inr ([], x, y, a, b, refl, refl, ground (arith, less))
  | inr more ↦
      let same : x ≡ y = ground (arith, h, more) in
      elim (is_less-Precedes a b (ground (arith, h, more))) [
        | inl (z, zs, e) ↦ inl (z, zs, ap (λ t. y ∷ t) e ∙ ap (λ n. n ∷ (a ++ z ∷ zs)) (sym same))
        | inr (front, m, n, ms, ns, e, f, l) ↦ inr (
          x ∷ front,
          m,
          n,
          ms,
          ns,
          ap (λ t. x ∷ t) e,
          ap (λ t. y ∷ t) f ∙ ap (λ k. k ∷ (front ++ n ∷ ns)) (sym same),
          l,
        )
      ]
]

less-append : (front a b : Oid) → is_less (front ++ a) (front ++ b) ≡ is_less a b
unfolding is_less
less-append [] a b = refl
less-append (x ∷ front) a b = ground (arith, less-append front a b)

less_first : (x y : ℕ) (xs ys : Oid) → x < y → is_less (x ∷ xs) (y ∷ ys) ≡ true
unfolding is_less
less_first x y xs ys l = ground (arith, l)

less_longer : (a : Oid) (y : ℕ) (ys : Oid) → is_less a (a ++ y ∷ ys) ≡ true
unfolding is_less
less_longer [] y ys = refl
less_longer (x ∷ a) y ys = ground (arith, less_longer a y ys)

Precedes-is_less : (a b : Oid) → Precedes a b → is_less a b ≡ true
Precedes-is_less a b (inl (y, ys, e)) = ap (is_less a) e ∙ less_longer a y ys
Precedes-is_less a b (inr (front, x, y, xs, ys, e, f, l)) =
    ap (λ t. is_less t b) e
    ∙ ap (is_less (front ++ x ∷ xs)) f
    ∙ less-append front (x ∷ xs) (y ∷ ys)
    ∙ less_first x y xs ys l

begins-subtree :
    (root : Oid) (n : ℕ) (b : Oid)
    → begins (root ++ n ∷ []) b
      ≡ (not (is_less b (root ++ n ∷ [])) && is_less b (root ++ (n + 1) ∷ []))
unfolding begins is_less
begins-subtree [] n [] = refl
begins-subtree [] n (y ∷ b) = ground arith
begins-subtree (x ∷ root) n [] = refl
begins-subtree (x ∷ root) n (y ∷ b) = ground (arith, begins-subtree root n b)

begins-long : (a b : Oid) → begins a b ≡ true → length a ≤ length b
unfolding begins
begins-long [] b h = omega arith
begins-long (x ∷ a) [] h = cc h
begins-long (x ∷ a) (y ∷ b) h =
    let shorter = begins-long a b (ground (arith, h)) in omega (arith, shorter)

is_prefix_of-begins : (a b : Oid) → is_prefix_of a b ≡ begins a b
unfolding is_prefix_of
is_prefix_of-begins a b = elim (Bool-cases (begins a b)) [
  | inl h ↦ ground (arith, h, begins-long a b h)
  | inr h ↦ ground (arith, h)
]

-- `operator<` is the lexicographic order of components as numbers, `operator==` says which identifiers
-- are one, and the subtree below an identifier of at least one component (what it is a prefix of by
-- `isPrefixOf`, itself among them) is exactly what lies, in that order, from the identifier on and
-- before its next sibling, whose last component is greater by one.
pub subtree-interval :
    (root : Oid) (n : ℕ) (a b : Oid)
    → ((is_less a b ≡ true) ↔ Precedes a b)
      × ((equals a b ≡ true) ↔ (a ≡ b))
      × (is_prefix_of (root ++ n ∷ []) b
          ≡ (not (is_less b (root ++ n ∷ [])) && is_less b (root ++ (n + 1) ∷ [])))
subtree-interval root n a b = (
  (is_less-Precedes a b, Precedes-is_less a b),
  (equals_eq a b, λ e. ap (equals a) (sym e) ∙ equals_refl a),
  is_prefix_of-begins (root ++ n ∷ []) b ∙ begins-subtree root n b,
)
