-- ===== src/Core/IniParser/Tracked.antt =====
-- The invariant of IniParser.cpp: `m_sectionOrder` and each `keyOrder` name what the maps hold, once.
use simply_node_framework.Prelude.{
  ℕ, Bool, List, Option, [], ap, arith, false, none, not, refl, some, true, ◌&&◌, ◌++◌, ◌||◌, ◌∷◌,
  ◌≡◌, if◌then◌else◌,
}
use simply_node_framework.Prelude.Bytes.{bytes_eq, bytes_eq_iff}
use simply_node_framework.Prelude.Maps.{lookup, lookup-insert, lookup-erase}
use simply_node_framework.Core.IniParser.Text.{is_nil}
use simply_node_framework.Core.IniParser.{
  SectionData, cut, has_name, has_value, no_data, put, track, untrack,
}

abbrev pub present {ℓ} : {A : Type ℓ} → Option A → Bool
present none = false
present (some a) = true

pub distinct : List (List ℕ) → Bool
unfolding has_name
distinct [] = true
distinct (x ∷ xs) = not (has_name x xs) && distinct xs

has_name-same :
    (k n : List ℕ) (xs : List (List ℕ)) → bytes_eq n k ≡ true → has_name n xs ≡ has_name k xs
has_name-same k n xs e = ap (λ t. has_name t xs) ((bytes_eq_iff n k).0 e)

pub has_name-append :
    (k n : List ℕ) (xs : List (List ℕ))
    → has_name k (xs ++ (n ∷ [])) ≡ (has_name k xs || bytes_eq n k)
unfolding has_name
has_name-append k n [] = ground arith
has_name-append k n (x ∷ xs) = ground (arith, has_name-append k n xs)

pub has_name-track :
    (k n : List ℕ) (xs : List (List ℕ)) → has_name k (track n xs) ≡ (has_name k xs || bytes_eq n k)
unfolding track
has_name-track k n xs = ground (arith, has_name-append k n xs, has_name-same k n xs)

pub has_name-untrack :
    (k n : List ℕ) (xs : List (List ℕ))
    → has_name k (untrack n xs) ≡ (has_name k xs && not (bytes_eq n k))
unfolding untrack has_name
has_name-untrack k n [] = ground arith
has_name-untrack k n (x ∷ xs) =
    ground (arith, has_name-untrack k n xs, bytes_eq_iff x n, bytes_eq_iff x k, bytes_eq_iff n k)

pub distinct-append :
    (n : List ℕ) (xs : List (List ℕ))
    → has_name n xs ≡ false
    → distinct xs ≡ true
    → distinct (xs ++ (n ∷ [])) ≡ true
unfolding distinct has_name
distinct-append n [] new h = refl
distinct-append n (x ∷ xs) new h =
    ground (arith, distinct-append n xs, has_name-append x n xs, bytes_eq_iff x n, bytes_eq_iff n x)

pub distinct-track :
    (n : List ℕ) (xs : List (List ℕ)) → distinct xs ≡ true → distinct (track n xs) ≡ true
unfolding track
distinct-track n xs h = ground (arith, distinct-append n xs)

pub distinct-untrack :
    (n : List ℕ) (xs : List (List ℕ)) → distinct xs ≡ true → distinct (untrack n xs) ≡ true
unfolding untrack distinct
distinct-untrack n [] h = refl
distinct-untrack n (x ∷ xs) h = ground (arith, distinct-untrack n xs, has_name-untrack x n xs)

pub track-has_name :
    (n : List ℕ) (xs : List (List ℕ)) → track n xs ≡ (if has_name n xs then xs else xs ++ n ∷ [])
unfolding track
track-has_name n xs = refl

-- A section's keys.
pub record KeysTracked (d : SectionData) : Type 0 where
  pub named : (k : List ℕ) → has_name k d.key_order ≡ has_value k d
  pub once : distinct d.key_order ≡ true

pub KeysTracked-none : KeysTracked no_data
unfolding has_name distinct lookup
KeysTracked-none = record { named = λ k. refl; once = refl }

pub KeysTracked-put : (key v : List ℕ) (d : SectionData) → KeysTracked d → KeysTracked (put key v d)
KeysTracked-put key v d t = record {
  named = λ k.
      ground (arith, has_name-track k key d.key_order, lookup-insert key k v d.values, t.named k);
  once = distinct-track key d.key_order t.once;
}

pub KeysTracked-cut : (key : List ℕ) (d : SectionData) → KeysTracked d → KeysTracked (cut key d)
KeysTracked-cut key d t = record {
  named = λ k.
      ground (arith, has_name-untrack k key d.key_order, lookup-erase key k d.values, t.named k);
  once = distinct-untrack key d.key_order t.once;
}

-- All sections. The global one, whose name is empty, is in no order.
pub record Tracked (m : List (List ℕ × SectionData)) (order : List (List ℕ)) : Type 0 where
  pub named : (s : List ℕ) → has_name s order ≡ (not (is_nil s) && present (lookup s m))
  pub keys_named : (s : List ℕ) (d : SectionData) → lookup s m ≡ some d → KeysTracked d
  pub once : distinct order ≡ true

pub Tracked-none : Tracked [] []
unfolding has_name distinct lookup
Tracked-none = record { named = λ s. ground arith; keys_named = λ s d e. cc; once = refl }
