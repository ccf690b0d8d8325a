-- ===== src/Core/IniParser/Keeps.antt =====
-- Every operation of IniParser.cpp keeps its orders in step with its maps.
use mathlib.Core.Path.{subst}
use simply_node_framework.Prelude.{
  ℕ, Bool-cases, List, Option-cases, ap, arith, if◌then◌else◌, inl, inr, none, some, sym, true, ◌∙◌,
  ◌≡◌,
}
use simply_node_framework.Prelude.Bytes.{bytes_eq, bytes_eq_iff}
use simply_node_framework.Prelude.Maps.{lookup, insert, erase, lookup-insert, lookup-erase}
use simply_node_framework.Core.IniParser.{SectionData, section_or_new, track_section, untrack}
use simply_node_framework.Core.IniParser.Tracked.{
  Tracked, KeysTracked, KeysTracked-none, distinct-track, distinct-untrack, has_name-track,
  has_name-untrack, present,
}

some_injective {ℓ} : {A : Type ℓ} (a b : A) → some a ≡ some b → a ≡ b
some_injective a b e = ap (λ o. elim o [ none ↦ a | some x ↦ x ]) e

module _ (m : List (List ℕ × SectionData)) (order : List (List ℕ)) (t : Tracked m order) where
  keys-insert :
      (s : List ℕ) (d : SectionData)
      → KeysTracked d
      → (s' : List ℕ) (d' : SectionData) → lookup s' (insert s d m) ≡ some d'
      → KeysTracked d'
  keys-insert s d k s' d' e = elim (Bool-cases (bytes_eq s s')) [
    | inl same ↦
        let e' : some d ≡ some d' =
          sym (lookup-insert s s' d m ∙ ap (λ b. if b then some d else lookup s' m) same) ∙ e in
        subst KeysTracked (some_injective d d' e') k
    | inr other ↦
        t.keys_named s' d'
          (sym (lookup-insert s s' d m ∙ ap (λ b. if b then some d else lookup s' m) other) ∙ e)
  ]

  pub Tracked-insert :
      (s : List ℕ) (d : SectionData)
      → KeysTracked d
      → Tracked (insert s d m) (track_section s order)
  Tracked-insert s d k = record {
    named = λ x.
        ground
          (arith, t.named x, has_name-track x s order, lookup-insert s x d m, bytes_eq_iff s x);
    keys_named = keys-insert s d k;
    once = ground (arith, distinct-track s order t.once, t.once);
  }

  pub Tracked-update :
      (s : List ℕ) (d : SectionData)
      → KeysTracked d
      → present (lookup s m) ≡ true
      → Tracked (insert s d m) order
  Tracked-update s d k there = record {
    named = λ x. ground (arith, t.named x, lookup-insert s x d m, bytes_eq_iff s x, there);
    keys_named = keys-insert s d k;
    once = t.once;
  }

  pub Tracked-erase : (s : List ℕ) → Tracked (erase s m) (untrack s order)
  Tracked-erase s = record {
    named = λ x.
        ground (arith, t.named x, has_name-untrack x s order, lookup-erase s x m, bytes_eq_iff s x);
    keys_named = λ x d e. t.keys_named x d (ground (arith, lookup-erase s x m, e));
    once = distinct-untrack s order t.once;
  }

  pub section_or_new-KeysTracked : (s : List ℕ) → KeysTracked (section_or_new s m)
  section_or_new-KeysTracked s = elim (Option-cases (lookup s m)) [
    | inl e ↦ rw (e, section_or_new) KeysTracked-none
    | inr (d, e) ↦ rw (e, section_or_new) (t.keys_named s d e)
  ]
