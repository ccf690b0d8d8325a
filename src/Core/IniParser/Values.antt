-- ===== src/Core/IniParser/Values.antt =====
-- What IniParser.cpp answers after an update.
use simply_node_framework.Prelude.{
  ℕ, List, Option, Option-cases, if◌then◌else◌, inl, inr, none, refl, some, ◌&&◌, ◌≡◌, Bool,
  Bool-cases, ap, false, not, sym, true, ◌∙◌, [], arith, ◌∷◌,
}
use simply_node_framework.Prelude.Bytes.{bytes_eq, bytes_eq_iff}
use simply_node_framework.Prelude.Maps.{lookup, erase, insert, lookup-erase, lookup-insert}
use simply_node_framework.Core.IniParser.Text.{is_nil}
use simply_node_framework.Core.IniParser.{
  SectionData, Ini, contains, find_section, remove, section_or_new, set_value, value, cut,
  drop_section, has_value, is_bare, put,
}

abbrev or_default : List ℕ → Option (List ℕ) → List ℕ
or_default w none = w
or_default w (some v) = v

abbrev or_value : List ℕ → List ℕ → Option SectionData → List ℕ
or_value k w none = w
or_value k w (some d) = or_default w (lookup k d.values)

value_lem : (s k w : List ℕ) (p : Ini) → value s k w p ≡ or_value k w (find_section s p)
unfolding value
value_lem s k w p = elim (Option-cases (find_section s p)) [
  | inl e ↦ rw (e, value) refl
  | inr (d, e) ↦ elim (Option-cases (lookup k d.values)) [
    | inl f ↦ rw (e, value) (rw (f, value) refl)
    | inr (v, f) ↦ rw (e, value) (rw (f, value) refl)
  ]
]

or_value-new :
    (s k w : List ℕ) (m : List (List ℕ × SectionData))
    → or_default w (lookup k (section_or_new s m).values) ≡ or_value k w (lookup s m)
unfolding lookup
or_value-new s k w m = elim (Option-cases (lookup s m)) [
  | inl e ↦ rw (e, section_or_new) refl
  | inr (d, e) ↦ rw (e, section_or_new) refl
]

or_value-if :
    (k w : List ℕ) (b : Bool) (x y : Option SectionData)
    → or_value k w (if b then x else y) ≡ (if b then or_value k w x else or_value k w y)
or_value-if k w true x y = refl
or_value-if k w false x y = refl

or_default-if :
    (w : List ℕ) (b : Bool) (x y : Option (List ℕ))
    → or_default w (if b then x else y) ≡ (if b then or_default w x else or_default w y)
or_default-if w true x y = refl
or_default-if w false x y = refl

or_value-same :
    (s s' k w : List ℕ) (m : List (List ℕ × SectionData))
    → bytes_eq s s' ≡ true
    → or_value k w (lookup s m) ≡ or_value k w (lookup s' m)
or_value-same s s' k w m e = ap (λ t. or_value k w (lookup t m)) ((bytes_eq_iff s s').0 e)

-- A store whose section `s` is replaced.
value-insert :
    (s s' k' w : List ℕ) (d : SectionData) (p q : Ini)
    → q.data_map ≡ insert s d p.data_map
    → value s' k' w q
      ≡ (if bytes_eq s s' then or_default w (lookup k' d.values) else value s' k' w p)
value-insert s s' k' w d p q e =
    value_lem s' k' w q
    ∙ ap (λ m. or_value k' w (lookup s' m)) e
    ∙ ap (or_value k' w) (lookup-insert s s' d p.data_map)
    ∙ or_value-if k' w (bytes_eq s s') (some d) (lookup s' p.data_map)
    ∙ ap (λ y. if bytes_eq s s' then or_default w (lookup k' d.values) else y)
        (sym (value_lem s' k' w p))

-- A value that is set is the one that is read, and no other value of any section changes.
pub value-set_value :
    (s k v s' k' w : List ℕ) (p : Ini)
    → value s' k' w (set_value s k v p)
      ≡ (if bytes_eq s s' && bytes_eq k k' then v else value s' k' w p)
unfolding set_value
value-set_value s k v s' k' w p =
    let d : SectionData = section_or_new s p.data_map in
    let inner : or_default w (lookup k' (insert k v d.values))
        ≡ (if bytes_eq k k' then v else or_value k' w (lookup s p.data_map)) =
      ap (or_default w) (lookup-insert k k' v d.values)
      ∙ or_default-if w (bytes_eq k k') (some v) (lookup k' d.values)
      ∙ ap (λ y. if bytes_eq k k' then v else y) (or_value-new s k' w p.data_map) in
    value-insert s s' k' w (put k v d) p (set_value s k v p) refl
    ∙ elim (Bool-cases (bytes_eq s s')) [
      | inr other ↦ rw other refl
      | inl same ↦ rw same (
          inner
          ∙ ap (λ y. if bytes_eq k k' then v else y)
              (or_value-same s s' k' w p.data_map same ∙ sym (value_lem s' k' w p)))
    ]

value-cut :
    (s k s' k' w : List ℕ) (d : SectionData) (p q : Ini)
    → find_section s p ≡ some d
    → q.data_map ≡ insert s (cut k d) p.data_map
    → value s' k' w q ≡ (if bytes_eq s s' && bytes_eq k k' then w else value s' k' w p)
value-cut s k s' k' w d p q e g =
    let inner : or_default w (lookup k' (erase k d.values))
        ≡ (if bytes_eq k k' then w else or_value k' w (lookup s p.data_map)) =
      ap (or_default w) (lookup-erase k k' d.values)
      ∙ or_default-if w (bytes_eq k k') none (lookup k' d.values)
      ∙ ap (λ y. if bytes_eq k k' then w else y) (ap (or_value k' w) (sym e)) in
    value-insert s s' k' w (cut k d) p q g ∙ elim (Bool-cases (bytes_eq s s')) [
      | inr other ↦ rw other refl
      | inl same ↦ rw same (
          inner
          ∙ ap (λ y. if bytes_eq k k' then w else y)
              (or_value-same s s' k' w p.data_map same ∙ sym (value_lem s' k' w p)))
    ]

bare-none :
    (k w : List ℕ) (m : List (List ℕ × List ℕ))
    → (elim m [ [] ↦ true | x ∷ xs ↦ false ]) ≡ true
    → or_default w (lookup k m) ≡ w
unfolding lookup
bare-none k w [] h = refl
bare-none k w (x ∷ m) h = cc

lacks-none :
    (k w : List ℕ) (d : SectionData) → has_value k d ≡ false → or_default w (lookup k d.values) ≡ w
lacks-none k w d h = elim (Option-cases (lookup k d.values)) [
  | inl e ↦ ap (or_default w) e
  | inr (v, e) ↦ cc (h, e)
]

value-lacks :
    (s k s' k' w : List ℕ) (p : Ini)
    → or_value k w (find_section s p) ≡ w
    → value s' k' w p ≡ (if bytes_eq s s' && bytes_eq k k' then w else value s' k' w p)
value-lacks s k s' k' w p h = elim (Bool-cases (bytes_eq s s')) [
  | inr other ↦ rw other refl
  | inl same ↦ elim (Bool-cases (bytes_eq k k')) [
    | inr other ↦ rw (same, other) refl
    | inl same' ↦
        rw (same, same')
          (ap (λ t. value t k' w p) (sym ((bytes_eq_iff s s').0 same))
            ∙ ap (λ t. value s t w p) (sym ((bytes_eq_iff k k').0 same'))
            ∙ value_lem s k w p
            ∙ h)
  ]
]

-- A section without values reads as a section that is not there.
value-bare :
    (s s' k' w : List ℕ) (d : SectionData) (p : Ini)
    → is_bare d ≡ true
    → value s' k' w (drop_section s p)
      ≡ value s' k' w (record p { data_map = insert s d p.data_map })
value-bare s s' k' w d p bare =
    let empty : or_default w (lookup k' d.values) ≡ w = bare-none k' w d.values bare in
    value_lem s' k' w (drop_section s p)
    ∙ ap (or_value k' w) (lookup-erase s s' p.data_map)
    ∙ or_value-if k' w (bytes_eq s s') none (lookup s' p.data_map)
    ∙ ap (λ y. if bytes_eq s s' then y else or_value k' w (lookup s' p.data_map)) (sym empty)
    ∙ ap (λ y. if bytes_eq s s' then or_default w (lookup k' d.values) else y)
        (sym (value_lem s' k' w p))
    ∙ sym (value-insert s s' k' w d p (record p { data_map = insert s d p.data_map }) refl)

-- `remove` answers whether the value was there; it is gone, and no other value of any section changes,
-- also where the section that is left empty goes with it.
pub value-remove :
    (s k s' k' w : List ℕ) (p : Ini)
    → ((remove s k p).0 ≡ contains s k p)
      × (value s' k' w (remove s k p).1
          ≡ (if bytes_eq s s' && bytes_eq k k' then w else value s' k' w p))
unfolding remove contains
value-remove s k s' k' w p = elim (Option-cases (find_section s p)) [
  | inl e ↦ rw (e, remove, contains) (refl, value-lacks s k s' k' w p (ap (or_value k w) e))
  | inr (d, e) ↦ elim (Bool-cases (has_value k d)) [
    | inr lacks ↦
        rw (e, remove, contains)
          (rw (lacks, remove, contains)
            (refl, value-lacks s k s' k' w p (ap (or_value k w) e ∙ lacks-none k w d lacks)))
    | inl has ↦ elim (Bool-cases (not (is_nil s) && is_bare (cut k d))) [
      | inl gone ↦
          rw (e, remove, contains)
            (rw (has, remove, contains)
              (rw (gone, remove)
                (
                  refl,
                  value-bare s s' k' w (cut k d) p (ground (arith, gone))
                      ∙ value-cut s k s' k' w d p
                          (record p { data_map = insert s (cut k d) p.data_map }) e refl,
                )))
      | inr stays ↦
          rw (e, remove, contains)
            (rw (has, remove, contains)
              (rw (stays, remove)
                (
                  refl,
                  value-cut s k s' k' w d p (record p { data_map = insert s (cut k d) p.data_map })
                      e refl,
                )))
    ]
  ]
]
