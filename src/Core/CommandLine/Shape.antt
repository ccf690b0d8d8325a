-- ===== src/Core/CommandLine/Shape.antt =====
-- What `parse` leaves as it is, whatever the arguments are and however it ends.
use mathlib.Core.Bool.{◌||◌}
use simply_node_framework.Prelude.{
  ℕ, List, [], Bool, Bool-cases, Option, Option-cases, drop, false, if◌then◌else◌, inl, inr, length,
  some, take, true, ◌+◌, ◌==◌, ◌∷◌, ltb, none, not, ◌&&◌, ap, map, refl, ◌∙◌, ◌≡◌,
}
use simply_node_framework.Prelude.Bytes.{codes, find, bytes_eq}
use simply_node_framework.Core.CommandLine.{
  step, OptionError, Parser, Step, changed, find_option, flag_with_value_long,
  flag_with_value_short, flags_step, is_nil, long_parts, long_step, not_combined, set_is_set,
  set_value, short_step, short_value_step, shorts_step, unknown_argument, unknown_long,
  unknown_short, value_missing_long, value_missing_short, fail, failed, help_printed, is_found,
  next, parse_args, past_next, version_printed, CommandLineOption, is_among, parse, update_option,
}

-- A property that holds of a parser still holds behind every round, if it holds behind each change
-- that a round can make.
module _ (P : Parser → Type 0)
    (valued : (name value : List ℕ) (p : Parser) → P p → P (changed name (set_value value) p))
    (flagged : (name : List ℕ) (p : Parser) → P p → P (changed name (set_is_set true) p))
    (failing : (e : Option OptionError) (p : Parser)
      → P p
      → P (record { options = p.options; version = p.version; error_text = e })) where
  long_step_keeps :
      (name value : List ℕ) (after : Option (List ℕ)) (p : Parser)
      → P p
      → P (long_step name value after p).1
  unfolding long_step
  long_step_keeps name value after p h = elim (Option-cases (find_option name p.options)) [
    | inl missing ↦ rw (long_step, missing) (failing (some (unknown_long name)) p h)
    | inr (o, found) ↦ elim (Bool-cases o.is_flag) [
      | inl flag ↦ elim (Bool-cases (is_nil value)) [
        | inl bare ↦ rw (long_step, found, flag, bare) (flagged name p h)
        | inr full ↦
            rw (long_step, found, flag, full) (failing (some (flag_with_value_long name)) p h)
      ]
      | inr taking ↦ elim (Bool-cases (is_nil value)) [
        | inr full ↦ rw (long_step, found, taking, full) (valued name value p h)
        | inl bare ↦ elim (Option-cases after) [
          | inl last ↦
              rw (long_step, found, taking, bare, last)
                (failing (some (value_missing_long name)) p h)
          | inr (v, more) ↦ rw (long_step, found, taking, bare, more) (valued name v p h)
        ]
      ]
    ]
  ]

  short_step_keeps :
      (name : List ℕ) (after : Option (List ℕ)) (p : Parser) → P p → P (short_step name after p).1
  unfolding short_step
  short_step_keeps name after p h = elim (Option-cases (find_option name p.options)) [
    | inl missing ↦ rw (short_step, missing) (failing (some (unknown_short name)) p h)
    | inr (o, found) ↦ elim (Bool-cases o.is_flag) [
      | inl flag ↦ rw (short_step, found, flag) (flagged name p h)
      | inr taking ↦ elim (Option-cases after) [
        | inl last ↦
            rw (short_step, found, taking, last) (failing (some (value_missing_short name)) p h)
        | inr (v, more) ↦ rw (short_step, found, taking, more) (valued name v p h)
      ]
    ]
  ]

  short_value_step_keeps :
      (name value : List ℕ) (p : Parser) → P p → P (short_value_step name value p).1
  unfolding short_value_step
  short_value_step_keeps name value p h = elim (Option-cases (find_option name p.options)) [
    | inl missing ↦ rw (short_value_step, missing) (failing (some (unknown_short name)) p h)
    | inr (o, found) ↦ elim (Bool-cases o.is_flag) [
      | inl flag ↦
          rw (short_value_step, found, flag) (failing (some (flag_with_value_short name)) p h)
      | inr taking ↦ rw (short_value_step, found, taking) (valued name value p h)
    ]
  ]

  flags_step_keeps : (cs : List ℕ) (p : Parser) → P p → P (flags_step cs p).1
  unfolding flags_step
  flags_step_keeps [] p h = h
  flags_step_keeps (c ∷ cs) p h = elim (Option-cases (find_option (c ∷ []) p.options)) [
    | inl missing ↦ rw (flags_step, missing) (failing (some (unknown_short (c ∷ []))) p h)
    | inr (o, found) ↦ elim (Bool-cases o.is_flag) [
      | inl flag ↦
          rw (flags_step, found, flag)
            (flags_step_keeps cs (changed (c ∷ []) (set_is_set true) p) (flagged (c ∷ []) p h))
      | inr taking ↦ rw (flags_step, found, taking) (failing (some (not_combined (c ∷ []))) p h)
    ]
  ]

  shorts_step_keeps :
      (names : List ℕ) (after : Option (List ℕ)) (p : Parser)
      → P p
      → P (shorts_step names after p).1
  unfolding shorts_step
  shorts_step_keeps names after p h = elim (Option-cases (find (codes "=") names)) [
    | inr (eq, there) ↦
        rw (shorts_step, there) (short_value_step_keeps (take eq names) (drop (eq + 1) names) p h)
    | inl missing ↦ elim (Bool-cases (length names == 1)) [
      | inl one ↦ rw (shorts_step, missing, one) (short_step_keeps names after p h)
      | inr several ↦ rw (shorts_step, missing, several) (flags_step_keeps names p h)
    ]
  ]

  -- The last test of a round is the only one that fails at once.
  guarded : (b : Bool) (x y : Step × Parser) → P x.1 → P y.1 → P (if b then x else y).1
  guarded true x y h k = h
  guarded false x y h k = k

  step_keeps : (arg : List ℕ) (after : Option (List ℕ)) (p : Parser) → P p → P (step arg after p).1
  unfolding step
  step_keeps arg after p h =
      let name = (long_parts arg).0 in
      let value = (long_parts arg).1 in
      let help =
        (bytes_eq arg (codes "--help") || bytes_eq arg (codes "-h"))
        && not (is_found (find_option (codes "help") p.options)) in
      let version =
        bytes_eq arg (codes "--version")
        && not (is_found (find_option (codes "version") p.options))
        && not (is_nil p.version) in
      let dashes = bytes_eq (take 2 arg) (codes "--") in
      let dash = bytes_eq (take 1 arg) (codes "-") && ltb 1 (length arg) in
      let long = long_step name value after p in
      let short = shorts_step (drop 1 arg) after p in
      let other = fail (unknown_argument arg) p in
      guarded help (help_printed, p)
        (if version
          then (version_printed, p)
          else if dashes
          then long
          else if dash
          then short
          else other)
        h
        (guarded version (version_printed, p)
          (if dashes then long else if dash then short else other) h
          (guarded dashes long (if dash then short else other)
            (long_step_keeps name value after p h)
            (guarded dash short other (shorts_step_keeps (drop 1 arg) after p h)
              (failing (some (unknown_argument arg)) p h))))

  -- However the round ends.
  going_on :
      (s : Step) (q : Parser) (near far : Step × Parser)
      → P q
      → P near.1
      → P far.1
      → P
          (elim s as (λ x. Step × Parser) [
            | next ↦ near
            | past_next ↦ far
            | help_printed ↦ (help_printed, q)
            | version_printed ↦ (version_printed, q)
            | failed ↦ (failed, q)
          ]).1
  going_on next q near far k hn hf = hn
  going_on past_next q near far k hn hf = hf
  going_on help_printed q near far k hn hf = k
  going_on version_printed q near far k hn hf = k
  going_on failed q near far k hn hf = k

  parse_args_keeps : (args : List (List ℕ)) (p : Parser) → P p → P (parse_args args p).1
  unfolding parse_args
  parse_args_keeps [] p h = h
  parse_args_keeps (arg ∷ []) p h = step_keeps arg none p h
  parse_args_keeps (arg ∷ after ∷ rest) p h =
      let (s, q) = step arg (some after) p in
      let k = step_keeps arg (some after) p h in
      going_on s q (parse_args (after ∷ rest) q) (parse_args rest q) k
        (parse_args_keeps (after ∷ rest) q k) (parse_args_keeps rest q k)

-- What an option is declared with.
abbrev pub Declared : Type 0
Declared = List (List ℕ) × List ℕ × List ℕ × Bool

abbrev pub declared : CommandLineOption → Declared
declared o = (o.names, o.description, o.default_value, o.is_flag)

update_option-declared :
    (name : List ℕ) (change : CommandLineOption → CommandLineOption) (os : List CommandLineOption)
    → ((o : CommandLineOption) → declared (change o) ≡ declared o)
    → map declared (update_option name change os) ≡ map declared os
unfolding update_option
update_option-declared name change [] h = refl
update_option-declared name change (o ∷ os) h = elim (Bool-cases (is_among name o.names)) [
  | inl named ↦ rw named (ap (λ d. d ∷ map declared os) (h o))
  | inr other ↦ rw other (ap (λ ds. declared o ∷ ds) (update_option-declared name change os h))
]

-- Whatever the arguments are, and whether `parse` returns `true`, returns `false` or ends the program,
-- the options keep their order, and each its names, its description, its default value and whether
-- it takes a value; the version stays too.
pub parse-declared :
    (args : List (List ℕ)) (p : Parser)
    → (map declared (parse args p).1.options ≡ map declared p.options)
      × ((parse args p).1.version ≡ p.version)
unfolding parse
parse-declared args p =
    parse_args_keeps
      (λ q. (map declared q.options ≡ map declared p.options) × (q.version ≡ p.version))
      (λ name value q h.
        (update_option-declared name (set_value value) q.options (λ o. refl) ∙ h.0, h.1))
      (λ name q h. (update_option-declared name (set_is_set true) q.options (λ o. refl) ∙ h.0, h.1))
      (λ e q h. h) args (record { options = p.options; version = p.version; error_text = none })
      (refl, refl)
