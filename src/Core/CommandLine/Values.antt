-- ===== src/Core/CommandLine/Values.antt =====
-- The two ways to give a long option its value.
use mathlib.Core.Bool.{◌||◌}
use simply_node_framework.Prelude.{
  ℕ, List, Option, ◌==◌, [], length, refl, some, true, ◌++◌, ◌+◌, ◌∷◌, ◌≡◌, Bool, ap, arith, drop,
  false, none, not, take, ◌&&◌, ◌-◌, ◌||◌, ◌∙◌, append_assoc, drop-append, length-append, sym,
  take-append, ◌≢◌,
}
use simply_node_framework.Prelude.Bytes.{codes, bytes_eq, find, bytes_eq_iff}
use simply_node_framework.Prelude.Chars.Pieces.{Fails, find-absent, find-piece, all_fail→Fails}
use simply_node_framework.Core.CommandLine.{
  step, Parser, long_parts, find_option, is_found, long_step, is_nil, CommandLineOption, parse,
  parse_args, Step, changed, failed, help_printed, next, past_next, set_value, version_printed,
}

-- A text that is not the one byte `=`.
abbrev pub HasNoEquals : List ℕ → Type 0
HasNoEquals s = Fails (λ c. c == b'=') s

attached_find :
    (name value : List ℕ)
    → HasNoEquals name
    → find (codes "=") (codes "--" ++ (name ++ (b'=' ∷ value))) ≡ some (2 + length name)
attached_find name value h =
    find-piece b'=' (codes "--" ++ name) value (refl, (refl, h)) ∙ ap some (omega arith)

attached_value :
    (name value : List ℕ)
    → drop (2 + length name + 1) (codes "--" ++ (name ++ (b'=' ∷ value))) ≡ value
attached_value name value =
    let front = codes "--" ++ (name ++ codes "=") in
    let size : 2 + length name + 1 ≡ length front = omega (arith, length-append name (codes "=")) in
    ap (λ k. drop k (codes "--" ++ (name ++ (b'=' ∷ value)))) size
    ∙ ap (λ s. drop (length front) (codes "--" ++ s)) (sym (append_assoc name (codes "=") value))
    ∙ drop-append front value

attached_parts :
    (name value : List ℕ)
    → HasNoEquals name
    → long_parts (codes "--" ++ (name ++ (b'=' ∷ value))) ≡ (name, value)
attached_parts name value h =
    let arg = codes "--" ++ (name ++ (b'=' ∷ value)) in
    let size : 2 + length name - 2 ≡ length name = omega arith in
    ap
      (λ o. elim o as (λ x. List ℕ × List ℕ) [
        | none ↦ (drop 2 arg, [])
        | some eq ↦ (take (eq - 2) (drop 2 arg), drop (eq + 1) arg)
      ])
      (attached_find name value h)
    ∙ ap (λ k. (take k (name ++ (b'=' ∷ value)), drop (2 + length name + 1) arg)) size
    ∙ ap (λ n. (n, drop (2 + length name + 1) arg)) (take-append name (b'=' ∷ value))
    ∙ ap (λ v. (name, v)) (attached_value name value)

separate_parts : (name : List ℕ) → HasNoEquals name → long_parts (codes "--" ++ name) ≡ (name, [])
separate_parts name h =
    ap
      (λ o. elim o as (λ x. List ℕ × List ℕ) [
        | none ↦ (name, [])
        | some eq ↦ (take (eq - 2) name, drop (eq + 1) (codes "--" ++ name))
      ])
      (find-absent b'=' (codes "--" ++ name) (refl, (refl, h)))

help_test : (b f : Bool) → (b ≡ true → f ≡ true) → ((b || false) && not f) ≡ false
help_test false f h = refl
help_test true f h = rw (h refl) refl

version_test : (b f g : Bool) → (b ≡ true → f ≡ true) → (b && not f && not g) ≡ false
version_test false f g h = refl
version_test true f g h = rw (h refl) refl

-- An argument that begins with two dashes and is no built-in option.
step-long :
    (t name value : List ℕ) (after : Option (List ℕ)) (p : Parser)
    → long_parts (codes "--" ++ t) ≡ (name, value)
    → (t ≡ codes "help" → is_found (find_option (codes "help") p.options) ≡ true)
    → (t ≡ codes "version" → is_found (find_option (codes "version") p.options) ≡ true)
    → step (codes "--" ++ t) after p ≡ long_step name value after p
unfolding step bytes_eq
step-long t name value after p parts help version =
    let no_help =
      help_test (bytes_eq t (codes "help")) (is_found (find_option (codes "help") p.options))
        (λ e. help ((bytes_eq_iff t (codes "help")).0 e)) in
    let no_version =
      version_test (bytes_eq t (codes "version"))
        (is_found (find_option (codes "version") p.options)) (is_nil p.version)
        (λ e. version ((bytes_eq_iff t (codes "version")).0 e)) in
    rw (step, no_help, no_version) (ap (λ q. long_step q.0 q.1 after p) parts)

-- A name that is followed by `=` is no built-in option.
attached_other :
    (name value word : List ℕ) → HasNoEquals name → HasNoEquals word → name ++ (b'=' ∷ value) ≢ word
attached_other name value word h k e =
    let both : some (length name) ≡ none =
      sym (find-piece b'=' name value h) ∙ ap (find (codes "=")) e ∙ find-absent b'=' word k in
    ground (arith, both)

parse_args-next :
    (arg : List ℕ) (rest : List (List ℕ)) (p q : Parser)
    → ((after : Option (List ℕ)) → step arg after p ≡ (next, q))
    → parse_args (arg ∷ rest) p ≡ parse_args rest q
unfolding parse_args
parse_args-next arg [] p q h = h none
parse_args-next arg (after ∷ rest) p q h =
    ap
      (λ r. elim r.0 as (λ x. Step × Parser) [
        | next ↦ parse_args (after ∷ rest) r.1
        | past_next ↦ parse_args rest r.1
        | help_printed ↦ (help_printed, r.1)
        | version_printed ↦ (version_printed, r.1)
        | failed ↦ (failed, r.1)
      ])
      (h (some after))

parse_args-past_next :
    (arg after : List ℕ) (rest : List (List ℕ)) (p q : Parser)
    → step arg (some after) p ≡ (past_next, q)
    → parse_args (arg ∷ after ∷ rest) p ≡ parse_args rest q
unfolding parse_args
parse_args-past_next arg after rest p q h =
    ap
      (λ r. elim r.0 as (λ x. Step × Parser) [
        | next ↦ parse_args (after ∷ rest) r.1
        | past_next ↦ parse_args rest r.1
        | help_printed ↦ (help_printed, r.1)
        | version_printed ↦ (version_printed, r.1)
        | failed ↦ (failed, r.1)
      ])
      h

module _ (name : List ℕ) (c : ℕ) (value : List ℕ) (p : Parser) (o : CommandLineOption)
    (named : HasNoEquals name) (found : find_option name p.options ≡ some o)
    (takes : o.is_flag ≡ false) where
  -- What both ways leave.
  abbrev given : Parser
  given = changed name (set_value (c ∷ value)) p

  built_in : (word : List ℕ) → name ≡ word → is_found (find_option word p.options) ≡ true
  built_in word e = ap (λ n. is_found (find_option n p.options)) (sym e) ∙ ap is_found found

  step-attached :
      (after : Option (List ℕ))
      → step (codes "--" ++ (name ++ (b'=' ∷ c ∷ value))) after p ≡ (next, given)
  unfolding long_step
  step-attached after =
      step-long (name ++ (b'=' ∷ c ∷ value)) name (c ∷ value) after p
        (attached_parts name (c ∷ value) named)
        (λ e. absurd (
          attached_other name (c ∷ value) (codes "help") named (refl, (refl, (refl, (refl, tt))))
            e))
        (λ e. absurd (
          attached_other name (c ∷ value) (codes "version") named
            (all_fail→Fails (λ d. d == b'=') (codes "version") refl) e))
      ∙ rw (long_step, found, takes) refl

  step-separate : step (codes "--" ++ name) (some (c ∷ value)) p ≡ (past_next, given)
  unfolding long_step
  step-separate =
      step-long name name [] (some (c ∷ value)) p (separate_parts name named)
        (built_in (codes "help")) (built_in (codes "version"))
      ∙ rw (long_step, found, takes) refl

  attached_lem :
      (rest : List (List ℕ))
      → parse_args ((codes "--" ++ (name ++ (b'=' ∷ c ∷ value))) ∷ rest) p
        ≡ parse_args ((codes "--" ++ name) ∷ (c ∷ value) ∷ rest) p
  attached_lem rest =
      parse_args-next (codes "--" ++ (name ++ (b'=' ∷ c ∷ value))) rest p given step-attached
      ∙ sym (parse_args-past_next (codes "--" ++ name) (c ∷ value) rest p given step-separate)

-- Where an option of that name takes a value, `--name=value` with a value that is not empty and
-- `--name value` in two arguments leave the same parser and are read to the same end, whatever
-- arguments come behind.
pub parse-attached :
    (name : List ℕ) (c : ℕ) (value : List ℕ) (rest : List (List ℕ)) (p : Parser)
    (o : CommandLineOption)
    → HasNoEquals name
    → find_option name p.options ≡ some o
    → o.is_flag ≡ false
    → parse ((codes "--" ++ (name ++ (b'=' ∷ c ∷ value))) ∷ rest) p
      ≡ parse ((codes "--" ++ name) ∷ (c ∷ value) ∷ rest) p
unfolding parse
parse-attached name c value rest p o h found takes =
    attached_lem name c value
      (record { options = p.options; version = p.version; error_text = none }) o h found takes rest
