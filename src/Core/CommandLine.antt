-- ===== src/Core/CommandLine.antt =====
-- lib/Core/src/SNFCore/CommandLineOption.h and CommandLineOption.cpp, CommandLineParser.h and
-- CommandLineParser.cpp. A text is a list of bytes. `parse` reads the arguments behind the program's
-- name; where it ends the program, the answer says what it has printed.
pub mod Help
pub mod Shape
pub mod Values
mod Tests
use simply_node_framework.Prelude.{
  ℕ, Bool, List, Option, [], none, drop, false, if◌then◌else◌, length, ltb, not, set, some, take,
  true, ◌&&◌, ◌+◌, ◌-◌, ◌==◌, ◌||◌, ◌∷◌,
}
use simply_node_framework.Prelude.Bytes.{codes, bytes_eq, find}

pub record CommandLineOption : Type 0 where
  pub names : List (List ℕ)
  pub description : List ℕ
  pub default_value : List ℕ
  pub value : List ℕ
  pub is_flag : Bool
  pub is_set : Bool

-- The two constructors.
abbrev pub new_flag : List (List ℕ) → List ℕ → CommandLineOption
new_flag names description = record {
  names = names;
  description = description;
  default_value = [];
  value = [];
  is_flag = true;
  is_set = false;
}

abbrev pub new_option : List (List ℕ) → List ℕ → List ℕ → CommandLineOption
new_option names description default_value = record {
  names = names;
  description = description;
  default_value = default_value;
  value = default_value;
  is_flag = false;
  is_set = false;
}

abbrev pub name_of : CommandLineOption → List ℕ
name_of o = elim o.names [ [] ↦ [] | n ∷ ns ↦ n ]

abbrev pub set_value : List ℕ → CommandLineOption → CommandLineOption
set_value value o = record {
  names = o.names;
  description = o.description;
  default_value = o.default_value;
  value = value;
  is_flag = o.is_flag;
  is_set = true;
}

abbrev pub set_is_set : Bool → CommandLineOption → CommandLineOption
set_is_set set o = record {
  names = o.names;
  description = o.description;
  default_value = o.default_value;
  value = o.value;
  is_flag = o.is_flag;
  is_set = set;
}

pub data OptionError : Type 0 where
  unknown_long flag_with_value_long value_missing_long : List ℕ → OptionError
  unknown_short flag_with_value_short value_missing_short not_combined : List ℕ → OptionError
  unknown_argument : List ℕ → OptionError

pub record Parser : Type 0 where
  pub options : List CommandLineOption
  pub version : List ℕ
  pub error_text : Option OptionError

abbrev pub new_parser : Parser
new_parser = record { options = []; version = []; error_text = none }

-- The first option with the same primary name is replaced.
pub put_option : CommandLineOption → List CommandLineOption → List CommandLineOption
unfolding bytes_eq
put_option o [] = o ∷ []
put_option o (p ∷ ps) = if bytes_eq (name_of p) (name_of o) then o ∷ ps else p ∷ put_option o ps

abbrev pub with_options : List CommandLineOption → Parser → Parser
with_options options p = record {
  options = options;
  version = p.version;
  error_text = p.error_text;
}

pub add_option : CommandLineOption → Parser → Parser
unfolding put_option
add_option o p = with_options (put_option o p.options) p

pub set_application_version : List ℕ → Parser → Parser
set_application_version version p = record {
  options = p.options;
  version = version;
  error_text = p.error_text;
}

pub is_among : List ℕ → List (List ℕ) → Bool
unfolding bytes_eq
is_among name [] = false
is_among name (n ∷ ns) = bytes_eq n name || is_among name ns

-- `findOption`, and a change of the option that it points to.
pub find_option : List ℕ → List CommandLineOption → Option CommandLineOption
unfolding is_among
find_option name [] = none
find_option name (o ∷ os) = if is_among name o.names then some o else find_option name os

pub update_option :
    List ℕ
    → (CommandLineOption → CommandLineOption)
    → List CommandLineOption
    → List CommandLineOption
unfolding is_among
update_option name change [] = []
update_option name change (o ∷ os) =
    if is_among name o.names then change o ∷ os else o ∷ update_option name change os

-- `value` and `isSet`.
pub value_of : List ℕ → Parser → List ℕ
unfolding find_option
value_of name p = elim (find_option name p.options) [
  | none ↦ []
  | some o ↦ if o.is_set then o.value else o.default_value
]

pub is_set_of : List ℕ → Parser → Bool
unfolding find_option
is_set_of name p = elim (find_option name p.options) [ none ↦ false | some o ↦ o.is_set ]

-- How the program goes on: the help or the version is printed and the program ends, `parse` returns
-- `false`, or the loop goes on, behind the next argument where that was taken as a value.
pub data Step : Type 0 where
  help_printed version_printed failed : Step
  next past_next : Step

abbrev pub fail : OptionError → Parser → Step × Parser
fail e p = (failed, record { options = p.options; version = p.version; error_text = some e })

abbrev pub changed : List ℕ → (CommandLineOption → CommandLineOption) → Parser → Parser
unfolding update_option
changed name change p = with_options (update_option name change p.options) p

abbrev pub is_nil : List ℕ → Bool
is_nil [] = true
is_nil _ = false

-- The option of a long argument: its name, and the value behind `=`.
abbrev pub long_parts : List ℕ → List ℕ × List ℕ
long_parts arg = elim (find (codes "=") arg) [
  | none ↦ (drop 2 arg, [])
  | some eq ↦ (take (eq - 2) (drop 2 arg), drop (eq + 1) arg)
]

-- `--name` and `--name=value`, with the argument behind it.
pub long_step : List ℕ → List ℕ → Option (List ℕ) → Parser → Step × Parser
unfolding find_option update_option
long_step name value after p = elim (find_option name p.options) [
  | none ↦ fail (unknown_long name) p
  | some o ↦
      if o.is_flag
      then (if not (is_nil value)
          then fail (flag_with_value_long name) p
          else (next, changed name (set_is_set true) p))
      else if not (is_nil value)
      then (next, changed name (set_value value) p)
      else elim after [
        | none ↦ fail (value_missing_long name) p
        | some v ↦ (past_next, changed name (set_value v) p)
      ]
]

-- `-abc`: one flag after the other.
pub flags_step : List ℕ → Parser → Step × Parser
unfolding find_option update_option
flags_step [] p = (next, p)
flags_step (c ∷ cs) p =
    let name = c ∷ [] in
    elim (find_option name p.options) [
      | none ↦ fail (unknown_short name) p
      | some o ↦
          let rest = flags_step cs (changed name (set_is_set true) p) in
          if not o.is_flag then fail (not_combined name) p else rest
    ]

-- `-o=value`.
pub short_value_step : List ℕ → List ℕ → Parser → Step × Parser
unfolding find_option update_option
short_value_step name value p = elim (find_option name p.options) [
  | none ↦ fail (unknown_short name) p
  | some o ↦
      if o.is_flag
      then fail (flag_with_value_short name) p
      else (next, changed name (set_value value) p)
]

-- `-o`, with the argument behind it.
pub short_step : List ℕ → Option (List ℕ) → Parser → Step × Parser
unfolding find_option update_option
short_step name after p = elim (find_option name p.options) [
  | none ↦ fail (unknown_short name) p
  | some o ↦ if o.is_flag then (next, changed name (set_is_set true) p) else elim after [
    | none ↦ fail (value_missing_short name) p
    | some v ↦ (past_next, changed name (set_value v) p)
  ]
]

-- The short forms, behind the dash.
pub shorts_step : List ℕ → Option (List ℕ) → Parser → Step × Parser
unfolding find short_value_step short_step flags_step
shorts_step names after p = elim (find (codes "=") names) [
  | some eq ↦ short_value_step (take eq names) (drop (eq + 1) names) p
  | none ↦ if length names == 1 then short_step names after p else flags_step names p
]

abbrev pub is_found : Option CommandLineOption → Bool
is_found none = false
is_found (some o) = true

-- One round of the loop, with the argument behind it where there is one.
pub step : List ℕ → Option (List ℕ) → Parser → Step × Parser
unfolding find_option bytes_eq find long_step shorts_step
step arg after p =
    let (name, value) = long_parts arg in
    if (bytes_eq arg (codes "--help") || bytes_eq arg (codes "-h"))
      && not (is_found (find_option (codes "help") p.options))
    then (help_printed, p)
    else if bytes_eq arg (codes "--version")
        && not (is_found (find_option (codes "version") p.options))
        && not (is_nil p.version)
    then (version_printed, p)
    else if bytes_eq (take 2 arg) (codes "--")
    then long_step name value after p
    else if bytes_eq (take 1 arg) (codes "-") && ltb 1 (length arg)
    then shorts_step (drop 1 arg) after p
    else fail (unknown_argument arg) p

-- The loop of `parse`, which ends with `next` where it returns `true`.
pub parse_args : List (List ℕ) → Parser → Step × Parser
unfolding step
parse_args [] p = (next, p)
parse_args (arg ∷ []) p = step arg none p
parse_args (arg ∷ after ∷ rest) p =
    let (s, q) = step arg (some after) p in
    elim s [
      | next ↦ parse_args (after ∷ rest) q
      | past_next ↦ parse_args rest q
      | help_printed ↦ (help_printed, q)
      | version_printed ↦ (version_printed, q)
      | failed ↦ (failed, q)
    ]

-- `parse`, without the program's name.
pub parse : List (List ℕ) → Parser → Step × Parser
unfolding parse_args
parse args p =
    parse_args args (record { options = p.options; version = p.version; error_text = none })
