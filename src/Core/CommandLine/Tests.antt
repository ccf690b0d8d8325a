-- ===== src/Core/CommandLine/Tests.antt =====
-- A parser with a flag and an option that takes a value.
use simply_node_framework.Prelude.{[], map, refl, some, true, ◌==◌, ◌∷◌, ◌≡◌}
use simply_node_framework.Prelude.Bytes.{codes, find, bytes_eq, starts_with}
use simply_node_framework.Core.CommandLine.{
  step, CommandLineOption, Parser, fail, find_option, flags_step, is_among, long_step, new_flag,
  new_option, new_parser, not_combined, parse, parse_args, set_is_set, set_value, short_step,
  short_value_step, shorts_step, update_option, with_options,
}
use simply_node_framework.Core.CommandLine.Shape.{declared, parse-declared}
use simply_node_framework.Core.CommandLine.Values.{parse-attached}
use simply_node_framework.Prelude.Chars.Pieces.{all_fail→Fails}

abbrev verbose : CommandLineOption
verbose = new_flag (codes "verbose" ∷ codes "v" ∷ []) (codes "More output")

abbrev output : CommandLineOption
output = new_option (codes "output" ∷ codes "o" ∷ []) (codes "Where to write") (codes "a.out")

abbrev two_options : Parser
two_options = with_options (verbose ∷ output ∷ []) new_parser

short_forms :
    (parse (codes "-v" ∷ codes "-o" ∷ codes "x" ∷ []) two_options).1.options
    ≡ set_is_set true verbose ∷ set_value (codes "x") output ∷ []
unfolding parse parse_args step find_option bytes_eq find long_step shorts_step short_step
    flags_step short_value_step update_option is_among starts_with
short_forms = refl

not_a_flag :
    parse (codes "-vo" ∷ []) two_options
    ≡ fail
        (not_combined (codes "o"))
        (with_options (set_is_set true verbose ∷ output ∷ []) new_parser)
unfolding parse parse_args step find_option bytes_eq find long_step shorts_step short_step
    flags_step short_value_step update_option is_among starts_with
not_a_flag = refl

parse-declared_example :
    (map declared (parse (codes "-vo" ∷ codes "--x" ∷ []) two_options).1.options
      ≡ map declared two_options.options)
    × ((parse (codes "-vo" ∷ codes "--x" ∷ []) two_options).1.version ≡ [])
parse-declared_example = parse-declared (codes "-vo" ∷ codes "--x" ∷ []) two_options

output_found : find_option (codes "output") two_options.options ≡ some output
unfolding find_option is_among bytes_eq
output_found = refl

parse-attached_example :
    parse (codes "--output=x" ∷ codes "-v" ∷ []) two_options
    ≡ parse (codes "--output" ∷ codes "x" ∷ codes "-v" ∷ []) two_options
parse-attached_example =
    parse-attached (codes "output") b'x' [] (codes "-v" ∷ []) two_options output
      (all_fail→Fails (λ c. c == b'=') (codes "output") refl) output_found refl
