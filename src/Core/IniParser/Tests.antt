-- ===== src/Core/IniParser/Tests.antt =====
-- IniParser.cpp on a small text.
use simply_node_framework.Prelude.{
  ℕ, List, [], false, none, refl, some, true, ◌++◌, ◌∷◌, ◌≡◌, negsuc, pos,
}
use simply_node_framework.Prelude.Bytes.{find, codes, bytes_eq, starts_with}
use simply_node_framework.Prelude.Chars.{
  split_on, trim_by, is_space, drop_while, digit_value, digits_value, take_while,
}
use simply_node_framework.Prelude.Maps.{lookup, insert, bytes_lt}
use simply_node_framework.Core.IniParser.Text.{
  comment_start, is_comment_line, parse_int, strip_inline_comment, trim,
}
use simply_node_framework.Core.IniParser.Files.{
  enter_section, load_from_string, read_entry, read_line, read_lines, read_section,
}
use simply_node_framework.Core.IniParser.{
  Ini, empty_ini, contains, invalid_entry, remove, set_value, value,
}
use simply_node_framework.Core.IniParser.Tracked.{Tracked-none}
use simply_node_framework.Core.IniParser.Values.{value-set_value, value-remove}
use simply_node_framework.Core.IniParser.Steps.{
  run-IsTracked, Call, IsTracked, clears, loads_string, removes, removes_section, run, saves_as,
  sets,
}

abbrev text : List ℕ
text =
    codes "a = 1 ; one"
    ++ (10 ∷ [])
    ++ codes "[net]"
    ++ (13 ∷ 10 ∷ [])
    ++ codes " port=80 "
    ++ (10 ∷ [])

abbrev wrong : List ℕ
wrong = codes "# x" ++ (10 ∷ []) ++ codes "port"

abbrev loaded : Ini
loaded = (load_from_string text empty_ini).1

abbrev rounds : List Call
rounds =
    loads_string text
    ∷ sets (codes "net") (codes "host") (codes "h")
    ∷ removes (codes "net") (codes "port")
    ∷ saves_as (codes "f") true true
    ∷ removes_section (codes "net")
    ∷ clears
    ∷ []

loaded_values :
    (value [] (codes "a") [] loaded ≡ codes "1")
    × (value (codes "net") (codes "port") [] loaded ≡ codes "80")
unfolding load_from_string read_lines read_line read_section read_entry enter_section value trim
    strip_inline_comment comment_start is_comment_line find starts_with bytes_eq split_on trim_by
    is_space drop_while lookup insert bytes_lt
loaded_values = (refl, refl)

wrong_text :
    load_from_string wrong empty_ini
    ≡ (false, record empty_ini { error_text = some (invalid_entry 2) })
unfolding load_from_string read_lines read_line read_section read_entry enter_section value trim
    strip_inline_comment comment_start is_comment_line find starts_with bytes_eq split_on trim_by
    is_space drop_while lookup insert bytes_lt
wrong_text = refl

ints :
    (parse_int (codes " -12") ≡ some (negsuc 11))
    × (parse_int (codes "12x") ≡ none)
    × (parse_int (codes "2147483648") ≡ none)
    × (parse_int (codes "+7") ≡ some (pos 7))
unfolding parse_int digits_value digit_value drop_while take_while is_space
ints = (refl, refl, refl, refl)

run-IsTracked_example : IsTracked (run rounds empty_ini)
run-IsTracked_example = run-IsTracked rounds empty_ini Tracked-none

value-set_value_example :
    value
      (codes "net")
      (codes "port")
      []
      (set_value (codes "net") (codes "port") (codes "81") loaded)
    ≡ codes "81"
unfolding bytes_eq
value-set_value_example =
    value-set_value (codes "net") (codes "port") (codes "81") (codes "net") (codes "port") [] loaded

value-remove_example :
    ((remove (codes "net") (codes "port") loaded).0 ≡ contains (codes "net") (codes "port") loaded)
    × (value
          (codes "net")
          (codes "port")
          (codes "none")
          (remove (codes "net") (codes "port") loaded).1
        ≡ codes "none")
unfolding bytes_eq
value-remove_example =
    value-remove (codes "net") (codes "port") (codes "net") (codes "port") (codes "none") loaded
