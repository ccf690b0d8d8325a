-- ===== src/Core/IniParser/Files.antt =====
-- IniParser.cpp reads a text line by line, and writes one.
use simply_node_framework.Prelude.{
  ℕ, Bool, List, Option, [], drop, false, if◌then◌else◌, none, not, some, suc, take, true, ◌++◌,
  ◌==◌, ◌||◌, ◌∷◌, inl, inr, length, ◌+◌, ◌-◌, ◌⊎◌,
}
use simply_node_framework.Prelude.Bytes.{codes, find}
use simply_node_framework.Prelude.Chars.{split_on}
use simply_node_framework.Prelude.Maps.{lookup, insert}
use simply_node_framework.Core.IniParser.{
  Ini, IniError, SectionData, clear, empty_key, empty_section, find_section, invalid_entry,
  invalid_section, no_data, no_path, not_opened, not_written, section_or_new, track_section,
  write_failed, has_value,
}
use simply_node_framework.Core.IniParser.Text.{is_nil, is_comment_line, strip_inline_comment, trim}

-- Reading: the parsed data, the order of its sections and the current section, line by line.
pub record Reading : Type 0 where
  pub parsed : List (List ℕ × SectionData)
  pub order : List (List ℕ)
  pub current : List ℕ

abbrev pub ends_in : ℕ → List ℕ → Bool
ends_in c [] = false
ends_in c (x ∷ []) = x == c
ends_in c (x ∷ y ∷ s) = ends_in c (y ∷ s)

abbrev pub starts_in : ℕ → List ℕ → Bool
starts_in c [] = false
starts_in c (x ∷ s) = x == c

-- A line that is read: the next state, or the error for its number.
pub data Line : Type 0 where
  goes_on : Reading → Line
  stops : (ℕ → IniError) → Line

-- The section of a header, new or seen before.
unfoldable pub enter_section : List ℕ → Reading → Reading
enter_section name r = elim (lookup name r.parsed) [
  | none ↦ record {
    parsed = insert name no_data r.parsed;
    order = r.order ++ (name ∷ []);
    current = name;
  }
  | some d ↦ record r { current = name }
]

-- `[section]`.
unfoldable pub read_section : List ℕ → Reading → Line
unfolding trim enter_section
read_section line r =
    if not (ends_in b']' line)
    then stops invalid_section
    else let name = trim (take (length line - 2) (drop 1 line)) in
      if is_nil name then stops empty_section else goes_on (enter_section name r)

-- The key and the value of a line: a key that the section does not have goes to the end of its order.
abbrev pub put_entry : List ℕ → List ℕ → SectionData → SectionData
put_entry key v d = record {
  values = insert key v d.values;
  key_order = if has_value key d then d.key_order else d.key_order ++ key ∷ [];
}

-- `key = value`.
unfoldable pub read_entry : List ℕ → Reading → Line
unfolding trim strip_inline_comment
read_entry line r = elim (find (b'=' ∷ []) line) [
  | none ↦ stops invalid_entry
  | some i ↦
      let key = trim (take i line) in
      let v = strip_inline_comment (drop (i + 1) line) in
      if is_nil key
      then stops empty_key
      else goes_on (record r {
        parsed = insert r.current (put_entry key v (section_or_new r.current r.parsed)) r.parsed;
        order = track_section r.current r.order;
      })
]

abbrev pub drop_return : List ℕ → List ℕ
drop_return line = if ends_in 13 line then take (length line - 1) line else line

unfoldable pub read_line : List ℕ → Reading → Line
unfolding trim is_comment_line read_section read_entry
read_line line r =
    let trimmed = trim (drop_return line) in
    if is_nil trimmed || is_comment_line trimmed
    then goes_on r
    else if starts_in b'[' trimmed
    then read_section trimmed r
    else read_entry trimmed r

-- The lines from number `n + 1` on.
unfoldable pub read_lines : ℕ → List (List ℕ) → Reading → IniError ⊎ Reading
unfolding read_line
read_lines n [] r = inr r
read_lines n (line ∷ lines) r = elim (read_line line r) [
  | stops e ↦ inl (e (suc n))
  | goes_on r' ↦ read_lines (suc n) lines r'
]

abbrev pub nothing_read : Reading
nothing_read = record { parsed = []; order = []; current = [] }

abbrev pub install : IniError ⊎ Reading → Ini → Bool × Ini
install (inl e) p = (false, record p { error_text = some e })
install (inr r) p = (
  true,
  record { data_map = r.parsed; section_order = r.order; file_path = []; error_text = none },
)

unfoldable pub load_from_string : List ℕ → Ini → Bool × Ini
unfolding read_lines split_on
load_from_string content p = install (read_lines 0 (split_on 10 content) nothing_read) p

-- `content` is what the file holds, nothing where it does not open.
unfoldable pub load : List ℕ → Option (List ℕ) → Ini → Bool × Ini
unfolding load_from_string
load path content p = elim content [
  | none ↦ (false, record (clear p) { file_path = []; error_text = some (not_opened path) })
  | some text ↦
      let (good, q) = load_from_string text p in
      if good then (true, record q { file_path = path }) else (false, record q { file_path = [] })
]

-- Writing.
unfoldable pub write_entries : List (List ℕ) → SectionData → List ℕ
write_entries [] d = []
write_entries (key ∷ ks) d =
    let rest = write_entries ks d in
    elim (lookup key d.values) [
      | none ↦ rest
      | some v ↦ key ++ codes " = " ++ v ++ (10 ∷ []) ++ rest
    ]

unfoldable pub write_sections : Bool → List (List ℕ) → Ini → List ℕ
unfolding write_entries
write_sections wrote [] p = []
write_sections wrote (section ∷ names) p =
    let skipped = write_sections wrote names p in
    let after = write_sections true names p in
    elim (is_nil section) [
      | true ↦ skipped
      | false ↦ elim (find_section section p) [
        | none ↦ skipped
        | some d ↦
            (if wrote then 10 ∷ [] else [])
            ++ (b'[' ∷ [])
            ++ section
            ++ (b']' ∷ 10 ∷ [])
            ++ write_entries d.key_order d
            ++ after
      ]
    ]

unfoldable pub to_string : Ini → List ℕ
unfolding write_sections write_entries
to_string p = elim (find_section [] p) [
  | none ↦ write_sections false p.section_order p
  | some d ↦
      write_entries d.key_order d
      ++ write_sections (not (elim d.key_order [ [] ↦ true | k ∷ ks ↦ false ])) p.section_order p
]

-- The answer, the store, and what the file gets, nothing where it does not open. `opens` and `good`
-- are the stream's answers.
unfoldable pub save_as : List ℕ → Bool → Bool → Ini → Bool × Ini × Option (List ℕ)
unfolding to_string
save_as path opens good p =
    if not opens
    then (false, record p { error_text = some (not_written path) }, none)
    else if not good
    then (false, record p { error_text = some (write_failed path) }, some (to_string p))
    else (true, record p { file_path = path; error_text = none }, some (to_string p))

unfoldable pub save : Bool → Bool → Ini → Bool × Ini × Option (List ℕ)
unfolding save_as
save opens good p =
    if is_nil p.file_path
    then (false, record p { error_text = some no_path }, none)
    else save_as p.file_path opens good p
