-- ===== src/Core/IniParser.antt =====
-- lib/Core/src/SNFCore/IniParser.h and IniParser.cpp: the store of sections, keys and values, the
-- reader and the writer of its text. A text is a list of bytes; the file system is an argument: what
-- an `ifstream` of the path reads, or nothing where it does not open, and what an `ofstream` answers.
pub mod Text
pub mod Files
pub mod Tracked
pub mod Values
pub mod Keeps
pub mod Steps
mod Tests
use simply_node_framework.Prelude.{
  ℕ, Bool, List, Option, [], false, if◌then◌else◌, none, not, some, true, ◌&&◌, ◌++◌, ◌||◌, ◌∷◌, ℤ,
}
use simply_node_framework.Prelude.Bytes.{bytes_eq}
use simply_node_framework.Prelude.Maps.{lookup, insert, erase}
use simply_node_framework.Core.IniParser.Text.{is_nil, parse_bool, parse_int}

pub record SectionData : Type 0 where
  pub values : List (List ℕ × List ℕ)
  pub key_order : List (List ℕ)

pub data IniError : Type 0 where
  not_opened not_written write_failed : List ℕ → IniError
  no_path : IniError
  invalid_section empty_section invalid_entry empty_key : ℕ → IniError

pub record Ini : Type 0 where
  pub data_map : List (List ℕ × SectionData)
  pub section_order : List (List ℕ)
  pub file_path : List ℕ
  pub error_text : Option IniError

abbrev pub no_data : SectionData
no_data = record { values = []; key_order = [] }

abbrev pub empty_ini : Ini
empty_ini = record { data_map = []; section_order = []; file_path = []; error_text = none }

-- The order of names.
pub has_name : List ℕ → List (List ℕ) → Bool
unfolding bytes_eq
has_name name [] = false
has_name name (x ∷ xs) = bytes_eq x name || has_name name xs

-- `std::find` and `push_back`.
pub track : List ℕ → List (List ℕ) → List (List ℕ)
unfolding has_name
track name names = if has_name name names then names else names ++ (name ∷ [])

-- `std::remove` and `erase`.
pub untrack : List ℕ → List (List ℕ) → List (List ℕ)
unfolding bytes_eq
untrack name [] = []
untrack name (x ∷ xs) = if bytes_eq x name then untrack name xs else x ∷ untrack name xs

-- Queries.
abbrev pub find_section : List ℕ → Ini → Option SectionData
find_section section p = lookup section p.data_map

pub value : List ℕ → List ℕ → List ℕ → Ini → List ℕ
value section key default_value p = elim (find_section section p) [
  | none ↦ default_value
  | some d ↦ elim (lookup key d.values) [ none ↦ default_value | some v ↦ v ]
]

pub int_value : List ℕ → List ℕ → ℤ → Ini → ℤ
unfolding value parse_int
int_value section key default_value p = elim (parse_int (value section key [] p)) [
  | none ↦ default_value
  | some n ↦ n
]

pub bool_value : List ℕ → List ℕ → Bool → Ini → Bool
unfolding value parse_bool
bool_value section key default_value p = elim (parse_bool (value section key [] p)) [
  | none ↦ default_value
  | some b ↦ b
]

abbrev pub has_value : List ℕ → SectionData → Bool
has_value key d = elim (lookup key d.values) [ none ↦ false | some v ↦ true ]

pub contains : List ℕ → List ℕ → Ini → Bool
contains section key p = elim (find_section section p) [ none ↦ false | some d ↦ has_value key d ]

pub has_section : List ℕ → Ini → Bool
has_section section p =
    not (is_nil section) && elim (find_section section p) [ none ↦ false | some d ↦ true ]

pub keys : List ℕ → Ini → List (List ℕ)
keys section p = elim (find_section section p) [ none ↦ [] | some d ↦ d.key_order ]

abbrev pub sections : Ini → List (List ℕ)
sections p = p.section_order

-- Updates.
abbrev pub clear : Ini → Ini
clear p = record p { data_map = []; section_order = []; error_text = none }

-- `m_data[section]` of a map.
abbrev pub section_or_new : List ℕ → List (List ℕ × SectionData) → SectionData
section_or_new section m = elim (lookup section m) [ none ↦ no_data | some d ↦ d ]

abbrev pub put : List ℕ → List ℕ → SectionData → SectionData
put key v d = record { values = insert key v d.values; key_order = track key d.key_order }

abbrev pub track_section : List ℕ → List (List ℕ) → List (List ℕ)
track_section section names = if is_nil section then names else track section names

pub set_value : List ℕ → List ℕ → List ℕ → Ini → Ini
set_value section key v p = record p {
  data_map = insert section (put key v (section_or_new section p.data_map)) p.data_map;
  section_order = track_section section p.section_order;
  error_text = none;
}

abbrev pub cut : List ℕ → SectionData → SectionData
cut key d = record { values = erase key d.values; key_order = untrack key d.key_order }

abbrev pub is_bare : SectionData → Bool
is_bare d = elim d.values [ [] ↦ true | x ∷ xs ↦ false ]

abbrev pub drop_section : List ℕ → Ini → Ini
drop_section section p = record p {
  data_map = erase section p.data_map;
  section_order = untrack section p.section_order;
}

-- The answer, and the store.
pub remove : List ℕ → List ℕ → Ini → Bool × Ini
remove section key p = elim (find_section section p) [
  | none ↦ (false, p)
  | some d ↦
      if has_value key d
      then (if not (is_nil section) && is_bare (cut key d)
          then (true, drop_section section p)
          else (true, record p { data_map = insert section (cut key d) p.data_map }))
      else (false, p)
]

pub remove_section : List ℕ → Ini → Bool × Ini
remove_section section p = if is_nil section then (false, p) else elim (find_section section p) [
  | none ↦ (false, p)
  | some d ↦ (true, drop_section section p)
]
