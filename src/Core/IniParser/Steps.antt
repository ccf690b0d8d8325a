-- ===== src/Core/IniParser/Steps.antt =====
-- The calls of IniParser.cpp in any order keep its orders in step with its maps.
use mathlib.Core.Path.{subst}
use simply_node_framework.Prelude.{
  ℕ, Bool-cases, List, Option-cases, [], ap, drop, inl, inr, not, take, ◌&&◌, ◌+◌, ◌∷◌, arith,
  false, length, suc, ◌++◌, ◌-◌, ◌||◌, ◌∙◌, ◌≡◌, ◌⊎◌, Bool, Option, none, some, true, if◌then◌else◌,
}
use simply_node_framework.Prelude.Bytes.{find}
use simply_node_framework.Core.IniParser.Text.{is_nil, is_comment_line, strip_inline_comment, trim}
use simply_node_framework.Core.IniParser.Files.{
  load, Line, Reading, drop_return, ends_in, enter_section, goes_on, install, load_from_string,
  nothing_read, read_entry, read_line, read_lines, read_section, save, save_as, starts_in, stops,
  put_entry,
}
use simply_node_framework.Core.IniParser.{
  SectionData, Ini, cut, find_section, has_value, is_bare, put, remove, remove_section,
  section_or_new, set_value, IniError, has_name, no_data, track, track_section, clear,
}
use simply_node_framework.Core.IniParser.Tracked.{
  Tracked, KeysTracked-cut, KeysTracked, track-has_name, KeysTracked-put, present, KeysTracked-none,
  Tracked-none,
}
use simply_node_framework.Core.IniParser.Keeps.{
  Tracked-insert, Tracked-erase, Tracked-update, section_or_new-KeysTracked,
}
use simply_node_framework.Prelude.Chars.{split_on}
use simply_node_framework.Prelude.Maps.{insert, lookup}

abbrev pub IsTracked : Ini → Type 0
IsTracked p = Tracked p.data_map p.section_order

set_value-IsTracked : (s k v : List ℕ) (p : Ini) → IsTracked p → IsTracked (set_value s k v p)
unfolding set_value
set_value-IsTracked s k v p t =
    Tracked-insert p.data_map p.section_order t s (put k v (section_or_new s p.data_map)) (
      KeysTracked-put k v (section_or_new s p.data_map)
        (section_or_new-KeysTracked p.data_map p.section_order t s))

remove-IsTracked : (s k : List ℕ) (p : Ini) → IsTracked p → IsTracked (remove s k p).1
unfolding remove
remove-IsTracked s k p t = elim (Option-cases (find_section s p)) [
  | inl e ↦ rw (e, remove) t
  | inr (d, e) ↦ elim (Bool-cases (has_value k d)) [
    | inr no_key ↦ rw (e, remove) (rw (no_key, remove) t)
    | inl key ↦ elim (Bool-cases (not (is_nil s) && is_bare (cut k d))) [
      | inl gone ↦
          rw (e, remove)
            (rw (key, remove) (rw (gone, remove) (Tracked-erase p.data_map p.section_order t s)))
      | inr stays ↦
          rw (e, remove)
            (rw (key, remove)
              (rw (stays, remove)
                (Tracked-update p.data_map p.section_order t s (cut k d)
                  (KeysTracked-cut k d (t.keys_named s d e)) (ap present e))))
    ]
  ]
]

remove_section-IsTracked : (s : List ℕ) (p : Ini) → IsTracked p → IsTracked (remove_section s p).1
unfolding remove_section
remove_section-IsTracked [] p t = t
remove_section-IsTracked (c ∷ s) p t = elim (Option-cases (find_section (c ∷ s) p)) [
  | inl e ↦ rw (e, remove_section) t
  | inr (d, e) ↦ rw (e, remove_section) (Tracked-erase p.data_map p.section_order t (c ∷ s))
]

-- The reader.
abbrev Readable : Line → Type 0
Readable (goes_on r) = Tracked r.parsed r.order
Readable (stops e) = Unit

track-new :
    (name : List ℕ) (order : List (List ℕ))
    → has_name name order ≡ false
    → track name order ≡ order ++ (name ∷ [])
unfolding track
track-new name order new = ground arith

enter_section-Tracked :
    (name : List ℕ) (r : Reading)
    → is_nil name ≡ false
    → Tracked r.parsed r.order
    → Tracked (enter_section name r).parsed (enter_section name r).order
unfolding enter_section
enter_section-Tracked name r full t = elim (Option-cases (lookup name r.parsed)) [
  | inr (d, e) ↦ rw (e, enter_section) t
  | inl e ↦
      let new : has_name name r.order ≡ false =
        t.named name ∙ ap (λ o. not (is_nil name) && present o) e ∙ ground (arith, full) in
      let same : track_section name r.order ≡ r.order ++ (name ∷ []) =
        grind (arith, track-new name r.order new) in
      rw (e, enter_section)
        (subst (λ o. Tracked (insert name no_data r.parsed) o) same
          (Tracked-insert r.parsed r.order t name no_data KeysTracked-none))
]

read_section-Readable :
    (line : List ℕ) (r : Reading) → Tracked r.parsed r.order → Readable (read_section line r)
unfolding read_section
read_section-Readable line r t = elim (Bool-cases (ends_in b']' line)) [
  | inr open_end ↦ rw (open_end, read_section) tt
  | inl closed ↦ elim (Bool-cases (is_nil (trim (take (length line - 2) (drop 1 line))))) [
    | inl blank ↦ rw (closed, read_section) (rw (blank, read_section) tt)
    | inr full ↦
        rw (closed, read_section)
          (rw (full, read_section)
            (enter_section-Tracked (trim (take (length line - 2) (drop 1 line))) r full t))
  ]
]

KeysTracked-put_entry :
    (key v : List ℕ) (d : SectionData) → KeysTracked d → KeysTracked (put_entry key v d)
KeysTracked-put_entry key v d t =
    let same : track key d.key_order
        ≡ (if has_value key d then d.key_order else d.key_order ++ key ∷ []) =
      track-has_name key d.key_order
      ∙ ap (λ b. if b then d.key_order else d.key_order ++ key ∷ []) (t.named key) in
    subst (λ order. KeysTracked (record { values = insert key v d.values; key_order = order })) same
      (KeysTracked-put key v d t)

read_entry-Readable :
    (line : List ℕ) (r : Reading) → Tracked r.parsed r.order → Readable (read_entry line r)
unfolding read_entry
read_entry-Readable line r t = elim (Option-cases (find (b'=' ∷ []) line)) [
  | inl e ↦ rw (e, read_entry) tt
  | inr (i, e) ↦ elim (Bool-cases (is_nil (trim (take i line)))) [
    | inl blank ↦ rw (e, read_entry) (rw (blank, read_entry) tt)
    | inr full ↦
        let d : SectionData = section_or_new r.current r.parsed in
        rw (e, read_entry)
          (rw (full, read_entry)
            (Tracked-insert r.parsed r.order t r.current
              (put_entry (trim (take i line)) (strip_inline_comment (drop (i + 1) line)) d)
              (KeysTracked-put_entry (trim (take i line)) (strip_inline_comment (drop (i + 1) line))
                d (section_or_new-KeysTracked r.parsed r.order t r.current))))
  ]
]

read_line-Readable :
    (line : List ℕ) (r : Reading) → Tracked r.parsed r.order → Readable (read_line line r)
unfolding read_line
read_line-Readable line r t =
    let trimmed = trim (drop_return line) in
    elim (Bool-cases (is_nil trimmed || is_comment_line trimmed)) [
      | inl skipped ↦ rw (skipped, read_line) t
      | inr full ↦ elim (Bool-cases (starts_in b'[' trimmed)) [
        | inl header ↦
            rw (full, read_line) (rw (header, read_line) (read_section-Readable trimmed r t))
        | inr entry ↦ rw (full, read_line) (rw (entry, read_line) (read_entry-Readable trimmed r t))
      ]
    ]

abbrev IsReadable : (IniError ⊎ Reading) → Type 0
IsReadable (inl e) = Unit
IsReadable (inr r) = Tracked r.parsed r.order

read_lines-IsReadable :
    (n : ℕ) (lines : List (List ℕ)) (r : Reading)
    → Tracked r.parsed r.order
    → IsReadable (read_lines n lines r)
unfolding read_lines
read_lines-IsReadable n [] r t = t
read_lines-IsReadable n (line ∷ lines) r t =
    go (read_line line r) (read_line-Readable line r t)
      (λ r' h. read_lines-IsReadable (suc n) lines r' h)
  where
    go :
        (l : Line)
        → Readable l
        → ((r' : Reading) → Tracked r'.parsed r'.order → IsReadable (read_lines (suc n) lines r'))
        → IsReadable
            (elim l [ stops e ↦ inl (e (suc n)) | goes_on r' ↦ read_lines (suc n) lines r' ])
    go (stops e) h rest = tt
    go (goes_on r') h rest = rest r' h

load_from_string-IsTracked :
    (content : List ℕ) (p : Ini) → IsTracked p → IsTracked (load_from_string content p).1
unfolding load_from_string
load_from_string-IsTracked content p t =
    go (read_lines 0 (split_on 10 content) nothing_read)
      (read_lines-IsReadable 0 (split_on 10 content) nothing_read Tracked-none)
  where
    go : (x : IniError ⊎ Reading) → IsReadable x → IsTracked (install x p).1
    go (inl e) h = t
    go (inr r) h = h

load-IsTracked :
    (path : List ℕ) (content : Option (List ℕ)) (p : Ini)
    → IsTracked p
    → IsTracked (load path content p).1
unfolding load
load-IsTracked path none p t = Tracked-none
load-IsTracked path (some text) p t = elim (Bool-cases (load_from_string text p).0) [
  | inl good ↦ rw (good, load) (load_from_string-IsTracked text p t)
  | inr failure ↦ rw (failure, load) (load_from_string-IsTracked text p t)
]

-- The calls that change the store. A file is what a stream reads from it; `true` where it opens or
-- takes the text.
pub data Call : Type 0 where
  sets : List ℕ → List ℕ → List ℕ → Call
  removes : List ℕ → List ℕ → Call
  removes_section : List ℕ → Call
  clears : Call
  loads : List ℕ → Option (List ℕ) → Call
  loads_string : List ℕ → Call
  saves_as : List ℕ → Bool → Bool → Call
  saves : Bool → Bool → Call

abbrev pub step : Call → Ini → Ini
step (sets s k v) p = set_value s k v p
step (removes s k) p = (remove s k p).1
step (removes_section s) p = (remove_section s p).1
step clears p = clear p
step (loads path content) p = (load path content p).1
step (loads_string content) p = (load_from_string content p).1
step (saves_as path opens good) p = (save_as path opens good p).1
step (saves opens good) p = (save opens good p).1

abbrev pub run : List Call → Ini → Ini
run [] p = p
run (c ∷ cs) p = run cs (step c p)

save_as-IsTracked :
    (path : List ℕ) (opens good : Bool) (p : Ini)
    → IsTracked p
    → IsTracked (save_as path opens good p).1
unfolding save_as
save_as-IsTracked path false good p t = t
save_as-IsTracked path true false p t = t
save_as-IsTracked path true true p t = t

save-IsTracked : (opens good : Bool) (p : Ini) → IsTracked p → IsTracked (save opens good p).1
unfolding save
save-IsTracked opens good p t = elim (Bool-cases (is_nil p.file_path)) [
  | inl unnamed ↦ rw (unnamed, save) t
  | inr named_file ↦ rw (named_file, save) (save_as-IsTracked p.file_path opens good p t)
]

step-IsTracked : (c : Call) (p : Ini) → IsTracked p → IsTracked (step c p)
step-IsTracked (sets s k v) p t = set_value-IsTracked s k v p t
step-IsTracked (removes s k) p t = remove-IsTracked s k p t
step-IsTracked (removes_section s) p t = remove_section-IsTracked s p t
step-IsTracked clears p t = Tracked-none
step-IsTracked (loads path content) p t = load-IsTracked path content p t
step-IsTracked (loads_string content) p t = load_from_string-IsTracked content p t
step-IsTracked (saves_as path opens good) p t = save_as-IsTracked path opens good p t
step-IsTracked (saves opens good) p t = save-IsTracked opens good p t

-- After any calls the order of the sections names each named section that the store has, and no
-- other, once; and the order of a section's keys names each of its keys, and no other, once; if that
-- was so before, as it is of the empty store.
pub run-IsTracked : (cs : List Call) (p : Ini) → IsTracked p → IsTracked (run cs p)
run-IsTracked [] p t = t
run-IsTracked (c ∷ cs) p t = run-IsTracked cs (step c p) (step-IsTracked c p t)
