-- ===== src/Http/Response/Read.antt =====
-- A reader of HTTP messages (RFC 9112, section 2.1), and what it finds in the text of a response.
use simply_node_framework.Prelude.{
  List, Option, [], drop, length, none, refl, some, suc, take, zero, ℕ, ◌++◌, ◌+◌, ◌==◌, ◌∷◌, ◌≡◌,
  All, All-append, ap, append_assoc, arith, drop-append, false, length-append, sym, take-append,
  ◌<◌, ◌∙◌, ◌≤◌,
}
use simply_node_framework.Prelude.Bytes.{codes, find, starts_with}
use simply_node_framework.Prelude.Chars.Pieces.{Fails, find-piece}
use simply_node_framework.Http.Request.{StringMap}
use simply_node_framework.Http.RequestParser.{crlf}
use simply_node_framework.Http.RequestParser.Coded.{find-line, after_line}
use simply_node_framework.Http.Response.{write_headers}

-- The start line, the fields in the order of their lines, and the body.
pub record Message : Type 0 where
  pub start_line : List ℕ
  pub fields : StringMap
  pub content : List ℕ

abbrev pub put_field : List ℕ → List ℕ → Option (StringMap × List ℕ) → Option (StringMap × List ℕ)
put_field name v none = none
put_field name v (some (fields, content)) = some ((name, v) ∷ fields, content)

-- The lines of fields up to the empty one, each cut at its first colon, behind which a space is; the
-- content is behind the empty line. Nothing where a line does not end or has no colon.
pub read_fields : ℕ → List ℕ → Option (StringMap × List ℕ)
read_fields zero s = none
read_fields (suc fuel) s = elim (find crlf s) [
  | none ↦ none
  | some zero ↦ some ([], drop 2 s)
  | some (suc i) ↦
      let line = take (suc i) s in
      let rest = read_fields fuel (drop (suc i + 2) s) in
      elim (find (codes ":") line) [
        | none ↦ none
        | some j ↦ put_field (take j line) (drop (j + 2) line) rest
      ]
]

abbrev pub with_start : List ℕ → Option (StringMap × List ℕ) → Option Message
with_start line none = none
with_start line (some (fields, content)) =
    some (record { start_line = line; fields = fields; content = content })

-- Each line takes two bytes at least.
pub read_message : List ℕ → Option Message
unfolding read_fields
read_message s = elim (find crlf s) [
  | none ↦ none
  | some i ↦ with_start (take i s) (read_fields (length s) (drop (i + 2) s))
]

-- A field that can be sent: no carriage return in it, no colon in its name.
abbrev pub IsField : List ℕ × List ℕ → Type 0
IsField (name, v) = Fails (λ c. c == 13) name × Fails (λ c. c == b':') name × Fails (λ c. c == 13) v

read_fields-blank :
    (k : ℕ) (content : List ℕ) → read_fields (suc k) (crlf ++ content) ≡ some ([], content)
unfolding read_fields find starts_with
read_fields-blank k content = refl

-- One round, at a line that is not empty.
read_fields-round :
    (k i j : ℕ) (s line : List ℕ)
    → find crlf s ≡ some (suc i)
    → take (suc i) s ≡ line
    → find (codes ":") line ≡ some j
    → read_fields (suc k) s
      ≡ put_field (take j line) (drop (j + 2) line) (read_fields k (drop (suc i + 2) s))
unfolding read_fields
read_fields-round k i j s line found front colon =
    let colon' : find (codes ":") (take (suc i) s) ≡ some j = ap (find (codes ":")) front ∙ colon in
    rw (found, read_fields) (rw (colon', read_fields, front) refl)

cut_name : (name v : List ℕ) → take (length name) (name ++ codes ": " ++ v) ≡ name
cut_name name v = rw (append_assoc name (codes ": ") v) (take-append name (codes ": " ++ v))

cut_value : (name v : List ℕ) → drop (length name + 2) (name ++ codes ": " ++ v) ≡ v
cut_value name v =
    let size : length name + 2 ≡ length (name ++ codes ": ") =
      omega (arith, length-append name (codes ": ")) in
    ap (λ n. drop n (name ++ codes ": " ++ v)) size ∙ drop-append (name ++ codes ": ") v

read_fields-line :
    (k : ℕ) (name v rest : List ℕ)
    → IsField (name, v)
    → read_fields (suc k) (name ++ codes ": " ++ v ++ crlf ++ rest)
      ≡ put_field name v (read_fields k rest)
read_fields-line k name v rest (n, m, h) =
    let line = name ++ codes ": " ++ v in
    let no_return : Fails (λ c. c == 13) line =
      All-append (λ c. (c == 13) ≡ false) (name ++ codes ": ") v
        (All-append (λ c. (c == 13) ≡ false) name (codes ": ") n (refl, (refl, tt))) h in
    let i = length name + 1 + length v in
    let size : length line ≡ suc i =
      omega (arith, length-append (name ++ codes ": ") v, length-append name (codes ": ")) in
    let found = find-line line rest no_return ∙ ap some size in
    let front =
      ap (λ l. take l (line ++ 13 ∷ 10 ∷ rest)) (sym size) ∙ take-append line (13 ∷ 10 ∷ rest) in
    let colon : find (codes ":") line ≡ some (length name) =
      ap (find (codes ":")) (append_assoc name (codes ": ") v)
      ∙ find-piece b':' name (b' ' ∷ v) m in
    let behind =
      ap (λ l. drop (l + 2) (line ++ 13 ∷ 10 ∷ rest)) (sym size) ∙ after_line line rest in
    ap (read_fields (suc k)) (append_assoc line crlf rest)
    ∙ read_fields-round k i (length name) (line ++ 13 ∷ 10 ∷ rest) line found front colon
    ∙ ap (λ s. put_field (take (length name) line) (drop (length name + 2) line) (read_fields k s))
        behind
    ∙ ap (λ a. put_field a (drop (length name + 2) line) (read_fields k rest)) (cut_name name v)
    ∙ ap (λ b. put_field name b (read_fields k rest)) (cut_value name v)

read_fields-write_headers :
    (k : ℕ) (m : StringMap) (content : List ℕ)
    → length m < k
    → All IsField m
    → read_fields k (write_headers m ++ crlf ++ content) ≡ some (m, content)
unfolding write_headers
read_fields-write_headers zero m content h ok = absurd (omega arith)
read_fields-write_headers (suc k) [] content h ok = read_fields-blank k content
read_fields-write_headers (suc k) ((name, v) ∷ m) content h (f, fs) =
    let line = name ++ codes ": " ++ v ++ crlf in
    let rest = write_headers m ++ crlf ++ content in
    ap (read_fields (suc k)) (
      ap (λ s. s ++ content) (append_assoc line (write_headers m) crlf)
      ∙ append_assoc line (write_headers m ++ crlf) content)
    ∙ read_fields-line k name v rest f
    ∙ ap (put_field name v) (read_fields-write_headers k m content (omega arith) fs)

length-write_headers : (m : StringMap) → length m ≤ length (write_headers m)
unfolding write_headers
length-write_headers [] = omega arith
length-write_headers ((name, v) ∷ m) = omega (
  arith,
  length-write_headers m,
  length-append (name ++ codes ": " ++ v ++ crlf) (write_headers m),
  length-append (name ++ codes ": " ++ v) crlf,
)

read_message-first :
    (s : List ℕ) (i : ℕ)
    → find crlf s ≡ some i
    → read_message s ≡ with_start (take i s) (read_fields (length s) (drop (i + 2) s))
unfolding read_message
read_message-first s i found = rw (found, read_message) refl

-- What is read in a message that is written so.
pub read_message-written :
    (line : List ℕ) (m : StringMap) (content : List ℕ)
    → Fails (λ c. c == 13) line
    → All IsField m
    → read_message (line ++ crlf ++ write_headers m ++ crlf ++ content)
      ≡ some (record { start_line = line; fields = m; content = content })
read_message-written line m content one fields =
    let head = write_headers m ++ crlf in
    let rest = head ++ content in
    let text = line ++ 13 ∷ 10 ∷ rest in
    let rounds : length m < length text = omega (
      arith,
      length-write_headers m,
      length-append (write_headers m) crlf,
      length-append head content,
      length-append line (13 ∷ 10 ∷ rest),
    ) in
    ap read_message (
      ap (λ s. s ++ content) (append_assoc (line ++ crlf) (write_headers m) crlf)
      ∙ append_assoc (line ++ crlf) head content
      ∙ append_assoc line crlf rest)
    ∙ read_message-first text (length line) (find-line line rest one)
    ∙ ap (λ l. with_start l (read_fields (length text) (drop (length line + 2) text)))
        (take-append line (13 ∷ 10 ∷ rest))
    ∙ ap (λ s. with_start line (read_fields (length text) s)) (after_line line rest)
    ∙ ap (with_start line) (read_fields-write_headers (length text) m content rounds fields)
