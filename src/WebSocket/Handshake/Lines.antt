-- ===== src/WebSocket/Handshake/Lines.antt =====
-- The lines of a handshake that `std::getline` and `trim` give back, and the bytes of an accept key.
use Prim.Native.Nat.{bit_and}
use simply_node_framework.Prelude.{
  ℕ, List, [], arith, All-append, ap, append_assoc, false, get_or, length, not, refl, sym, true,
  ◌++◌, ◌<◌, ◌==◌, ◌∙◌, ◌∷◌, ◌≡◌, drop, ◌/◌, ◌^◌, All, inr, some, take, ◌+◌,
}
use simply_node_framework.Prelude.Bytes.{codes, find}
use simply_node_framework.Prelude.Bits.{all_below, all_below_lem}
use simply_node_framework.Prelude.Bits.Masks.{bit_and_0x3f}
use simply_node_framework.Prelude.Maps.{insert}
use simply_node_framework.Prelude.Chars.{split_on, drop_while, trim_by, drop_while_end}
use simply_node_framework.Prelude.Chars.Pieces.{
  split_on-piece, Fails, all_fail, all_fail→Fails, trim_by-Fails, trim_by-line,
}
use simply_node_framework.WebSocket.Base64.{base64_encode, letter, alphabet, triple}
use simply_node_framework.WebSocket.Handshake.{
  end_line, is_trimmed, trim, HttpMessage, is_nil, lower, read_headers,
}

-- No byte that `trim` takes off, which the newline is among.
abbrev pub IsSolid : List ℕ → Type 0
IsSolid s = Fails is_trimmed s

abbrev pub HasNoNewline : List ℕ → Type 0
HasNoNewline s = Fails (λ c. c == b'\n') s

-- One line of a message, behind which `\r` is left.
pub split_on-line :
    (s rest : List ℕ)
    → HasNoNewline s
    → split_on b'\n' ((s ++ end_line) ++ rest) ≡ (s ++ codes "\r") ∷ split_on b'\n' rest
split_on-line s rest h =
    ap (split_on b'\n')
      (append_assoc s end_line rest ∙ sym (append_assoc s (codes "\r") (b'\n' ∷ rest)))
    ∙ split_on-piece b'\n' (s ++ codes "\r") rest
        (All-append (λ c. (c == b'\n') ≡ false) s (codes "\r") h (refl, tt))

-- A message that ends each of its lines so.
abbrev pub text_of : List (List ℕ) → List ℕ
text_of [] = []
text_of (s ∷ lines) = (s ++ end_line) ++ text_of lines

abbrev pub with_return : List (List ℕ) → List (List ℕ)
with_return [] = []
with_return (s ∷ lines) = (s ++ codes "\r") ∷ with_return lines

pub split_on-text_of :
    (lines : List (List ℕ))
    → All HasNoNewline lines
    → split_on b'\n' (text_of lines) ≡ with_return lines
unfolding split_on
split_on-text_of [] h = refl
split_on-text_of (s ∷ lines) (h, hs) =
    split_on-line s (text_of lines) h
    ∙ ap (λ ls. (s ++ codes "\r") ∷ ls) (split_on-text_of lines hs)

pub no_newline : (s : List ℕ) → all_fail (λ c. c == b'\n') s ≡ true → HasNoNewline s
no_newline s e = all_fail→Fails (λ c. c == b'\n') s e

pub trim-line :
    (d : ℕ) (x : List ℕ) (c : ℕ) (s : List ℕ)
    → is_trimmed d ≡ false
    → IsSolid (c ∷ s)
    → trim ((d ∷ x) ++ ((c ∷ s) ++ codes "\r")) ≡ (d ∷ x) ++ (c ∷ s)
unfolding trim
trim-line d x c s first h =
    ap (trim_by is_trimmed) (sym (append_assoc (d ∷ x) (c ∷ s) (codes "\r")))
    ∙ trim_by-line is_trimmed d x c s (codes "\r") first h (refl, tt)

-- The space behind the colon of a header is dropped.
pub trim-value : (c : ℕ) (s : List ℕ) → IsSolid (c ∷ s) → trim (b' ' ∷ c ∷ s) ≡ c ∷ s
unfolding trim trim_by drop_while
trim-value c s h = trim_by-Fails is_trimmed c s h

abbrev pub with_header : List ℕ → List ℕ → HttpMessage → HttpMessage
with_header name value message = record {
  start_line = message.start_line;
  headers = insert name value message.headers;
}

-- One header line, in a message whose later lines are read behind it.
pub read_headers-line :
    (raw line value : List ℕ) (colon : ℕ) (lines : List (List ℕ)) (message : HttpMessage)
    → trim raw ≡ line
    → is_nil line ≡ false
    → find (codes ":") line ≡ some colon
    → trim (drop (colon + 1) line) ≡ value
    → read_headers (raw ∷ lines) message
      ≡ read_headers lines (with_header (lower (trim (take colon line))) value message)
unfolding read_headers
read_headers-line raw line value colon lines message cut full there behind =
    let is_full : is_nil (trim raw) ≡ false = ap is_nil cut ∙ full in
    let is_there : find (codes ":") (trim raw) ≡ some colon = ap (find (codes ":")) cut ∙ there in
    rw (is_full, is_there, cut, behind) refl

pub read_headers-blank :
    (lines : List (List ℕ)) (message : HttpMessage)
    → read_headers (codes "\r" ∷ lines) message ≡ inr message
unfolding read_headers trim trim_by drop_while drop_while_end
read_headers-blank lines message = refl

solid_letters : all_below 64 (λ n. not (is_trimmed (get_or alphabet n 0))) ≡ true
solid_letters = refl

letter-IsSolid : (x : ℕ) → is_trimmed (letter x) ≡ false
unfolding letter
letter-IsSolid x =
    let both =
      all_below_lem 64 (λ n. not (is_trimmed (get_or alphabet n 0))) solid_letters (bit_and x 0x3f)
        (omega (arith, bit_and_0x3f x)) in
    ground (arith, both)

pub base64_encode-IsSolid : (bytes : List ℕ) → IsSolid (base64_encode bytes)
unfolding base64_encode
base64_encode-IsSolid [] = tt
base64_encode-IsSolid (a ∷ []) = (
  letter-IsSolid (triple a 0 0 / 2 ^ 18),
  (letter-IsSolid (triple a 0 0 / 2 ^ 12), (refl, (refl, tt))),
)
base64_encode-IsSolid (a ∷ b ∷ []) = (
  letter-IsSolid (triple a b 0 / 2 ^ 18),
  (letter-IsSolid (triple a b 0 / 2 ^ 12), (letter-IsSolid (triple a b 0 / 2 ^ 6), (refl, tt))),
)
base64_encode-IsSolid (a ∷ b ∷ c ∷ rest) = (
  letter-IsSolid (triple a b c / 2 ^ 18),
  (
    letter-IsSolid (triple a b c / 2 ^ 12),
    (
      letter-IsSolid (triple a b c / 2 ^ 6),
      (letter-IsSolid (triple a b c), base64_encode-IsSolid rest),
    ),
  ),
)

pub IsSolid-HasNoNewline : (s : List ℕ) → IsSolid s → HasNoNewline s
IsSolid-HasNoNewline [] h = tt
IsSolid-HasNoNewline (c ∷ s) (h, hs) = (ground (arith, h), IsSolid-HasNoNewline s hs)

-- What is written for at least one byte has a first byte.
pub base64_encode-first :
    (bytes : List ℕ) → 0 < length bytes → (c : ℕ) × (s : List ℕ) × (base64_encode bytes ≡ c ∷ s)
unfolding base64_encode
base64_encode-first [] h = absurd (omega arith)
base64_encode-first (a ∷ []) h =
    (letter (triple a 0 0 / 2 ^ 18), drop 1 (base64_encode (a ∷ [])), refl)
base64_encode-first (a ∷ b ∷ []) h =
    (letter (triple a b 0 / 2 ^ 18), drop 1 (base64_encode (a ∷ b ∷ [])), refl)
base64_encode-first (a ∷ b ∷ c ∷ rest) h =
    (letter (triple a b c / 2 ^ 18), drop 1 (base64_encode (a ∷ b ∷ c ∷ rest)), refl)
