-- ===== src/WebSocket/Handshake/Request.antt =====
-- The server accepts the request that the client builds, and reads the key in it.
use mathlib.Core.Path.{subst}
use simply_node_framework.Prelude.{
  ℕ, List, [], All-append, Bool-cases, ap, arith, false, if◌then◌else◌, inl, inr, not, refl, ◌&&◌,
  ◌++◌, ◌==◌, ◌∙◌, ◌∷◌, ◌≡◌, append_assoc, drop, sym, ==_iff, Option, length, none, some, true, ◌⊎◌,
  Bool, ◌||◌,
}
use simply_node_framework.Prelude.Bytes.{codes, find, bytes_eq, starts_with}
use simply_node_framework.Prelude.Decimal.{decimal, IsDecimal, decimal-IsDecimal, decimal-first}
use simply_node_framework.Prelude.Chars.{
  split_on, is_space, drop_while, drop_while_end, to_lower, trim_by, next_word, take_while,
}
use simply_node_framework.Prelude.Chars.Pieces.{
  Fails, all_fail→Fails, Passes, drop_while-Passes, take_while-piece,
}
use simply_node_framework.WebSocket.Handshake.{
  build_client_request, format_host_header, front_is, is_found, request_path, HttpMessage,
  is_trimmed, lower, read_headers, trim, HandshakeError, contains_token, create_client_key,
  empty_start_line, has_token, header_value, is_nil, is_upgrade_line, parse_http_message,
  read_message, validate_client_message, validate_client_request,
}
use simply_node_framework.WebSocket.Handshake.Lines.{
  HasNoNewline, IsSolid, IsSolid-HasNoNewline, no_newline, split_on-text_of, with_return,
  read_headers-blank, read_headers-line, trim-line, trim-value, with_header, base64_encode-IsSolid,
  base64_encode-first,
}
use simply_node_framework.Prelude.Maps.{bytes_lt, insert, lookup}
use simply_node_framework.WebSocket.Base64.{base64_decode, base64_encode, is_valid_client_key}
use simply_node_framework.WebSocket.Base64.RoundTrip.{IsBytes, decode-encode}

-- A path of a request line has no white space.
abbrev pub IsWord : List ℕ → Type 0
IsWord s = Fails is_space s

IsWord-HasNoNewline : (s : List ℕ) → IsWord s → HasNoNewline s
unfolding is_space
IsWord-HasNoNewline [] h = tt
IsWord-HasNoNewline (c ∷ s) (h, hs) = (ground (arith, h), IsWord-HasNoNewline s hs)

IsDecimal-IsSolid : (s : List ℕ) → IsDecimal s → IsSolid s
IsDecimal-IsSolid [] h = tt
IsDecimal-IsSolid (c ∷ s) (h, hs) = (ground (arith, h), IsDecimal-IsSolid s hs)

abbrev first_line : List ℕ → List ℕ
first_line path = codes "GET " ++ (request_path path ++ codes " HTTP/1.1")

abbrev host_line : List ℕ → ℕ → List ℕ
host_line host port = codes "Host: " ++ format_host_header host port

abbrev request_lines : List ℕ → ℕ → List ℕ → List ℕ → List (List ℕ)
request_lines host port path key =
    first_line path
    ∷ host_line host port
    ∷ codes "Upgrade: websocket"
    ∷ codes "Connection: Upgrade"
    ∷ (codes "Sec-WebSocket-Key: " ++ key)
    ∷ codes "Sec-WebSocket-Version: 13"
    ∷ []
    ∷ []

-- The host as it stands in front of the colon and the port.
abbrev host_part : List ℕ → List ℕ
host_part host =
    if is_found (find (codes ":") host) && not (front_is b'[' host)
    then codes "[" ++ host ++ codes "]"
    else host

host_part-HasNoNewline : (host : List ℕ) → HasNoNewline host → HasNoNewline (host_part host)
host_part-HasNoNewline host h =
    elim (Bool-cases (is_found (find (codes ":") host) && not (front_is b'[' host))) [
      | inl wrapped ↦
          rw wrapped (refl, All-append (λ c. (c == b'\n') ≡ false) host (codes "]") h (refl, tt))
      | inr plain ↦ rw plain h
    ]

format-HasNoNewline :
    (host : List ℕ) (port : ℕ) → HasNoNewline host → HasNoNewline (format_host_header host port)
unfolding format_host_header
format-HasNoNewline host port h =
    All-append (λ c. (c == b'\n') ≡ false) (host_part host ++ codes ":") (decimal port)
      (All-append (λ c. (c == b'\n') ≡ false) (host_part host) (codes ":")
        (host_part-HasNoNewline host h) (refl, tt))
      (IsSolid-HasNoNewline (decimal port)
        (IsDecimal-IsSolid (decimal port) (decimal-IsDecimal port)))

request_path-IsWord : (path : List ℕ) → IsWord path → IsWord (request_path path)
unfolding request_path is_space
request_path-IsWord [] h = (refl, tt)
request_path-IsWord (c ∷ path) h = elim (Bool-cases (c == b'/')) [
  | inl rooted ↦ rw rooted h
  | inr other ↦ rw other (refl, h)
]

split_on-request :
    (host : List ℕ) (port : ℕ) (path key : List ℕ)
    → HasNoNewline host
    → IsWord path
    → IsSolid key
    → split_on b'\n' (build_client_request host port path key)
      ≡ with_return (request_lines host port path key)
unfolding build_client_request
split_on-request host port path key hh hp hk =
    let append = All-append (λ c. (c == b'\n') ≡ false) in
    split_on-text_of (request_lines host port path key) (
      append (codes "GET ") (request_path path ++ codes " HTTP/1.1")
          (no_newline (codes "GET ") refl)
          (append (request_path path) (codes " HTTP/1.1")
            (IsWord-HasNoNewline (request_path path) (request_path-IsWord path hp))
            (no_newline (codes " HTTP/1.1") refl)),
      (
        append (codes "Host: ") (format_host_header host port) (no_newline (codes "Host: ") refl)
            (format-HasNoNewline host port hh),
        (
          no_newline (codes "Upgrade: websocket") refl,
          (
            no_newline (codes "Connection: Upgrade") refl,
            (
              append (codes "Sec-WebSocket-Key: ") key
                  (no_newline (codes "Sec-WebSocket-Key: ") refl) (IsSolid-HasNoNewline key hk),
              (no_newline (codes "Sec-WebSocket-Version: 13") refl, (tt, tt)),
            ),
          ),
        ),
      ),
    )

abbrev request_message : List ℕ → List ℕ → List ℕ → HttpMessage
request_message line host_value key = record {
  start_line = line;
  headers =
      (codes "connection", codes "Upgrade")
      ∷ (codes "host", host_value)
      ∷ (codes "sec-websocket-key", key)
      ∷ (codes "sec-websocket-version", codes "13")
      ∷ (codes "upgrade", codes "websocket")
      ∷ [];
}

trim-first_line : (path : List ℕ) → trim (first_line path ++ codes "\r") ≡ first_line path
trim-first_line path =
    let x = codes "ET " ++ (request_path path ++ codes " ") in
    let k = codes "TTP/1.1" in
    let e : (b'G' ∷ x) ++ (b'H' ∷ k) ≡ first_line path =
      ap (λ t. codes "GET " ++ t) (append_assoc (request_path path) (codes " ") (b'H' ∷ k)) in
    ap (λ t. trim (t ++ codes "\r")) (sym e)
    ∙ ap trim (append_assoc (b'G' ∷ x) (b'H' ∷ k) (codes "\r"))
    ∙ trim-line b'G' x b'H' k refl (all_fail→Fails is_trimmed (b'H' ∷ k) refl)
    ∙ e

trim-host_line :
    (host : List ℕ) (port : ℕ) → trim (host_line host port ++ codes "\r") ≡ host_line host port
unfolding format_host_header
trim-host_line host port =
    let x = codes "ost: " ++ (host_part host ++ codes ":") in
    let (c, s, e) = decimal-first port in
    let solid : IsSolid (c ∷ s) =
      subst IsSolid e (IsDecimal-IsSolid (decimal port) (decimal-IsDecimal port)) in
    ap (λ d. trim ((b'H' ∷ x) ++ d ++ codes "\r")) e
    ∙ ap trim (append_assoc (b'H' ∷ x) (c ∷ s) (codes "\r"))
    ∙ trim-line b'H' x c s refl solid
    ∙ ap (λ d. (b'H' ∷ x) ++ d) (sym e)

-- The lines behind the first.
read_headers-request :
    (host : List ℕ) (port : ℕ) (path : List ℕ) (c : ℕ) (s line : List ℕ)
    → IsSolid (c ∷ s)
    → read_headers
        (drop 1 (with_return (request_lines host port path (c ∷ s))))
        (record { start_line = line; headers = [] })
      ≡ inr (request_message line (trim (drop 5 (host_line host port))) (c ∷ s))
unfolding trim find insert trim_by drop_while drop_while_end starts_with bytes_eq bytes_lt lower
    to_lower
read_headers-request host port path c s line h =
    let key_line = codes "Sec-WebSocket-Key: " ++ (c ∷ s) in
    let host_value = trim (drop 5 (host_line host port)) in
    let end = codes "\r" ∷ [] in
    let m0 : HttpMessage = record { start_line = line; headers = [] } in
    let m1 = with_header (codes "host") host_value m0 in
    let m2 = with_header (codes "upgrade") (codes "websocket") m1 in
    let m3 = with_header (codes "connection") (codes "Upgrade") m2 in
    let m4 = with_header (codes "sec-websocket-key") (c ∷ s) m3 in
    let l4 = codes "Sec-WebSocket-Version: 13\r" ∷ end in
    let l3 = (key_line ++ codes "\r") ∷ l4 in
    let l2 = codes "Connection: Upgrade\r" ∷ l3 in
    let l1 = codes "Upgrade: websocket\r" ∷ l2 in
    read_headers-line (host_line host port ++ codes "\r") (host_line host port) host_value 4 l1 m0
      (trim-host_line host port) refl refl refl
    ∙ read_headers-line (codes "Upgrade: websocket\r") (codes "Upgrade: websocket")
        (codes "websocket") 7 l2 m1 refl refl refl refl
    ∙ read_headers-line (codes "Connection: Upgrade\r") (codes "Connection: Upgrade")
        (codes "Upgrade") 10 l3 m2 refl refl refl refl
    ∙ read_headers-line (key_line ++ codes "\r") key_line (c ∷ s) 17 l4 m3
        (trim-line b'S' (codes "ec-WebSocket-Key: ") c s refl h) refl refl (trim-value c s h)
    ∙ read_headers-line (codes "Sec-WebSocket-Version: 13\r") (codes "Sec-WebSocket-Version: 13")
        (codes "13") 21 end m4 refl refl refl refl
    ∙ read_headers-blank [] (with_header (codes "sec-websocket-version") (codes "13") m4)

read_request :
    (host : List ℕ) (port : ℕ) (path : List ℕ) (c : ℕ) (s : List ℕ)
    → IsSolid (c ∷ s)
    → read_message (with_return (request_lines host port path (c ∷ s)))
      ≡ inr (request_message (first_line path) (trim (drop 5 (host_line host port))) (c ∷ s))
unfolding read_message
read_request host port path c s h =
    ap
      (λ l.
        if is_nil l
        then inl empty_start_line
        else read_headers (drop 1 (with_return (request_lines host port path (c ∷ s))))
            (record { start_line = l; headers = [] }))
      (trim-first_line path)
    ∙ read_headers-request host port path c s (first_line path) h

IsWord-Passes : (s : List ℕ) → IsWord s → Passes (λ c. not (is_space c)) s
IsWord-Passes [] h = tt
IsWord-Passes (c ∷ s) (h, hs) = (ap not h, IsWord-Passes s hs)

-- The path and what is behind it, where `>>` has taken the method.
path_word :
    (t : List ℕ)
    → IsWord t
    → next_word (codes " /" ++ (t ++ codes " HTTP/1.1")) ≡ (b'/' ∷ t, codes " HTTP/1.1")
unfolding next_word take_while drop_while is_space
path_word t h =
    let p : ℕ → Bool = λ c. not (is_space c) in
    let passes = IsWord-Passes t h in
    ap (λ w. (b'/' ∷ w, drop_while p (t ++ codes " HTTP/1.1")))
      (take_while-piece p t b' ' (codes "HTTP/1.1") passes refl)
    ∙ ap (λ r. (b'/' ∷ t, r)) (drop_while-Passes p t (codes " HTTP/1.1") passes)

is_upgrade_line_lem :
    (t : List ℕ) → IsWord t → is_upgrade_line (codes "GET /" ++ (t ++ codes " HTTP/1.1")) ≡ true
unfolding is_upgrade_line next_word take_while drop_while is_space bytes_eq starts_with
is_upgrade_line_lem t h =
    ap
      (λ w.
        not (is_nil w.0 || is_nil (next_word w.1).0)
        && true
        && starts_with (codes "HTTP/") (next_word w.1).0)
      (path_word t h)

request_path-rooted : (path : List ℕ) → (t : List ℕ) × (request_path path ≡ b'/' ∷ t)
unfolding request_path
request_path-rooted [] = ([], refl)
request_path-rooted (c ∷ path) = elim (Bool-cases (c == b'/')) [
  | inl rooted ↦ (path, rw rooted (ap (λ d. d ∷ path) ((==_iff c b'/').0 rooted)))
  | inr other ↦ (c ∷ path, rw other refl)
]

first_line-upgrades : (path : List ℕ) → IsWord path → is_upgrade_line (first_line path) ≡ true
first_line-upgrades path h =
    let (t, e) = request_path-rooted path in
    let word : IsWord (b'/' ∷ t) = subst IsWord e (request_path-IsWord path h) in
    ap (λ r. is_upgrade_line (codes "GET " ++ (r ++ codes " HTTP/1.1"))) e
    ∙ is_upgrade_line_lem t word.1

validate-message :
    (line host_value : List ℕ) (c : ℕ) (s : List ℕ)
    → is_upgrade_line line ≡ true
    → is_valid_client_key (c ∷ s) ≡ true
    → validate_client_message (request_message line host_value (c ∷ s)) ≡ (c ∷ s, none)
unfolding validate_client_message header_value contains_token has_token split_on trim trim_by
    drop_while drop_while_end lower to_lower lookup bytes_eq
validate-message line host_value c s upgrades valid = rw (upgrades, valid) refl

-- A server gives back the key in the request that a client builds, and no error, for every host with
-- no newline, every port, every path with no white space and every key that is drawn from 16 bytes.
pub validate-request :
    (host : List ℕ) (port : ℕ) (path random_bytes : List ℕ)
    → HasNoNewline host
    → IsWord path
    → length random_bytes ≡ 16
    → IsBytes random_bytes
    → validate_client_request (build_client_request host port path (create_client_key random_bytes))
      ≡ (create_client_key random_bytes, none)
unfolding validate_client_request parse_http_message create_client_key is_valid_client_key
validate-request host port path random_bytes hh hp size bytes =
    let key = base64_encode random_bytes in
    let decoded : base64_decode key ≡ some random_bytes =
      decode-encode random_bytes (omega (arith, size)) bytes in
    let valid : is_valid_client_key key ≡ true =
      ap (λ o. elim o [ none ↦ false | some found ↦ length found == 16 ]) decoded
      ∙ (==_iff _ 16).1 size in
    let (c, s, e) = base64_encode-first random_bytes (omega (arith, size)) in
    let solid = base64_encode-IsSolid random_bytes in
    let solid_cons : IsSolid (c ∷ s) = subst IsSolid e solid in
    let answer : HandshakeError ⊎ HttpMessage → List ℕ × Option HandshakeError =
      λ p. elim p [ inl e ↦ ([], some e) | inr message ↦ validate_client_message message ] in
    ap (λ ls. answer (read_message ls)) (split_on-request host port path key hh hp solid)
    ∙ ap (λ k. answer (read_message (with_return (request_lines host port path k)))) e
    ∙ ap answer (read_request host port path c s solid_cons)
    ∙ validate-message (first_line path) (trim (drop 5 (host_line host port))) c s
        (first_line-upgrades path hp) (subst (λ k. is_valid_client_key k ≡ true) e valid)
    ∙ ap (λ k. (k, none)) (sym e)
