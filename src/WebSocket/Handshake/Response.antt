-- ===== src/WebSocket/Handshake/Response.antt =====
-- The client accepts the response that the server builds for its key.
use mathlib.Core.Path.{subst}
use simply_node_framework.WebSocket.Sha1.{final, new_sha1, update}
use simply_node_framework.WebSocket.Sha1.Digest.{length-final}
use simply_node_framework.Prelude.{
  ℕ, List, [], inr, refl, ◌++◌, ◌==◌, ◌∷◌, ◌≡◌, All-append, false, ◌∙◌, ap, arith, if◌then◌else◌,
  none, some, sym, Bool-cases, inl,
}
use simply_node_framework.Prelude.Bytes.{codes, find, bytes_eq, starts_with}
use simply_node_framework.Prelude.Chars.{
  split_on, trim_by, drop_while, drop_while_end, to_lower, digit_value, digits_value, is_space,
  next_word, take_while,
}
use simply_node_framework.Prelude.Maps.{insert, bytes_lt, lookup}
use simply_node_framework.WebSocket.Handshake.{
  compute_accept_key, HttpMessage, build_server_response, read_message, trim, lower, contains_token,
  has_token, header_value, invalid_accept, parse_http_message, read_int, validate_server_message,
  validate_server_response, web_socket_guid,
}
use simply_node_framework.WebSocket.Handshake.Lines.{
  HasNoNewline, IsSolid, no_newline, split_on-text_of, trim-line, with_return, read_headers-blank,
  read_headers-line, trim-value, with_header, IsSolid-HasNoNewline, base64_encode-IsSolid,
  base64_encode-first,
}

abbrev response_lines : List ℕ → List (List ℕ)
response_lines accept =
    codes "HTTP/1.1 101 Switching Protocols"
    ∷ codes "Upgrade: websocket"
    ∷ codes "Connection: Upgrade"
    ∷ (codes "Sec-WebSocket-Accept: " ++ accept)
    ∷ []
    ∷ []

split_on-response :
    (key : List ℕ)
    → HasNoNewline (compute_accept_key key)
    → split_on b'\n' (build_server_response key)
      ≡ with_return (response_lines (compute_accept_key key))
unfolding build_server_response
split_on-response key h =
    let accept_line = codes "Sec-WebSocket-Accept: " ++ compute_accept_key key in
    split_on-text_of (response_lines (compute_accept_key key)) (
      no_newline (codes "HTTP/1.1 101 Switching Protocols") refl,
      (
        no_newline (codes "Upgrade: websocket") refl,
        (
          no_newline (codes "Connection: Upgrade") refl,
          (
            All-append (λ c. (c == b'\n') ≡ false) (codes "Sec-WebSocket-Accept: ")
                (compute_accept_key key) (no_newline (codes "Sec-WebSocket-Accept: ") refl) h,
            (tt, tt),
          ),
        ),
      ),
    )

abbrev response_message : List ℕ → HttpMessage
response_message accept = record {
  start_line = codes "HTTP/1.1 101 Switching Protocols";
  headers =
      (codes "connection", codes "Upgrade")
      ∷ (codes "sec-websocket-accept", accept)
      ∷ (codes "upgrade", codes "websocket")
      ∷ [];
}

read_response :
    (c : ℕ) (s : List ℕ)
    → IsSolid (c ∷ s)
    → read_message (with_return (response_lines (c ∷ s))) ≡ inr (response_message (c ∷ s))
unfolding read_message trim find insert trim_by drop_while drop_while_end starts_with bytes_eq
    bytes_lt lower to_lower
read_response c s h =
    let accept_line = codes "Sec-WebSocket-Accept: " ++ (c ∷ s) in
    let end = codes "\r" ∷ [] in
    let message : HttpMessage = record {
      start_line = codes "HTTP/1.1 101 Switching Protocols";
      headers = [];
    } in
    let upgraded = with_header (codes "upgrade") (codes "websocket") message in
    let connected = with_header (codes "connection") (codes "Upgrade") upgraded in
    read_headers-line (codes "Upgrade: websocket\r") (codes "Upgrade: websocket")
      (codes "websocket") 7 (codes "Connection: Upgrade\r" ∷ (accept_line ++ codes "\r") ∷ end)
      message refl refl refl refl
    ∙ read_headers-line (codes "Connection: Upgrade\r") (codes "Connection: Upgrade")
        (codes "Upgrade") 10 ((accept_line ++ codes "\r") ∷ end) upgraded refl refl refl refl
    ∙ read_headers-line (accept_line ++ codes "\r") accept_line (c ∷ s) 20 end connected
        (trim-line b'S' (codes "ec-WebSocket-Accept: ") c s refl h) refl refl (trim-value c s h)
    ∙ read_headers-blank [] (with_header (codes "sec-websocket-accept") (c ∷ s) connected)

accept_key_lem :
    (key : List ℕ) → (c : ℕ) × (s : List ℕ) × (compute_accept_key key ≡ c ∷ s) × IsSolid (c ∷ s)
unfolding compute_accept_key
accept_key_lem key =
    let digest = final (update (key ++ web_socket_guid) new_sha1) in
    let size = length-final (update (key ++ web_socket_guid) new_sha1) in
    let (c, s, e) = base64_encode-first digest (omega (arith, size)) in
    (c, s, e, subst IsSolid e (base64_encode-IsSolid digest))

parse-response :
    (key : List ℕ)
    → parse_http_message (build_server_response key)
      ≡ inr (response_message (compute_accept_key key))
unfolding parse_http_message
parse-response key =
    let (c, s, e, solid) = accept_key_lem key in
    let clean : HasNoNewline (compute_accept_key key) =
      subst HasNoNewline (sym e) (IsSolid-HasNoNewline (c ∷ s) solid) in
    ap read_message (split_on-response key clean)
    ∙ ap (λ a. read_message (with_return (response_lines a))) e
    ∙ read_response c s solid
    ∙ ap (λ a. inr (response_message a)) (sym e)

validate-message :
    (accept asked : List ℕ)
    → validate_server_message (response_message accept) asked
      ≡ (if bytes_eq accept (compute_accept_key asked) then none else some invalid_accept)
unfolding validate_server_message next_word read_int starts_with header_value contains_token
    has_token split_on trim trim_by drop_while drop_while_end take_while lower to_lower lookup
    is_space digits_value digit_value bytes_eq
validate-message accept asked = elim (Bool-cases (bytes_eq accept (compute_accept_key asked))) [
  | inl same ↦ rw same refl
  | inr other ↦ rw other refl
]

-- The client that asked with one key accepts the response that the server builds for another exactly
-- where the two have the same accept key, so in particular where they are the same key. Else its
-- answer is that the accept key is invalid.
pub validate-response :
    (key asked : List ℕ)
    → validate_server_response (build_server_response key) asked ≡ (
        if bytes_eq (compute_accept_key key) (compute_accept_key asked)
        then none
        else some invalid_accept)
unfolding validate_server_response
validate-response key asked =
    ap (λ p. elim p [ inl e ↦ some e | inr message ↦ validate_server_message message asked ])
      (parse-response key)
    ∙ validate-message (compute_accept_key key) asked
