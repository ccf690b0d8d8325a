-- ===== src/WebSocket/Handshake.antt =====
-- lib/WebSocket/src/SNFWebSocket/WebSocketHandshake.h and WebSocketHandshake.cpp: the opening
-- handshake, both sides. The 16 random bytes of `createClientKey` are an argument. An error message is
-- a constructor of `HandshakeError`.
pub mod Lines
pub mod Response
pub mod Request
pub mod Agreed
mod Tests
use simply_node_framework.Prelude.{
  ℕ, Bool, List, Option, [], inl, drop, false, if◌then◌else◌, inr, leb, map, none, not, some, take,
  true, ◌&&◌, ◌++◌, ◌+◌, ◌-◌, ◌==◌, ◌^◌, ◌||◌, ◌∷◌, ◌⊎◌,
}
use simply_node_framework.Prelude.Bytes.{codes, bytes_eq, find, starts_with}
use simply_node_framework.Prelude.Chars.{
  to_lower, digit_value, digits_value, drop_while, has_digit, is_negative, is_space, next_word,
  skip_sign, split_on, trim_by,
}
use simply_node_framework.Prelude.Maps.{lookup, insert}
use simply_node_framework.Prelude.Decimal.{decimal}
use simply_node_framework.WebSocket.Base64.{base64_encode, is_valid_client_key}
use simply_node_framework.WebSocket.Sha1.{new_sha1, final, update}

pub record HttpMessage : Type 0 where
  pub start_line : List ℕ
  pub headers : List (List ℕ × List ℕ)

pub data HandshakeError : Type 0 where
  no_start_line empty_start_line invalid_header_line : HandshakeError
  not_101 invalid_request_line no_upgrade no_connection : HandshakeError
  invalid_accept unsupported_version no_key invalid_key : HandshakeError

abbrev pub is_trimmed : ℕ → Bool
is_trimmed c = c == b' ' || c == b'\t' || c == b'\r' || c == b'\n'

unfoldable pub trim : List ℕ → List ℕ
unfolding trim_by
trim value = trim_by is_trimmed value

unfoldable pub lower : List ℕ → List ℕ
unfolding to_lower
lower value = map to_lower value

-- Whether one of the tokens is the one expected.
pub has_token : List (List ℕ) → List ℕ → Bool
unfolding bytes_eq
has_token [] expected = false
has_token (token ∷ tokens) expected =
    bytes_eq (lower (trim token)) expected || has_token tokens expected

pub contains_token : List ℕ → List ℕ → Bool
unfolding split_on has_token
contains_token value expected = has_token (split_on b',' value) expected

pub header_value : HttpMessage → List ℕ → List ℕ
unfolding lookup
header_value message key = elim (lookup (lower key) message.headers) [ none ↦ [] | some v ↦ v ]

abbrev pub front_is : ℕ → List ℕ → Bool
front_is mark [] = false
front_is mark (c ∷ s) = c == mark

abbrev pub is_found : Option ℕ → Bool
is_found none = false
is_found (some i) = true

pub format_host_header : List ℕ → ℕ → List ℕ
unfolding find decimal
format_host_header host port =
    (if is_found (find (codes ":") host) && not (front_is b'[' host)
      then codes "[" ++ host ++ codes "]"
      else host)
    ++ codes ":"
    ++ decimal port

pub create_client_key : List ℕ → List ℕ
create_client_key random_bytes = base64_encode random_bytes

abbrev pub web_socket_guid : List ℕ
web_socket_guid = codes "258EAFA5-E914-47DA-95CA-C5AB0DC85B11"

pub compute_accept_key : List ℕ → List ℕ
compute_accept_key client_key =
    base64_encode (final (update (client_key ++ web_socket_guid) new_sha1))

abbrev pub end_line : List ℕ
end_line = codes "\r\n"

pub request_path : List ℕ → List ℕ
request_path [] = codes "/"
request_path (c ∷ path) = if c == b'/' then c ∷ path else b'/' ∷ c ∷ path

pub build_client_request : List ℕ → ℕ → List ℕ → List ℕ → List ℕ
unfolding format_host_header request_path
build_client_request host port path client_key =
    (codes "GET " ++ request_path path ++ codes " HTTP/1.1" ++ end_line)
    ++ ((codes "Host: " ++ format_host_header host port ++ end_line)
        ++ ((codes "Upgrade: websocket" ++ end_line)
            ++ ((codes "Connection: Upgrade" ++ end_line)
                ++ ((codes "Sec-WebSocket-Key: " ++ client_key ++ end_line)
                    ++ ((codes "Sec-WebSocket-Version: 13" ++ end_line) ++ end_line)))))

pub build_server_response : List ℕ → List ℕ
unfolding compute_accept_key
build_server_response client_key =
    (codes "HTTP/1.1 101 Switching Protocols" ++ end_line)
    ++ ((codes "Upgrade: websocket" ++ end_line)
        ++ ((codes "Connection: Upgrade" ++ end_line)
            ++ ((codes "Sec-WebSocket-Accept: " ++ compute_accept_key client_key ++ end_line)
                ++ end_line)))

abbrev pub is_nil : List ℕ → Bool
is_nil [] = true
is_nil _ = false

-- The loop over the lines behind the first.
pub read_headers : List (List ℕ) → HttpMessage → HandshakeError ⊎ HttpMessage
unfolding find insert
read_headers [] message = inr message
read_headers (raw ∷ lines) message =
    let line = trim raw in
    if is_nil line then inr message else elim (find (codes ":") line) [
      | none ↦ inl invalid_header_line
      | some colon ↦ read_headers lines (record {
        start_line = message.start_line;
        headers =
            insert (lower (trim (take colon line))) (trim (drop (colon + 1) line)) message.headers;
      })
    ]

pub read_message : List (List ℕ) → HandshakeError ⊎ HttpMessage
unfolding read_headers
read_message [] = inl no_start_line
read_message (raw ∷ lines) =
    let line = trim raw in
    if is_nil line
    then inl empty_start_line
    else read_headers lines (record { start_line = line; headers = [] })

-- `parseHttpMessage`.
pub parse_http_message : List ℕ → HandshakeError ⊎ HttpMessage
unfolding split_on read_message
parse_http_message raw = read_message (split_on b'\n' raw)

-- `stream >> statusCode`: the sign and the magnitude; `none` is a failure.
pub read_int : List ℕ → Option (Bool × ℕ)
unfolding drop_while digits_value digit_value
read_int s =
    let signed = drop_while is_space s in
    let plain = skip_sign signed in
    let value = digits_value 10 0 plain in
    let negative = is_negative signed in
    if has_digit 10 plain && leb value (if negative then 2 ^ 31 else 2 ^ 31 - 1)
    then some (negative, value)
    else none

abbrev pub is_101 : Option (Bool × ℕ) → Bool
is_101 none = false
is_101 (some (negative, value)) = not negative && value == 101

-- The answer of `validateServerHandshakeResponse`, `none` where it is `true`.
pub validate_server_message : HttpMessage → List ℕ → Option HandshakeError
unfolding next_word read_int starts_with bytes_eq header_value contains_token compute_accept_key
validate_server_message message expected_client_key =
    let (protocol, rest) = next_word message.start_line in
    if is_nil protocol || not (is_101 (read_int rest)) || not (starts_with (codes "HTTP/") protocol)
    then some not_101
    else if not (bytes_eq (lower (header_value message (codes "Upgrade"))) (codes "websocket"))
    then some no_upgrade
    else if not (contains_token (header_value message (codes "Connection")) (codes "upgrade"))
    then some no_connection
    else if not (
        bytes_eq (header_value message (codes "Sec-WebSocket-Accept"))
          (compute_accept_key expected_client_key))
    then some invalid_accept
    else none

pub validate_server_response : List ℕ → List ℕ → Option HandshakeError
unfolding parse_http_message validate_server_message
validate_server_response raw_response expected_client_key = elim (parse_http_message raw_response) [
  | inl e ↦ some e
  | inr message ↦ validate_server_message message expected_client_key
]

-- `startLine >> method >> path >> protocol` and the tests of the three words.
pub is_upgrade_line : List ℕ → Bool
unfolding next_word bytes_eq starts_with
is_upgrade_line line =
    let (method, behind) = next_word line in
    let (path, last) = next_word behind in
    let (protocol, rest) = next_word last in
    not (is_nil method || is_nil path || is_nil protocol)
    && bytes_eq method (codes "GET")
    && starts_with (codes "HTTP/") protocol

-- The key and the answer of `validateClientHandshakeRequest`.
pub validate_client_message : HttpMessage → List ℕ × Option HandshakeError
unfolding is_upgrade_line bytes_eq header_value contains_token is_valid_client_key
validate_client_message message =
    let key = header_value message (codes "Sec-WebSocket-Key") in
    if not (is_upgrade_line message.start_line)
    then ([], some invalid_request_line)
    else if not (bytes_eq (lower (header_value message (codes "Upgrade"))) (codes "websocket"))
    then ([], some no_upgrade)
    else if not (contains_token (header_value message (codes "Connection")) (codes "upgrade"))
    then ([], some no_connection)
    else if not (bytes_eq (header_value message (codes "Sec-WebSocket-Version")) (codes "13"))
    then ([], some unsupported_version)
    else if is_nil key
    then (key, some no_key)
    else if not (is_valid_client_key key)
    then (key, some invalid_key)
    else (key, none)

pub validate_client_request : List ℕ → List ℕ × Option HandshakeError
unfolding parse_http_message validate_client_message
validate_client_request raw_request = elim (parse_http_message raw_request) [
  | inl e ↦ ([], some e)
  | inr message ↦ validate_client_message message
]
