-- ===== src/WebSocket/Handshake/Agreed.antt =====
-- The two sides of the opening handshake together.
use simply_node_framework.Prelude.{
  ℕ, List, Option, ap, arith, if◌then◌else◌, length, none, refl, some, true, ◌++◌, ◌∙◌, ◌≡◌,
}
use simply_node_framework.Prelude.Bytes.{bytes_eq_iff, bytes_eq}
use simply_node_framework.WebSocket.Handshake.{
  compute_accept_key, HandshakeError, build_client_request, build_server_response,
  create_client_key, invalid_accept, validate_client_request, validate_server_response,
  web_socket_guid,
}
use simply_node_framework.WebSocket.Handshake.Lines.{HasNoNewline, IsSolid, base64_encode-IsSolid}
use simply_node_framework.WebSocket.Handshake.Request.{validate-request, IsWord}
use simply_node_framework.WebSocket.Handshake.Response.{validate-response}
use simply_node_framework.WebSocket.Base64.{base64_decode}
use simply_node_framework.WebSocket.Base64.RoundTrip.{IsBytes, decode-encode, length-encode}
use simply_node_framework.WebSocket.Sha1.{final, new_sha1, update}
use simply_node_framework.WebSocket.Sha1.Digest.{length-final, final-IsBytes}

-- What the server reads in the request of a client, and what the client says to the response that the
-- server builds for the key it has read.
abbrev pub handshake : List ℕ → ℕ → List ℕ → List ℕ → Option HandshakeError × Option HandshakeError
handshake host port path random_bytes =
    let key = create_client_key random_bytes in
    let (read, refused) = validate_client_request (build_client_request host port path key) in
    (refused, validate_server_response (build_server_response read) key)

-- For every host with no newline, every port, every path with no white space and every 16 bytes that
-- the key is drawn from, the server accepts the request of the client, and the client accepts the
-- response that the server builds for the key it has read.
pub handshake_agrees :
    (host : List ℕ) (port : ℕ) (path random_bytes : List ℕ)
    → HasNoNewline host
    → IsWord path
    → length random_bytes ≡ 16
    → IsBytes random_bytes
    → handshake host port path random_bytes ≡ (none, none)
handshake_agrees host port path random_bytes hh hp size bytes =
    let key = create_client_key random_bytes in
    let same : bytes_eq (compute_accept_key key) (compute_accept_key key) ≡ true =
      (bytes_eq_iff (compute_accept_key key) (compute_accept_key key)).1 refl in
    ap (λ r. (r.1, validate_server_response (build_server_response r.0) key))
      (validate-request host port path random_bytes hh hp size bytes)
    ∙ ap (λ o. (none, o)) (validate-response key key)
    ∙ ap (λ b. (none, if b then none else some invalid_accept)) same

-- An accept key is 28 bytes long, holds no byte that a header's value is trimmed of, and is decoded to
-- the 20 bytes of the digest it was made of.
pub accept_key-decodes :
    (key : List ℕ)
    → (length (compute_accept_key key) ≡ 28)
      × IsSolid (compute_accept_key key)
      × (base64_decode (compute_accept_key key)
          ≡ some (final (update (key ++ web_socket_guid) new_sha1)))
unfolding compute_accept_key
accept_key-decodes key =
    let s = update (key ++ web_socket_guid) new_sha1 in
    (
      omega (arith, length-encode (final s), length-final s),
      base64_encode-IsSolid (final s),
      decode-encode (final s) (omega (arith, length-final s)) (final-IsBytes s),
    )
