-- ===== src/WebSocket/Handshake/Tests.antt =====
-- The handshake on the example of RFC 6455, section 1.3, whose key is "the sample nonce".
use simply_node_framework.Prelude.{
  refl, List, ℕ, if◌then◌else◌, length, none, some, ◌++◌, ◌≡◌, [], arith, leb, true, ◌∷◌,
}
use simply_node_framework.Prelude.Bytes.{codes, bytes_eq}
use simply_node_framework.Prelude.Chars.{is_space}
use simply_node_framework.Prelude.Chars.Pieces.{all_fail, all_fail→Fails}
use simply_node_framework.WebSocket.Base64.RoundTrip.{IsBytes}
use simply_node_framework.WebSocket.Handshake.{
  compute_accept_key, build_server_response, invalid_accept, validate_server_response,
  web_socket_guid,
}
use simply_node_framework.WebSocket.Handshake.Lines.{no_newline, IsSolid}
use simply_node_framework.WebSocket.Handshake.Response.{validate-response}
use simply_node_framework.WebSocket.Handshake.Request.{IsWord}
use simply_node_framework.WebSocket.Handshake.Agreed.{
  handshake_agrees, accept_key-decodes, handshake,
}
use simply_node_framework.WebSocket.Sha1.{update, final, new_sha1}
use simply_node_framework.WebSocket.Base64.{base64_encode, letter, base64_decode}

abbrev rfc_key : List ℕ
rfc_key = codes "dGhlIHNhbXBsZSBub25jZQ=="

rfc_accept : compute_accept_key rfc_key ≡ codes "s3pPLMBiTxaQ9kYGzzhZRbK+xOo="
unfolding compute_accept_key update final base64_encode letter
rfc_accept = refl

bytes_lem : (s : List ℕ) → all_fail (λ b. leb 256 b) s ≡ true → IsBytes s
bytes_lem [] e = tt
bytes_lem (c ∷ s) e = (ground (arith, e), bytes_lem s (ground (arith, e)))

chat-IsWord : IsWord (codes "/chat")
unfolding is_space
chat-IsWord = all_fail→Fails is_space (codes "/chat") refl

handshake_agrees_example :
    handshake (codes "server.example.com") 8080 (codes "/chat") (codes "the sample nonce")
    ≡ (none, none)
handshake_agrees_example =
    handshake_agrees (codes "server.example.com") 8080 (codes "/chat") (codes "the sample nonce")
      (no_newline (codes "server.example.com") refl) chat-IsWord refl
      (bytes_lem (codes "the sample nonce") refl)

validate-response_example :
    validate_server_response (build_server_response rfc_key) (codes "AAAAAAAAAAAAAAAAAAAAAA==") ≡ (
      if bytes_eq
        (compute_accept_key rfc_key)
        (compute_accept_key (codes "AAAAAAAAAAAAAAAAAAAAAA=="))
      then none
      else some invalid_accept)
validate-response_example = validate-response rfc_key (codes "AAAAAAAAAAAAAAAAAAAAAA==")

accept_key-decodes_example :
    (length (compute_accept_key rfc_key) ≡ 28)
    × IsSolid (compute_accept_key rfc_key)
    × (base64_decode (compute_accept_key rfc_key)
        ≡ some (final (update (rfc_key ++ web_socket_guid) new_sha1)))
accept_key-decodes_example = accept_key-decodes rfc_key
