-- ===== src/WebSocket/Base64/Tests.antt =====
-- Base64 at the texts of RFC 4648, section 10.
use simply_node_framework.Prelude.{refl, [], arith, some, ◌∷◌, ◌≡◌}
use simply_node_framework.Prelude.Bytes.{codes}
use simply_node_framework.WebSocket.Base64.{base64_encode, base64_decode, letter}
use simply_node_framework.WebSocket.Base64.RoundTrip.{decode-encode}

foob : base64_encode (codes "foob") ≡ codes "Zm9vYg=="
unfolding base64_encode letter
foob = refl

decode-encode_example :
    base64_decode (base64_encode (200 ∷ 3 ∷ 255 ∷ 0 ∷ [])) ≡ some (200 ∷ 3 ∷ 255 ∷ 0 ∷ [])
decode-encode_example =
    decode-encode (200 ∷ 3 ∷ 255 ∷ 0 ∷ []) (omega arith)
      (omega arith, (omega arith, (omega arith, (omega arith, tt))))
