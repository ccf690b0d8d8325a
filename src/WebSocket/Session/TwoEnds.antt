-- ===== src/WebSocket/Session/TwoEnds.antt =====
-- A client and a server of WebSocketImplNative.cpp at the two ends of one connection.
use simply_node_framework.Prelude.{
  ℕ, List, [], ap, append-nil, append_assoc, arith, map, refl, some, sym, true, ◌++◌, ◌+◌, ◌∙◌, ◌∷◌,
  ◌≡◌, All, false, length, not, ◌<◌, ◌^◌, append_cancel,
}
use simply_node_framework.WebSocket.Frame.{OpCode, binary, encode_frame, text, is_control, reset}
use simply_node_framework.WebSocket.Frame.Messages.{Message, encode_all, IsSendable, sent}
use simply_node_framework.WebSocket.Session.{
  Session, Effect, Event, State, World, binary_received, run, send_binary_message,
  send_text_message, sends_binary, sends_text, socket_connect, socket_write, step, text_received,
  tcp_ready_read,
}
use simply_node_framework.WebSocket.Frame.Encode.{has_key}
use simply_node_framework.WebSocket.Frame.Stream.{joined}
use simply_node_framework.WebSocket.Session.Exchange.{IsDataCode, IsReady, delivery, run-encode_all}

-- What a client's owner sends.
pub data Content : Type 0 where
  text_of binary_of : List ℕ → Content

abbrev pub content_bytes : Content → List ℕ
content_bytes (text_of bytes) = bytes
content_bytes (binary_of bytes) = bytes

abbrev content_code : Content → OpCode
content_code (text_of bytes) = text
content_code (binary_of bytes) = binary

abbrev pub sending : Content → Event
sending (text_of bytes) = sends_text bytes
sending (binary_of bytes) = sends_binary bytes

abbrev pub arrival : Content → Effect
arrival (text_of bytes) = text_received bytes
arrival (binary_of bytes) = binary_received bytes

-- All that was written to the socket, in order.
abbrev pub wire : List Effect → List ℕ
wire [] = []
wire (socket_write bytes ∷ es) = bytes ++ wire es
wire (_ ∷ es) = wire es

wire-append : (xs ys : List Effect) → wire (xs ++ ys) ≡ wire xs ++ wire ys
wire-append [] ys = refl
wire-append (socket_write bytes ∷ es) ys =
    ap (λ (t : List ℕ). bytes ++ t) (wire-append es ys)
    ∙ sym (append_assoc bytes (wire es) (wire ys))
wire-append (socket_connect _ _ ∷ es) ys = wire-append es ys
wire-append (_ ∷ es) ys = wire-append es ys

module _ (w : World) where
  -- The messages as the client encodes them, with the keys from number `n` on.
  abbrev encoded_from : ℕ → List Content → List Message
  encoded_from n [] = []
  encoded_from n (c ∷ cs) =
      record { opcode = content_code c; payload = content_bytes c; key = some (w.random_mask n) }
      ∷ encoded_from (n + 1) cs

  pub record IsOpenClient (s : Session) : Type 0 where
    pub opened : s.state ≡ State.opened
    pub plugged : s.has_socket ≡ true
    pub client : s.client_mode ≡ true

  sending-wire :
      (c : Content) (s : Session)
      → IsOpenClient s
      → step w (sending c) s ≡ record s {
        drawn = s.drawn + 1;
        log =
            s.log
            ++ socket_write
                (encode_frame (content_code c) (content_bytes c) (some (w.random_mask s.drawn)))
              ∷ [];
      }
  unfolding step send_text_message send_binary_message
  sending-wire (text_of bytes) s (r) = ground (arith, r.opened, r.plugged, r.client)
  sending-wire (binary_of bytes) s (r) = ground (arith, r.opened, r.plugged, r.client)

  sendings-wire :
      (cs : List Content) (s : Session)
      → IsOpenClient s
      → wire (run w (map sending cs) s).log ≡ wire s.log ++ encode_all (encoded_from s.drawn cs)
  unfolding run
  sendings-wire [] s r = sym (append-nil (wire s.log))
  sendings-wire (c ∷ cs) s r =
      let bytes = encode_frame (content_code c) (content_bytes c) (some (w.random_mask s.drawn)) in
      let s1 = record s { drawn = s.drawn + 1; log = s.log ++ socket_write bytes ∷ [] } in
      let r1 : IsOpenClient s1 = record {
        opened = r.opened;
        plugged = r.plugged;
        client = r.client;
      } in
      ap (λ (t : Session). wire (run w (map sending cs) t).log) (sending-wire c s r)
      ∙ sendings-wire cs s1 r1
      ∙ ap (λ (t : List ℕ). t ++ encode_all (encoded_from (s.drawn + 1) cs))
          (wire-append s.log (socket_write bytes ∷ [])
            ∙ ap (λ (t : List ℕ). wire s.log ++ t) (append-nil bytes))
      ∙ append_assoc (wire s.log) bytes (encode_all (encoded_from (s.drawn + 1) cs))

  abbrev FitsFrame : Content → Type 0
  FitsFrame c = length (content_bytes c) < 2 ^ 63

  content-IsSendable :
      (c : Content) (key : List ℕ)
      → length key ≡ 4
      → FitsFrame c
      → IsSendable (record { opcode = content_code c; payload = content_bytes c; key = some key })
  unfolding is_control
  content-IsSendable (text_of bytes) key four fits = record {
    keyed = four;
    small = fits;
    control = λ e. cc;
  }
  content-IsSendable (binary_of bytes) key four fits = record {
    keyed = four;
    small = fits;
    control = λ e. cc;
  }

  module _ (four : (n : ℕ) → length (w.random_mask n) ≡ 4) where
    encoded-IsSendable :
        (n : ℕ) (cs : List Content) → All FitsFrame cs → All IsSendable (encoded_from n cs)
    encoded-IsSendable n [] h = tt
    encoded-IsSendable n (c ∷ cs) (h, hs) =
        (content-IsSendable c (w.random_mask n) (four n) h, encoded-IsSendable (n + 1) cs hs)

    encoded-IsDataCode :
        (n : ℕ) (cs : List Content)
        → All (λ m. IsDataCode m.opcode × (has_key m.key ≡ not false)) (encoded_from n cs)
    encoded-IsDataCode n [] = tt
    encoded-IsDataCode n (text_of bytes ∷ cs) = ((tt, refl), encoded-IsDataCode (n + 1) cs)
    encoded-IsDataCode n (binary_of bytes ∷ cs) = ((tt, refl), encoded-IsDataCode (n + 1) cs)

    delivery-encoded :
        (n : ℕ) (cs : List Content) → map delivery (map sent (encoded_from n cs)) ≡ map arrival cs
    delivery-encoded n [] = refl
    delivery-encoded n (text_of bytes ∷ cs) =
        ap (◌∷◌ (text_received bytes)) (delivery-encoded (n + 1) cs)
    delivery-encoded n (binary_of bytes ∷ cs) =
        ap (◌∷◌ (binary_received bytes)) (delivery-encoded (n + 1) cs)

    -- Whatever an open client sends as text or binary messages below 2 ^ 63 bytes, a server that is
    -- ready and has read nothing yet delivers: the same messages, in the order in which they were
    -- sent, and nothing else, however the network cuts the bytes; the server's state does not change
    -- otherwise.
    pub sendings-arrivals :
        (cs : List Content) (client server : Session) (pieces : List (List ℕ))
        → All FitsFrame cs
        → IsOpenClient client
        → IsReady w false server
        → server.parser ≡ reset
        → wire (run w (map sending cs) client).log ≡ wire client.log ++ joined pieces
        → run w (map tcp_ready_read pieces) server
          ≡ record server { parser = reset; log = server.log ++ map arrival cs }
    sendings-arrivals cs client server pieces fits is_client is_ready fresh carried =
        let ms = encoded_from client.drawn cs in
        let on_wire : joined pieces ≡ encode_all ms =
          append_cancel (wire client.log) (sym carried ∙ sendings-wire cs client is_client) in
        run-encode_all w false ms pieces server is_ready fresh
          (encoded-IsSendable client.drawn cs fits) (encoded-IsDataCode client.drawn cs) on_wire
        ∙ ap (λ (es : List Effect). record server { parser = reset; log = server.log ++ es })
            (delivery-encoded client.drawn cs)
