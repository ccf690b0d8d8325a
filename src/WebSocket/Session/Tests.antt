-- ===== src/WebSocket/Session/Tests.antt =====
-- Runs of a session, and its theorems at concrete inputs.
use simply_node_framework.Prelude.{
  ℕ, Bool, List, [], arith, false, length, map, none, refl, true, ◌∷◌, ◌≡◌,
}
use simply_node_framework.WebSocket.Frame.{continuation, reset, text, encode_frame}
use simply_node_framework.WebSocket.Frame.Stream.{joined}
use simply_node_framework.WebSocket.Session.{
  Session, State, World, closes, closing, encode, opened, process_frames, run, send_binary_message,
  send_frame, send_text_message, sends_text, step, tcp_ready_read,
}
use simply_node_framework.WebSocket.Session.Exchange.{IsReady}
use simply_node_framework.WebSocket.Session.TwoEnds.{
  Content, arrival, binary_of, sending, sendings-arrivals, text_of, wire,
}
use simply_node_framework.WebSocket.Session.Fragments.{
  fragment, continued, process_frames-reassembled, reassembled,
}
use simply_node_framework.WebSocket.Session.Closing.{Quiet, run-Quiet}

abbrev plain_world : World
plain_world = record {
  random_mask = λ n. n ∷ 2 ∷ 3 ∷ 4 ∷ [];
  written = λ s bytes. length bytes;
  build_request = λ host port path key. path;
  validate_response = λ response key. none;
  is_wildcard = λ host. false;
}

abbrev fresh : Bool → State → Session
fresh client state = record {
  has_socket = true;
  state = state;
  client_mode = client;
  handshake_complete = true;
  close_frame_sent = false;
  handshake_buffer = [];
  client_key = [];
  host = [];
  port = 80;
  path = b'/' ∷ [];
  fragment_opcode = continuation;
  fragment_payload = [];
  parser = reset;
  drawn = 0;
  log = [];
}

abbrev contents : List Content
contents = text_of (b'h' ∷ b'i' ∷ []) ∷ binary_of (9 ∷ []) ∷ []

abbrev carried : List (List ℕ)
carried =
    (0x81 ∷ 0x82 ∷ 0 ∷ 2 ∷ 3 ∷ []) ∷ (4 ∷ 0x68 ∷ 0x6b ∷ 0x82 ∷ 0x81 ∷ 1 ∷ 2 ∷ 3 ∷ 4 ∷ 8 ∷ []) ∷ []

sendings-carried :
    wire (run plain_world (map sending contents) (fresh true opened)).log ≡ joined carried
unfolding run step send_text_message send_binary_message send_frame encode encode_frame
sendings-carried = refl

is_ready : IsReady plain_world false (fresh false opened)
is_ready = record { mode = refl; going = refl; plugged = refl; shaken = refl; idle = refl }

sendings-arrivals_example :
    run plain_world (map tcp_ready_read carried) (fresh false opened)
    ≡ record (fresh false opened) { parser = reset; log = map arrival contents }
sendings-arrivals_example =
    sendings-arrivals plain_world (λ n. refl) contents (fresh true opened) (fresh false opened)
      carried (omega arith) (record { opened = refl; plugged = refl; client = refl }) is_ready refl
      sendings-carried

process_frames-reassembled_example :
    process_frames plain_world
      (fragment false false text (1 ∷ []) ∷ continued false ((2 ∷ []) ∷ []) (3 ∷ []))
      (fresh false opened)
    ≡ reassembled plain_world false text (1 ∷ 2 ∷ 3 ∷ []) (fresh false opened)
process_frames-reassembled_example =
    process_frames-reassembled plain_world false text (1 ∷ []) ((2 ∷ []) ∷ []) (3 ∷ [])
      (fresh false opened) tt refl refl

abbrev closed_once : Session
closed_once = record (fresh true closing) { close_frame_sent = true }

run-Quiet_example :
    Quiet closed_once (run plain_world (sends_text (1 ∷ []) ∷ closes ∷ []) closed_once)
run-Quiet_example =
    run-Quiet plain_world (sends_text (1 ∷ []) ∷ closes ∷ []) closed_once (tt, (tt, tt))
      (record { out = refl; shaken = refl; shut = refl })
