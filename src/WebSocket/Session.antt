-- ===== src/WebSocket/Session.antt =====
-- lib/WebSocket/src/SNFWebSocket/WebSocketImplNative.cpp: the protocol behind one WebSocket, on the
-- client's and on the server's side. The TCP socket is seen from here: what is called on it, and
-- what is emitted on the owner, is appended to `log`, and its signals are calls of the handlers
-- (the socket posts them to the event loop, so none arrives inside a call).
pub mod Exchange
pub mod TwoEnds
pub mod Fragments
pub mod Closing
mod Tests
use simply_node_framework.Prelude.{
  ℕ, Bool, List, Option, [], false, if◌then◌else◌, length, ltb, none, not, some, true, ◌&&◌, ◌++◌,
  ◌+◌, ◌==◌, ◌||◌, ◌∷◌, drop, take,
}
use simply_node_framework.WebSocket.Frame.{
  Frame, FrameError, OpCode, Parser, binary, close, continuation, encode_frame, feed, is_empty,
  ping, pong, reset, text,
}
use simply_node_framework.Prelude.Bytes.{find}

pub data State : Type 0 where
  closed connecting opened closing failed : State

pub data Failure : Type 0 where
  wildcard_address ping_too_large no_socket unmasked_frame masked_frame : Failure
  unexpected_continuation handshake_cut : Failure
  bad_frame : FrameError → Failure
  bad_handshake : List ℕ → Failure
  tcp_error : List ℕ → Failure

pub data Effect : Type 0 where
  socket_connect : List ℕ → ℕ → Effect
  socket_write : List ℕ → Effect
  socket_close connected disconnected : Effect
  text_received binary_received pong_received : List ℕ → Effect
  error_occurred : Failure → Effect

pub record Session : Type 0 where
  pub has_socket : Bool
  pub state : State
  pub client_mode : Bool
  pub handshake_complete : Bool
  pub close_frame_sent : Bool
  pub handshake_buffer : List ℕ
  pub client_key : List ℕ
  pub host : List ℕ
  pub port : ℕ
  pub path : List ℕ
  pub fragment_opcode : OpCode
  pub fragment_payload : List ℕ
  pub parser : Parser
  -- How many masking keys have been drawn.
  pub drawn : ℕ
  pub log : List Effect

abbrev pub emit : Effect → Session → Session
emit e s = record s { log = s.log ++ e ∷ [] }

abbrev pub set_state : State → Session → Session
set_state state s = record s { state = state }

abbrev pub is_open : State → Bool
is_open opened = true
is_open _ = false

-- `isValid`.
pub is_valid : State → Bool
is_valid failed = false
is_valid _ = true

abbrev pub is_continuation : OpCode → Bool
is_continuation continuation = true
is_continuation _ = false

pub fail_with : Failure → Session → Session
fail_with why s =
    let s' = emit (error_occurred why) (set_state failed s) in
    if s.has_socket then emit socket_close s' else s'

-- What the session takes from outside: the masking keys in the order in which they are drawn, how
-- many bytes the socket's `write` reports, and the handshake of WebSocketHandshake.cpp.
pub record World : Type 0 where
  pub random_mask : ℕ → List ℕ
  pub written : Session → List ℕ → ℕ
  pub build_request : List ℕ → ℕ → List ℕ → List ℕ → List ℕ
  -- `none` accepts the response.
  pub validate_response : List ℕ → List ℕ → Option (List ℕ)
  pub is_wildcard : List ℕ → Bool

-- All that can happen to a session, from its owner and from its socket.
pub data Event : Type 0 where
  connects : List ℕ → ℕ → List ℕ → List ℕ → Event
  sends_text sends_binary pings : List ℕ → Event
  closes begins_server : Event
  tcp_connected tcp_disconnected : Event
  tcp_ready_read tcp_errors : List ℕ → Event

pub begin_server_connection : Session → Session
unfolding fail_with
begin_server_connection s =
    if not s.has_socket
    then fail_with no_socket s
    else set_state opened (record s {
      client_mode = false;
      handshake_complete = true;
      close_frame_sent = false;
      parser = reset;
    })

-- The message that a text or a binary opcode delivers.
abbrev pub deliver : OpCode → List ℕ → Session → Session
deliver text payload = emit (text_received payload)
deliver _ payload = emit (binary_received payload)

pub data_frame : Frame → Session → Session
data_frame f s =
    if f.fin
    then deliver f.opcode f.payload s
    else record s { fragment_opcode = f.opcode; fragment_payload = f.payload }

pub continuation_frame : Frame → Session → Session
unfolding fail_with
continuation_frame f s =
    if is_continuation s.fragment_opcode
    then fail_with unexpected_continuation s
    else let payload = s.fragment_payload ++ f.payload in
      if f.fin
      then deliver s.fragment_opcode payload
          (record s { fragment_payload = []; fragment_opcode = continuation })
      else record s { fragment_payload = payload }

abbrev pub has_stopped : State → Bool
has_stopped failed = true
has_stopped closed = true
has_stopped _ = false

-- `none` waits for the end of the header.
abbrev pub header_end : List ℕ → Option ℕ
header_end buffer = find (b'\r' ∷ b'\n' ∷ b'\r' ∷ b'\n' ∷ []) buffer

abbrev pub was_active : State → Bool
was_active connecting = true
was_active opened = true
was_active closing = true
was_active _ = false

abbrev pub is_connecting : State → Bool
is_connecting connecting = true
is_connecting _ = false

pub handle_tcp_disconnected : Session → Session
handle_tcp_disconnected s =
    if is_connecting s.state && not s.handshake_complete
    then emit (error_occurred handshake_cut) (set_state failed s)
    else let s' = set_state closed s in if was_active s.state then emit disconnected s' else s'

pub handle_tcp_error : List ℕ → Session → Session
unfolding fail_with
handle_tcp_error message s = fail_with (tcp_error message) s

module _ (w : World) where
  -- `encodeFrame` for this side, and the session after a key has been drawn.
  pub encode : OpCode → List ℕ → Session → List ℕ × Session
  encode opcode payload s =
      if s.client_mode
      then (
        encode_frame opcode payload (some (w.random_mask s.drawn)),
        record s { drawn = s.drawn + 1 },
      )
      else (encode_frame opcode payload none, s)

  pub send_frame : OpCode → List ℕ → Bool → Session → Session × Bool
  unfolding encode
  send_frame opcode payload require_open s =
      if not s.has_socket
      then (s, false)
      else if require_open && not (is_open s.state)
      then (s, false)
      else let (bytes, s') = encode opcode payload s in
        (emit (socket_write bytes) s', w.written s' bytes == length bytes)

  pub send_text_message : List ℕ → Session → Session × Bool
  unfolding send_frame
  send_text_message message s = send_frame text message true s

  pub send_binary_message : List ℕ → Session → Session × Bool
  unfolding send_frame
  send_binary_message message s = send_frame binary message true s

  pub ping_peer : List ℕ → Session → Session × Bool
  unfolding send_frame fail_with
  ping_peer payload s =
      if ltb 125 (length payload)
      then (fail_with ping_too_large s, false)
      else send_frame ping payload true s

  pub send_close : List ℕ → Session → Session
  unfolding send_frame
  send_close payload s = record ((send_frame close payload false s).0) { close_frame_sent = true }

  pub close_session : Session → Session
  unfolding send_close
  close_session s =
      if s.has_socket && is_open s.state && not s.close_frame_sent
      then set_state closing (send_close [] s)
      else if s.has_socket
      then emit socket_close s
      else s

  pub connect_to_host : List ℕ → ℕ → List ℕ → List ℕ → Session → Session
  unfolding close_session fail_with
  connect_to_host address port path key s =
      let s' = close_session s in
      if w.is_wildcard address
      then fail_with wildcard_address s'
      else emit (socket_connect address port) (
          set_state connecting (record s' {
            has_socket = true;
            client_mode = true;
            handshake_complete = false;
            close_frame_sent = false;
            handshake_buffer = [];
            client_key = key;
            host = address;
            port = port;
            path = if is_empty path then b'/' ∷ [] else path;
            parser = reset;
            fragment_payload = [];
            fragment_opcode = continuation;
          }))

  pub handle_tcp_connected : Session → Session
  handle_tcp_connected s =
      if not s.has_socket || not s.client_mode
      then s
      else emit (socket_write (w.build_request s.host s.port s.path s.client_key)) s

  pub close_frame : Frame → Session → Session
  unfolding send_close
  close_frame f s =
      let s' = if not s.close_frame_sent then send_close f.payload s else s in
      let s'' = set_state closing s' in if s''.has_socket then emit socket_close s'' else s''

  abbrev pub by_opcode : OpCode → Frame → Session → Session
  by_opcode text f s = data_frame f s
  by_opcode binary f s = data_frame f s
  by_opcode continuation f s = continuation_frame f s
  by_opcode ping f s = (send_frame pong f.payload true s).0
  by_opcode pong f s = emit (pong_received f.payload) s
  by_opcode close f s = close_frame f s

  pub process_frame : Frame → Session → Session
  unfolding fail_with send_frame data_frame continuation_frame close_frame
  process_frame f s =
      if not s.client_mode && not f.masked
      then fail_with unmasked_frame s
      else if s.client_mode && f.masked
      then fail_with masked_frame s
      else by_opcode f.opcode f s

  -- The loop over the frames at hand; each round takes the first frame out of the parser.
  pub process_frames : List Frame → Session → Session
  process_frames [] s = s
  process_frames (f ∷ fs) s =
      let s' = process_frame f (record s { parser = record (s.parser) { frames = fs } }) in
      elim (has_stopped s'.state) [ true ↦ s' | false ↦ process_frames fs s' ]

  pub process_frame_bytes : List ℕ → Session → Session
  unfolding fail_with
  process_frame_bytes bytes s =
      let s' = record s { parser = feed s.parser bytes } in
      elim s'.parser.error [
        | some e ↦ fail_with (bad_frame e) s'
        | none ↦ process_frames s'.parser.frames s'
      ]

  pub after_handshake : List ℕ → Session → Session
  after_handshake remaining s =
      let s' = emit connected (set_state opened (record s { handshake_complete = true })) in
      if is_empty remaining then s' else process_frame_bytes remaining s'

  pub process_handshake_bytes : List ℕ → Session → Session
  unfolding fail_with
  process_handshake_bytes bytes s =
      let buffer = s.handshake_buffer ++ bytes in
      elim (header_end buffer) [
        | none ↦ record s { handshake_buffer = buffer }
        | some i ↦
            let s' = record s { handshake_buffer = [] } in
            elim (w.validate_response (take (i + 4) buffer) s.client_key) [
              | some why ↦ fail_with (bad_handshake why) s'
              | none ↦ after_handshake (drop (i + 4) buffer) s'
            ]
      ]

  -- The bytes are what the socket's `readAll` returns.
  pub handle_tcp_ready_read : List ℕ → Session → Session
  handle_tcp_ready_read bytes s =
      if not s.has_socket || is_empty bytes
      then s
      else if not s.handshake_complete
      then process_handshake_bytes bytes s
      else process_frame_bytes bytes s

  pub step : Event → Session → Session
  step (connects address port path key) s = connect_to_host address port path key s
  step (sends_text m) s = (send_text_message m s).0
  step (sends_binary m) s = (send_binary_message m s).0
  step (pings m) s = (ping_peer m s).0
  step closes s = close_session s
  step begins_server s = begin_server_connection s
  step tcp_connected s = handle_tcp_connected s
  step tcp_disconnected s = handle_tcp_disconnected s
  step (tcp_ready_read bytes) s = handle_tcp_ready_read bytes s
  step (tcp_errors m) s = handle_tcp_error m s

  pub run : List Event → Session → Session
  run [] s = s
  run (e ∷ es) s = run es (step e s)
