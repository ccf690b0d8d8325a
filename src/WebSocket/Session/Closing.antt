-- ===== src/WebSocket/Session/Closing.antt =====
-- The closing handshake in WebSocketImplNative.cpp: what is written once the Close frame is out.
use mathlib.Core.Path.{subst}
use simply_node_framework.Prelude.{
  All, All-append, List, [], ap, append-nil, append_assoc, false, sym, true, ◌++◌, ◌∙◌, ◌∷◌, ◌≡◌,
  Bool, arith, if◌then◌else◌, not, refl, ℕ, ◌&&◌, Bool-cases, inl, inr, Option-cases, length, ltb,
  ◌||◌,
}
use simply_node_framework.WebSocket.Session.{
  Session, Effect, Failure, fail_with, is_open, socket_write, State, World, binary_received,
  close_frame, close_session, closed, continuation_frame, deliver, disconnected, emit,
  error_occurred, failed, handle_tcp_disconnected, send_frame, set_state, socket_close,
  text_received, by_opcode, data_frame, handle_tcp_ready_read, has_stopped, is_connecting,
  is_continuation, masked_frame, pong_received, process_frame, process_frame_bytes, process_frames,
  unexpected_continuation, unmasked_frame, was_active, Event, bad_frame, begins_server, closes,
  closing, connects, encode, handle_tcp_error, opened, ping_peer, ping_too_large, pings, run,
  send_binary_message, send_text_message, sends_binary, sends_text, step, tcp_connected,
  tcp_disconnected, tcp_error, tcp_errors, tcp_ready_read, send_close,
}
use simply_node_framework.WebSocket.Frame.{
  Frame, OpCode, text, binary, close, continuation, ping, pong, feed, is_empty,
}

-- The Close frame is out, and the session is not open.
pub record IsClosing (s : Session) : Type 0 where
  pub out : s.close_frame_sent ≡ true
  pub shaken : s.handshake_complete ≡ true
  pub shut : is_open s.state ≡ false

abbrev pub IsSilent : Effect → Type 0
IsSilent (socket_write bytes) = ⊥
IsSilent _ = Unit

-- From the first session to the second nothing is written, and the second is closing too.
pub record Quiet (s t : Session) : Type 0 where
  pub effects : List Effect
  pub extends : t.log ≡ s.log ++ effects
  pub silent : All IsSilent effects
  pub still_closing : IsClosing t

Quiet-refl : (s t : Session) → t.log ≡ s.log → IsClosing t → Quiet s t
Quiet-refl s t same c = record {
  effects = [];
  extends = same ∙ sym (append-nil s.log);
  silent = tt;
  still_closing = c;
}

Quiet-emit :
    (s t : Session) (e : Effect) → t.log ≡ s.log ++ e ∷ [] → IsSilent e → IsClosing t → Quiet s t
Quiet-emit s t e same silent c = record {
  effects = e ∷ [];
  extends = same;
  silent = (silent, tt);
  still_closing = c;
}

Quiet-trans : {s t u : Session} → Quiet s t → Quiet t u → Quiet s u
Quiet-trans {s} {t} {u} p q = record {
  effects = p.effects ++ q.effects;
  extends =
      q.extends
      ∙ ap (λ (es : List Effect). es ++ q.effects) p.extends
      ∙ append_assoc s.log p.effects q.effects;
  silent = All-append IsSilent p.effects q.effects p.silent q.silent;
  still_closing = q.still_closing;
}

Quiet-if :
    (b : Bool) {s t u : Session}
    → (b ≡ true → Quiet s t)
    → (b ≡ false → Quiet s u)
    → Quiet s (if b then t else u)
Quiet-if true p q = p refl
Quiet-if false p q = q refl

keep :
    (s : Session) (state : State)
    → is_open state ≡ false
    → IsClosing s
    → IsClosing (set_state state s)
keep s state shut c = record { out = c.out; shaken = c.shaken; shut = shut }

emit-Quiet : (e : Effect) (s : Session) → IsSilent e → IsClosing s → Quiet s (emit e s)
emit-Quiet e s silent c =
    Quiet-emit s (emit e s) e refl silent (record { out = c.out; shaken = c.shaken; shut = c.shut })

state-Quiet :
    (state : State) (s : Session)
    → is_open state ≡ false
    → IsClosing s
    → Quiet s (set_state state s)
state-Quiet state s shut c = Quiet-refl s (set_state state s) refl (keep s state shut c)

fail_with-Quiet : (why : Failure) (s : Session) → IsClosing s → Quiet s (fail_with why s)
unfolding fail_with
fail_with-Quiet why s c =
    let p =
      Quiet-trans (state-Quiet failed s refl c)
        (emit-Quiet (error_occurred why) (set_state failed s) tt (keep s failed refl c)) in
    Quiet-if s.has_socket (λ _. Quiet-trans p (emit-Quiet socket_close _ tt p.still_closing))
      (λ _. p)

disconnected-Quiet : (s : Session) → IsClosing s → Quiet s (handle_tcp_disconnected s)
unfolding handle_tcp_disconnected
disconnected-Quiet s c =
    let p = state-Quiet closed s refl c in
    Quiet-if (is_connecting s.state && not s.handshake_complete)
      (λ e. absurd (ground (arith, c.shaken)))
      (λ _.
        Quiet-if (was_active s.state)
          (λ _. Quiet-trans p (emit-Quiet disconnected _ tt p.still_closing)) (λ _. p))

module _ (w : World) where
  send_frame-Quiet :
      (opcode : OpCode) (payload : List ℕ) (s : Session)
      → IsClosing s
      → send_frame w opcode payload true s ≡ (s, false)
  unfolding send_frame
  send_frame-Quiet opcode payload s c = ground (arith, c.shut)

  still : (s t : Session) → t ≡ s → IsClosing s → Quiet s t
  still s t e c = subst (λ u. Quiet s u) (sym e) (Quiet-refl s s refl c)

  close_session-Quiet : (s : Session) → IsClosing s → Quiet s (close_session w s)
  unfolding close_session
  close_session-Quiet s c =
      Quiet-if (s.has_socket && is_open s.state && not s.close_frame_sent)
        (λ e. absurd (ground (arith, c.out)))
        (λ _.
          Quiet-if s.has_socket (λ _. emit-Quiet socket_close s tt c) (λ _. Quiet-refl s s refl c))

  deliver-Quiet :
      (opcode : OpCode) (payload : List ℕ) (s : Session)
      → IsClosing s
      → Quiet s (deliver opcode payload s)
  deliver-Quiet text payload s c = emit-Quiet (text_received payload) s tt c
  deliver-Quiet _ payload s c = emit-Quiet (binary_received payload) s tt c

  data_frame-Quiet : (f : Frame) (s : Session) → IsClosing s → Quiet s (data_frame f s)
  unfolding data_frame
  data_frame-Quiet f s c =
      Quiet-if f.fin (λ _. deliver-Quiet f.opcode f.payload s c)
        (λ _. Quiet-refl s _ refl (record { out = c.out; shaken = c.shaken; shut = c.shut }))

  continuation_frame-Quiet :
      (f : Frame) (s : Session) → IsClosing s → Quiet s (continuation_frame f s)
  unfolding continuation_frame
  continuation_frame-Quiet f s c =
      Quiet-if (is_continuation s.fragment_opcode)
        (λ _. fail_with-Quiet unexpected_continuation s c)
        (λ _.
          Quiet-if f.fin
            (λ _.
              let s1 = record s { fragment_payload = []; fragment_opcode = continuation } in
              let c1 : IsClosing s1 = record { out = c.out; shaken = c.shaken; shut = c.shut } in
              Quiet-trans (Quiet-refl s s1 refl c1) (deliver-Quiet s.fragment_opcode _ s1 c1))
            (λ _. Quiet-refl s _ refl (record { out = c.out; shaken = c.shaken; shut = c.shut })))

  close_frame_again :
      (f : Frame) (s : Session)
      → s.close_frame_sent ≡ true
      → close_frame w f s
        ≡ (if s.has_socket then emit socket_close (set_state closing s) else set_state closing s)
  unfolding close_frame
  close_frame_again f s out = ground arith

  close_frame-Quiet : (f : Frame) (s : Session) → IsClosing s → Quiet s (close_frame w f s)
  close_frame-Quiet f s c =
      let p = state-Quiet closing s refl c in
      rw (close_frame_again f s c.out) (
        Quiet-if s.has_socket (λ _. Quiet-trans p (emit-Quiet socket_close _ tt p.still_closing))
          (λ _. p))

  by_opcode-Quiet :
      (opcode : OpCode) (f : Frame) (s : Session) → IsClosing s → Quiet s (by_opcode w opcode f s)
  by_opcode-Quiet text f s c = data_frame-Quiet f s c
  by_opcode-Quiet binary f s c = data_frame-Quiet f s c
  by_opcode-Quiet continuation f s c = continuation_frame-Quiet f s c
  by_opcode-Quiet ping f s c =
      still s _ (ap (λ (r : Session × Bool). r.0) (send_frame-Quiet pong f.payload s c)) c
  by_opcode-Quiet pong f s c = emit-Quiet (pong_received f.payload) s tt c
  by_opcode-Quiet close f s c = close_frame-Quiet f s c

  process_frame-Quiet : (f : Frame) (s : Session) → IsClosing s → Quiet s (process_frame w f s)
  unfolding process_frame
  process_frame-Quiet f s c =
      Quiet-if (not s.client_mode && not f.masked) (λ _. fail_with-Quiet unmasked_frame s c)
        (λ _.
          Quiet-if (s.client_mode && f.masked) (λ _. fail_with-Quiet masked_frame s c)
            (λ _. by_opcode-Quiet f.opcode f s c))

  process_frames-Quiet :
      (fs : List Frame) (s : Session) → IsClosing s → Quiet s (process_frames w fs s)
  unfolding process_frames
  process_frames-Quiet [] s c = Quiet-refl s s refl c
  process_frames-Quiet (f ∷ fs) s c =
      let s1 = record s { parser = record (s.parser) { frames = fs } } in
      let c1 : IsClosing s1 = record { out = c.out; shaken = c.shaken; shut = c.shut } in
      let p = Quiet-trans (Quiet-refl s s1 refl c1) (process_frame-Quiet f s1 c1) in
      let rest = process_frames-Quiet fs (process_frame w f s1) p.still_closing in
      elim (Bool-cases (has_stopped (process_frame w f s1).state)) [
        | inl stopped ↦ rw (stopped, process_frames) p
        | inr going ↦ rw (going, process_frames) (Quiet-trans p rest)
      ]

  process_frame_bytes-Quiet :
      (bytes : List ℕ) (s : Session) → IsClosing s → Quiet s (process_frame_bytes w bytes s)
  unfolding process_frame_bytes
  process_frame_bytes-Quiet bytes s c =
      let s1 = record s { parser = feed s.parser bytes } in
      let c1 : IsClosing s1 = record { out = c.out; shaken = c.shaken; shut = c.shut } in
      let p = Quiet-refl s s1 refl c1 in
      elim (Option-cases (feed s.parser bytes).error) [
        | inl clear ↦
            rw (clear, process_frame_bytes)
              (Quiet-trans p (process_frames-Quiet (feed s.parser bytes).frames s1 c1))
        | inr (e, bad) ↦
            rw (bad, process_frame_bytes) (Quiet-trans p (fail_with-Quiet (bad_frame e) s1 c1))
      ]

  ready_read-Quiet :
      (bytes : List ℕ) (s : Session) → IsClosing s → Quiet s (handle_tcp_ready_read w bytes s)
  unfolding handle_tcp_ready_read
  ready_read-Quiet bytes s c =
      Quiet-if (not s.has_socket || is_empty bytes) (λ _. Quiet-refl s s refl c)
        (λ _.
          Quiet-if (not s.handshake_complete) (λ e. absurd (ground (arith, c.shaken)))
            (λ _. process_frame_bytes-Quiet bytes s c))

  -- All events but those that open a connection: the owner's `connectToHost`, the server's
  -- `beginServerConnection` and the socket's `connected`.
  abbrev pub IsOngoing : Event → Type 0
  IsOngoing (connects _ _ _ _) = ⊥
  IsOngoing begins_server = ⊥
  IsOngoing tcp_connected = ⊥
  IsOngoing _ = Unit

  ping_peer-Quiet :
      (payload : List ℕ) (s : Session) → IsClosing s → Quiet s (ping_peer w payload s).0
  unfolding ping_peer
  ping_peer-Quiet payload s c = elim (Bool-cases (ltb 125 (length payload))) [
    | inl large ↦ rw (large, ping_peer) (fail_with-Quiet ping_too_large s c)
    | inr small ↦
        rw (small, ping_peer)
          (still s _ (ap (λ (r : Session × Bool). r.0) (send_frame-Quiet ping payload s c)) c)
  ]

  step-Quiet : (e : Event) (s : Session) → IsOngoing e → IsClosing s → Quiet s (step w e s)
  unfolding step send_text_message send_binary_message handle_tcp_error
  step-Quiet (connects _ _ _ _) s h c = elim h [ ]
  step-Quiet begins_server s h c = elim h [ ]
  step-Quiet tcp_connected s h c = elim h [ ]
  step-Quiet (sends_text m) s h c =
      still s _ (ap (λ (r : Session × Bool). r.0) (send_frame-Quiet text m s c)) c
  step-Quiet (sends_binary m) s h c =
      still s _ (ap (λ (r : Session × Bool). r.0) (send_frame-Quiet binary m s c)) c
  step-Quiet (pings m) s h c = ping_peer-Quiet m s c
  step-Quiet closes s h c = close_session-Quiet s c
  step-Quiet tcp_disconnected s h c = disconnected-Quiet s c
  step-Quiet (tcp_ready_read bytes) s h c = ready_read-Quiet bytes s c
  step-Quiet (tcp_errors m) s h c = fail_with-Quiet (tcp_error m) s c

  -- Once a session has sent its Close frame and is no longer open, whatever its owner and its socket
  -- do, it writes nothing more, no second Close frame, no pong and no message, and does not become
  -- open again, until a new connection is begun.
  pub run-Quiet :
      (es : List Event) (s : Session) → All IsOngoing es → IsClosing s → Quiet s (run w es s)
  unfolding run
  run-Quiet [] s h c = Quiet-refl s s refl c
  run-Quiet (e ∷ es) s (h, hs) c =
      let p = step-Quiet e s h c in Quiet-trans p (run-Quiet es (step w e s) hs p.still_closing)

  -- Closing an open session that has not sent a Close frame writes one and comes to that state.
  pub close_session-IsClosing :
      (s : Session)
      → s.has_socket ≡ true
      → s.state ≡ opened
      → s.handshake_complete ≡ true
      → s.close_frame_sent ≡ false
      → IsClosing (close_session w s)
        × ((close_session w s).log ≡ s.log ++ socket_write (encode w close [] s).0 ∷ [])
  unfolding close_session send_close send_frame
  close_session-IsClosing s plugged opens shaken unsent = (
    record {
      out = ground (arith, plugged, opens, unsent);
      shaken = ground (arith, plugged, opens, unsent);
      shut = ground (arith, plugged, opens, unsent);
    },
    ground (arith, plugged, opens, unsent),
  )
