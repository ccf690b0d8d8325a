-- ===== src/WebSocket/Session/Exchange.antt =====
-- What the messages of one side come to on the other, through WebSocketFrame.cpp and
-- WebSocketImplNative.cpp.
use mathlib.Core.Path.{subst}
use simply_node_framework.Prelude.{
  ℕ, Bool, List, [], arith, false, not, true, ◌++◌, ◌∷◌, ◌≡◌, All, ap, append-nil, append_assoc,
  map, none, refl, ◌∙◌, All-split, Option-cases, inl, inr, map-append, sym,
}
use simply_node_framework.WebSocket.Frame.{Frame, OpCode, binary, text, feed, Parser, reset}
use simply_node_framework.WebSocket.Session.{
  Session, Effect, World, binary_received, process_frame, text_received, handle_tcp_ready_read,
  has_stopped, process_frame_bytes, process_frames, run, step, tcp_ready_read,
}
use simply_node_framework.WebSocket.Frame.Stream.{
  feed_all, feed_nil, feed_all-prepend, joined, prepend,
}
use simply_node_framework.WebSocket.Frame.Encode.{has_key}
use simply_node_framework.WebSocket.Frame.Messages.{
  IsSendable, Message, encode_all, feed_all-encode_all, quiet, sent,
}
use simply_node_framework.WebSocket.Frame.Valid.{feed_all_error}

-- A whole message, masked as a server wants it or not masked as a client wants it.
abbrev pub IsDataCode : OpCode → Type 0
IsDataCode text = Unit
IsDataCode binary = Unit
IsDataCode _ = ⊥

pub record IsWhole (client : Bool) (f : Frame) : Type 0 where
  pub fin : f.fin ≡ true
  pub masking : f.masked ≡ not client
  pub opcode : IsDataCode f.opcode

abbrev pub message_effect : OpCode → List ℕ → Effect
message_effect text payload = text_received payload
message_effect _ payload = binary_received payload

abbrev pub delivery : Frame → Effect
delivery f = message_effect f.opcode f.payload

abbrev pub logged : List Effect → Session → Session
logged es s = record s { log = s.log ++ es }

module _ (w : World) where
  data_frame-IsWhole :
      (client : Bool) (f : Frame) (opcode : OpCode) (s : Session)
      → f.opcode ≡ opcode
      → s.client_mode ≡ client
      → IsWhole client f
      → IsDataCode opcode
      → process_frame w f s ≡ logged (message_effect opcode f.payload ∷ []) s
  unfolding process_frame
  data_frame-IsWhole true f text s o c h d = ground (arith, h.fin, h.masking)
  data_frame-IsWhole true f binary s o c h d = ground (arith, h.fin, h.masking)
  data_frame-IsWhole false f text s o c h d = ground (arith, h.fin, h.masking)
  data_frame-IsWhole false f binary s o c h d = ground (arith, h.fin, h.masking)
  data_frame-IsWhole client f opcode s o c h d = elim d [ ]

  -- The session once the frames at hand have been delivered.
  abbrev pub relogged : List Effect → Session → Session
  relogged es s = record s { parser = record (s.parser) { frames = [] }; log = es }

  abbrev pub delivered : List Frame → Session → Session
  delivered fs s = record s {
    parser = record (s.parser) { frames = [] };
    log = s.log ++ map delivery fs;
  }

  pub process_frames_next :
      (f : Frame) (fs : List Frame) (s t : Session)
      → process_frame w f (record s { parser = record (s.parser) { frames = fs } }) ≡ t
      → has_stopped t.state ≡ false
      → process_frames w (f ∷ fs) s ≡ process_frames w fs t
  unfolding process_frames
  process_frames_next f fs s t e going =
      let s1 = record s { parser = record (s.parser) { frames = fs } } in
      let going' : has_stopped (process_frame w f s1).state ≡ false =
        ap (λ (u : Session). has_stopped u.state) e ∙ going in
      rw (going', process_frames) (ap (process_frames w fs) e)

  process_frames-IsWhole :
      (client : Bool) (fs : List Frame) (s : Session)
      → s.client_mode ≡ client
      → has_stopped s.state ≡ false
      → s.parser.frames ≡ fs
      → All (IsWhole client) fs
      → process_frames w fs s ≡ delivered fs s
  unfolding process_frames
  process_frames-IsWhole client [] s c going held h = cc (append-nil s.log)
  process_frames-IsWhole client (f ∷ fs) s c going held (h, hs) =
      let s1 = record s { parser = record (s.parser) { frames = fs } } in
      let s2 = logged (delivery f ∷ []) s1 in
      process_frames_next f fs s s2 (data_frame-IsWhole client f f.opcode s1 refl c h h.opcode)
        going
      ∙ process_frames-IsWhole client fs s2 c going refl hs
      ∙ ap (λ (es : List Effect). relogged es s)
          (append_assoc s.log (delivery f ∷ []) (map delivery fs))

  process_frame_bytes_clear :
      (bytes : List ℕ) (s : Session)
      → (feed s.parser bytes).error ≡ none
      → process_frame_bytes w bytes s
        ≡ process_frames w (feed s.parser bytes).frames (record s { parser = feed s.parser bytes })
  unfolding process_frame_bytes
  process_frame_bytes_clear bytes s clear = ground arith

  ready_read_frames :
      (b : ℕ) (bs : List ℕ) (s : Session)
      → s.has_socket ≡ true
      → s.handshake_complete ≡ true
      → handle_tcp_ready_read w (b ∷ bs) s ≡ process_frame_bytes w (b ∷ bs) s
  unfolding handle_tcp_ready_read
  ready_read_frames b bs s plugged shaken = ground arith

  ready_read_nil : (s : Session) → handle_tcp_ready_read w [] s ≡ s
  unfolding handle_tcp_ready_read
  ready_read_nil s = ground arith

  -- Ready for frames, with none at hand.
  pub record IsReady (client : Bool) (s : Session) : Type 0 where
    pub mode : s.client_mode ≡ client
    pub going : has_stopped s.state ≡ false
    pub plugged : s.has_socket ≡ true
    pub shaken : s.handshake_complete ≡ true
    pub idle : s.parser.frames ≡ []

  abbrev fed : List ℕ → Session → Session
  fed bytes s = record s { parser = feed s.parser bytes }

  ready_read-IsWhole :
      (client : Bool) (bytes : List ℕ) (s : Session)
      → IsReady client s
      → (feed s.parser bytes).error ≡ none
      → All (IsWhole client) (feed s.parser bytes).frames
      → handle_tcp_ready_read w bytes s ≡ delivered (feed s.parser bytes).frames (fed bytes s)
  ready_read-IsWhole client [] s r clear h =
      ready_read_nil s ∙ cc (feed_nil s.parser, r.idle, append-nil s.log)
  ready_read-IsWhole client (b ∷ bs) s r clear h =
      ready_read_frames b bs s r.plugged r.shaken
      ∙ process_frame_bytes_clear (b ∷ bs) s clear
      ∙ process_frames-IsWhole client (feed s.parser (b ∷ bs)).frames (fed (b ∷ bs) s) r.mode
          r.going refl h

  abbrev pub arrive : List (List ℕ) → Session → Session
  arrive [] s = s
  arrive (c ∷ cs) s = arrive cs (handle_tcp_ready_read w c s)

  arrive-IsWhole :
      (client : Bool) (pieces : List (List ℕ)) (s : Session)
      → IsReady client s
      → (feed_all s.parser pieces).error ≡ none
      → All (IsWhole client) (feed_all s.parser pieces).frames
      → arrive pieces s
        ≡ delivered
            (feed_all s.parser pieces).frames
            (record s { parser = feed_all s.parser pieces })
  arrive-IsWhole client [] s r clear h = cc (r.idle, append-nil s.log)
  arrive-IsWhole client (c ∷ cs) s r clear h =
      let p = feed s.parser c in
      let bare = record p { frames = [] } in
      let q = feed_all bare cs in
      let split : feed_all p cs ≡ prepend p.frames q =
        ap (λ (fs : List Frame). feed_all (record p { frames = fs }) cs) (sym (append-nil p.frames))
        ∙ feed_all-prepend p.frames bare cs in
      let ok_so_far : p.error ≡ none = elim (Option-cases p.error) [
        | inl e ↦ e
        | inr (x, bad) ↦ ap (λ (t : Parser). t.error) (sym (feed_all_error p cs x bad)) ∙ clear
      ] in
      let parts =
        All-split (IsWhole client) p.frames q.frames
          (subst (λ (t : Parser). All (IsWhole client) t.frames) split h) in
      let s1 = delivered p.frames (fed c s) in
      let r1 : IsReady client s1 = record {
        mode = r.mode;
        going = r.going;
        plugged = r.plugged;
        shaken = r.shaken;
        idle = refl;
      } in
      ap (arrive cs) (ready_read-IsWhole client c s r ok_so_far parts.0)
      ∙ arrive-IsWhole client cs s1 r1 (ap (λ (t : Parser). t.error) (sym split) ∙ clear) parts.1
      ∙ ap (λ (es : List Effect). relogged es (record s { parser = q }))
          (append_assoc s.log (map delivery p.frames) (map delivery q.frames)
            ∙ ap (λ (es : List Effect). s.log ++ es) (sym (map-append delivery p.frames q.frames)))
      ∙ ap (λ (t : Parser). delivered t.frames (record s { parser = t })) (sym split)

  sent-IsWhole :
      (client : Bool) (ms : List Message)
      → All (λ m. IsDataCode m.opcode × (has_key m.key ≡ not client)) ms
      → All (IsWhole client) (map sent ms)
  sent-IsWhole client [] h = tt
  sent-IsWhole client (m ∷ ms) ((data_code, masking), hs) =
      (record { fin = refl; masking = masking; opcode = data_code }, sent-IsWhole client ms hs)

  arrive-encode_all :
      (client : Bool) (ms : List Message) (pieces : List (List ℕ)) (s : Session)
      → IsReady client s
      → s.parser ≡ reset
      → All IsSendable ms
      → All (λ m. IsDataCode m.opcode × (has_key m.key ≡ not client)) ms
      → joined pieces ≡ encode_all ms
      → arrive pieces s ≡ record s { parser = reset; log = s.log ++ map delivery (map sent ms) }
  arrive-encode_all client ms pieces s r fresh good whole e =
      let read : feed_all s.parser pieces ≡ quiet (map sent ms) =
        ap (λ (t : Parser). feed_all t pieces) fresh ∙ feed_all-encode_all ms [] pieces good e in
      arrive-IsWhole client pieces s r (ap (λ (t : Parser). t.error) read) (
        subst (λ (t : Parser). All (IsWhole client) t.frames) (sym read)
          (sent-IsWhole client ms whole))
      ∙ ap (λ (t : Parser). delivered t.frames (record s { parser = t })) read

  run-arrive :
      (pieces : List (List ℕ)) (s : Session) → run w (map tcp_ready_read pieces) s ≡ arrive pieces s
  unfolding run step
  run-arrive [] s = refl
  run-arrive (c ∷ cs) s = run-arrive cs (handle_tcp_ready_read w c s)

  -- A side that is ready for frames and gets the encodings of whole text and binary messages,
  -- masked as it wants them, in any pieces, delivers exactly these messages in order, and is
  -- otherwise as it was.
  pub run-encode_all :
      (client : Bool) (ms : List Message) (pieces : List (List ℕ)) (s : Session)
      → IsReady client s
      → s.parser ≡ reset
      → All IsSendable ms
      → All (λ m. IsDataCode m.opcode × (has_key m.key ≡ not client)) ms
      → joined pieces ≡ encode_all ms
      → run w (map tcp_ready_read pieces) s
        ≡ record s { parser = reset; log = s.log ++ map delivery (map sent ms) }
  run-encode_all client ms pieces s r fresh good whole e =
      run-arrive pieces s ∙ arrive-encode_all client ms pieces s r fresh good whole e
