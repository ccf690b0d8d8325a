-- ===== src/WebSocket/Session/Fragments.antt =====
-- Fragmented messages in WebSocketImplNative.cpp's `processFrame`.
use simply_node_framework.Prelude.{
  ℕ, Bool, List, [], arith, false, not, refl, true, ◌++◌, ◌∙◌, ◌∷◌, ◌≡◌,
}
use simply_node_framework.WebSocket.Frame.{
  Frame, OpCode, binary, close, continuation, ping, pong, text,
}
use simply_node_framework.WebSocket.Session.{
  Session, World, has_stopped, process_frame, process_frames,
}
use simply_node_framework.WebSocket.Session.Exchange.{
  message_effect, logged, process_frames_next, IsDataCode,
}

module _ (client : Bool) where
  abbrev pub fragment : Bool → OpCode → List ℕ → Frame
  fragment fin opcode payload = record {
    fin = fin;
    opcode = opcode;
    masked = not client;
    payload = payload;
  }

  -- The frames behind the first one: some that are not final, and a final one.
  abbrev pub continued : List (List ℕ) → List ℕ → List Frame
  continued [] last = fragment true continuation last ∷ []
  continued (p ∷ ps) last = fragment false continuation p ∷ continued ps last

abbrev pub glued : List ℕ → List (List ℕ) → List ℕ → List ℕ
glued so_far [] last = so_far ++ last
glued so_far (p ∷ ps) last = glued (so_far ++ p) ps last

abbrev pub with_frames : List Frame → Session → Session
with_frames fs s = record s { parser = record (s.parser) { frames = fs } }

module _ (w : World) (client : Bool) where
  first_frame :
      (opcode : OpCode) (payload : List ℕ) (s : Session)
      → IsDataCode opcode
      → s.client_mode ≡ client
      → process_frame w (fragment client false opcode payload) s
        ≡ record s { fragment_opcode = opcode; fragment_payload = payload }
  unfolding process_frame
  first_frame text payload s d c = ground arith
  first_frame binary payload s d c = ground arith
  first_frame continuation payload s d c = elim d [ ]
  first_frame close payload s d c = elim d [ ]
  first_frame ping payload s d c = elim d [ ]
  first_frame pong payload s d c = elim d [ ]

  middle_frame :
      (opcode : OpCode) (payload : List ℕ) (s : Session)
      → IsDataCode opcode
      → s.client_mode ≡ client
      → s.fragment_opcode ≡ opcode
      → process_frame w (fragment client false continuation payload) s
        ≡ record s { fragment_payload = s.fragment_payload ++ payload }
  unfolding process_frame
  middle_frame text payload s d c o = ground arith
  middle_frame binary payload s d c o = ground arith
  middle_frame continuation payload s d c o = elim d [ ]
  middle_frame close payload s d c o = elim d [ ]
  middle_frame ping payload s d c o = elim d [ ]
  middle_frame pong payload s d c o = elim d [ ]

  last_frame :
      (opcode : OpCode) (payload : List ℕ) (s : Session)
      → IsDataCode opcode
      → s.client_mode ≡ client
      → s.fragment_opcode ≡ opcode
      → process_frame w (fragment client true continuation payload) s
        ≡ logged
            (message_effect opcode (s.fragment_payload ++ payload) ∷ [])
            (record s { fragment_payload = []; fragment_opcode = continuation })
  unfolding process_frame
  last_frame text payload s d c o = ground arith
  last_frame binary payload s d c o = ground arith
  last_frame continuation payload s d c o = elim d [ ]
  last_frame close payload s d c o = elim d [ ]
  last_frame ping payload s d c o = elim d [ ]
  last_frame pong payload s d c o = elim d [ ]

  process_frames_nil : (s : Session) → process_frames w [] s ≡ s
  unfolding process_frames
  process_frames_nil s = refl

  -- The state behind the last fragment.
  abbrev pub reassembled : OpCode → List ℕ → Session → Session
  reassembled opcode message s = logged (message_effect opcode message ∷ []) (record s {
    parser = record (s.parser) { frames = [] };
    fragment_payload = [];
    fragment_opcode = continuation;
  })

  continued-reassembled :
      (ps : List (List ℕ)) (last : List ℕ) (opcode : OpCode) (s : Session)
      → IsDataCode opcode
      → s.client_mode ≡ client
      → has_stopped s.state ≡ false
      → s.fragment_opcode ≡ opcode
      → process_frames w (continued client ps last) s
        ≡ reassembled opcode (glued s.fragment_payload ps last) s
  continued-reassembled [] last opcode s d c going o =
      process_frames_next w (fragment client true continuation last) [] s _
        (last_frame opcode last (with_frames [] s) d c o) going
      ∙ process_frames_nil _
  continued-reassembled (p ∷ ps) last opcode s d c going o =
      let s1 = with_frames (continued client ps last) s in
      let s2 = record s1 { fragment_payload = s.fragment_payload ++ p } in
      process_frames_next w (fragment client false continuation p) (continued client ps last) s s2
        (middle_frame opcode p s1 d c o) going
      ∙ continued-reassembled ps last opcode s2 d c going o

  -- A text or binary message that comes in two or more fragments, masked as this side wants them, is
  -- delivered once, whole and under the first frame's opcode, and the session is as it was but for
  -- the fragments, which are forgotten.
  pub process_frames-reassembled :
      (opcode : OpCode) (first : List ℕ) (ps : List (List ℕ)) (last : List ℕ) (s : Session)
      → IsDataCode opcode
      → s.client_mode ≡ client
      → has_stopped s.state ≡ false
      → process_frames w (fragment client false opcode first ∷ continued client ps last) s
        ≡ reassembled opcode (glued first ps last) s
  process_frames-reassembled opcode first ps last s d c going =
      let s1 = with_frames (continued client ps last) s in
      let s2 = record s1 { fragment_opcode = opcode; fragment_payload = first } in
      process_frames_next w (fragment client false opcode first) (continued client ps last) s s2
        (first_frame opcode first s1 d c) going
      ∙ continued-reassembled ps last opcode s2 d c going refl
