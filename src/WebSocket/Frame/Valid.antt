-- ===== src/WebSocket/Frame/Valid.antt =====
-- Which frames the parser of WebSocketFrame.cpp lets through.
use Prim.Native.Nat.{bit_and}
use simply_node_framework.Prelude.{
  ℕ, Bool, List, arith, drop, length, length-take, take, true, ◌∙◌, ◌≡◌, ◌≤◌, All, All-append,
  Bool-cases, Option-cases, [], inl, inr, none, not, refl, some, suc, zero, ◌==◌, ◌∷◌,
}
use simply_node_framework.WebSocket.Frame.{
  Frame, OpCode, bind-eq-ok, check_control, extended_length, is_control, mask_key, ok, parse_fields,
  read_payload, FrameError, Parser, appended, drain, feed, parse_front, parse_header, to_op_code,
}
use simply_node_framework.WebSocket.Frame.Stream.{
  feed_all, Parse-cases, advanced, drain-fail, drain_more, drain_ok, feed_clear, feed_error,
  feed_nil,
}
use simply_node_framework.WebSocket.Frame.Encode.{length-apply_mask}

-- A control frame is final and short.
abbrev pub IsAcceptable : Frame → Type 0
IsAcceptable f = is_control f.opcode ≡ true → (f.fin ≡ true) × (length f.payload ≤ 125)

check_control-ok :
    (fin : Bool) (opcode : OpCode) (size : ℕ)
    → check_control fin opcode size ≡ ok tt
    → is_control opcode ≡ true
    → (fin ≡ true) × (size ≤ 125)
unfolding check_control
check_control-ok fin opcode size e c = ground arith

read_payload-fields :
    (fin : Bool) (opcode : OpCode) (masked : Bool) (key : List ℕ) (offset size : ℕ)
    (buffer : List ℕ) (frame : Frame) (count : ℕ)
    → read_payload fin opcode masked key offset size buffer ≡ ok (frame, count)
    → (frame.fin ≡ fin) × (frame.opcode ≡ opcode) × (length frame.payload ≤ size)
unfolding read_payload
read_payload-fields fin opcode masked key offset size buffer frame count e = ground (
  arith,
  length-take size (drop offset buffer),
  length-apply_mask key 0 (take size (drop offset buffer)),
)

parse_fields-IsAcceptable :
    (fin masked : Bool) (short : ℕ) (opcode : OpCode) (buffer : List ℕ) (frame : Frame) (count : ℕ)
    → parse_fields fin masked short opcode buffer ≡ ok (frame, count)
    → IsAcceptable frame
unfolding parse_fields
parse_fields-IsAcceptable fin masked short opcode buffer frame count e c =
    let ((size, offset), sized, e1) = bind-eq-ok (extended_length short buffer) _ e in
    let (u, checked, e2) = bind-eq-ok (check_control fin opcode size) _ e1 in
    let ((key, after), keyed, e3) = bind-eq-ok (mask_key masked offset buffer) _ e2 in
    let (same_fin, same_opcode, short_payload) =
      read_payload-fields fin opcode masked key after size buffer frame count e3 in
    let (is_fin, is_short) = check_control-ok fin opcode size checked (rw same_opcode at c) in
    (same_fin ∙ is_fin, omega arith)

parse_front-IsAcceptable :
    (buffer : List ℕ) (frame : Frame) (count : ℕ)
    → parse_front buffer ≡ ok (frame, count)
    → IsAcceptable frame
unfolding parse_front parse_header
parse_front-IsAcceptable [] frame count e c = cc
parse_front-IsAcceptable (first ∷ []) frame count e c = cc
parse_front-IsAcceptable (first ∷ second ∷ rest) frame count e c =
    elim (Bool-cases (not (bit_and first 0x70 == 0))) [
      | inl reserved ↦ cc (rw reserved at e)
      | inr plain ↦ elim (Option-cases (to_op_code (bit_and first 0x0f))) [
        | inl unknown ↦ cc (rw (plain, unknown) at e)
        | inr (opcode, known) ↦
            parse_fields-IsAcceptable _ _ _ opcode (first ∷ second ∷ rest) frame count
              (rw (plain, known) at e) c
      ]
    ]

drain-IsAcceptable :
    (k : ℕ) (p : Parser)
    → p.error ≡ none
    → All IsAcceptable p.frames
    → All IsAcceptable (drain k p).frames
unfolding drain
drain-IsAcceptable zero p clear h = h
drain-IsAcceptable (suc k) p clear h = elim (Parse-cases (parse_front p.buffer)) [
  | inl e ↦ rw (drain_more k p clear e) h
  | inr (inl (x, e)) ↦ rw (drain-fail k p x clear e) h
  | inr (inr ((frame, count), e)) ↦ rw (drain_ok k p frame count clear e) (
      drain-IsAcceptable k (advanced p frame count) clear (
        All-append IsAcceptable p.frames (frame ∷ []) h
          (parse_front-IsAcceptable p.buffer frame count e, tt)))
]

feed-IsAcceptable :
    (p : Parser) (bytes : List ℕ)
    → All IsAcceptable p.frames
    → All IsAcceptable (feed p bytes).frames
feed-IsAcceptable p [] h = rw (feed_nil p) h
feed-IsAcceptable p (b ∷ bs) h = elim (Option-cases p.error) [
  | inl clear ↦ rw (feed_clear p b bs clear) (drain-IsAcceptable _ (appended p (b ∷ bs)) clear h)
  | inr (x, failed) ↦ rw (feed_error p (b ∷ bs) x failed) h
]

-- Whatever bytes arrive, in whatever pieces, a control frame that the parser holds is final and has
-- at most 125 bytes of payload, if that was so of the frames that it held before.
pub feed_all-IsAcceptable :
    (p : Parser) (pieces : List (List ℕ))
    → All IsAcceptable p.frames
    → All IsAcceptable (feed_all p pieces).frames
feed_all-IsAcceptable p [] h = h
feed_all-IsAcceptable p (c ∷ cs) h = feed_all-IsAcceptable (feed p c) cs (feed-IsAcceptable p c h)

-- An error sticks: until `reset`, no bytes change anything.
pub feed_all_error :
    (p : Parser) (pieces : List (List ℕ)) (x : FrameError)
    → p.error ≡ some x
    → feed_all p pieces ≡ p
feed_all_error p [] x failed = refl
feed_all_error p (c ∷ cs) x failed = rw (feed_error p c x failed) (feed_all_error p cs x failed)
