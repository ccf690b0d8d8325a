-- ===== src/WebSocket/Frame/Messages.antt =====
-- From `encodeFrame` through the wire to `nextFrame`.
use simply_node_framework.Prelude.{
  ℕ, All, List, Option, [], ap, append-nil, arith, drop, drop-append, length, length-append, map,
  none, refl, suc, true, zero, ◌++◌, ◌<◌, ◌^◌, ◌∙◌, ◌∷◌, ◌≡◌, ◌≤◌, append_assoc, sym,
}
use simply_node_framework.WebSocket.Frame.{
  Parser, Frame, OpCode, drain, encode_frame, is_control, more, parse_front, appended, feed,
}
use simply_node_framework.WebSocket.Frame.Encode.{
  IsKey, encoded_frame, has_key, parse_front-encode_frame, pos-length-encode_frame,
}
use simply_node_framework.WebSocket.Frame.Stream.{
  advanced, drain_more, drain_ok, feed_all, feed_all-Same, feed_clear, feed_nil, joined,
}

-- One call of `encodeFrame`.
pub record Message : Type 0 where
  pub opcode : OpCode
  pub payload : List ℕ
  pub key : Option (List ℕ)

pub record IsSendable (m : Message) : Type 0 where
  pub keyed : IsKey m.key
  pub small : length m.payload < 2 ^ 63
  pub control : is_control m.opcode ≡ true → length m.payload ≤ 125

abbrev pub sent : Message → Frame
sent m = encoded_frame m.opcode (has_key m.key) m.payload

abbrev pub encode_all : List Message → List ℕ
encode_all [] = []
encode_all (m ∷ ms) = encode_frame m.opcode m.payload m.key ++ encode_all ms

parse_front_nil : parse_front [] ≡ more
unfolding parse_front
parse_front_nil = refl

-- A parser that waits, with nothing in its buffer.
abbrev pub quiet : List Frame → Parser
quiet frames = record { buffer = []; frames = frames; error = none }

drain-encode_all :
    (k : ℕ) (ms : List Message) (p : Parser)
    → All IsSendable ms
    → p.error ≡ none
    → p.buffer ≡ encode_all ms
    → length (encode_all ms) < k
    → drain k p ≡ quiet (p.frames ++ map sent ms)
drain-encode_all zero ms p good clear held h = absurd (omega arith)
drain-encode_all (suc k) [] p good clear held h =
    rw (drain_more k p clear (ap parse_front held ∙ parse_front_nil)) (cc (append-nil p.frames))
drain-encode_all (suc k) (m ∷ ms) p (g, gs) clear held h =
    let bytes = encode_frame m.opcode m.payload m.key in
    let front =
      parse_front-encode_frame m.opcode m.key m.payload (encode_all ms) g.keyed g.small g.control in
    rw (drain_ok k p (sent m) (length bytes) clear (ap parse_front held ∙ front)) (
      drain-encode_all k ms (advanced p (sent m) (length bytes)) gs clear
        (ap (drop (length bytes)) held ∙ drop-append bytes (encode_all ms))
        (omega (
          arith,
          length-append bytes (encode_all ms),
          pos-length-encode_frame m.opcode m.key m.payload,
        ))
      ∙ ap (λ (fs : List Frame). quiet fs) (append_assoc p.frames (sent m ∷ []) (map sent ms)))

feed-encode_all :
    (ms : List Message) (frames : List Frame) (b : ℕ) (bs : List ℕ)
    → All IsSendable ms
    → encode_all ms ≡ b ∷ bs
    → feed (quiet frames) (b ∷ bs) ≡ quiet (frames ++ map sent ms)
feed-encode_all ms frames b bs good e =
    feed_clear (quiet frames) b bs refl
    ∙ drain-encode_all (suc (length (b ∷ bs))) ms (appended (quiet frames) (b ∷ bs)) good refl
        (sym e) (rw e (omega arith))

feed_encoded :
    (ms : List Message) (frames : List Frame) (bytes : List ℕ)
    → All IsSendable ms
    → bytes ≡ encode_all ms
    → feed (quiet frames) bytes ≡ quiet (frames ++ map sent ms)
feed_encoded [] frames bytes good e = rw (e, feed_nil (quiet frames), append-nil frames) refl
feed_encoded (m ∷ ms) frames [] good e = absurd (
    omega (
      arith,
      ap length e,
      length-append (encode_frame m.opcode m.payload m.key) (encode_all ms),
      pos-length-encode_frame m.opcode m.key m.payload,
    ))
feed_encoded (m ∷ ms) frames (b ∷ bs) good e = feed-encode_all (m ∷ ms) frames b bs good (sym e)

-- When sendable messages are encoded one behind the other and the bytes arrive in any pieces, a
-- waiting parser with an empty buffer comes to hold exactly the frames that were sent, in order
-- behind those it held, with an empty buffer and no error.
pub feed_all-encode_all :
    (ms : List Message) (frames : List Frame) (pieces : List (List ℕ))
    → All IsSendable ms
    → joined pieces ≡ encode_all ms
    → feed_all (quiet frames) pieces ≡ quiet (frames ++ map sent ms)
feed_all-encode_all ms frames pieces good e =
    let at_once = feed_encoded ms frames (joined pieces) good e in
    let same = feed_all-Same (quiet frames) pieces in
    same.whole (ap (λ (p : Parser). p.error) at_once) ∙ at_once
