-- ===== src/WebSocket/Frame/Faulty.antt =====
-- A fault in the bytes that reach WebSocketFrame.cpp: what came before it is kept, what comes behind
-- it is not read.
use simply_node_framework.Prelude.{
  All, List, [], ap, append-nil, append_assoc, arith, drop, drop-append, length, length-append, map,
  none, refl, some, suc, zero, ℕ, ◌++◌, ◌<◌, ◌∙◌, ◌∷◌, ◌≡◌,
}
use simply_node_framework.WebSocket.Frame.{
  Parser, Frame, fail, parse_front, drain, FrameError, appended, encode_frame, feed,
}
use simply_node_framework.WebSocket.Frame.Encode.{parse_front-encode_frame, pos-length-encode_frame}
use simply_node_framework.WebSocket.Frame.Extends.{parse_front-Keeps}
use simply_node_framework.WebSocket.Frame.Messages.{Message, IsSendable, encode_all, quiet, sent}
use simply_node_framework.WebSocket.Frame.Stream.{
  feed_all, advanced, drain-fail, drain_ok, feed_all-Same, feed_clear, joined,
}

drain-faulty :
    (k : ℕ) (ms : List Message) (p : Parser) (rest : List ℕ) (x : FrameError)
    → All IsSendable ms
    → p.error ≡ none
    → p.buffer ≡ encode_all ms ++ rest
    → parse_front rest ≡ fail x
    → length p.buffer < k
    → drain k p ≡ record { buffer = rest; frames = p.frames ++ map sent ms; error = some x }
drain-faulty zero ms p rest x good clear held bad h = absurd (omega arith)
drain-faulty (suc k) [] p rest x good clear held bad h =
    rw (drain-fail k p x clear (ap parse_front held ∙ bad)) (cc (append-nil p.frames, held))
drain-faulty (suc k) (m ∷ ms) p rest x (g, gs) clear held bad h =
    let bytes = encode_frame m.opcode m.payload m.key in
    let behind = encode_all ms ++ rest in
    let held' : p.buffer ≡ bytes ++ behind = held ∙ append_assoc bytes (encode_all ms) rest in
    let front =
      parse_front-encode_frame m.opcode m.key m.payload behind g.keyed g.small g.control in
    let cut : drop (length bytes) p.buffer ≡ behind =
      ap (drop (length bytes)) held' ∙ drop-append bytes behind in
    rw (drain_ok k p (sent m) (length bytes) clear (ap parse_front held' ∙ front)) (
      drain-faulty k ms (advanced p (sent m) (length bytes)) rest x gs clear cut bad (
        omega (
          arith,
          ap length cut,
          ap length held',
          length-append bytes behind,
          pos-length-encode_frame m.opcode m.key m.payload,
        ))
      ∙ ap (λ fs. record { buffer = rest; frames = fs; error = some x })
          (append_assoc p.frames (sent m ∷ []) (map sent ms)))

faulty-pos : (rest : List ℕ) (x : FrameError) → parse_front rest ≡ fail x → 0 < length rest
unfolding parse_front
faulty-pos [] x bad = cc bad
faulty-pos (b ∷ bs) x bad = omega arith

feed-faulty :
    (ms : List Message) (frames : List Frame) (bytes rest : List ℕ) (x : FrameError)
    → All IsSendable ms
    → bytes ≡ encode_all ms ++ rest
    → parse_front rest ≡ fail x
    → feed (quiet frames) bytes
      ≡ record { buffer = rest; frames = frames ++ map sent ms; error = some x }
feed-faulty ms frames [] rest x good e bad =
    absurd (omega (arith, ap length e, length-append (encode_all ms) rest, faulty-pos rest x bad))
feed-faulty ms frames (b ∷ bs) rest x good e bad =
    feed_clear (quiet frames) b bs refl
    ∙ drain-faulty (suc (length (b ∷ bs))) ms (appended (quiet frames) (b ∷ bs)) rest x good refl e
        bad (omega arith)

-- Sendable messages are encoded one behind the other, behind them come bytes of which no frame can be
-- read, for a reason that the first of them give, and any bytes behind these. However all of them are
-- cut into pieces, a waiting parser comes to hold exactly the frames that were sent, behind those it
-- held, and that error: what comes behind the fault, in the same piece or later, takes no part.
pub feed_all-faulty :
    (ms : List Message) (frames : List Frame) (bad tail : List ℕ) (x : FrameError)
    (pieces : List (List ℕ))
    → All IsSendable ms
    → parse_front bad ≡ fail x
    → joined pieces ≡ encode_all ms ++ (bad ++ tail)
    → ((feed_all (quiet frames) pieces).frames ≡ frames ++ map sent ms)
      × ((feed_all (quiet frames) pieces).error ≡ some x)
feed_all-faulty ms frames bad tail x pieces good fault e =
    let same = feed_all-Same (quiet frames) pieces in
    let longer : parse_front (bad ++ tail) ≡ fail x = rw fault at (parse_front-Keeps bad tail) in
    let at_once = feed-faulty ms frames (joined pieces) (bad ++ tail) x good e longer in
    (same.frames ∙ ap (λ p. p.frames) at_once, same.error ∙ ap (λ p. p.error) at_once)
