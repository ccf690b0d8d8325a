-- ===== src/WebSocket/Frame/Tests.antt =====
-- Runs of the frame parser and encoder, and the theorems at concrete inputs.
use simply_node_framework.Prelude.{
  ℕ, All, List, [], arith, length, none, refl, some, sym, true, ◌++◌, ◌∷◌, ◌≡◌, ap,
}
use simply_node_framework.WebSocket.Frame.{
  check_control, encode_frame, extended_length, feed, fragmented_control, is_control, mask_key, ok,
  parse_fields, parse_front, parse_header, ping, read_big_endian, read_payload, reserved_bits,
  reset, text, to_op_code,
}
use simply_node_framework.WebSocket.Frame.Stream.{
  feed_all, IsSettled, Same, feed-IsSettled, feed_all-Same,
}
use simply_node_framework.WebSocket.Frame.Encode.{encoded_frame, parse_front-encode_frame}
use simply_node_framework.WebSocket.Frame.Messages.{
  Message, IsSendable, encode_all, feed_all-encode_all, quiet, sent,
}
use simply_node_framework.WebSocket.Frame.Faulty.{feed_all-faulty}
use simply_node_framework.WebSocket.Frame.Valid.{IsAcceptable, feed_all-IsAcceptable}

abbrev hello : Message
hello = record { opcode = text; payload = b'h' ∷ b'i' ∷ []; key = some (1 ∷ 2 ∷ 3 ∷ 4 ∷ []) }

abbrev probe : Message
probe = record { opcode = ping; payload = 7 ∷ []; key = none }

abbrev wire : List ℕ
wire = 0x81 ∷ 0x82 ∷ 1 ∷ 2 ∷ 3 ∷ 4 ∷ 0x69 ∷ 0x6b ∷ 0x89 ∷ 0x01 ∷ 7 ∷ []

encode-wire : encode_all (hello ∷ probe ∷ []) ≡ wire
unfolding encode_frame
encode-wire = refl

feed-wire : (feed reset wire).frames ≡ sent hello ∷ sent probe ∷ []
unfolding feed parse_front parse_header parse_fields to_op_code extended_length check_control
    is_control mask_key read_payload read_big_endian
feed-wire = refl

fragmented_ping : (feed reset (0x09 ∷ 0x00 ∷ [])).error ≡ some fragmented_control
unfolding feed parse_front parse_header parse_fields to_op_code extended_length check_control
    is_control mask_key read_payload read_big_endian
fragmented_ping = refl

both-IsSendable : All IsSendable (hello ∷ probe ∷ [])
unfolding is_control
both-IsSendable = (
  record { keyed = refl; small = omega arith; control = λ e. cc },
  (record { keyed = tt; small = omega arith; control = λ _. omega arith }, tt),
)

parse_front-encode_frame_example :
    parse_front (encode_frame text (b'h' ∷ b'i' ∷ []) (some (1 ∷ 2 ∷ 3 ∷ 4 ∷ [])) ++ (0x89 ∷ []))
    ≡ ok (
      encoded_frame text true (b'h' ∷ b'i' ∷ []),
      length (encode_frame text (b'h' ∷ b'i' ∷ []) (some (1 ∷ 2 ∷ 3 ∷ 4 ∷ []))),
    )
parse_front-encode_frame_example =
    parse_front-encode_frame text (some (1 ∷ 2 ∷ 3 ∷ 4 ∷ [])) (b'h' ∷ b'i' ∷ []) (0x89 ∷ []) refl
      (omega arith) (both-IsSendable.0).control

feed_all-encode_all_example :
    feed_all
      (quiet [])
      ((0x81 ∷ 0x82 ∷ 1 ∷ []) ∷ (2 ∷ 3 ∷ 4 ∷ 0x69 ∷ 0x6b ∷ 0x89 ∷ 0x01 ∷ 7 ∷ []) ∷ [])
    ≡ quiet (sent hello ∷ sent probe ∷ [])
feed_all-encode_all_example =
    feed_all-encode_all (hello ∷ probe ∷ []) []
      ((0x81 ∷ 0x82 ∷ 1 ∷ []) ∷ (2 ∷ 3 ∷ 4 ∷ 0x69 ∷ 0x6b ∷ 0x89 ∷ 0x01 ∷ 7 ∷ []) ∷ [])
      both-IsSendable (sym encode-wire)

feed_all-Same_example :
    Same (feed_all reset ((0x81 ∷ []) ∷ (0x01 ∷ 5 ∷ []) ∷ [])) (feed reset (0x81 ∷ 0x01 ∷ 5 ∷ []))
feed_all-Same_example = feed_all-Same reset ((0x81 ∷ []) ∷ (0x01 ∷ 5 ∷ []) ∷ [])

feed-IsSettled_example : IsSettled (feed reset (0x81 ∷ 0x01 ∷ []))
feed-IsSettled_example = feed-IsSettled reset 0x81 (0x01 ∷ [])

feed_all-IsAcceptable_example :
    All IsAcceptable (feed_all reset ((0x89 ∷ []) ∷ (0x00 ∷ []) ∷ [])).frames
feed_all-IsAcceptable_example = feed_all-IsAcceptable reset ((0x89 ∷ []) ∷ (0x00 ∷ []) ∷ []) tt

-- A frame with a reserved bit behind two that are whole, and a byte behind it.
feed_all-faulty_example :
    (let p = feed_all (quiet []) (wire ∷ (0x40 ∷ []) ∷ (0x00 ∷ 9 ∷ []) ∷ []) in
      (p.frames ≡ sent hello ∷ sent probe ∷ []) × (p.error ≡ some reserved_bits))
unfolding parse_front parse_header
feed_all-faulty_example =
    feed_all-faulty (hello ∷ probe ∷ []) [] (0x40 ∷ 0x00 ∷ []) (9 ∷ []) reserved_bits
      (wire ∷ (0x40 ∷ []) ∷ (0x00 ∷ 9 ∷ []) ∷ []) both-IsSendable refl
      (ap (λ s. s ++ (0x40 ∷ 0x00 ∷ 9 ∷ [])) (sym encode-wire))
