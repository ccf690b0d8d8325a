-- ===== src/WebSocket/Frame/Encode.antt =====
-- `encodeFrame` of WebSocketFrame.cpp, and the parser on what it writes.
use Prim.Native.Nat.{bit_and, bit_or, bit_or-bitwise}
use simply_node_framework.Prelude.{
  ℕ, Bool, List, [], ap, arith, false, if◌then◌else◌, not, refl, some, true, ◌%◌, ◌+◌, ◌<◌, ◌==◌,
  ◌^◌, ◌∙◌, ◌∷◌, ◌≡◌, Option, get_or, length, length-append, none, suc, sym, window-middle, ◌++◌,
  ◌≤◌, Bool-cases, append_assoc, inl, inr, leb,
}
use simply_node_framework.Prelude.Bits.{bit_and_0x80, bit_and_0x7f, bit_or_0x80, bit_xor_self}
use simply_node_framework.WebSocket.Frame.{
  Frame, OpCode, Parse, binary, check_control, close, code, continuation, extended_length, mask_key,
  ok, parse_fields, parse_front, parse_header, ping, pong, read_payload, text, to_op_code, ◌>>=◌,
  ◌>>◌, apply_mask, is_control, length_field, encode_frame,
}
use simply_node_framework.WebSocket.Frame.LengthField.{
  extended_length_two, extended_length_eight, extended_length_short,
}

abbrev pub IsByte : ℕ → Type 0
IsByte b = b < 256

abbrev mask_bit : Bool → ℕ
mask_bit masked = if masked then 0x80 else 0x00

-- The parse of what stands behind the length field.
abbrev behind_length : OpCode → Bool → ℕ → ℕ → List ℕ → Parse (Frame × ℕ)
behind_length opcode masked size offset buffer = do
  check_control true opcode size
  key ← mask_key masked offset buffer
  read_payload true opcode masked key.0 key.1 size buffer

first_byte :
    (opcode : OpCode)
    → (bit_and (bit_or 0x80 (code opcode)) 0x70 ≡ 0)
      × (to_op_code (bit_and (bit_or 0x80 (code opcode)) 0x0f) ≡ some opcode)
      × (bit_and (bit_or 0x80 (code opcode)) 0x80 ≡ 0x80)
unfolding code to_op_code
first_byte continuation = (refl, refl, refl)
first_byte text = (refl, refl, refl)
first_byte binary = (refl, refl, refl)
first_byte close = (refl, refl, refl)
first_byte ping = (refl, refl, refl)
first_byte pong = (refl, refl, refl)

-- The second header byte tells the mask bit and seven bits of length apart.
second_byte :
    (masked : Bool) (short : ℕ)
    → short < 128
    → (not (bit_and (bit_or (mask_bit masked) short) 0x80 == 0) ≡ masked)
      × (bit_and (bit_or (mask_bit masked) short) 0x7f ≡ short)
second_byte true short h = ground (
  arith,
  bit_or_0x80 short h,
  bit_and_0x80 (128 + short) (omega arith),
  bit_and_0x7f (128 + short) (omega arith),
)
second_byte false short h = ground (
  arith,
  bit_or-bitwise 0 short,
  bit_and_0x80 short (omega arith),
  bit_and_0x7f short (omega arith),
)

parse_header-encoded :
    (opcode : OpCode) (masked : Bool) (short size offset : ℕ) (tail : List ℕ)
    → short < 128
    → let first = bit_or 0x80 (code opcode) in
      let second = bit_or (mask_bit masked) short in
      let buffer = first ∷ second ∷ tail in
      extended_length short buffer ≡ ok (size, offset)
      → parse_front buffer ≡ behind_length opcode masked size offset buffer
unfolding parse_front parse_header parse_fields
parse_header-encoded opcode masked short size offset tail h e =
    let (plain, known, fin) = first_byte opcode in
    let (is_masked, is_short) = second_byte masked short h in
    rw (plain, known, fin, is_masked, is_short, e) refl

pub length-apply_mask :
    (key : List ℕ) (i : ℕ) (bs : List ℕ) → length (apply_mask key i bs) ≡ length bs
unfolding apply_mask
length-apply_mask key i [] = refl
length-apply_mask key i (b ∷ bs) = ap suc (length-apply_mask key (i + 1) bs)

-- Masking twice with one key gives the payload back.
pub apply_mask_twice :
    (key : List ℕ) (i : ℕ) (bs : List ℕ) → apply_mask key i (apply_mask key i bs) ≡ bs
unfolding apply_mask
apply_mask_twice key i [] = refl
apply_mask_twice key i (b ∷ bs) =
    rw (bit_xor_self b (get_or key (i % 4) 0), apply_mask_twice key (i + 1) bs) refl

control_ok :
    (opcode : OpCode) (size : ℕ)
    → (is_control opcode ≡ true → size ≤ 125)
    → check_control true opcode size ≡ ok tt
unfolding check_control
control_ok opcode size h = ground arith

module _ (opcode : OpCode) (head body rest : List ℕ) (size : ℕ) where
  read_payload-middle :
      (masked : Bool) (key : List ℕ) (offset : ℕ)
      → length body ≡ size
      → size < 2 ^ 63
      → length head ≡ offset
      → read_payload true opcode masked key offset size (head ++ (body ++ rest))
        ≡ ok (
          record {
            fin = true;
            opcode = opcode;
            masked = masked;
            payload = if masked then apply_mask key 0 body else body;
          },
          offset + size,
        )
  unfolding read_payload
  read_payload-middle masked key offset sized small placed = ground (
    arith,
    length-append head (body ++ rest),
    length-append body rest,
    window-middle head body rest offset size (sym placed) (sym sized),
  )

mask_key-middle :
    (head key tail : List ℕ) (offset : ℕ)
    → length key ≡ 4
    → length head ≡ offset
    → mask_key true offset (head ++ (key ++ tail)) ≡ ok (key, offset + 4)
unfolding mask_key
mask_key-middle head key tail offset four placed = ground (
  arith,
  length-append head (key ++ tail),
  length-append key tail,
  window-middle head key tail offset 4 (sym placed) (sym four),
)

abbrev pub IsKey : Option (List ℕ) → Type 0
IsKey none = Unit
IsKey (some key) = length key ≡ 4

abbrev pub has_key : Option (List ℕ) → Bool
has_key none = false
has_key (some key) = true

-- What stands behind the length field.
abbrev body_of : Option (List ℕ) → List ℕ → List ℕ
body_of none payload = payload
body_of (some key) payload = key ++ apply_mask key 0 payload

abbrev pub encoded_frame : OpCode → Bool → List ℕ → Frame
encoded_frame opcode masked payload = record {
  fin = true;
  opcode = opcode;
  masked = masked;
  payload = payload;
}

behind_length-encoded :
    (opcode : OpCode) (key : Option (List ℕ)) (head payload rest : List ℕ)
    → IsKey key
    → length payload < 2 ^ 63
    → (is_control opcode ≡ true → length payload ≤ 125)
    → behind_length opcode
        (has_key key)
        (length payload)
        (length head)
        (head ++ (body_of key payload ++ rest))
      ≡ ok (encoded_frame opcode (has_key key) payload, length (head ++ body_of key payload))
unfolding mask_key
behind_length-encoded opcode none head payload rest four small control =
    rw
      (
        control_ok opcode (length payload) control,
        read_payload-middle opcode head payload rest (length payload) false (0 ∷ 0 ∷ 0 ∷ 0 ∷ [])
            (length head) refl small refl,
        length-append head payload,
      )
      refl
behind_length-encoded opcode (some key) head payload rest four small control =
    let coded = apply_mask key 0 payload in
    let sized : length coded ≡ length payload = length-apply_mask key 0 payload in
    let placed : length (head ++ key) ≡ length head + 4 = omega (arith, length-append head key) in
    let total : length head + 4 + length payload ≡ length (head ++ (key ++ coded)) =
      omega (arith, length-append head (key ++ coded), length-append key coded) in
    rw
      (
        append_assoc key coded rest,
        control_ok opcode (length payload) control,
        mask_key-middle head key (coded ++ rest) (length head) four refl,
        ← append_assoc head key (coded ++ rest),
        read_payload-middle opcode (head ++ key) coded rest (length payload) true key
            (length head + 4) sized small placed,
        apply_mask_twice key 0 payload,
        total,
      )
      refl

module _ (opcode : OpCode) (key : Option (List ℕ)) (payload rest : List ℕ) where
  encoded_head : List ℕ
  unfolding length_field
  encoded_head = bit_or 0x80 (code opcode) ∷ length_field (mask_bit (has_key key)) (length payload)

  parse_front-encoded :
      IsKey key
      → length payload < 2 ^ 63
      → (is_control opcode ≡ true → length payload ≤ 125)
      → parse_front (encoded_head ++ (body_of key payload ++ rest))
        ≡ ok (
          encoded_frame opcode (has_key key) payload,
          length (encoded_head ++ body_of key payload),
        )
  unfolding encoded_head
  parse_front-encoded four small control = elim (Bool-cases (leb (length payload) 125)) [
    | inl short ↦ rw short (
        parse_header-encoded opcode (has_key key) (length payload) (length payload) 2 _
          (ground arith) (extended_length_short (length payload) _ (ground arith))
        ∙ behind_length-encoded opcode key (_ ∷ _ ∷ []) payload rest four small control)
    | inr long ↦ elim (Bool-cases (leb (length payload) 0xffff)) [
      | inl two ↦
          rw (long, two)
            (parse_header-encoded opcode (has_key key) 126 (length payload) 4 _ (omega arith)
                (extended_length_two _ _ (length payload) _ (ground arith) (ground arith))
              ∙ behind_length-encoded opcode key (_ ∷ _ ∷ _ ∷ _ ∷ []) payload rest four small
                  control)
      | inr eight ↦
          rw (long, eight)
            (parse_header-encoded opcode (has_key key) 127 (length payload) 10 _ (omega arith)
                (extended_length_eight _ _ (length payload) _ (ground arith) (omega arith))
              ∙ behind_length-encoded opcode key (_ ∷ _ ∷ _ ∷ _ ∷ _ ∷ _ ∷ _ ∷ _ ∷ _ ∷ _ ∷ [])
                  payload rest four small control)
    ]
  ]

-- What `encodeFrame` writes for a payload below 2 ^ 63 bytes (125 for a control frame), masked with
-- a key of four bytes or not masked, the parser reads back as one final frame with that opcode, that
-- payload and that mask flag, whatever bytes follow; it takes exactly the bytes that were written.
pub parse_front-encode_frame :
    (opcode : OpCode) (key : Option (List ℕ)) (payload rest : List ℕ)
    → IsKey key
    → length payload < 2 ^ 63
    → (is_control opcode ≡ true → length payload ≤ 125)
    → parse_front (encode_frame opcode payload key ++ rest)
      ≡ ok (encoded_frame opcode (has_key key) payload, length (encode_frame opcode payload key))
unfolding encode_frame encoded_head
parse_front-encode_frame opcode none payload rest four small control =
    rw (append_assoc (length_field 0x00 (length payload)) payload rest)
      (parse_front-encoded opcode none payload rest four small control)
parse_front-encode_frame opcode (some key) payload rest four small control =
    rw (append_assoc (length_field 0x80 (length payload)) (key ++ apply_mask key 0 payload) rest)
      (parse_front-encoded opcode (some key) payload rest four small control)

pub pos-length-encode_frame :
    (opcode : OpCode) (key : Option (List ℕ)) (payload : List ℕ)
    → 0 < length (encode_frame opcode payload key)
unfolding encode_frame
pos-length-encode_frame opcode none payload = omega arith
pos-length-encode_frame opcode (some key) payload = omega arith
