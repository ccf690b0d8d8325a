-- ===== src/WebSocket/Frame.antt =====
-- lib/WebSocket/src/SNFWebSocket/WebSocketFrame.h and WebSocketFrame.cpp: the incremental frame
-- parser and the encoder. Bytes are numbers below 256. An error message is a constructor of
-- `FrameError`, the empty message is `none`. The key that `randomMask` draws is an argument.
pub mod Extends
pub mod Stream
pub mod Messages
pub mod Faulty
pub mod Valid
mod Tests
pub mod LengthField
pub mod Encode
use Prim.Native.Nat.{bit_and, bit_or, bit_xor}
use simply_node_framework.Prelude.{
  ◌≡◌, refl, ℕ, zero, suc, ◌+◌, ◌-◌, ◌*◌, ◌/◌, ◌%◌, ◌^◌, Bool, true, false, not, ◌||◌, Option, none,
  some, List, [], ◌∷◌, ◌++◌, ltb, leb, ◌==◌, if◌then◌else◌, length, take, drop, get_or,
}

pub data OpCode : Type 0 where
  continuation text binary close ping pong : OpCode

pub code : OpCode → ℕ
code continuation = 0x0
code text = 0x1
code binary = 0x2
code close = 0x8
code ping = 0x9
code pong = 0xa

-- `isKnownOpcode` and the cast behind it: `none` is an unknown byte.
pub to_op_code : ℕ → Option OpCode
to_op_code b =
    if b == 0x0
    then some continuation
    else if b == 0x1
    then some text
    else if b == 0x2
    then some binary
    else if b == 0x8
    then some close
    else if b == 0x9
    then some ping
    else if b == 0xa
    then some pong
    else none

unfoldable pub is_control : OpCode → Bool
is_control close = true
is_control ping = true
is_control pong = true
is_control _ = false

pub record Frame : Type 0 where
  pub fin : Bool
  pub opcode : OpCode
  pub masked : Bool
  pub payload : List ℕ

pub data FrameError : Type 0 where
  reserved_bits unsupported_opcode non_minimal_16 invalid_64 non_minimal_64 : FrameError
  fragmented_control control_too_large too_large : FrameError

pub record Parser : Type 0 where
  pub buffer : List ℕ
  pub frames : List Frame
  pub error : Option FrameError

-- What one attempt to read a frame comes to: the buffer is too short, the frame is refused, or a value.
pub data Parse {ℓ} (A : Type ℓ) : Type ℓ where
  more : Parse A
  fail : FrameError → Parse A
  ok : A → Parse A

infixl 5 ◌>>=◌ ◌>>◌
abbrev pub ◌>>=◌ {ℓ κ} : {A : Type ℓ} {B : Type κ} → Parse A → (A → Parse B) → Parse B
more >>= k = more
fail e >>= k = fail e
ok a >>= k = k a

abbrev pub ◌>>◌ {ℓ} : {B : Type ℓ} → Parse (Unit {0}) → Parse B → Parse B
m >> k = m >>= λ _. k

abbrev u64_mod : ℕ
u64_mod = 2 ^ 64

abbrev pub window : List ℕ → ℕ → ℕ → List ℕ
window bytes offset count = take count (drop offset bytes)

pub big_endian : ℕ → List ℕ → ℕ
big_endian value [] = value
big_endian value (b ∷ bs) = big_endian (bit_or (value * 256 % u64_mod) b) bs

pub read_big_endian : List ℕ → ℕ → ℕ → ℕ
unfolding big_endian
read_big_endian bytes offset count = big_endian 0 (window bytes offset count)

-- The length of the payload and the offset behind the length field.
pub extended_length : ℕ → List ℕ → Parse (ℕ × ℕ)
extended_length n buffer =
    if n == 126
    then (if ltb (length buffer) 4
        then more
        else let size = read_big_endian buffer 2 2 in
          if ltb size 126 then fail non_minimal_16 else ok (size, 4))
    else if n == 127
    then (if ltb (length buffer) 10
        then more
        else let size = read_big_endian buffer 2 8 in
          if not (size / 2 ^ 63 % 2 == 0)
          then fail invalid_64
          else if leb size 0xffff
          then fail non_minimal_64
          else ok (size, 10))
    else ok (n, 2)

pub check_control : Bool → OpCode → ℕ → Parse (Unit {0})
check_control fin opcode size =
    if is_control opcode
    then (if not fin
        then fail fragmented_control
        else if ltb 125 size
        then fail control_too_large
        else ok tt)
    else ok tt

-- The masking key and the offset behind it.
pub mask_key : Bool → ℕ → List ℕ → Parse (List ℕ × ℕ)
mask_key masked offset buffer =
    if masked
    then (if ltb (length buffer) (offset + 4)
        then more
        else ok (window buffer offset 4, offset + 4))
    else ok (0 ∷ 0 ∷ 0 ∷ 0 ∷ [], offset)

-- `payload[i] ^= maskKey[i % 4]` from index `i` on.
pub apply_mask : List ℕ → ℕ → List ℕ → List ℕ
apply_mask key i [] = []
apply_mask key i (b ∷ bs) = bit_xor b (get_or key (i % 4) 0) ∷ apply_mask key (i + 1) bs

-- The frame, and the number of bytes that it takes.
pub read_payload : Bool → OpCode → Bool → List ℕ → ℕ → ℕ → List ℕ → Parse (Frame × ℕ)
unfolding apply_mask
read_payload fin opcode masked key offset size buffer =
    if ltb (u64_mod - 1) size
    then fail too_large
    else if ltb (length buffer) (offset + size)
    then more
    else let raw = window buffer offset size in
      ok (
        record {
          fin = fin;
          opcode = opcode;
          masked = masked;
          payload = if masked then apply_mask key 0 raw else raw;
        },
        offset + size,
      )

pub parse_fields : Bool → Bool → ℕ → OpCode → List ℕ → Parse (Frame × ℕ)
parse_fields fin masked short opcode buffer = do
  extent ← extended_length short buffer
  check_control fin opcode extent.0
  key ← mask_key masked extent.1 buffer
  read_payload fin opcode masked key.0 key.1 extent.0 buffer

pub bind-eq-ok {ℓ κ} :
    {A : Type ℓ} {B : Type κ} (m : Parse A) (k : A → Parse B) {b : B}
    → (m >>= k) ≡ ok b
    → (a : A) × (m ≡ ok a) × (k a ≡ ok b)
bind-eq-ok more k h = cc
bind-eq-ok (fail e) k h = cc
bind-eq-ok (ok a) k h = (a, refl, h)

abbrev or_fail {ℓ} : {A : Type ℓ} → Option A → FrameError → Parse A
or_fail none e = fail e
or_fail (some a) e = ok a

pub parse_header : ℕ → ℕ → List ℕ → Parse (Frame × ℕ)
parse_header first second buffer = if not (bit_and first 0x70 == 0) then fail reserved_bits else do
  opcode ← or_fail (to_op_code (bit_and first 0x0f)) unsupported_opcode
  parse_fields (not (bit_and first 0x80 == 0)) (not (bit_and second 0x80 == 0))
      (bit_and second 0x7f) opcode buffer

-- `tryParseOne` up to its effects on the parser.
pub parse_front : List ℕ → Parse (Frame × ℕ)
parse_front [] = more
parse_front (first ∷ []) = more
parse_front (first ∷ second ∷ rest) = parse_header first second (first ∷ second ∷ rest)

abbrev pub commit : Parser → Parse (Frame × ℕ) → Parser × Bool
commit p more = (p, false)
commit p (fail e) = (record p { error = some e }, false)
commit p (ok (frame, count)) =
    (record p { buffer = drop count p.buffer; frames = p.frames ++ frame ∷ [] }, true)

pub try_parse_one : Parser → Parser × Bool
try_parse_one p = commit p (parse_front p.buffer)

abbrev pub has_error : Parser → Bool
has_error p = elim p.error [ none ↦ false | some e ↦ true ]

-- The loop of `feed`, on fuel.
pub drain : ℕ → Parser → Parser
unfolding try_parse_one
drain zero p = p
drain (suc fuel) p =
    let (q, again) = try_parse_one p in
    elim (has_error p) [ true ↦ p | false ↦ elim again [ true ↦ drain fuel q | false ↦ q ] ]

abbrev pub is_empty : List ℕ → Bool
is_empty [] = true
is_empty (x ∷ xs) = false

abbrev pub appended : Parser → List ℕ → Parser
appended p bytes = record p { buffer = p.buffer ++ bytes }

pub feed : Parser → List ℕ → Parser
unfolding drain
feed p bytes =
    if has_error p || is_empty bytes
    then p
    else drain (suc (length (p.buffer ++ bytes))) (appended p bytes)

abbrev pub has_frame : Parser → Bool
has_frame p = elim p.frames [ [] ↦ false | f ∷ fs ↦ true ]

abbrev default_frame : Frame
default_frame = record { fin = true; opcode = text; masked = false; payload = [] }

abbrev pub take_frame : Parser → List Frame → Frame × Parser
take_frame p [] = (default_frame, p)
take_frame p (f ∷ fs) = (f, record p { frames = fs })

pub next_frame : Parser → Frame × Parser
next_frame p = take_frame p p.frames

abbrev pub reset : Parser
reset = record { buffer = []; frames = []; error = none }

-- The length field, with the mask bit.
pub length_field : ℕ → ℕ → List ℕ
length_field mask_bit size =
    if leb size 125
    then bit_or mask_bit size ∷ []
    else if leb size 0xffff
    then bit_or mask_bit 126 ∷ (size / 2 ^ 8 % 256) ∷ (size % 256) ∷ []
    else bit_or mask_bit 127
      ∷ (size / 2 ^ 56 % 256)
      ∷ (size / 2 ^ 48 % 256)
      ∷ (size / 2 ^ 40 % 256)
      ∷ (size / 2 ^ 32 % 256)
      ∷ (size / 2 ^ 24 % 256)
      ∷ (size / 2 ^ 16 % 256)
      ∷ (size / 2 ^ 8 % 256)
      ∷ (size / 2 ^ 0 % 256)
      ∷ []

-- `encodeFrame`; the key is `none` for a frame that is not masked.
unfoldable pub encode_frame : OpCode → List ℕ → Option (List ℕ) → List ℕ
unfolding length_field apply_mask code
encode_frame opcode payload none =
    bit_or 0x80 (code opcode) ∷ (length_field 0x00 (length payload) ++ payload)
encode_frame opcode payload (some key) =
    bit_or 0x80 (code opcode)
    ∷ (length_field 0x80 (length payload) ++ (key ++ apply_mask key 0 payload))
