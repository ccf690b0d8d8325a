-- ===== src/WebSocket/Frame/Extends.antt =====
-- More bytes behind the buffer of WebSocketFrame.cpp's parser change no decision that is made.
use Prim.Native.Nat.{bit_and}
use simply_node_framework.Prelude.{
  ℕ, ◌+◌, ◌-◌, ◌^◌, ◌≤◌, ◌≡◌, refl, ap, ◌∙◌, Bool, true, false, List, ◌++◌, arith, ltb, ◌==◌,
  if◌then◌else◌, Bool-cases, length, length-append, length-drop, take, drop, take-append_le,
  drop-append_le, inl, inr, [], not, ◌∷◌, Option-cases,
}
use simply_node_framework.WebSocket.Frame.{
  OpCode, Parse, more, fail, ok, ◌>>=◌, window, read_big_endian, extended_length, check_control,
  mask_key, read_payload, parse_fields, Frame, parse_front, parse_header, bind-eq-ok, to_op_code,
}

-- A decision is kept, and a want of bytes binds to nothing.
abbrev pub Keeps {ℓ} : {A : Type ℓ} → Parse A → Parse A → Type ℓ
Keeps more r = Unit
Keeps (fail e) r = r ≡ fail e
Keeps (ok a) r = r ≡ ok a

pub Keeps-refl {ℓ} : {A : Type ℓ} (m : Parse A) → Keeps m m
Keeps-refl more = tt
Keeps-refl (fail e) = refl
Keeps-refl (ok a) = refl

pub Keeps-bind {ℓ κ} :
    {A : Type ℓ} {B : Type κ} (m m' : Parse A) (k k' : A → Parse B)
    → Keeps m m'
    → ((a : A) → m ≡ ok a → Keeps (k a) (k' a))
    → Keeps (m >>= k) (m' >>= k')
Keeps-bind more m' k k' h g = tt
Keeps-bind (fail e) m' k k' h g = ap (λ r. r >>= k') h
Keeps-bind (ok a) m' k k' h g = rw h (g a refl)

module _ (buffer bytes : List ℕ) where
  window-append :
      (offset count : ℕ)
      → offset + count ≤ length buffer
      → window (buffer ++ bytes) offset count ≡ window buffer offset count
  window-append offset count h =
      ap (take count) (drop-append_le offset buffer bytes (omega arith))
      ∙ take-append_le count (drop offset buffer) bytes (omega (arith, length-drop offset buffer))

  -- A guard on the size of the buffer, over a value that reads nothing behind it.
  Keeps-guard {ℓ} :
      {A : Type ℓ} (n : ℕ) (m m' : Parse A)
      → (n ≤ length buffer → m' ≡ m)
      → Keeps
          (if ltb (length buffer) n then more else m)
          (if ltb (length (buffer ++ bytes)) n then more else m')
  Keeps-guard n m m' same = elim (Bool-cases (ltb (length buffer) n)) [
    | inl short ↦ rw short tt
    | inr enough ↦
        let fits : n ≤ length buffer = ground arith in
        let enough' : ltb (length (buffer ++ bytes)) n ≡ false =
          ground (arith, length-append buffer bytes) in
        rw (enough, enough', same fits) (Keeps-refl m)
  ]

  extended_length-Keeps :
      (n : ℕ) → Keeps (extended_length n buffer) (extended_length n (buffer ++ bytes))
  unfolding extended_length read_big_endian
  extended_length-Keeps n = elim (Bool-cases (n == 126)) [
    | inl two ↦ rw two (Keeps-guard 4 _ _ (λ h. rw (window-append 2 2 h)))
    | inr a ↦ elim (Bool-cases (n == 127)) [
      | inl eight ↦ rw (a, eight) (Keeps-guard 10 _ _ (λ h. rw (window-append 2 8 h)))
      | inr b ↦ rw (a, b) refl
    ]
  ]

  mask_key-Keeps :
      (masked : Bool) (offset : ℕ)
      → Keeps (mask_key masked offset buffer) (mask_key masked offset (buffer ++ bytes))
  unfolding mask_key
  mask_key-Keeps true offset = Keeps-guard (offset + 4) _ _ (λ h. rw (window-append offset 4 h))
  mask_key-Keeps false offset = refl

  read_payload-Keeps :
      (fin : Bool) (opcode : OpCode) (masked : Bool) (key : List ℕ) (offset size : ℕ)
      → Keeps
          (read_payload fin opcode masked key offset size buffer)
          (read_payload fin opcode masked key offset size (buffer ++ bytes))
  unfolding read_payload
  read_payload-Keeps fin opcode masked key offset size = elim (Bool-cases (ltb (2 ^ 64 - 1) size)) [
    | inl large ↦ rw large refl
    | inr small ↦ rw small (Keeps-guard (offset + size) _ _ (λ h. rw (window-append offset size h)))
  ]

  parse_fields-Keeps :
      (fin masked : Bool) (short : ℕ) (opcode : OpCode)
      → Keeps
          (parse_fields fin masked short opcode buffer)
          (parse_fields fin masked short opcode (buffer ++ bytes))
  unfolding parse_fields
  parse_fields-Keeps fin masked short opcode =
      Keeps-bind _ _ _ _ (extended_length-Keeps short) λ extent _.
        Keeps-bind _ _ _ _ (Keeps-refl (check_control fin opcode extent.0)) λ _ _.
          Keeps-bind _ _ _ _ (mask_key-Keeps masked extent.1)
            λ key _. read_payload-Keeps fin opcode masked key.0 key.1 extent.0

pub parse_front-Keeps :
    (buffer bytes : List ℕ) → Keeps (parse_front buffer) (parse_front (buffer ++ bytes))
unfolding parse_front parse_header
parse_front-Keeps [] bytes = tt
parse_front-Keeps (first ∷ []) bytes = tt
parse_front-Keeps (first ∷ second ∷ rest) bytes =
    elim (Bool-cases (not (bit_and first 0x70 == 0))) [
      | inl reserved ↦ rw reserved refl
      | inr plain ↦ elim (Option-cases (to_op_code (bit_and first 0x0f))) [
        | inl unknown ↦ rw (plain, unknown) refl
        | inr (opcode, known) ↦
            rw (plain, known)
              (parse_fields-Keeps (first ∷ second ∷ rest) bytes (not (bit_and first 0x80 == 0))
                (not (bit_and second 0x80 == 0)) (bit_and second 0x7f) opcode)
      ]
    ]

-- What `read_payload` takes lies in the buffer.
read_payload-le :
    (fin : Bool) (opcode : OpCode) (masked : Bool) (key : List ℕ) (offset size : ℕ)
    (buffer : List ℕ) (frame : Frame) (count : ℕ)
    → read_payload fin opcode masked key offset size buffer ≡ ok (frame, count)
    → (offset ≤ count) × (count ≤ length buffer)
unfolding read_payload
read_payload-le fin opcode masked key offset size buffer frame count e = ground arith

mask_key-le :
    (masked : Bool) (offset : ℕ) (buffer key : List ℕ) (after : ℕ)
    → mask_key masked offset buffer ≡ ok (key, after)
    → offset ≤ after
unfolding mask_key
mask_key-le masked offset buffer key after e = ground arith

extended_length-le :
    (n : ℕ) (buffer : List ℕ) (size offset : ℕ)
    → extended_length n buffer ≡ ok (size, offset)
    → 2 ≤ offset
unfolding extended_length
extended_length-le n buffer size offset e = ground arith

parse_fields-le :
    (fin masked : Bool) (short : ℕ) (opcode : OpCode) (buffer : List ℕ) (frame : Frame) (count : ℕ)
    → parse_fields fin masked short opcode buffer ≡ ok (frame, count)
    → (2 ≤ count) × (count ≤ length buffer)
unfolding parse_fields
parse_fields-le fin masked short opcode buffer frame count e =
    let ((size, offset), sized, e1) = bind-eq-ok (extended_length short buffer) _ e in
    let (_, _, e2) = bind-eq-ok (check_control fin opcode size) _ e1 in
    let ((key, after), keyed, e3) = bind-eq-ok (mask_key masked offset buffer) _ e2 in
    omega (
      arith,
      extended_length-le short buffer size offset sized,
      mask_key-le masked offset buffer key after keyed,
      read_payload-le fin opcode masked key after size buffer frame count e3,
    )

-- A frame takes at least its two header bytes and no more than the buffer has.
pub parse_front-le :
    (buffer : List ℕ) (frame : Frame) (count : ℕ)
    → parse_front buffer ≡ ok (frame, count)
    → (2 ≤ count) × (count ≤ length buffer)
unfolding parse_front parse_header
parse_front-le [] frame count e = cc
parse_front-le (first ∷ []) frame count e = cc
parse_front-le (first ∷ second ∷ rest) frame count e =
    elim (Bool-cases (not (bit_and first 0x70 == 0))) [
      | inl reserved ↦ cc (rw reserved at e)
      | inr plain ↦ elim (Option-cases (to_op_code (bit_and first 0x0f))) [
        | inl unknown ↦ cc (rw (plain, unknown) at e)
        | inr (opcode, known) ↦
            parse_fields-le _ _ _ opcode (first ∷ second ∷ rest) frame count
              (rw (plain, known) at e)
      ]
    ]
