-- ===== src/Proto/Message/Accept.antt =====
-- Exactly which frames `decode` accepts: those that `encode` writes, where a pressed key or button
-- may have any byte but 0 in place of 1.
use vmscren_share.Prelude.{
  ℕ, ◌<◌, ◌≡◌, ◌↔◌, inl, inr, refl, sym, Bool, true, false, not, ◌==◌, Bool-cases, List, [], ◌∷◌,
  All, arith, ==→eq, Option-cases,
}
use vmscren_share.Prelude.Result.{ok}
use vmscren_share.Prelude.Int.{ℤ}
use vmscren_share.Prelude.Bytes.{
  IsByte, IsU16, IsI16, i16_bits, i16_of_bits, i16_of_bits_range, byte_at, u16_from_le_bytes,
}
use vmscren_share.Proto.KeyCode.{KeyCode, as_u16, from_u16}
use vmscren_share.Proto.KeyCode.RoundTrip.{from_u16-as_u16_iff}
use vmscren_share.Proto.MouseButton.{MouseButton, as_u8, from_u8, from_u8-as_u8_iff}
use vmscren_share.Proto.Message.{
  ControlMessage, hello, key, button, wheel, set_bitrate, release_all, IsWire, encode, decode_body,
  decode, tag_key, tag_button,
}
use vmscren_share.Proto.Message.RoundTrip.{decode-encode, key_back}

-- A frame that stands for a message.
abbrev pub FrameOf : ControlMessage → List ℕ → Type 0
FrameOf (key code true) buf =
    (b : ℕ) × (0 < b) × (buf ≡ tag_key ∷ byte_at (as_u16 code) 0 ∷ byte_at (as_u16 code) 1 ∷ b ∷ [])
FrameOf (button b true) buf = (p : ℕ) × (0 < p) × (buf ≡ tag_button ∷ as_u8 b ∷ p ∷ [])
FrameOf m buf = buf ≡ encode m

abbrev Accepted : ControlMessage → List ℕ → Type 0
Accepted m buf = IsWire m × FrameOf m buf

hello-Accepted :
    (body : List ℕ) (m : ControlMessage)
    → All IsByte body
    → decode_body 1 body ≡ ok m
    → Accepted m (1 ∷ body)
unfolding decode_body encode
hello-Accepted [] m h e = cc
hello-Accepted (a ∷ []) m h e = cc
hello-Accepted (a ∷ b ∷ []) (hello version) h e = ground arith
hello-Accepted (a ∷ b ∷ []) _ h e = cc
hello-Accepted (a ∷ b ∷ c ∷ r) m h e = absurd (ground arith)

-- What an accepted key frame says of its bytes, and an accepted button frame.
key_fields :
    (a b c : ℕ) (code : KeyCode) (pressed : Bool)
    → decode_body 2 (a ∷ b ∷ c ∷ []) ≡ ok (key code pressed)
    → (as_u16 code ≡ u16_from_le_bytes a b) × (not (c == 0) ≡ pressed)
unfolding decode_body
key_fields a b c code pressed e = elim (Option-cases (from_u16 (u16_from_le_bytes a b))) [
  | inl no_code ↦ absurd (ground arith)
  | inr (k, found) ↦
      let same : k ≡ code = ground arith in
      (ground (arith, (from_u16-as_u16_iff (u16_from_le_bytes a b) k).0 found), ground arith)
]

key-Accepted :
    (body : List ℕ) (m : ControlMessage)
    → All IsByte body
    → decode_body 2 body ≡ ok m
    → Accepted m (2 ∷ body)
key-Accepted [] m h e = unfold decode_body in cc
key-Accepted (a ∷ []) m h e = unfold decode_body in cc
key-Accepted (a ∷ b ∷ []) m h e = unfold decode_body in cc
key-Accepted (a ∷ b ∷ c ∷ []) (key code true) h e = (
  tt,
  (c, ground (arith, key_fields a b c code true e), ground (arith, key_fields a b c code true e)),
)
key-Accepted (a ∷ b ∷ c ∷ []) (key code false) h e =
    (tt, unfold encode in ground (arith, key_fields a b c code false e))
key-Accepted (a ∷ b ∷ c ∷ []) m h e = unfold decode_body in ground arith
key-Accepted (a ∷ b ∷ c ∷ d ∷ r) m h e = absurd (unfold decode_body in ground arith)

button_fields :
    (a c : ℕ) (b : MouseButton) (pressed : Bool)
    → decode_body 3 (a ∷ c ∷ []) ≡ ok (button b pressed)
    → (as_u8 b ≡ a) × (not (c == 0) ≡ pressed)
unfolding decode_body
button_fields a c b pressed e = elim (Option-cases (from_u8 a)) [
  | inl no_button ↦ absurd (ground arith)
  | inr (k, found) ↦
      let same : k ≡ b = ground arith in
      (ground (arith, (from_u8-as_u8_iff a k).0 found), ground arith)
]

button-Accepted :
    (body : List ℕ) (m : ControlMessage)
    → All IsByte body
    → decode_body 3 body ≡ ok m
    → Accepted m (3 ∷ body)
button-Accepted [] m h e = unfold decode_body in cc
button-Accepted (a ∷ []) m h e = unfold decode_body in cc
button-Accepted (a ∷ c ∷ []) (button b true) h e = (
  tt,
  (c, ground (arith, button_fields a c b true e), ground (arith, button_fields a c b true e)),
)
button-Accepted (a ∷ c ∷ []) (button b false) h e =
    (tt, unfold encode in ground (arith, button_fields a c b false e))
button-Accepted (a ∷ c ∷ []) m h e = unfold decode_body in ground arith
button-Accepted (a ∷ c ∷ d ∷ r) m h e = absurd (unfold decode_body in ground arith)

-- The bit pattern that an i16 was read from.
i16_bits-i16_of_bits : (w : ℕ) → IsU16 w → i16_bits (i16_of_bits w) ≡ w
i16_bits-i16_of_bits w h = ground arith

IsI16-read : (w : ℕ) (z : ℤ) → IsU16 w → i16_of_bits w ≡ z → IsI16 z × (i16_bits z ≡ w)
IsI16-read w z h e = rw (sym e) (i16_of_bits_range w h, i16_bits-i16_of_bits w h)

wheel_fields :
    (a b c d : ℕ) (x y : ℤ)
    → decode_body 4 (a ∷ b ∷ c ∷ d ∷ []) ≡ ok (wheel x y)
    → (i16_of_bits (u16_from_le_bytes a b) ≡ x) × (i16_of_bits (u16_from_le_bytes c d) ≡ y)
unfolding decode_body
wheel_fields a b c d x y e = (cc, cc)

wheel-Accepted :
    (body : List ℕ) (m : ControlMessage)
    → All IsByte body
    → decode_body 4 body ≡ ok m
    → Accepted m (4 ∷ body)
wheel-Accepted [] m h e = unfold decode_body in cc
wheel-Accepted (a ∷ []) m h e = unfold decode_body in cc
wheel-Accepted (a ∷ b ∷ []) m h e = unfold decode_body in cc
wheel-Accepted (a ∷ b ∷ c ∷ []) m h e = unfold decode_body in cc
wheel-Accepted (a ∷ b ∷ c ∷ d ∷ []) (wheel x y) h e =
    let (ex, ey) = wheel_fields a b c d x y e in
    let rx : IsI16 x × (i16_bits x ≡ u16_from_le_bytes a b) = IsI16-read _ x (omega arith) ex in
    let ry : IsI16 y × (i16_bits y ≡ u16_from_le_bytes c d) = IsI16-read _ y (omega arith) ey in
    ((rx.0, ry.0), unfold encode in ground arith)
wheel-Accepted (a ∷ b ∷ c ∷ d ∷ []) m h e = unfold decode_body in cc
wheel-Accepted (a ∷ b ∷ c ∷ d ∷ f ∷ r) m h e = absurd (unfold decode_body in ground arith)

set_bitrate-Accepted :
    (body : List ℕ) (m : ControlMessage)
    → All IsByte body
    → decode_body 5 body ≡ ok m
    → Accepted m (5 ∷ body)
set_bitrate-Accepted [] m h e = unfold decode_body in cc
set_bitrate-Accepted (a ∷ []) m h e = unfold decode_body in cc
set_bitrate-Accepted (a ∷ b ∷ []) m h e = unfold decode_body in cc
set_bitrate-Accepted (a ∷ b ∷ c ∷ []) m h e = unfold decode_body in cc
set_bitrate-Accepted (a ∷ b ∷ c ∷ d ∷ []) (set_bitrate kbps) h e =
    unfold decode_body encode in ground arith
set_bitrate-Accepted (a ∷ b ∷ c ∷ d ∷ []) m h e = unfold decode_body in cc
set_bitrate-Accepted (a ∷ b ∷ c ∷ d ∷ f ∷ r) m h e = absurd (unfold decode_body in ground arith)

release-Accepted :
    (body : List ℕ) (m : ControlMessage)
    → All IsByte body
    → decode_body 6 body ≡ ok m
    → Accepted m (6 ∷ body)
release-Accepted [] release_all h e = (tt, unfold encode in refl)
release-Accepted [] m h e = unfold decode_body in cc
release-Accepted (a ∷ r) m h e = absurd (unfold decode_body in ground arith)

by_tag :
    (tag : ℕ) (body : List ℕ) (m : ControlMessage)
    → All IsByte body
    → decode_body tag body ≡ ok m
    → Accepted m (tag ∷ body)
by_tag tag body m h e = elim (Bool-cases (tag == 1)) [
  | inl t ↦ rw (==→eq tag 1 t) (hello-Accepted body m h (rw (==→eq tag 1 t) at e))
  | inr n1 ↦ elim (Bool-cases (tag == 2)) [
    | inl t ↦ rw (==→eq tag 2 t) (key-Accepted body m h (rw (==→eq tag 2 t) at e))
    | inr n2 ↦ elim (Bool-cases (tag == 3)) [
      | inl t ↦ rw (==→eq tag 3 t) (button-Accepted body m h (rw (==→eq tag 3 t) at e))
      | inr n3 ↦ elim (Bool-cases (tag == 4)) [
        | inl t ↦ rw (==→eq tag 4 t) (wheel-Accepted body m h (rw (==→eq tag 4 t) at e))
        | inr n4 ↦ elim (Bool-cases (tag == 5)) [
          | inl t ↦ rw (==→eq tag 5 t) (set_bitrate-Accepted body m h (rw (==→eq tag 5 t) at e))
          | inr n5 ↦ elim (Bool-cases (tag == 6)) [
            | inl t ↦ rw (==→eq tag 6 t) (release-Accepted body m h (rw (==→eq tag 6 t) at e))
            | inr n6 ↦ absurd (unfold decode_body in ground arith)
          ]
        ]
      ]
    ]
  ]
]

accepted : (buf : List ℕ) (m : ControlMessage) → All IsByte buf → decode buf ≡ ok m → Accepted m buf
accepted [] m h e = unfold decode in cc
accepted (tag ∷ body) m h e = by_tag tag body m h.1 (unfold decode in e)

-- Only the messages with a pressed key or button have more than one frame.
frame_decodes : (buf : List ℕ) (m : ControlMessage) → IsWire m → FrameOf m buf → decode buf ≡ ok m
unfolding decode
frame_decodes buf (key code true) w (b, pos_b, e) = rw e (rw (key_back code) (ground arith))
frame_decodes buf (button b true) w (p, pos_p, e) =
    rw e (ground (arith, (from_u8-as_u8_iff (as_u8 b) b).1 refl))
frame_decodes buf (key code false) w e = rw e (decode-encode (key code false) w)
frame_decodes buf (button b false) w e = rw e (decode-encode (button b false) w)
frame_decodes buf m w e = rw e (decode-encode m w)

-- `decode` accepts a frame of bytes with a message exactly when the fields of the message are in
-- the range of their types and the frame is its encoding, where the last byte of a pressed key or
-- button may be any byte but 0.
pub decode_accepts :
    (buf : List ℕ) (m : ControlMessage)
    → All IsByte buf
    → (decode buf ≡ ok m) ↔ (IsWire m × FrameOf m buf)
decode_accepts buf m h = (λ e. accepted buf m h e, λ p. frame_decodes buf m p.0 p.1)
