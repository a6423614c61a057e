-- ===== src/Proto/Message.antt =====
-- proto/src/message.rs: the binary messages of the two data channels. One tag byte is followed by
-- little-endian fields. A byte, a u16 and a u32 are numbers, whose ranges `IsWire` states; an i16
-- is an integer.
pub mod RoundTrip
pub mod Framing
pub mod Accept
use vmscren_share.Prelude.{
  ℕ, suc, ◌+◌, ◌-◌, Bool, true, false, not, ◌==◌, ltb, if◌then◌else◌, List, [], ◌∷◌, ◌++◌, length,
  get_or,
}
use vmscren_share.Prelude.Result.{Result, ok, err, ok_or, ◌>>=◌, ◌>>◌}
use vmscren_share.Prelude.Int.{ℤ}
use vmscren_share.Prelude.Bytes.{
  IsU16, IsI16, IsU32, u16_to_le_bytes, u16_from_le_bytes, u32_to_le_bytes, u32_from_le_bytes,
  i16_bits, i16_of_bits, byte_at,
}
use vmscren_share.Proto.KeyCode.{KeyCode, as_u16, from_u16}
use vmscren_share.Proto.MouseButton.{MouseButton, as_u8, from_u8}

pub data DecodeError : Type 0 where
  empty : DecodeError
  unknown_tag : ℕ → DecodeError
  truncated : (expected actual : ℕ) → DecodeError
  trailing : ℕ → DecodeError
  unknown_key : ℕ → DecodeError
  unknown_button : ℕ → DecodeError

pub data ControlMessage : Type 0 where
  hello : (version : ℕ) → ControlMessage
  key : (code : KeyCode) (pressed : Bool) → ControlMessage
  button : (button : MouseButton) (pressed : Bool) → ControlMessage
  wheel : (horizontal vertical : ℤ) → ControlMessage
  set_bitrate : (kbps : ℕ) → ControlMessage
  release_all : ControlMessage

-- The ranges of the Rust field types.
abbrev pub IsWire : ControlMessage → Type 0
IsWire (hello version) = IsU16 version
IsWire (key code pressed) = Unit
IsWire (button b pressed) = Unit
IsWire (wheel horizontal vertical) = IsI16 horizontal × IsI16 vertical
IsWire (set_bitrate kbps) = IsU32 kbps
IsWire release_all = Unit

abbrev pub tag_hello : ℕ
tag_hello = 0x01

abbrev pub tag_key : ℕ
tag_key = 0x02

abbrev pub tag_button : ℕ
tag_button = 0x03

abbrev pub tag_wheel : ℕ
tag_wheel = 0x04

abbrev pub tag_set_bitrate : ℕ
tag_set_bitrate = 0x05

abbrev pub tag_release_all : ℕ
tag_release_all = 0x06

abbrev pub max_encoded_len : ℕ
max_encoded_len = 5

-- `pressed as u8`.
abbrev pub bool_as_u8 : Bool → ℕ
bool_as_u8 true = 1
bool_as_u8 false = 0

-- `encode_into` pushes a tag and the bytes of the fields onto the buffer that it is given.
unfoldable pub encode_into : ControlMessage → List ℕ → List ℕ
encode_into (hello version) out = (out ++ tag_hello ∷ []) ++ u16_to_le_bytes version
encode_into (key code pressed) out =
    ((out ++ tag_key ∷ []) ++ u16_to_le_bytes (as_u16 code)) ++ bool_as_u8 pressed ∷ []
encode_into (button b pressed) out =
    ((out ++ tag_button ∷ []) ++ as_u8 b ∷ []) ++ bool_as_u8 pressed ∷ []
encode_into (wheel horizontal vertical) out =
    ((out ++ tag_wheel ∷ []) ++ u16_to_le_bytes (i16_bits horizontal))
    ++ u16_to_le_bytes (i16_bits vertical)
encode_into (set_bitrate kbps) out = (out ++ tag_set_bitrate ∷ []) ++ u32_to_le_bytes kbps
encode_into release_all out = out ++ tag_release_all ∷ []

unfoldable pub encode : ControlMessage → List ℕ
unfolding encode_into
encode m = encode_into m []

-- The closure `expect`: the body after the tag has exactly `n` bytes. The whole buffer is one longer.
unfoldable pub expect : List ℕ → ℕ → Result DecodeError (Unit {0})
expect body n =
    if ltb (length body) n
    then err (truncated (n + 1) (suc (length body)))
    else if ltb n (length body)
    then err (trailing (length body - n))
    else ok tt

-- `body[i]`. Every read stands behind an `expect` that puts `i` in range.
abbrev pub at : List ℕ → ℕ → ℕ
at body i = get_or body i 0

-- The arms of the `match` on the tag.
unfoldable pub decode_body : ℕ → List ℕ → Result DecodeError ControlMessage
unfolding expect
decode_body tag body =
    if tag == tag_hello
    then (do expect body 2; ok (hello (u16_from_le_bytes (at body 0) (at body 1))))
    else if tag == tag_key
    then (do
      expect body 3
      let raw = u16_from_le_bytes (at body 0) (at body 1)
      code ← ok_or (from_u16 raw) (unknown_key raw)
      ok (key code (not (at body 2 == 0))))
    else if tag == tag_button
    then (do
      expect body 2
      b ← ok_or (from_u8 (at body 0)) (unknown_button (at body 0))
      ok (button b (not (at body 1 == 0))))
    else if tag == tag_wheel
    then (do
      expect body 4
      let horizontal = i16_of_bits (u16_from_le_bytes (at body 0) (at body 1))
      let vertical = i16_of_bits (u16_from_le_bytes (at body 2) (at body 3))
      ok (wheel horizontal vertical))
    else if tag == tag_set_bitrate
    then (do
      expect body 4
      ok (set_bitrate (u32_from_le_bytes (at body 0) (at body 1) (at body 2) (at body 3))))
    else if tag == tag_release_all
    then (do expect body 0; ok release_all)
    else err (unknown_tag tag)

unfoldable pub decode : List ℕ → Result DecodeError ControlMessage
unfolding decode_body
decode [] = err empty
decode (tag ∷ body) = decode_body tag body
