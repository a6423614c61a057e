-- ===== src/Proto/Message/RoundTrip.antt =====
-- What `encode` writes, `decode` reads back.
use vmscren_share.Prelude.{◌≡◌, refl, ap, Bool, true, false, not, ◌==◌, some}
use vmscren_share.Prelude.Result.{ok}
use vmscren_share.Prelude.Bytes.{
  u16_le_round_trip, u32_le_round_trip, i16_le_round_trip, byte_at, u16_from_le_bytes,
}
use vmscren_share.Proto.KeyCode.{KeyCode, as_u16, from_u16}
use vmscren_share.Proto.KeyCode.RoundTrip.{from_u16-as_u16_iff, as_u16-lt}
use vmscren_share.Proto.MouseButton.{from_u8-as_u8}
use vmscren_share.Proto.Message.{
  ControlMessage, hello, key, button, wheel, set_bitrate, release_all, IsWire, encode, decode,
  bool_as_u8,
}

-- The `pressed` byte.
pressed_back : (pressed : Bool) → not (bool_as_u8 pressed == 0) ≡ pressed
pressed_back true = refl
pressed_back false = refl

pub key_back :
    (code : KeyCode)
    → from_u16 (u16_from_le_bytes (byte_at (as_u16 code) 0) (byte_at (as_u16 code) 1)) ≡ some code
key_back code =
    rw (u16_le_round_trip (as_u16 code) (as_u16-lt code))
      ((from_u16-as_u16_iff (as_u16 code) code).1 refl)

-- Every control message whose fields are in the range of their types decodes to itself.
pub decode-encode : (m : ControlMessage) → IsWire m → decode (encode m) ≡ ok m
unfolding encode decode
decode-encode (hello version) h = ap (λ v. ok (hello v)) (u16_le_round_trip version h)
decode-encode (key code pressed) h = rw (key_back code, pressed_back pressed)
decode-encode (button b pressed) h = rw (from_u8-as_u8 b, pressed_back pressed)
decode-encode (wheel horizontal vertical) h =
    rw (i16_le_round_trip horizontal h.0, i16_le_round_trip vertical h.1)
decode-encode (set_bitrate kbps) h = ap (λ v. ok (set_bitrate v)) (u32_le_round_trip kbps h)
decode-encode release_all h = refl
