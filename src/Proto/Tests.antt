-- ===== src/Proto/Tests.antt =====
-- The codecs on concrete frames, and their theorems at concrete inputs.
mod Sdp
use vmscren_share.Prelude.{◌≤◌, ◌≡◌, ◌↔◌, refl, true, some, [], ◌∷◌, ◌++◌, length, get_elem?, arith}
use vmscren_share.Prelude.Result.{ok, err}
use vmscren_share.Prelude.Int.{pos, negsuc}
use vmscren_share.Proto.KeyCode.{KeyCode, all, as_u16, from_u16}
use vmscren_share.Proto.KeyCode.RoundTrip.{from_u16-as_u16_iff, from_u16-get_elem?}
use vmscren_share.Proto.MouseButton.{from_u8}
use vmscren_share.Proto.Message
use vmscren_share.Proto.Message.{
  ControlMessage, empty, unknown_tag, truncated, trailing, unknown_key, unknown_button, IsWire,
}
use vmscren_share.Proto.Message.RoundTrip.{decode-encode}
use vmscren_share.Proto.Message.Framing.{length-encode, decode-append_trailing, decode_truncated}
use vmscren_share.Proto.Message.Accept.{FrameOf, decode_accepts}
use vmscren_share.Proto.MouseMove
use vmscren_share.Proto.MouseMove.{MouseMove, IsMove}
use vmscren_share.Proto.MouseMove.Codec.{mouse_decode_accepts, channels_disjoint}

-- The cases of the unit test `control_rejects_bad_input`.
rejects_empty : Message.decode [] ≡ err empty
unfolding Message.decode
rejects_empty = refl

rejects_tag : Message.decode (0xee ∷ []) ≡ err (unknown_tag 0xee)
unfolding Message.decode
rejects_tag = refl

rejects_short_key : Message.decode (0x02 ∷ 0 ∷ []) ≡ err (truncated 4 2)
unfolding Message.decode
rejects_short_key = refl

rejects_long_release : Message.decode (0x06 ∷ 0 ∷ []) ≡ err (trailing 1)
unfolding Message.decode
rejects_long_release = refl

rejects_key : Message.decode (0x02 ∷ 0xff ∷ 0xff ∷ 1 ∷ []) ≡ err (unknown_key 0xffff)
unfolding Message.decode from_u16
rejects_key = refl

rejects_button : Message.decode (0x03 ∷ 9 ∷ 1 ∷ []) ≡ err (unknown_button 9)
unfolding Message.decode from_u8
rejects_button = refl

-- The anchor values of the wire format.
anchors : (as_u16 KeyCode.key_a ≡ 19) × (as_u16 KeyCode.escape ≡ 114) × (as_u16 KeyCode.f35 ≡ 193)
unfolding as_u16
anchors = (refl, refl, refl)

abbrev scroll : ControlMessage
scroll = ControlMessage.wheel (negsuc 2) (pos 7)

abbrev key_down : ControlMessage
key_down = ControlMessage.key KeyCode.key_a true

decode_accepts_example :
    (Message.decode (0x02 ∷ 19 ∷ 0 ∷ 7 ∷ []) ≡ ok key_down)
    ↔ (IsWire key_down × FrameOf key_down (0x02 ∷ 19 ∷ 0 ∷ 7 ∷ []))
decode_accepts_example = decode_accepts (0x02 ∷ 19 ∷ 0 ∷ 7 ∷ []) key_down (omega arith)

abbrev corner : MouseMove
corner = record { x = 0x1234; y = 0xabcd }

mouse_decode_accepts_example :
    (MouseMove.decode (0x10 ∷ 0x34 ∷ 0x12 ∷ 0xcd ∷ 0xab ∷ []) ≡ ok corner)
    ↔ (IsMove corner × (0x10 ∷ 0x34 ∷ 0x12 ∷ 0xcd ∷ 0xab ∷ [] ≡ MouseMove.encode corner))
mouse_decode_accepts_example =
    mouse_decode_accepts (0x10 ∷ 0x34 ∷ 0x12 ∷ 0xcd ∷ 0xab ∷ []) corner (omega arith)
