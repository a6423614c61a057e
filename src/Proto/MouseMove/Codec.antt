-- ===== src/Proto/MouseMove/Codec.antt =====
-- The codec of mouse moves: which frames it accepts, and that the two channels cannot be confused.
use vmscren_share.Prelude.{ℕ, ◌≡◌, ◌↔◌, refl, List, [], ◌∷◌, All, arith}
use vmscren_share.Prelude.Result.{ok, err}
use vmscren_share.Prelude.Bytes.{IsByte, u16_le_round_trip}
use vmscren_share.Proto.Message.{
  ControlMessage, unknown_tag, hello, key, button, wheel, set_bitrate, release_all,
}
use vmscren_share.Proto.Message
use vmscren_share.Proto.MouseMove.{MouseMove, IsMove, tag_mouse_move, encode, decode}

pub move_decodes : (m : MouseMove) → IsMove m → decode (encode m) ≡ ok m
unfolding encode decode
move_decodes m h = ground (arith, u16_le_round_trip m.x, u16_le_round_trip m.y)

IsMove-accepted :
    (buf : List ℕ) (m : MouseMove)
    → All IsByte buf
    → decode buf ≡ ok m
    → IsMove m × (buf ≡ encode m)
unfolding encode decode
IsMove-accepted [] m h e = cc
IsMove-accepted (t ∷ []) m h e = absurd (ground arith)
IsMove-accepted (t ∷ a ∷ []) m h e = absurd (ground arith)
IsMove-accepted (t ∷ a ∷ b ∷ []) m h e = absurd (ground arith)
IsMove-accepted (t ∷ a ∷ b ∷ c ∷ []) m h e = absurd (ground arith)
IsMove-accepted (t ∷ a ∷ b ∷ c ∷ d ∷ []) m h e = ground arith
IsMove-accepted (t ∷ a ∷ b ∷ c ∷ d ∷ f ∷ r) m h e = absurd (ground arith)

-- On the mouse channel `decode` is the exact inverse of `encode`: it accepts a frame of bytes with a
-- move exactly when the coordinates are u16s and the frame is the encoding of the move.
pub mouse_decode_accepts :
    (buf : List ℕ) (m : MouseMove)
    → All IsByte buf
    → (decode buf ≡ ok m) ↔ (IsMove m × (buf ≡ encode m))
mouse_decode_accepts buf m h = (λ e. IsMove-accepted buf m h e, λ p. rw p.1 (move_decodes m p.0))

-- The tag that each control message is sent with.
abbrev pub tag_of : ControlMessage → ℕ
tag_of (hello version) = Message.tag_hello
tag_of (key code pressed) = Message.tag_key
tag_of (button b pressed) = Message.tag_button
tag_of (wheel horizontal vertical) = Message.tag_wheel
tag_of (set_bitrate kbps) = Message.tag_set_bitrate
tag_of release_all = Message.tag_release_all

-- A frame of one channel is refused on the other, with its tag.
pub channels_disjoint :
    (c : ControlMessage) (m : MouseMove)
    → (decode (Message.encode c) ≡ err (unknown_tag (tag_of c)))
      × (Message.decode (encode m) ≡ err (unknown_tag tag_mouse_move))
unfolding encode decode Message.encode Message.decode
channels_disjoint (hello version) m = (refl, refl)
channels_disjoint _ m = (refl, refl)
