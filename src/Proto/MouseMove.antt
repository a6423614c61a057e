-- ===== src/Proto/MouseMove.antt =====
-- proto/src/message.rs: the absolute pointer position of the mouse channel and its codec.
pub mod Codec
pub mod Position
use vmscren_share.Prelude.{ℕ, ◌-◌, ◌==◌, ltb, if◌then◌else◌, List, [], ◌∷◌, length, get_or}
use vmscren_share.Prelude.Result.{Result, ok, err}
use vmscren_share.Prelude.Bytes.{IsU16, byte_at, u16_from_le_bytes}
use vmscren_share.Proto.Message.{DecodeError, empty, unknown_tag, truncated, trailing}

pub record MouseMove : Type 0 where
  pub x : ℕ
  pub y : ℕ

-- The ranges of the Rust field types.
pub record IsMove (m : MouseMove) : Type 0 where
  pub x_in_range : IsU16 m.x
  pub y_in_range : IsU16 m.y

abbrev pub tag_mouse_move : ℕ
tag_mouse_move = 0x10

abbrev pub encoded_len : ℕ
encoded_len = 5

unfoldable pub encode : MouseMove → List ℕ
encode m = tag_mouse_move ∷ byte_at m.x 0 ∷ byte_at m.x 1 ∷ byte_at m.y 0 ∷ byte_at m.y 1 ∷ []

-- The arm of `decode` for the tag of a mouse move: `buf` is the whole buffer.
unfoldable pub decode_move : List ℕ → Result DecodeError MouseMove
decode_move buf =
    if ltb (length buf) encoded_len
    then err (truncated encoded_len (length buf))
    else if ltb encoded_len (length buf)
    then err (trailing (length buf - encoded_len))
    else ok (record {
      x = u16_from_le_bytes (get_or buf 1 0) (get_or buf 2 0);
      y = u16_from_le_bytes (get_or buf 3 0) (get_or buf 4 0);
    })

unfoldable pub decode : List ℕ → Result DecodeError MouseMove
unfolding decode_move
decode [] = err empty
decode (tag ∷ rest) =
    if tag == tag_mouse_move then decode_move (tag ∷ rest) else err (unknown_tag tag)
