-- ===== src/Proto/MouseMove/Position.antt =====
-- proto/src/message.rs, MouseMove::from_video_position: a position in the video area, on the scale
-- of the mouse channel.
use vmscren_share.Prelude.{ℕ, not, ◌||◌, if◌then◌else◌, Bool-cases, inl, inr, arith}
use vmscren_share.Prelude.Bytes.{IsU16}
use vmscren_share.Prelude.Floats.{Floats}
use vmscren_share.Proto.MouseMove.{MouseMove, IsMove}

module _ (floats : Floats) where
  open floats use {F, of_u32, sub, mul, div, round, clamp, le, is_finite, as_u16, as_u16_range}

  -- The closure `norm`.
  unfoldable pub norm : F → F → ℕ
  norm v size =
      if le size (of_u32 1) || not (is_finite v)
      then 0
      else as_u16
          (round (mul (clamp (div v (sub size (of_u32 1))) (of_u32 0) (of_u32 1)) (of_u32 0xFFFF)))

  unfoldable pub from_video_position : (x y width height : F) → MouseMove
  unfolding norm
  from_video_position x y width height = record { x = norm x width; y = norm y height }

  norm-IsU16 : (v size : F) → IsU16 (norm v size)
  unfolding norm
  norm-IsU16 v size = elim (Bool-cases (le size (of_u32 1) || not (is_finite v))) [
    | inl small ↦ rw small (ground arith)
    | inr large ↦ rw large (
        as_u16_range
          (round (mul (clamp (div v (sub size (of_u32 1))) (of_u32 0) (of_u32 1)) (of_u32 0xFFFF))))
  ]

  pub from_video_position-IsMove :
      (x y width height : F) → IsMove (from_video_position x y width height)
  unfolding from_video_position
  from_video_position-IsMove x y width height = record {
    x_in_range = norm-IsU16 x width;
    y_in_range = norm-IsU16 y height;
  }
