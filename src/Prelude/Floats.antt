-- ===== src/Prelude/Floats.antt =====
-- IEEE 754 numbers as the source uses them. The arithmetic is a parameter: one type for f32 and f64,
-- `to_f32` for the cast between them, and the laws of the casts to integers, which saturate.
use Prim.Native.Nat.{ℕ}
use mathlib.Core.Bool.{Bool}
use vmscren_share.Prelude.Int.{ℤ}
use vmscren_share.Prelude.Bytes.{IsU16, IsI16, IsU32}

pub record Floats : Type 1 where
  pub F : Type 0
  pub of_u32 : ℕ → F
  pub add : F → F → F
  pub sub : F → F → F
  pub mul : F → F → F
  pub div : F → F → F
  pub fmin : F → F → F
  pub neg : F → F
  pub trunc : F → F
  pub floor : F → F
  pub round : F → F
  pub to_f32 : F → F
  -- `v.clamp(lo, hi)`.
  pub clamp : (v lo hi : F) → F
  pub le : F → F → Bool
  pub eq : F → F → Bool
  pub is_finite : F → Bool
  -- `as i16`, `as u16` and `as u32`.
  pub as_i16 : F → ℤ
  pub as_u16 : F → ℕ
  pub as_u32 : F → ℕ
  pub as_i16_range : (v : F) → IsI16 (as_i16 v)
  pub as_u16_range : (v : F) → IsU16 (as_u16 v)
  pub as_u32_range : (v : F) → IsU32 (as_u32 v)
