-- ===== src/Client/Tests/Arithmetic.antt =====
-- Arithmetic to run the window with: whole numbers, whose division cuts off the fraction.
use vmscren_share.Prelude.{
  ℕ, ◌+◌, ◌*◌, ◌/◌, min, Bool, true, false, not, ◌&&◌, if◌then◌else◌, arith,
}
use vmscren_share.Prelude.Int.{ℤ, pos, negsuc, pos_part, neg_part, sub_ℕ, ltb_ℤ}
use vmscren_share.Prelude.Bytes.{IsI16}
use vmscren_share.Prelude.Floats.{Floats}

abbrev negate : ℤ → ℤ
negate z = sub_ℕ (neg_part z) (pos_part z)

abbrev plus : ℤ → ℤ → ℤ
plus x y = sub_ℕ (pos_part x + pos_part y) (neg_part x + neg_part y)

abbrev minus : ℤ → ℤ → ℤ
minus x y = plus x (negate y)

abbrev below : ℤ → ℤ → Bool
below x y = not (ltb_ℤ y x)

abbrev magnitude : ℤ → ℕ
magnitude z = pos_part z + neg_part z

abbrev alike : Bool → Bool → Bool
alike true b = b
alike false b = not b

abbrev signed : ℤ → ℤ → ℕ → ℤ
signed x y n = if alike (below (pos 0) x) (below (pos 0) y) then pos n else negate (pos n)

abbrev least : ℤ → ℤ → ℤ
least x y = if below x y then x else y

abbrev greatest : ℤ → ℤ → ℤ
greatest x y = if below x y then y else x

abbrev to_i16 : ℤ → ℤ
to_i16 (pos n) = pos (min n 0x7FFF)
to_i16 (negsuc n) = negsuc (min n 0x7FFF)

pub to_i16_range : (z : ℤ) → IsI16 (to_i16 z)
to_i16_range (pos n) = ground arith
to_i16_range (negsuc n) = ground arith

abbrev pub whole_numbers : Floats
whole_numbers = record {
  F = ℤ;
  of_u32 = λ n. pos n;
  add = plus;
  sub = minus;
  mul = λ x y. signed x y (magnitude x * magnitude y);
  div = λ x y. signed x y (magnitude x / magnitude y);
  fmin = least;
  neg = negate;
  trunc = λ x. x;
  floor = λ x. x;
  round = λ x. x;
  to_f32 = λ x. x;
  clamp = λ v lo hi. least (greatest v lo) hi;
  le = below;
  eq = λ x y. below x y && below y x;
  is_finite = λ x. true;
  as_i16 = to_i16;
  as_u16 = λ z. min (pos_part z) 0xFFFF;
  as_u32 = λ z. min (pos_part z) 0xFFFFFFFF;
  as_i16_range = to_i16_range;
  as_u16_range = λ z. omega arith;
  as_u32_range = λ z. omega arith;
}
