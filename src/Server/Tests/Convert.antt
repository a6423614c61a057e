-- ===== src/Server/Tests/Convert.antt =====
-- The pixel conversion on small images.
use vmscren_share.Prelude.{
  ℕ, zero, suc, ◌≡◌, refl, none, some, List, [], ◌∷◌, All, replicate, arith,
}
use vmscren_share.Prelude.Bytes.{IsByte}
use vmscren_share.Server.Convert.{I420Frame, xrgb_to_i420, xrgb_to_rgb8}
use vmscren_share.Server.Convert.Range.{Limited, xrgb_to_i420-Limited}

-- An image of one colour, without a gap between its rows.
abbrev solid : ℕ → ℕ → ℕ → ℕ → List ℕ
solid zero r g b = []
solid (suc n) r g b = b ∷ g ∷ r ∷ 255 ∷ solid n r g b

abbrev planes : ℕ → ℕ → ℕ → I420Frame
planes y u v = record {
  width = 2;
  height = 2;
  y = replicate 4 y;
  u = replicate 1 u;
  v = replicate 1 v;
}

primaries :
    (xrgb_to_i420 (solid 4 0 0 0) 2 2 8 ≡ some (planes 16 128 128))
    × (xrgb_to_i420 (solid 4 255 255 255) 2 2 8 ≡ some (planes 235 128 128))
    × (xrgb_to_i420 (solid 4 255 0 0) 2 2 8 ≡ some (planes 82 90 240))
    × (xrgb_to_i420 (solid 4 0 255 0) 2 2 8 ≡ some (planes 144 54 34))
    × (xrgb_to_i420 (solid 4 0 0 255) 2 2 8 ≡ some (planes 41 240 110))
    × (xrgb_to_i420 (solid 4 128 128 128) 2 2 8 ≡ some (planes 126 128 128))
unfolding xrgb_to_i420
primaries = (refl, refl, refl, refl, refl, refl)

too_short : xrgb_to_i420 (solid 3 0 0 0) 2 2 8 ≡ none
unfolding xrgb_to_i420
too_short = refl

red : xrgb_to_i420 (solid 4 255 0 0) 2 2 8 ≡ some (planes 82 90 240)
unfolding xrgb_to_i420
red = refl

red_bytes : All IsByte (solid 4 255 0 0)
red_bytes = (
  omega arith,
  (
    omega arith,
    (
      omega arith,
      (
        omega arith,
        (
          omega arith,
          (
            omega arith,
            (
              omega arith,
              (
                omega arith,
                (
                  omega arith,
                  (
                    omega arith,
                    (
                      omega arith,
                      (omega arith, (omega arith, (omega arith, (omega arith, (omega arith, tt))))),
                    ),
                  ),
                ),
              ),
            ),
          ),
        ),
      ),
    ),
  ),
)

xrgb_to_i420-Limited_example : Limited (replicate 4 82) (replicate 1 90) (replicate 1 240)
xrgb_to_i420-Limited_example =
    xrgb_to_i420-Limited (solid 4 255 0 0) 2 2 8 (planes 82 90 240) red_bytes red

packed : xrgb_to_rgb8 (solid 2 1 2 3) 1 2 4 ≡ some (1 ∷ 2 ∷ 3 ∷ 1 ∷ 2 ∷ 3 ∷ [])
unfolding xrgb_to_rgb8
packed = refl
