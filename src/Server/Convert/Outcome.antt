-- ===== src/Server/Convert/Outcome.antt =====
-- server/src/convert.rs: when the conversion returns, and with which frame.
use vmscren_share.Prelude.{
  ℕ, ◌+◌, ◌-◌, ◌*◌, ◌≤◌, ◌≡◌, ◌⊎◌, inl, inr, ◌↔◌, refl, true, false, ◌||◌, ◌==◌, ltb, Bool-cases,
  Option, none, some, List, length, arith,
}
use vmscren_share.Server.Convert.{I420Frame, even, new, converted, xrgb_to_i420}

-- A source that holds the rows of an image, cropped to even sizes.
pub record Fits (src : List ℕ) (w h pitch : ℕ) : Type 0 where
  pub rows_apart : even w * 4 ≤ pitch
  pub long_enough : (even w ≡ 0) ⊎ ((even h ≡ 0) ⊎ ((even h - 1) * pitch + even w * 4 ≤ length src))

-- The outcomes of the conversion.
pub data Outcome (src : List ℕ) (w h pitch : ℕ) : Option I420Frame → Type 0 where
  panics : (Fits src w h pitch → ⊥) → Outcome src w h pitch none
  is_blank : Fits src w h pitch → Outcome src w h pitch (some (new 0 0))
  is_whole :
      Fits src w h pitch
      → (even h - 1) * pitch + even w * 4 ≤ length src
      → Outcome src w h pitch (some (converted src (even w) (even h) pitch))

Fits-rows_apart :
    (src : List ℕ) (w h pitch : ℕ) → Fits src w h pitch → ltb pitch (even w * 4) ≡ false
Fits-rows_apart src w h pitch f = let apart = f.rows_apart in ground arith

Fits-long_enough :
    (src : List ℕ) (w h pitch : ℕ)
    → (even w == 0 || even h == 0) ≡ false
    → Fits src w h pitch
    → ltb (length src) ((even h - 1) * pitch + even w * 4) ≡ false
Fits-long_enough src w h pitch sized f = elim f.long_enough [
  | inl no_width ↦ ground arith
  | inr (inl no_height) ↦ ground arith
  | inr (inr long) ↦ ground arith
]

pub xrgb_to_i420-Outcome :
    (src : List ℕ) (w h pitch : ℕ) → Outcome src w h pitch (xrgb_to_i420 src w h pitch)
unfolding xrgb_to_i420
xrgb_to_i420-Outcome src w h pitch = elim (Bool-cases (ltb pitch (even w * 4))) [
  | inl narrow ↦
      rw narrow (panics (λ f. let wide = Fits-rows_apart src w h pitch f in ground arith))
  | inr wide ↦ rw wide (elim (Bool-cases (even w == 0 || even h == 0)) [
    | inl blank ↦
        rw blank (is_blank (record { rows_apart = ground arith; long_enough = blank_size blank }))
    | inr sized ↦
        rw sized (elim (Bool-cases (ltb (length src) ((even h - 1) * pitch + even w * 4))) [
          | inl short ↦
              rw short
                (panics (λ f. let long = Fits-long_enough src w h pitch sized f in ground arith))
          | inr long ↦ rw long (
              is_whole
                (record { rows_apart = ground arith; long_enough = inr (inr (ground arith)) })
                (ground arith))
        ])
  ])
]
  where
    blank_size :
        (even w == 0 || even h == 0) ≡ true
        → (even w ≡ 0) ⊎ ((even h ≡ 0) ⊎ ((even h - 1) * pitch + even w * 4 ≤ length src))
    blank_size blank = ground arith

-- The conversion returns exactly when the rows are as far apart as they are long, and the source
-- holds them, or the frame has no pixel; any other call panics.
pub xrgb_to_i420-Fits_iff :
    (src : List ℕ) (w h pitch : ℕ)
    → ((f : I420Frame) × (xrgb_to_i420 src w h pitch ≡ some f)) ↔ Fits src w h pitch
xrgb_to_i420-Fits_iff src w h pitch =
    split (xrgb_to_i420 src w h pitch) (xrgb_to_i420-Outcome src w h pitch)
  where
    split :
        (o : Option I420Frame)
        → Outcome src w h pitch o
        → ((f : I420Frame) × (o ≡ some f)) ↔ Fits src w h pitch
    split _ (panics unfit) = (λ r. cc, λ fits. absurd (unfit fits))
    split _ (is_blank fits) = (λ r. fits, λ _. (new 0 0, refl))
    split _ (is_whole fits long) = (λ r. fits, λ _. (converted src (even w) (even h) pitch, refl))
