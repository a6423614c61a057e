-- ===== src/Server/Convert/Rgb.antt =====
-- server/src/convert.rs, xrgb_to_rgb8: the size of the packed image.
use vmscren_share.Prelude.{
  ℕ, zero, suc, ◌+◌, ◌*◌, ◌≤◌, ◌≡◌, refl, sym, Bool, true, false, ltb, if◌then◌else◌, Option, none,
  some, List, [], ◌∷◌, ◌++◌, length, take, drop, length-take, length-drop, length-append, arith,
}
use vmscren_share.Server.Convert.{rgb_of, rgb_rows, xrgb_to_rgb8}

length-rgb_of : (k : ℕ) (bytes : List ℕ) → length bytes ≡ k * 4 → length (rgb_of bytes) ≡ k * 3
unfolding rgb_of
length-rgb_of zero [] h = refl
length-rgb_of zero (a ∷ bytes) h = absurd (omega arith)
length-rgb_of (suc k) (b ∷ g ∷ r ∷ x ∷ rest) h = omega (arith, length-rgb_of k rest (omega arith))
length-rgb_of (suc k) [] h = absurd (omega arith)
length-rgb_of (suc k) (a ∷ []) h = absurd (omega arith)
length-rgb_of (suc k) (a ∷ b ∷ []) h = absurd (omega arith)
length-rgb_of (suc k) (a ∷ b ∷ c ∷ []) h = absurd (omega arith)

length-rgb_row :
    (src : List ℕ) (width offset : ℕ)
    → offset + width * 4 ≤ length src
    → length (rgb_of (take (width * 4) (drop offset src))) ≡ width * 3
length-rgb_row src width offset h =
    length-rgb_of width (take (width * 4) (drop offset src))
      (omega (arith, length-take (width * 4) (drop offset src), length-drop offset src))

length-rgb_rows :
    (src : List ℕ) (width pitch row n : ℕ) (out : List ℕ)
    → rgb_rows src width pitch row n ≡ some out
    → length out ≡ n * (width * 3)
unfolding rgb_rows
length-rgb_rows src width pitch row zero out h =
    let same : [] ≡ out = cc in rw (sym same) (omega arith)
length-rgb_rows src width pitch row (suc n) out h =
    added (ltb (length src) (row * pitch + width * 4)) refl (rgb_rows src width pitch (suc row) n)
      (λ rest e. length-rgb_rows src width pitch (suc row) n rest e) h
  where
    line : List ℕ
    line = rgb_of (take (width * 4) (drop (row * pitch) src))

    added :
        (b : Bool)
        → ltb (length src) (row * pitch + width * 4) ≡ b
        → (o : Option (List ℕ)) → ((rest : List ℕ) → o ≡ some rest → length rest ≡ n * (width * 3))
        → (if b then none else elim o [ some out ↦ some (line ++ out) | none ↦ none ]) ≡ some out
        → length out ≡ suc n * (width * 3)
    added true short o rest e = cc
    added false long none rest e = cc
    added false long (some back) rest e =
        let same : line ++ back ≡ out = cc in
        rw (sym same) (
          omega (
            arith,
            length-append line back,
            length-rgb_row src width (row * pitch) (ground arith),
            rest back refl,
          ))

-- A conversion to RGB that returns gives three bytes for every pixel.
pub length-xrgb_to_rgb8 :
    (src : List ℕ) (width height pitch : ℕ) (out : List ℕ)
    → xrgb_to_rgb8 src width height pitch ≡ some out
    → length out ≡ height * (width * 3)
unfolding xrgb_to_rgb8
length-xrgb_to_rgb8 src width height pitch out h = length-rgb_rows src width pitch 0 height out h
