-- ===== src/Client/Blit.antt =====
-- client/src/app.rs, blit: a frame copied to the middle of the window's buffer. Pixels stand row by
-- row; a slice out of range is `none`.
pub mod Row
pub mod Rows
pub mod Centred
use vmscren_share.Prelude.{
  ℕ, zero, suc, ◌+◌, ◌-◌, ◌*◌, ◌/◌, min, Bool, ◌&&◌, leb, ◌==◌, if◌then◌else◌, Option, none, some,
  List, [], ◌∷◌, length, take, drop, replicate,
}
use vmscren_share.Prelude.Result.{and_then}
use vmscren_share.Client.View.{RgbFrame}

-- `&xs[from..][..n]`.
unfoldable pub slice : List ℕ → ℕ → ℕ → Option (List ℕ)
slice xs from n = if leb (from + n) (length xs) then some (take n (drop from xs)) else none

-- `xs[from..][..src.len()].copy_from_slice(src)`, where the range fits.
unfoldable pub splice : ℕ → List ℕ → List ℕ → List ℕ
splice from src [] = []
splice zero [] (x ∷ xs) = x ∷ xs
splice zero (s ∷ src) (x ∷ xs) = s ∷ splice zero src xs
splice (suc from) src (x ∷ xs) = x ∷ splice from src xs

unfoldable pub copy_from_slice : List ℕ → ℕ → List ℕ → Option (List ℕ)
unfolding splice
copy_from_slice dst from src =
    if leb (from + length src) (length dst) then some (splice from src dst) else none

-- The variables of `blit`.
pub record Geometry : Type 0 where
  pub w : ℕ
  pub fw : ℕ
  pub copy_w : ℕ
  pub x0 : ℕ
  pub y0 : ℕ
  pub sx0 : ℕ
  pub sy0 : ℕ

unfoldable pub geometry : RgbFrame → ℕ → ℕ → Geometry
geometry f w h =
    let copy_w = min f.width w in
    let copy_h = min f.height h in
    record {
      w = w;
      fw = f.width;
      copy_w = copy_w;
      x0 = (w - copy_w) / 2;
      y0 = (h - copy_h) / 2;
      sx0 = (f.width - copy_w) / 2;
      sy0 = (f.height - copy_h) / 2;
    }

-- The body of the loop, for one row.
unfoldable pub copy_row : Geometry → List ℕ → ℕ → List ℕ → Option (List ℕ)
unfolding slice copy_from_slice
copy_row g pixels row dst =
    and_then (slice pixels ((g.sy0 + row) * g.fw + g.sx0) g.copy_w)
      (copy_from_slice dst ((g.y0 + row) * g.w + g.x0))

-- The rows from `row` on, `n` of them.
unfoldable pub copy_rows : Geometry → List ℕ → (n row : ℕ) → List ℕ → Option (List ℕ)
unfolding copy_row
copy_rows g pixels zero row dst = some dst
copy_rows g pixels (suc n) row dst =
    and_then (copy_row g pixels row dst) (copy_rows g pixels n (suc row))

-- A frame of the window's size is copied in one piece.
unfoldable pub blit : RgbFrame → List ℕ → ℕ → ℕ → Option (List ℕ)
unfolding geometry copy_rows
blit f dst w h =
    if f.width == w && f.height == h && length f.pixels == length dst
    then some f.pixels
    else copy_rows (geometry f w h) f.pixels (min f.height h) 0 (replicate (length dst) 0)
