-- ===== src/Server/Convert.antt =====
-- server/src/convert.rs: pixel format conversion, from the XRGB8888 scanout to planar I420. A panic of
-- the source is `none`.
pub mod Outcome
pub mod Range
pub mod Size
pub mod Rgb
use vmscren_share.Prelude.{
  ℕ, zero, suc, ◌+◌, ◌-◌, ◌*◌, ◌/◌, ◌%◌, Bool, true, false, ◌||◌, ◌==◌, ltb, if◌then◌else◌, Option,
  none, some, List, [], ◌∷◌, ◌++◌, map, length, take, drop, replicate,
}
use vmscren_share.Prelude.Int.{ℤ, pos, negsuc, sub_ℕ}

pub record I420Frame : Type 0 where
  pub width : ℕ
  pub height : ℕ
  pub y : List ℕ
  pub u : List ℕ
  pub v : List ℕ

-- `n & !1`.
abbrev pub even : ℕ → ℕ
even n = n / 2 * 2

-- A black frame.
unfoldable pub new : ℕ → ℕ → I420Frame
new w h =
    let width = even w in
    let height = even h in
    record {
      width = width;
      height = height;
      y = replicate (width * height) 16;
      u = replicate ((width / 2) * (height / 2)) 128;
      v = replicate ((width / 2) * (height / 2)) 128;
    }

unfoldable pub luma : ℕ → ℕ → ℕ → ℕ
luma r g b = ((66 * r + 129 * g + 25 * b + 128) / 256 + 16) % 256

-- `>> 8` of an i32, which rounds down.
abbrev pub shift_right_8 : ℤ → ℤ
shift_right_8 (pos n) = pos (n / 256)
shift_right_8 (negsuc n) = negsuc (n / 256)

-- An i32 plus a number.
abbrev pub plus : ℤ → ℕ → ℤ
plus (pos n) k = pos (n + k)
plus (negsuc n) k = sub_ℕ k (suc n)

-- `as u8` of an i32: its lowest byte.
abbrev pub low_byte : ℤ → ℕ
low_byte (pos n) = n % 256
low_byte (negsuc n) = 255 - n % 256

unfoldable pub chroma_u : ℕ → ℕ → ℕ → ℕ
chroma_u r g b = low_byte (plus (shift_right_8 (sub_ℕ (112 * b + 128) (38 * r + 74 * g))) 128)

unfoldable pub chroma_v : ℕ → ℕ → ℕ → ℕ
chroma_v r g b = low_byte (plus (shift_right_8 (sub_ℕ (112 * r + 128) (94 * g + 18 * b))) 128)

-- Two horizontally adjacent pixels: a chunk of eight bytes, of which two are not read.
pub record PixelPair : Type 0 where
  pub b0 : ℕ
  pub g0 : ℕ
  pub r0 : ℕ
  pub b1 : ℕ
  pub g1 : ℕ
  pub r1 : ℕ

-- `chunks_exact(8)`.
unfoldable pub pixel_pairs : List ℕ → List PixelPair
pixel_pairs (b0 ∷ g0 ∷ r0 ∷ x0 ∷ b1 ∷ g1 ∷ r1 ∷ x1 ∷ rest) =
    record { b0 = b0; g0 = g0; r0 = r0; b1 = b1; g1 = g1; r1 = r1 } ∷ pixel_pairs rest
pixel_pairs _ = []

-- The mean of four bytes, rounded.
abbrev pub mean : ℕ → ℕ → ℕ → ℕ → ℕ
mean a b c d = (a + b + c + d + 2) / 4

-- What two rows give: two rows of luma, and one of each chroma.
pub record RowPair : Type 0 where
  pub y0 : List ℕ
  pub y1 : List ℕ
  pub u : List ℕ
  pub v : List ℕ

abbrev pub no_pixels : RowPair
no_pixels = record { y0 = []; y1 = []; u = []; v = [] }

-- The body of the loop over the pixel pairs of two rows.
abbrev pub add_block : PixelPair → PixelPair → RowPair → RowPair
add_block p q rest =
    let r = mean p.r0 p.r1 q.r0 q.r1 in
    let g = mean p.g0 p.g1 q.g0 q.g1 in
    let b = mean p.b0 p.b1 q.b0 q.b1 in
    record {
      y0 = luma p.r0 p.g0 p.b0 ∷ luma p.r1 p.g1 p.b1 ∷ rest.y0;
      y1 = luma q.r0 q.g0 q.b0 ∷ luma q.r1 q.g1 q.b1 ∷ rest.y1;
      u = chroma_u r g b ∷ rest.u;
      v = chroma_v r g b ∷ rest.v;
    }

unfoldable pub convert_pairs : List PixelPair → List PixelPair → RowPair
unfolding luma chroma_u chroma_v
convert_pairs (p ∷ ps) (q ∷ qs) = add_block p q (convert_pairs ps qs)
convert_pairs _ _ = no_pixels

-- The rows are written in full: each is as wide as the row of the frame.
unfoldable pub convert_row_pair : List ℕ → List ℕ → RowPair
unfolding convert_pairs pixel_pairs
convert_row_pair row0 row1 = convert_pairs (pixel_pairs row0) (pixel_pairs row1)

pub record Planes : Type 0 where
  pub y : List ℕ
  pub u : List ℕ
  pub v : List ℕ

-- The pairs of rows from one on, as many as are asked for. They are independent of one another, which
-- is why the source may convert them in parallel.
unfoldable pub convert_rows : List ℕ → ℕ → ℕ → ℕ → ℕ → Planes
unfolding convert_row_pair
convert_rows src width pitch pair zero = record { y = []; u = []; v = [] }
convert_rows src width pitch pair (suc n) =
    let row0 = take (width * 4) (drop (pair * 2 * pitch) src) in
    let row1 = take (width * 4) (drop ((pair * 2 + 1) * pitch) src) in
    let rows = convert_row_pair row0 row1 in
    let rest = convert_rows src width pitch (suc pair) n in
    record { y = rows.y0 ++ (rows.y1 ++ rest.y); u = rows.u ++ rest.u; v = rows.v ++ rest.v }

-- The frame that the loop over the pairs of rows leaves in `dst`. Every frame has planes of the size
-- of its width and height, since `new` is what makes them, so that nothing is left of what it held.
unfoldable pub converted : List ℕ → ℕ → ℕ → ℕ → I420Frame
unfolding convert_rows
converted src width height pitch =
    let planes = convert_rows src width pitch 0 (height / 2) in
    record { width = width; height = height; y = planes.y; u = planes.u; v = planes.v }

unfoldable pub xrgb_to_i420 : List ℕ → ℕ → ℕ → ℕ → Option I420Frame
unfolding new converted
xrgb_to_i420 src w h pitch =
    let width = even w in
    let height = even h in
    if ltb pitch (width * 4)
    then none
    else if width == 0 || height == 0
    then some (new 0 0)
    else if ltb (length src) ((height - 1) * pitch + width * 4)
    then none
    else some (converted src width height pitch)

-- `chunks_exact(4)` of a row, as red, green and blue.
unfoldable pub rgb_of : List ℕ → List ℕ
rgb_of (b ∷ g ∷ r ∷ x ∷ rest) = r ∷ g ∷ b ∷ rgb_of rest
rgb_of _ = []

-- The rows from one on, as many as are asked for; a row that the source does not hold is a panic.
unfoldable pub rgb_rows : List ℕ → ℕ → ℕ → ℕ → ℕ → Option (List ℕ)
unfolding rgb_of
rgb_rows src width pitch row zero = some []
rgb_rows src width pitch row (suc n) =
    let rest = rgb_rows src width pitch (suc row) n in
    if ltb (length src) (row * pitch + width * 4) then none else elim rest [
      | some out ↦ some (rgb_of (take (width * 4) (drop (row * pitch) src)) ++ out)
      | none ↦ none
    ]

unfoldable pub xrgb_to_rgb8 : List ℕ → ℕ → ℕ → ℕ → Option (List ℕ)
unfolding rgb_rows
xrgb_to_rgb8 src width height pitch = rgb_rows src width pitch 0 height
