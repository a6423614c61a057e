-- ===== src/Server/Convert/Size.antt =====
-- server/src/convert.rs: the sizes of the planes.
use vmscren_share.Prelude.Arith.{mul_mono}
use vmscren_share.Prelude.{
  ℕ, zero, suc, ◌+◌, ◌-◌, ◌*◌, ◌/◌, ◌≤◌, ◌≡◌, refl, sym, ap, Option, some, List, [], ◌∷◌, ◌++◌,
  length, take, drop, length-take, length-drop, length-append, length-replicate, ◌⊎◌, inl, inr,
  arith,
}
use vmscren_share.Server.Convert.{
  I420Frame, even, new, PixelPair, pixel_pairs, RowPair, convert_pairs, convert_row_pair,
  convert_rows, converted, xrgb_to_i420,
}
use vmscren_share.Server.Convert.Outcome.{Outcome, panics, is_blank, is_whole, xrgb_to_i420-Outcome}

-- A chunk for every eight bytes.
length-pixel_pairs :
    (k : ℕ) (bytes : List ℕ) → length bytes ≡ k * 8 → length (pixel_pairs bytes) ≡ k
unfolding pixel_pairs
length-pixel_pairs zero [] h = refl
length-pixel_pairs zero (a ∷ bytes) h = absurd (omega arith)
length-pixel_pairs (suc k) (b0 ∷ g0 ∷ r0 ∷ x0 ∷ b1 ∷ g1 ∷ r1 ∷ x1 ∷ rest) h =
    ap suc (length-pixel_pairs k rest (omega arith))
length-pixel_pairs (suc k) [] h = absurd (omega arith)
length-pixel_pairs (suc k) (a ∷ []) h = absurd (omega arith)
length-pixel_pairs (suc k) (a ∷ b ∷ []) h = absurd (omega arith)
length-pixel_pairs (suc k) (a ∷ b ∷ c ∷ []) h = absurd (omega arith)
length-pixel_pairs (suc k) (a ∷ b ∷ c ∷ d ∷ []) h = absurd (omega arith)
length-pixel_pairs (suc k) (a ∷ b ∷ c ∷ d ∷ e ∷ []) h = absurd (omega arith)
length-pixel_pairs (suc k) (a ∷ b ∷ c ∷ d ∷ e ∷ f ∷ []) h = absurd (omega arith)
length-pixel_pairs (suc k) (a ∷ b ∷ c ∷ d ∷ e ∷ f ∷ g ∷ []) h = absurd (omega arith)

-- Rows for `k` blocks: two luma values for each of them in a row, and one of each chroma.
record HasBlocks (k : ℕ) (r : RowPair) : Type 0 where
  y0 : length r.y0 ≡ k * 2
  y1 : length r.y1 ≡ k * 2
  u : length r.u ≡ k
  v : length r.v ≡ k

convert_pairs-HasBlocks :
    (k : ℕ) (ps qs : List PixelPair)
    → length ps ≡ k
    → length qs ≡ k
    → HasBlocks k (convert_pairs ps qs)
unfolding convert_pairs
convert_pairs-HasBlocks k [] qs hp hq = record {
  y0 = omega arith;
  y1 = omega arith;
  u = omega arith;
  v = omega arith;
}
convert_pairs-HasBlocks k (p ∷ ps) [] hp hq = absurd (omega arith)
convert_pairs-HasBlocks zero (p ∷ ps) (q ∷ qs) hp hq = absurd (omega arith)
convert_pairs-HasBlocks (suc k) (p ∷ ps) (q ∷ qs) hp hq =
    let rest = convert_pairs-HasBlocks k ps qs (omega arith) (omega arith) in
    record {
      y0 = omega (arith, rest.y0);
      y1 = omega (arith, rest.y1);
      u = omega (arith, rest.u);
      v = omega (arith, rest.v);
    }

-- A row that the source holds.
length-row :
    (src : List ℕ) (size offset : ℕ)
    → offset + size ≤ length src
    → length (take size (drop offset src)) ≡ size
length-row src size offset h =
    omega (arith, length-take size (drop offset src), length-drop offset src)

-- The rows of a pair that the source holds.
row_pair-HasBlocks :
    (src : List ℕ) (k pitch pair : ℕ)
    → (pair * 2 + 1) * pitch + k * 8 ≤ length src
    → HasBlocks k (
        convert_row_pair
          (take (k * 2 * 4) (drop (pair * 2 * pitch) src))
          (take (k * 2 * 4) (drop ((pair * 2 + 1) * pitch) src)))
unfolding convert_row_pair
row_pair-HasBlocks src k pitch pair h =
    let row0 = take (k * 2 * 4) (drop (pair * 2 * pitch) src) in
    let row1 = take (k * 2 * 4) (drop ((pair * 2 + 1) * pitch) src) in
    let size0 : length row0 ≡ k * 2 * 4 =
      length-row src (k * 2 * 4) (pair * 2 * pitch) (omega arith) in
    let size1 : length row1 ≡ k * 2 * 4 =
      length-row src (k * 2 * 4) ((pair * 2 + 1) * pitch) (omega arith) in
    convert_pairs-HasBlocks k (pixel_pairs row0) (pixel_pairs row1)
      (length-pixel_pairs k row0 (omega arith)) (length-pixel_pairs k row1 (omega arith))

-- The planes of `n` pairs of rows.
pub record HasRows (k n : ℕ) (y u v : List ℕ) : Type 0 where
  pub y_size : length y ≡ n * (k * 4)
  pub u_size : length u ≡ n * k
  pub v_size : length v ≡ n * k

convert_rows-HasRows :
    (src : List ℕ) (k pitch pair n half : ℕ)
    → pair + n ≡ half
    → (half * 2 - 1) * pitch + k * 8 ≤ length src
    → HasRows k n
        (convert_rows src (k * 2) pitch pair n).y
        (convert_rows src (k * 2) pitch pair n).u
        (convert_rows src (k * 2) pitch pair n).v
unfolding convert_rows
convert_rows-HasRows src k pitch pair zero half all h = record {
  y_size = omega arith;
  u_size = omega arith;
  v_size = omega arith;
}
convert_rows-HasRows src k pitch pair (suc n) half all h =
    let rest = convert_rows-HasRows src k pitch (suc pair) n half (omega arith) h in
    let lower = mul_mono (pair * 2 + 1) (half * 2 - 1) pitch (omega arith) in
    let rows = row_pair-HasBlocks src k pitch pair (omega arith) in
    let r =
      convert_row_pair (take (k * 2 * 4) (drop (pair * 2 * pitch) src))
        (take (k * 2 * 4) (drop ((pair * 2 + 1) * pitch) src)) in
    let rs = convert_rows src (k * 2) pitch (suc pair) n in
    record {
      y_size = omega (
        arith,
        length-append r.y0 (r.y1 ++ rs.y),
        length-append r.y1 rs.y,
        rows.y0,
        rows.y1,
        rest.y_size,
      );
      u_size = omega (arith, length-append r.u rs.u, rows.u, rest.u_size);
      v_size = omega (arith, length-append r.v rs.v, rows.v, rest.v_size);
    }

-- A frame whose planes have the sizes that its width and height ask for, which are even.
pub record IsFrame (f : I420Frame) : Type 0 where
  pub even_width : even f.width ≡ f.width
  pub even_height : even f.height ≡ f.height
  pub y_size : length f.y ≡ f.width * f.height
  pub u_size : length f.u ≡ (f.width / 2) * (f.height / 2)
  pub v_size : length f.v ≡ (f.width / 2) * (f.height / 2)

half-even : (n : ℕ) → even n / 2 ≡ n / 2
half-even n = omega arith

pub new-IsFrame : (w h : ℕ) → IsFrame (new w h)
unfolding new
new-IsFrame w h = record {
  even_width = omega arith;
  even_height = omega arith;
  y_size = length-replicate (even w * even h) 16;
  u_size = length-replicate ((even w / 2) * (even h / 2)) 128;
  v_size = length-replicate ((even w / 2) * (even h / 2)) 128;
}

converted-IsFrame :
    (src : List ℕ) (k n pitch : ℕ)
    → (n * 2 - 1) * pitch + k * 2 * 4 ≤ length src
    → IsFrame (converted src (k * 2) (n * 2) pitch)
unfolding converted
converted-IsFrame src k n pitch long =
    let half : n * 2 / 2 ≡ n = omega arith in
    let half_width : k * 2 / 2 ≡ k = omega arith in
    let rows = convert_rows-HasRows src k pitch 0 n n (omega arith) (omega arith) in
    record {
      even_width = omega arith;
      even_height = omega arith;
      y_size = rw half (omega (arith, rows.y_size));
      u_size = rw (half, half_width) (omega (arith, rows.u_size));
      v_size = rw (half, half_width) (omega (arith, rows.v_size));
    }

-- A conversion that returns leaves a frame whose planes have the sizes of its width and height, which
-- are the image's, cropped to even numbers, unless one of them is then 0 and the frame is empty.
pub xrgb_to_i420-IsFrame :
    (src : List ℕ) (w h pitch : ℕ) (f : I420Frame)
    → xrgb_to_i420 src w h pitch ≡ some f
    → IsFrame f × (((f.width ≡ even w) × (f.height ≡ even h)) ⊎ ((f.width ≡ 0) × (f.height ≡ 0)))
unfolding new converted
xrgb_to_i420-IsFrame src w h pitch f returned =
    sized (xrgb_to_i420 src w h pitch) (xrgb_to_i420-Outcome src w h pitch) returned
  where
    sized :
        (o : Option I420Frame)
        → Outcome src w h pitch o
        → o ≡ some f
        → IsFrame f
          × (((f.width ≡ even w) × (f.height ≡ even h)) ⊎ ((f.width ≡ 0) × (f.height ≡ 0)))
    sized _ (panics unfit) e = cc
    sized _ (is_blank fits) e =
        let same : new 0 0 ≡ f = cc in rw (sym same) (new-IsFrame 0 0, inr (refl, refl))
    sized _ (is_whole fits long) e =
        let same : converted src (even w) (even h) pitch ≡ f = cc in
        rw (sym same) (converted-IsFrame src (w / 2) (h / 2) pitch long, inl (refl, refl))
