-- ===== src/Server/Convert/Range.antt =====
-- server/src/convert.rs: the values of the planes keep to the limited range of BT.601.
use vmscren_share.Prelude.{
  ℕ, zero, suc, ◌+◌, ◌*◌, ◌/◌, ◌≤◌, ◌≡◌, sym, Option, some, List, [], ◌∷◌, ◌++◌, take, drop, All,
  All-take, All-drop, All-joined, arith,
}
use vmscren_share.Prelude.Int.{sub_ℕ}
use vmscren_share.Prelude.Bytes.{IsByte}
use vmscren_share.Server.Convert.{
  I420Frame, new, luma, chroma_u, chroma_v, shift_right_8, plus, low_byte, PixelPair, pixel_pairs,
  mean, RowPair, add_block, convert_pairs, convert_row_pair, convert_rows, xrgb_to_i420, converted,
  even,
}
use vmscren_share.Server.Convert.Outcome.{Outcome, panics, is_blank, is_whole, xrgb_to_i420-Outcome}

abbrev pub IsLuma : ℕ → Type 0
IsLuma y = (16 ≤ y) × (y ≤ 235)

abbrev pub IsChroma : ℕ → Type 0
IsChroma c = (16 ≤ c) × (c ≤ 240)

luma-IsLuma : (r g b : ℕ) → IsByte r → IsByte g → IsByte b → IsLuma (luma r g b)
unfolding luma
luma-IsLuma r g b hr hg hb = (omega arith, omega arith)

-- The chroma of a positive and a negative part that each stay below 2 ^ 15.
low_byte-IsChroma :
    (p n : ℕ)
    → p ≤ 28688
    → 128 ≤ p
    → n ≤ 28560
    → IsChroma (low_byte (plus (shift_right_8 (sub_ℕ p n)) 128))
low_byte-IsChroma p n hp lp hn = ground arith

chroma_u-IsChroma : (r g b : ℕ) → IsByte r → IsByte g → IsByte b → IsChroma (chroma_u r g b)
unfolding chroma_u
chroma_u-IsChroma r g b hr hg hb =
    low_byte-IsChroma (112 * b + 128) (38 * r + 74 * g) (omega arith) (omega arith) (omega arith)

chroma_v-IsChroma : (r g b : ℕ) → IsByte r → IsByte g → IsByte b → IsChroma (chroma_v r g b)
unfolding chroma_v
chroma_v-IsChroma r g b hr hg hb =
    low_byte-IsChroma (112 * r + 128) (94 * g + 18 * b) (omega arith) (omega arith) (omega arith)

-- Bytes, two pixels at a time.
record AreBytes (p : PixelPair) : Type 0 where
  b0 : IsByte p.b0
  g0 : IsByte p.g0
  r0 : IsByte p.r0
  b1 : IsByte p.b1
  g1 : IsByte p.g1
  r1 : IsByte p.r1

record InRange (r : RowPair) : Type 0 where
  y0 : All IsLuma r.y0
  y1 : All IsLuma r.y1
  u : All IsChroma r.u
  v : All IsChroma r.v

mean-IsByte : (a b c d : ℕ) → IsByte a → IsByte b → IsByte c → IsByte d → IsByte (mean a b c d)
mean-IsByte a b c d ha hb hc hd = omega arith

add_block-InRange :
    (p q : PixelPair) (rest : RowPair)
    → AreBytes p
    → AreBytes q
    → InRange rest
    → InRange (add_block p q rest)
add_block-InRange p q rest hp hq h =
    let r = mean-IsByte p.r0 p.r1 q.r0 q.r1 hp.r0 hp.r1 hq.r0 hq.r1 in
    let g = mean-IsByte p.g0 p.g1 q.g0 q.g1 hp.g0 hp.g1 hq.g0 hq.g1 in
    let b = mean-IsByte p.b0 p.b1 q.b0 q.b1 hp.b0 hp.b1 hq.b0 hq.b1 in
    record {
      y0 = (
        luma-IsLuma p.r0 p.g0 p.b0 hp.r0 hp.g0 hp.b0,
        (luma-IsLuma p.r1 p.g1 p.b1 hp.r1 hp.g1 hp.b1, h.y0),
      );
      y1 = (
        luma-IsLuma q.r0 q.g0 q.b0 hq.r0 hq.g0 hq.b0,
        (luma-IsLuma q.r1 q.g1 q.b1 hq.r1 hq.g1 hq.b1, h.y1),
      );
      u = (
        chroma_u-IsChroma (mean p.r0 p.r1 q.r0 q.r1) (mean p.g0 p.g1 q.g0 q.g1)
            (mean p.b0 p.b1 q.b0 q.b1) r g b,
        h.u,
      );
      v = (
        chroma_v-IsChroma (mean p.r0 p.r1 q.r0 q.r1) (mean p.g0 p.g1 q.g0 q.g1)
            (mean p.b0 p.b1 q.b0 q.b1) r g b,
        h.v,
      );
    }

convert_pairs-InRange :
    (ps qs : List PixelPair) → All AreBytes ps → All AreBytes qs → InRange (convert_pairs ps qs)
unfolding convert_pairs
convert_pairs-InRange [] qs hp hq = record { y0 = tt; y1 = tt; u = tt; v = tt }
convert_pairs-InRange (p ∷ ps) [] hp hq = record { y0 = tt; y1 = tt; u = tt; v = tt }
convert_pairs-InRange (p ∷ ps) (q ∷ qs) hp hq =
    add_block-InRange p q (convert_pairs ps qs) hp.0 hq.0 (convert_pairs-InRange ps qs hp.1 hq.1)

pixel_pairs-AreBytes : (bytes : List ℕ) → All IsByte bytes → All AreBytes (pixel_pairs bytes)
unfolding pixel_pairs
pixel_pairs-AreBytes (b0 ∷ g0 ∷ r0 ∷ x0 ∷ b1 ∷ g1 ∷ r1 ∷ x1 ∷ rest)
      (hb0, (hg0, (hr0, (hx0, (hb1, (hg1, (hr1, (hx1, h)))))))) =
    (
      record { b0 = hb0; g0 = hg0; r0 = hr0; b1 = hb1; g1 = hg1; r1 = hr1 },
      pixel_pairs-AreBytes rest h,
    )
pixel_pairs-AreBytes [] h = tt
pixel_pairs-AreBytes (a ∷ []) h = tt
pixel_pairs-AreBytes (a ∷ b ∷ []) h = tt
pixel_pairs-AreBytes (a ∷ b ∷ c ∷ []) h = tt
pixel_pairs-AreBytes (a ∷ b ∷ c ∷ d ∷ []) h = tt
pixel_pairs-AreBytes (a ∷ b ∷ c ∷ d ∷ e ∷ []) h = tt
pixel_pairs-AreBytes (a ∷ b ∷ c ∷ d ∷ e ∷ f ∷ []) h = tt
pixel_pairs-AreBytes (a ∷ b ∷ c ∷ d ∷ e ∷ f ∷ g ∷ []) h = tt

-- Planes whose values are all in range.
pub record Limited (y u v : List ℕ) : Type 0 where
  pub luma_range : All IsLuma y
  pub u_range : All IsChroma u
  pub v_range : All IsChroma v

convert_rows-Limited :
    (src : List ℕ) (width pitch pair n : ℕ)
    → All IsByte src
    → Limited
        (convert_rows src width pitch pair n).y
        (convert_rows src width pitch pair n).u
        (convert_rows src width pitch pair n).v
unfolding convert_rows convert_row_pair
convert_rows-Limited src width pitch pair zero h = record {
  luma_range = tt;
  u_range = tt;
  v_range = tt;
}
convert_rows-Limited src width pitch pair (suc n) h =
    let row0 = take (width * 4) (drop (pair * 2 * pitch) src) in
    let row1 = take (width * 4) (drop ((pair * 2 + 1) * pitch) src) in
    let bytes0 =
      All-take IsByte (width * 4) (drop (pair * 2 * pitch) src)
        (All-drop IsByte (pair * 2 * pitch) src h) in
    let bytes1 =
      All-take IsByte (width * 4) (drop ((pair * 2 + 1) * pitch) src)
        (All-drop IsByte ((pair * 2 + 1) * pitch) src h) in
    let rows =
      convert_pairs-InRange (pixel_pairs row0) (pixel_pairs row1) (pixel_pairs-AreBytes row0 bytes0)
        (pixel_pairs-AreBytes row1 bytes1) in
    let rest = convert_rows-Limited src width pitch (suc pair) n h in
    let r = convert_row_pair row0 row1 in
    let rs = convert_rows src width pitch (suc pair) n in
    record {
      luma_range =
          All-joined IsLuma r.y0 (r.y1 ++ rs.y) rows.y0
            (All-joined IsLuma r.y1 rs.y rows.y1 rest.luma_range);
      u_range = All-joined IsChroma r.u rs.u rows.u rest.u_range;
      v_range = All-joined IsChroma r.v rs.v rows.v rest.v_range;
    }

-- A source of bytes that is converted gives luma from 16 to 235 and chroma from 16 to 240.
pub xrgb_to_i420-Limited :
    (src : List ℕ) (w h pitch : ℕ) (f : I420Frame)
    → All IsByte src
    → xrgb_to_i420 src w h pitch ≡ some f
    → Limited f.y f.u f.v
unfolding new converted
xrgb_to_i420-Limited src w h pitch f bytes returned =
    limited (xrgb_to_i420 src w h pitch) (xrgb_to_i420-Outcome src w h pitch) returned
  where
    limited : (o : Option I420Frame) → Outcome src w h pitch o → o ≡ some f → Limited f.y f.u f.v
    limited _ (panics unfit) e = cc
    limited _ (is_blank fits) e =
        let same : new 0 0 ≡ f = cc in
        rw (sym same) (record { luma_range = tt; u_range = tt; v_range = tt })
    limited _ (is_whole fits long) e =
        let same : converted src (even w) (even h) pitch ≡ f = cc in
        rw (sym same) (convert_rows-Limited src (even w) pitch 0 (even h / 2) bytes)
