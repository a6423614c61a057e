-- ===== src/Client/Blit/Rows.antt =====
-- What copying several rows of the frame leaves in each pixel of the window's buffer.
use vmscren_share.Prelude.{
  ℕ, zero, suc, ◌+◌, ◌-◌, ◌*◌, ◌≤◌, ◌<◌, ◌≡◌, refl, Bool, ◌&&◌, leb, ltb, ◌==◌, if◌then◌else◌, some,
  List, length, get_or, arith, Bool-cases, inl, inr, ◌∙◌,
}
use vmscren_share.Prelude.Arith.{row_end}
use vmscren_share.Client.Blit.{copy_rows, Geometry}
use vmscren_share.Client.Blit.Row.{in_row, RowCopied, copy_row-RowCopied}

-- The places of `n` rows' parts.
unfoldable pub in_rows : Geometry → (row n r c : ℕ) → Bool
in_rows g row n r c =
    (leb (g.y0 + row) r && ltb r (g.y0 + row + n)) && (leb g.x0 c && ltb c (g.x0 + g.copy_w))

pub record RowsCopied (g : Geometry) (pixels : List ℕ) (row n : ℕ) (dst out : List ℕ) : Type 0 where
  pub same_length : length out ≡ length dst
  pub pixel :
      (r c : ℕ)
      → c < g.w
      → get_or out (r * g.w + c) 0 ≡ (
          if in_rows g row n r c
          then get_or pixels ((g.sy0 + (r - g.y0)) * g.fw + g.sx0 + (c - g.x0)) 0
          else get_or dst (r * g.w + c) 0)

row_then_rows :
    (g : Geometry) (pixels : List ℕ) (row n : ℕ) (dst next out : List ℕ)
    → g.x0 + g.copy_w ≤ g.w
    → RowCopied g pixels row dst next
    → RowsCopied g pixels (suc row) n next out
    → RowsCopied g pixels row (suc n) dst out
unfolding in_rows in_row
row_then_rows g pixels row n dst next out hx one more = record {
  same_length = more.same_length ∙ one.same_length;
  pixel = λ r c hc.
      let a = one.pixel r c hc in
      let b = more.pixel r c hc in
      elim (Bool-cases (r == g.y0 + row)) [
        | inl h ↦
            let same : r - g.y0 ≡ row = ground arith in
            let below = rw same at b in rw same (ground (arith, a, below, h))
        | inr h ↦ ground (arith, a, b, h)
      ];
}

pub copy_rows-RowsCopied :
    (g : Geometry) (pixels : List ℕ) (n row : ℕ) (dst : List ℕ)
    → g.x0 + g.copy_w ≤ g.w
    → g.sx0 + g.copy_w ≤ g.fw
    → (g.y0 + row + n) * g.w ≤ length dst
    → (g.sy0 + row + n) * g.fw ≤ length pixels
    → (out : List ℕ) × ((copy_rows g pixels n row dst ≡ some out)
        × RowsCopied g pixels row n dst out)
unfolding copy_rows
copy_rows-RowsCopied g pixels zero row dst hx hs hd hp =
    (dst, (refl, record { same_length = refl; pixel = λ r c hc. unfold in_rows in ground arith }))
copy_rows-RowsCopied g pixels (suc n) row dst hx hs hd hp =
    let below = row_end (g.y0 + row) (g.y0 + row + suc n) g.w (omega arith) in
    let inside = row_end (g.sy0 + row) (g.sy0 + row + suc n) g.fw (omega arith) in
    let (next, (e, one)) = copy_row-RowCopied g pixels row dst hx (omega arith) (omega arith) in
    let more =
      copy_rows-RowsCopied g pixels n (suc row) next hx hs (rw (one.same_length, next_rows g.y0) hd)
        (rw (next_rows g.sy0) hp) in
    (more.0, (rw e more.1.0, row_then_rows g pixels row n dst next more.0 hx one more.1.1))
  where
    next_rows : (from : ℕ) → from + suc row + n ≡ from + row + suc n
    next_rows from = omega arith
