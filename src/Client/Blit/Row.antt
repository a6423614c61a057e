-- ===== src/Client/Blit/Row.antt =====
-- What copying one row of the frame leaves in each pixel of the window's buffer.
use vmscren_share.Prelude.{
  ℕ, zero, suc, ◌+◌, ◌-◌, ◌*◌, ◌≤◌, ◌<◌, ◌≡◌, refl, Bool, true, false, ◌&&◌, leb, ltb, ◌==◌,
  if◌then◌else◌, some, List, [], ◌∷◌, length, take, drop, get_or, arith, Bool-cases, inl, inr, ap,
  ◌∙◌,
}
use vmscren_share.Prelude.Arith.{row_end}
use vmscren_share.Client.Blit.{slice, splice, copy_from_slice, copy_row, Geometry}

get_or-splice :
    (from : ℕ) (src dst : List ℕ) (i : ℕ)
    → from + length src ≤ length dst
    → get_or (splice from src dst) i 0 ≡ (
        if leb from i && ltb i (from + length src) then get_or src (i - from) 0 else get_or dst i 0)
unfolding splice
get_or-splice zero [] [] i h = ground arith
get_or-splice (suc from) src [] i h = ground arith
get_or-splice zero (s ∷ src) [] i h = ground arith
get_or-splice zero [] (x ∷ xs) zero h = ground arith
get_or-splice zero [] (x ∷ xs) (suc i) h = ground arith
get_or-splice zero (s ∷ src) (x ∷ xs) zero h = ground arith
get_or-splice zero (s ∷ src) (x ∷ xs) (suc i) h =
    ground (arith, get_or-splice zero src xs i (omega arith))
get_or-splice (suc from) src (x ∷ xs) zero h = ground arith
get_or-splice (suc from) src (x ∷ xs) (suc i) h =
    ground (arith, get_or-splice from src xs i (omega arith))

length-splice : (from : ℕ) (src dst : List ℕ) → length (splice from src dst) ≡ length dst
unfolding splice
length-splice from src [] = refl
length-splice zero [] (x ∷ xs) = refl
length-splice zero (s ∷ src) (x ∷ xs) = ap suc (length-splice zero src xs)
length-splice (suc from) src (x ∷ xs) = ap suc (length-splice from src xs)

get_or-slice :
    (n from : ℕ) (xs : List ℕ) (i : ℕ)
    → i < n
    → get_or (take n (drop from xs)) i 0 ≡ get_or xs (from + i) 0
get_or-slice n zero xs i h = of_take n xs i h ∙ ap (λ k. get_or xs k 0) (omega arith)
  where
    of_take : (n : ℕ) (xs : List ℕ) (i : ℕ) → i < n → get_or (take n xs) i 0 ≡ get_or xs i 0
    of_take zero xs i h = omega arith
    of_take (suc n) [] i h = refl
    of_take (suc n) (x ∷ xs) zero h = refl
    of_take (suc n) (x ∷ xs) (suc i) h = of_take n xs i (omega arith)
get_or-slice zero (suc from) [] i h = refl
get_or-slice (suc n) (suc from) [] i h = refl
get_or-slice n (suc from) (x ∷ xs) i h =
    let e : suc (from + i) ≡ suc from + i = omega arith in
    get_or-slice n from xs i h ∙ ap (λ k. get_or (x ∷ xs) k 0) e

length-slice :
    (n from : ℕ) (xs : List ℕ) → from + n ≤ length xs → length (take n (drop from xs)) ≡ n
length-slice n zero xs h = of_take n xs (omega arith)
  where
    of_take : (n : ℕ) (xs : List ℕ) → n ≤ length xs → length (take n xs) ≡ n
    of_take zero xs h = refl
    of_take (suc n) [] h = omega arith
    of_take (suc n) (x ∷ xs) h = ap suc (of_take n xs (omega arith))
length-slice n (suc from) [] h = omega arith
length-slice n (suc from) (x ∷ xs) h = length-slice n from xs (omega arith)

-- The places of a row's part, in a buffer whose rows are `w` long.
unfoldable pub in_row : ℕ → ℕ → ℕ → ℕ → ℕ → Bool
in_row row x0 n r c = r == row && (leb x0 c && ltb c (x0 + n))

in_row_place :
    (w row x0 n r c : ℕ)
    → c < w
    → x0 + n ≤ w
    → (leb (row * w + x0) (r * w + c) && ltb (r * w + c) (row * w + x0 + n)) ≡ in_row row x0 n r c
unfolding in_row
in_row_place w row x0 n r c hc hn = elim (Bool-cases (ltb r row)) [
  | inl lt ↦ let far = row_end r row w (ground arith) in ground arith
  | inr ge ↦ elim (Bool-cases (ltb row r)) [
    | inl lt ↦ let far = row_end row r w (ground arith) in ground arith
    | inr le ↦ let same : r ≡ row = ground arith in rw same (ground arith)
  ]
]

in_row_offset :
    (w row x0 n r c : ℕ)
    → in_row row x0 n r c ≡ true
    → (r * w + c - (row * w + x0) ≡ c - x0) × (c - x0 < n)
unfolding in_row
in_row_offset w row x0 n r c h =
    let same : r ≡ row = ground arith in (rw same (omega arith), ground arith)

pixel-splice :
    (w row x0 n : ℕ) (src dst : List ℕ) (r c : ℕ)
    → length src ≡ n
    → row * w + x0 + n ≤ length dst
    → c < w
    → x0 + n ≤ w
    → get_or (splice (row * w + x0) src dst) (r * w + c) 0
      ≡ (if in_row row x0 n r c then get_or src (c - x0) 0 else get_or dst (r * w + c) 0)
pixel-splice w row x0 n src dst r c len room hc hx =
    let e = get_or-splice (row * w + x0) src dst (r * w + c) (ground (arith, len)) in
    let place = in_row_place w row x0 n r c hc hx in
    e ∙ rw len (rw place (chosen (in_row row x0 n r c) refl))
  where
    chosen :
        (b : Bool)
        → in_row row x0 n r c ≡ b
        → (if b then get_or src (r * w + c - (row * w + x0)) 0 else get_or dst (r * w + c) 0)
          ≡ (if b then get_or src (c - x0) 0 else get_or dst (r * w + c) 0)
    chosen true h = ap (λ k. get_or src k 0) (in_row_offset w row x0 n r c h).0
    chosen false h = refl

-- A row of the frame that fits, in the buffer.
pub record RowCopied (g : Geometry) (pixels : List ℕ) (row : ℕ) (dst out : List ℕ) : Type 0 where
  pub same_length : length out ≡ length dst
  pub pixel :
      (r c : ℕ)
      → c < g.w
      → get_or out (r * g.w + c) 0 ≡ (
          if in_row (g.y0 + row) g.x0 g.copy_w r c
          then get_or pixels ((g.sy0 + row) * g.fw + g.sx0 + (c - g.x0)) 0
          else get_or dst (r * g.w + c) 0)

pub copy_row-RowCopied :
    (g : Geometry) (pixels : List ℕ) (row : ℕ) (dst : List ℕ)
    → g.x0 + g.copy_w ≤ g.w
    → (g.y0 + row) * g.w + g.w ≤ length dst
    → (g.sy0 + row) * g.fw + g.sx0 + g.copy_w ≤ length pixels
    → (out : List ℕ) × ((copy_row g pixels row dst ≡ some out) × RowCopied g pixels row dst out)
unfolding copy_row slice copy_from_slice
copy_row-RowCopied g pixels row dst hx hd hp =
    let from = (g.sy0 + row) * g.fw + g.sx0 in
    let to = (g.y0 + row) * g.w + g.x0 in
    let src = take g.copy_w (drop from pixels) in
    let len : length src ≡ g.copy_w = length-slice g.copy_w from pixels hp in
    let fits : leb (from + g.copy_w) (length pixels) ≡ true = ground arith in
    let room : leb (to + length src) (length dst) ≡ true = ground (arith, len) in
    (
      splice to src dst,
      (
        rw fits (rw room refl),
        record { same_length = length-splice to src dst; pixel = λ r c hc. placed r c hc len },
      ),
    )
  where
    placed :
        (r c : ℕ)
        → c < g.w
        → length (take g.copy_w (drop ((g.sy0 + row) * g.fw + g.sx0) pixels)) ≡ g.copy_w
        → get_or
            (splice
              ((g.y0 + row) * g.w + g.x0)
              (take g.copy_w (drop ((g.sy0 + row) * g.fw + g.sx0) pixels))
              dst)
            (r * g.w + c)
            0
          ≡ (if in_row (g.y0 + row) g.x0 g.copy_w r c
              then get_or pixels ((g.sy0 + row) * g.fw + g.sx0 + (c - g.x0)) 0
              else get_or dst (r * g.w + c) 0)
    placed r c hc len =
        pixel-splice g.w (g.y0 + row) g.x0 g.copy_w
          (take g.copy_w (drop ((g.sy0 + row) * g.fw + g.sx0) pixels)) dst r c len (omega arith) hc
          hx
        ∙ elim (Bool-cases (in_row (g.y0 + row) g.x0 g.copy_w r c)) [
          | inl h ↦ rw h (
              get_or-slice g.copy_w ((g.sy0 + row) * g.fw + g.sx0) pixels (c - g.x0)
                (in_row_offset g.w (g.y0 + row) g.x0 g.copy_w r c h).1)
          | inr h ↦ rw h refl
        ]
