-- ===== src/Client/Blit/Centred.antt =====
-- What `blit` leaves in each pixel of the window's buffer.
use vmscren_share.Prelude.{
  ℕ, zero, suc, ◌+◌, ◌-◌, ◌*◌, ◌/◌, ◌≤◌, ◌<◌, ◌≡◌, refl, Bool, true, false, ◌&&◌, leb, ltb, ◌==◌,
  min, if◌then◌else◌, Option, none, some, List, length, get_or, replicate, arith, Bool-cases, inl,
  inr, ap, ◌∙◌, subst, length-replicate,
}
use vmscren_share.Prelude.Arith.{mul_mono}
use vmscren_share.Client.Blit.{geometry, blit}
use vmscren_share.Client.Blit.Rows.{in_rows, RowsCopied, copy_rows-RowsCopied}
use vmscren_share.Client.View.{RgbFrame}

-- Along one axis: the place in a frame of `n` pixels that is shown at place `i` of a window of `m`,
-- if the two have the same middle.
unfoldable pub centred : (n m i : ℕ) → Option ℕ
centred n m i =
    if leb m n
    then some (i + (n - m) / 2)
    else if leb ((m - n) / 2) i && ltb i ((m - n) / 2 + n)
    then some (i - (m - n) / 2)
    else none

-- Black where the frame has no pixel to show.
unfoldable pub shown : RgbFrame → (row column : Option ℕ) → ℕ
shown f (some r) (some c) = get_or f.pixels (r * f.width + c) 0
shown f _ _ = 0

pub record IsCentred (f : RgbFrame) (w h : ℕ) (out : List ℕ) : Type 0 where
  pub whole_window : length out ≡ h * w
  pub pixel :
      (r c : ℕ)
      → r < h
      → c < w
      → get_or out (r * w + c) 0 ≡ shown f (centred f.height h r) (centred f.width w c)

get_or-replicate : (n i : ℕ) → get_or (replicate {A = ℕ} n 0) i 0 ≡ 0
get_or-replicate zero i = refl
get_or-replicate (suc n) zero = refl
get_or-replicate (suc n) (suc i) = get_or-replicate n i

-- The part of the window's places that `blit` copies to.
abbrev copied : (n m i : ℕ) → Bool
copied n m i = leb ((m - min n m) / 2) i && ltb i ((m - min n m) / 2 + min n m)

copied-centred :
    (n m i : ℕ)
    → copied n m i ≡ true
    → centred n m i ≡ some ((n - min n m) / 2 + (i - (m - min n m) / 2))
unfolding centred
copied-centred n m i h = elim (Bool-cases (leb m n)) [
  | inl e ↦ let small : min n m ≡ m = ground arith in rw (e, small) (ap some (omega arith))
  | inr e ↦
      let small : min n m ≡ n = ground arith in
      let inside = rw small at h in rw (e, small, inside) (ap some (omega arith))
]

not_copied-centred : (n m i : ℕ) → i < m → copied n m i ≡ false → centred n m i ≡ none
unfolding centred
not_copied-centred n m i hi h = elim (Bool-cases (leb m n)) [
  | inl e ↦ absurd (ground arith)
  | inr e ↦
      let small : min n m ≡ n = ground arith in let outside = rw small at h in rw (e, outside) refl
]

room : (n m : ℕ) → (m - min n m) / 2 + min n m ≤ m
room n m = omega arith

room_in_frame : (n m : ℕ) → (n - min n m) / 2 + min n m ≤ n
room_in_frame n m = omega arith

same_size : (n i : ℕ) → i < n → centred n n i ≡ some i
unfolding centred
same_size n i h = let e : leb n n ≡ true = ground arith in rw e (ap some (omega arith))

same_size-IsCentred :
    (f : RgbFrame) → length f.pixels ≡ f.height * f.width → IsCentred f f.width f.height f.pixels
unfolding shown
same_size-IsCentred f hp = record {
  whole_window = hp;
  pixel = λ r c hr hc. rw (same_size f.height r hr, same_size f.width c hc) refl;
}

all_rows :
    (f : RgbFrame) (w h r c : ℕ)
    → in_rows (geometry f w h) 0 (min f.height h) r c ≡ (copied f.height h r && copied f.width w c)
unfolding in_rows geometry
all_rows f w h r c =
    let same : (h - min f.height h) / 2 + 0 ≡ (h - min f.height h) / 2 = omega arith in rw same refl

shown-none : (f : RgbFrame) (row : Option ℕ) → shown f row none ≡ 0
unfolding shown
shown-none f none = refl
shown-none f (some r) = refl

and_false : (a : Bool) → (a && false) ≡ false
and_false true = refl
and_false false = refl

rows-IsCentred :
    (f : RgbFrame) (w h k : ℕ) (out : List ℕ)
    → k ≡ h * w
    → RowsCopied (geometry f w h) f.pixels 0 (min f.height h) (replicate k 0) out
    → IsCentred f w h out
unfolding geometry shown
rows-IsCentred f w h k out hk rows = record {
  whole_window = rows.same_length ∙ length-replicate k 0 ∙ hk;
  pixel = λ r c hr hc.
      let pixel = rows.pixel r c hc in
      let e = rw (all_rows f w h r c) at pixel in
      let black = get_or-replicate k (r * w + c) in
      elim (Bool-cases (copied f.height h r)) [
        | inl row ↦ elim (Bool-cases (copied f.width w c)) [
          | inl column ↦
              rw (copied-centred f.height h r row, copied-centred f.width w c column)
                ((rw (row, column) at e) ∙ ap (λ k. get_or f.pixels k 0) (omega arith))
          | inr column ↦
              rw (not_copied-centred f.width w c hc column, shown-none f (centred f.height h r))
                ((rw (column, and_false (copied f.height h r)) at e) ∙ black)
        ]
        | inr row ↦ rw (not_copied-centred f.height h r hr row) ((rw row at e) ∙ black)
      ];
}

-- For a frame with all its pixels and a buffer of the window's size, `blit` reads and writes no
-- place out of range, and each pixel of the window is that of the frame when the two are centred
-- on each other, or black where the frame has none.
pub blit-IsCentred :
    (f : RgbFrame) (dst : List ℕ) (w h : ℕ)
    → length f.pixels ≡ f.height * f.width
    → length dst ≡ h * w
    → (out : List ℕ) × ((blit f dst w h ≡ some out) × IsCentred f w h out)
unfolding blit
blit-IsCentred f dst w h hp hd =
    elim (Bool-cases (f.width == w && f.height == h && length f.pixels == length dst)) [
      | inl same ↦ (f.pixels, (rw same refl, same_size-case (ground arith) (ground arith)))
      | inr other ↦
          let rows =
            copy_rows-RowsCopied (geometry f w h) f.pixels (min f.height h) 0
              (replicate (length dst) 0) (room f.width w) (room_in_frame f.width w)
              (below (room f.height h)) (inside (room_in_frame f.height h)) in
          (rows.0, (rw other rows.1.0, rows-IsCentred f w h (length dst) rows.0 hd rows.1.1))
    ]
  where
    same_size-case : f.width ≡ w → f.height ≡ h → IsCentred f w h f.pixels
    same_size-case e d =
        subst (λ n. IsCentred f n h f.pixels) e
          (subst (λ n. IsCentred f f.width n f.pixels) d (same_size-IsCentred f hp))

    below :
        (h - min f.height h) / 2 + min f.height h ≤ h
        → ((h - min f.height h) / 2 + 0 + min f.height h) * w
          ≤ length (replicate {A = ℕ} (length dst) 0)
    below le =
        let fits = mul_mono ((h - min f.height h) / 2 + 0 + min f.height h) h w (omega arith) in
        rw (length-replicate {A = ℕ} (length dst) 0, hd) fits

    inside :
        (f.height - min f.height h) / 2 + min f.height h ≤ f.height
        → ((f.height - min f.height h) / 2 + 0 + min f.height h) * f.width ≤ length f.pixels
    inside le =
        let fits =
          mul_mono ((f.height - min f.height h) / 2 + 0 + min f.height h) f.height f.width
            (omega arith) in
        rw hp fits
