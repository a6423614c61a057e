-- ===== src/Proto/Sdp/Lines.antt =====
-- The lines of a text: what `lines` yields, and that it reads back what `push_lines` writes.
use vmscren_share.Prelude.{
  ℕ, ◌≡◌, refl, sym, ◌∙◌, ap, Bool, false, not, ◌==◌, List, [], ◌∷◌, ◌++◌, map, All, inl, inr,
  Bool-cases,
}
use mathlib.Core.List.{append_assoc}
use vmscren_share.Prelude.Text.{Text, is_empty, keep, split, strip_cr}
use vmscren_share.Prelude.Text.Split.{
  Free, split-append, split-Free, split-inherit, strip_cr-Free, strip_cr-append, strip_cr-Free_self,
  keep-All, Free-append,
}
use vmscren_share.Proto.Sdp.{lines, push_lines, crlf}

abbrev pub is_newline : ℕ → Bool
is_newline c = c == 10

abbrev pub is_return : ℕ → Bool
is_return c = c == 13

-- A line: not empty, and free of newlines.
pub record IsLine (l : Text) : Type 0 where
  pub nonempty : is_empty l ≡ false
  pub no_newline : Free is_newline l

keep_lines :
    (ls : List Text)
    → All (Free is_newline) ls
    → All IsLine (keep (λ l. not (is_empty l)) (map strip_cr ls))
unfolding keep
keep_lines [] free = tt
keep_lines (l ∷ ls) free = elim (Bool-cases (is_empty (strip_cr l))) [
  | inl e ↦ rw e (keep_lines ls free.1)
  | inr e ↦ rw e (
    record { nonempty = e; no_newline = strip_cr-Free is_newline l free.0 },
    keep_lines ls free.1,
  )
]

pub lines-IsLine : (sdp : Text) → All IsLine (lines sdp)
unfolding lines
lines-IsLine sdp = keep_lines (split is_newline sdp) (split-Free is_newline sdp)

map-strip_cr-Free :
    (p : ℕ → Bool) (ls : List Text) → All (Free p) ls → All (Free p) (map strip_cr ls)
map-strip_cr-Free p [] h = tt
map-strip_cr-Free p (l ∷ ls) h = (strip_cr-Free p l h.0, map-strip_cr-Free p ls h.1)

-- The lines hold only characters of the text.
pub lines-Free : (p : ℕ → Bool) (sdp : Text) → Free p sdp → All (Free p) (lines sdp)
unfolding lines
lines-Free p sdp h =
    keep-All (Free p) (λ l. not (is_empty l)) (map strip_cr (split is_newline sdp))
      (map-strip_cr-Free p (split is_newline sdp) (split-inherit p is_newline sdp h))

keep_line :
    (l : Text) (ls : List Text)
    → is_empty l ≡ false
    → keep (λ w. not (is_empty w)) (l ∷ ls) ≡ l ∷ keep (λ w. not (is_empty w)) ls
unfolding keep
keep_line l ls e = rw e

lines-append :
    (w l s : Text)
    → Free is_newline w
    → strip_cr w ≡ l
    → is_empty l ≡ false
    → lines (w ++ (10 ∷ s)) ≡ l ∷ lines s
unfolding lines
lines-append w l s free e nonempty =
    rw (split-append is_newline w 10 s free refl, e)
      (keep_line l (map strip_cr (split is_newline s)) nonempty)

-- Lines that are pushed with `\r\n` are read back.
pub lines-push_crlf : (ls : List Text) → All IsLine ls → lines (push_lines crlf ls) ≡ ls
unfolding push_lines
lines-push_crlf [] h = unfold lines split strip_cr keep in refl
lines-push_crlf (l ∷ ls) h =
    ap lines (sym (append_assoc l (13 ∷ []) (10 ∷ push_lines crlf ls)))
    ∙ lines-append (l ++ (13 ∷ [])) l (push_lines crlf ls)
        (Free-append is_newline l (13 ∷ []) h.0.no_newline (refl, tt)) (strip_cr-append l)
        h.0.nonempty
    ∙ ap (λ rest. l ∷ rest) (lines-push_crlf ls h.1)

-- Lines that are pushed with `\n` are read back if they hold no carriage return.
pub lines-push_lf :
    (ls : List Text)
    → All IsLine ls
    → All (Free is_return) ls
    → lines (push_lines (10 ∷ []) ls) ≡ ls
unfolding push_lines
lines-push_lf [] h r = unfold lines split strip_cr keep in refl
lines-push_lf (l ∷ ls) h r =
    lines-append l l (push_lines (10 ∷ []) ls) h.0.no_newline (strip_cr-Free_self l r.0)
      h.0.nonempty
    ∙ ap (λ rest. l ∷ rest) (lines-push_lf ls h.1 r.1)
