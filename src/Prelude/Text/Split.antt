-- ===== src/Prelude/Text/Split.antt =====
-- Splitting texts: the pieces hold no separator, and a text put together from pieces splits again.
use Prim.Native.Nat.{ℕ}
use mathlib.Core.Path.{◌≡◌, refl, ap}
use mathlib.Core.Bool.{Bool, true, false, not}
use mathlib.Core.Logic.{inl, inr}
use mathlib.Core.List.{List, [], ◌∷◌, ◌++◌}
use native.Mathlib.Omega.{arith}
use vmscren_share.Prelude.Tests.{◌==◌, Bool-cases, and→}
use vmscren_share.Prelude.Lists.{All, all_pass}
use vmscren_share.Prelude.Text.{
  Text, is_empty, keep, cons_head, split, is_ascii_whitespace, split_ascii_whitespace, strip_cr,
}

-- No character of a text passes a test.
abbrev pub Free : (ℕ → Bool) → Text → Type 0
Free p s = All (λ c. p c ≡ false) s

pub Free-append : (p : ℕ → Bool) (s t : Text) → Free p s → Free p t → Free p (s ++ t)
Free-append p [] t fs ft = ft
Free-append p (c ∷ s) t fs ft = (fs.0, Free-append p s t fs.1 ft)

-- Over a literal the check is an evaluation.
pub Free-check : (p : ℕ → Bool) (s : Text) → all_pass (λ c. not (p c)) s ≡ true → Free p s
Free-check p [] h = tt
Free-check p (c ∷ s) h =
    let (pc, rest) = and→ (not (p c)) (all_pass (λ c. not (p c)) s) h in
    (ground arith, Free-check p s rest)

pub Free-mono :
    (p q : ℕ → Bool) (s : Text) → ((c : ℕ) → p c ≡ false → q c ≡ false) → Free p s → Free q s
Free-mono p q [] imp free = tt
Free-mono p q (c ∷ s) imp free = (imp c free.0, Free-mono p q s imp free.1)

-- A text up to its first separator is the first piece.
pub split-append :
    (p : ℕ → Bool) (w : Text) (x : ℕ) (s : Text)
    → Free p w
    → p x ≡ true
    → split p (w ++ (x ∷ s)) ≡ w ∷ split p s
unfolding split
split-append p [] x s free sep = rw sep
split-append p (c ∷ w) x s free sep = rw (free.0, split-append p w x s free.1 sep)

pub split-Free_self : (p : ℕ → Bool) (w : Text) → Free p w → split p w ≡ w ∷ []
unfolding split
split-Free_self p [] free = refl
split-Free_self p (c ∷ w) free = rw (free.0, split-Free_self p w free.1)

cons_head-Free :
    (p : ℕ → Bool) (c : ℕ) (ws : List Text)
    → p c ≡ false
    → All (Free p) ws
    → All (Free p) (cons_head c ws)
cons_head-Free p c [] pc free = ((pc, tt), tt)
cons_head-Free p c (w ∷ ws) pc free = ((pc, free.0), free.1)

-- No piece holds a separator.
pub split-Free : (p : ℕ → Bool) (s : Text) → All (Free p) (split p s)
unfolding split
split-Free p [] = (tt, tt)
split-Free p (c ∷ s) = elim (Bool-cases (p c)) [
  | inl sep ↦ rw sep (tt, split-Free p s)
  | inr other ↦ rw other (cons_head-Free p c (split p s) other (split-Free p s))
]

-- A word: not empty, and free of ASCII whitespace.
pub record IsToken (w : Text) : Type 0 where
  pub nonempty : is_empty w ≡ false
  pub no_whitespace : Free is_ascii_whitespace w

-- Over a literal.
pub IsToken-check :
    (w : Text)
    → is_empty w ≡ false
    → all_pass (λ c. not (is_ascii_whitespace c)) w ≡ true
    → IsToken w
IsToken-check w nonempty free = record {
  nonempty = nonempty;
  no_whitespace = Free-check is_ascii_whitespace w free;
}

keep-IsToken :
    (ws : List Text)
    → All (Free is_ascii_whitespace) ws
    → All IsToken (keep (λ w. not (is_empty w)) ws)
unfolding keep
keep-IsToken [] free = tt
keep-IsToken ([] ∷ ws) free = keep-IsToken ws free.1
keep-IsToken ((c ∷ w) ∷ ws) free =
    (record { nonempty = refl; no_whitespace = free.0 }, keep-IsToken ws free.1)

-- What `split_ascii_whitespace` yields are words.
pub split_ascii_whitespace-IsToken : (s : Text) → All IsToken (split_ascii_whitespace s)
unfolding split_ascii_whitespace
split_ascii_whitespace-IsToken s = keep-IsToken _ (split-Free is_ascii_whitespace s)

keep-token :
    (w : Text) (ws : List Text)
    → is_empty w ≡ false
    → keep (λ w. not (is_empty w)) (w ∷ ws) ≡ w ∷ keep (λ w. not (is_empty w)) ws
unfolding keep
keep-token w ws e = rw e

-- A word and a space in front of a text are its first word.
pub words-token_space :
    (w s : Text) → IsToken w → split_ascii_whitespace (w ++ (32 ∷ s)) ≡ w ∷ split_ascii_whitespace s
unfolding split_ascii_whitespace
words-token_space w s t =
    rw (split-append is_ascii_whitespace w 32 s t.no_whitespace refl)
      (keep-token w (split is_ascii_whitespace s) t.nonempty)

pub words-token : (w : Text) → IsToken w → split_ascii_whitespace w ≡ w ∷ []
unfolding split_ascii_whitespace
words-token w t =
    rw (split-Free_self is_ascii_whitespace w t.no_whitespace) (keep-token w [] t.nonempty)

pub strip_cr-Free : (p : ℕ → Bool) (s : Text) → Free p s → Free p (strip_cr s)
unfolding strip_cr
strip_cr-Free p [] free = tt
strip_cr-Free p (x ∷ []) free = elim (Bool-cases (x == 13)) [ inl e ↦ rw e tt | inr e ↦ rw e free ]
strip_cr-Free p (x ∷ y ∷ s) free = (free.0, strip_cr-Free p (y ∷ s) free.1)

pub strip_cr-append : (s : Text) → strip_cr (s ++ (13 ∷ [])) ≡ s
unfolding strip_cr
strip_cr-append [] = refl
strip_cr-append (x ∷ []) = refl
strip_cr-append (x ∷ y ∷ s) = ap (λ t. x ∷ t) (strip_cr-append (y ∷ s))

-- A text with no carriage return keeps all its characters.
pub strip_cr-Free_self : (s : Text) → Free (λ c. c == 13) s → strip_cr s ≡ s
unfolding strip_cr
strip_cr-Free_self [] free = refl
strip_cr-Free_self (x ∷ []) free = rw free.0
strip_cr-Free_self (x ∷ y ∷ s) free = ap (λ t. x ∷ t) (strip_cr-Free_self (y ∷ s) free.1)

-- The pieces hold only characters of the text.
pub split-inherit : (p q : ℕ → Bool) (s : Text) → Free p s → All (Free p) (split q s)
unfolding split
split-inherit p q [] free = (tt, tt)
split-inherit p q (c ∷ s) free = elim (Bool-cases (q c)) [
  | inl sep ↦ rw sep (tt, split-inherit p q s free.1)
  | inr other ↦ rw other (cons_head-Free p c (split q s) free.0 (split-inherit p q s free.1))
]

pub keep-All {κ} :
    (P : Text → Type κ) (q : Text → Bool) (ws : List Text) → All P ws → All P (keep q ws)
unfolding keep
keep-All P q [] h = tt
keep-All P q (w ∷ ws) h = elim (Bool-cases (q w)) [
  | inl e ↦ rw e (h.0, keep-All P q ws h.1)
  | inr e ↦ rw e (keep-All P q ws h.1)
]
