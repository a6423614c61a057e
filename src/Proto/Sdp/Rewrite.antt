-- ===== src/Proto/Sdp/Rewrite.antt =====
-- The rewrite of a text: its lines, and the addresses that its host candidates carry afterwards.
use vmscren_share.Prelude.{
  ℕ, ◌≡◌, Bool, false, some, ◌∷◌, ◌++◌, All, inl, inr, Bool-cases, Option-cases, arith,
}
use vmscren_share.Prelude.Text.{
  Text, codes, is_empty, strip_prefix, split_ascii_whitespace, is_ascii_whitespace,
}
use vmscren_share.Prelude.Text.Split.{
  Free, Free-append, IsToken, split_ascii_whitespace-IsToken, split-inherit, keep-All,
}
use vmscren_share.Proto.Sdp.{Candidate, candidate_of, parse_candidate, with_address}
use vmscren_share.Proto.Sdp.Candidates.{
  Fields, candidate_of-Fields, candidate_of-rest, strip_prefix-Free, body_text, tail_text,
  with_address_text,
}

-- What a line that parses was read from.
parse_candidate-eq :
    (line : Text) (c : Candidate)
    → parse_candidate line ≡ some c
    → (body : Text) × (strip_prefix (codes "a=candidate:") line ≡ some body)
      × (candidate_of line (split_ascii_whitespace body) ≡ some c)
unfolding parse_candidate
parse_candidate-eq line c e = elim (Option-cases (strip_prefix (codes "a=candidate:") line)) [
  | inl absent ↦ absurd (ground arith)
  | inr (body, present) ↦ (body, present, rw (present, parse_candidate) at e)
]

pub parsed-IsToken :
    (line : Text) (c : Candidate) → parse_candidate line ≡ some c → Fields IsToken c
parsed-IsToken line c e =
    let (body, present, parsed) = parse_candidate-eq line c e in
    candidate_of-Fields IsToken line (split_ascii_whitespace body) c
      (split_ascii_whitespace-IsToken body) parsed

words-Free : (p : ℕ → Bool) (s : Text) → Free p s → All (Free p) (split_ascii_whitespace s)
unfolding split_ascii_whitespace
words-Free p s free = keep-All (Free p) _ _ (split-inherit p is_ascii_whitespace s free)

pub parsed-Free :
    (p : ℕ → Bool) (line : Text) (c : Candidate)
    → parse_candidate line ≡ some c
    → Free p line
    → Fields (Free p) c × Free p c.rest
parsed-Free p line c e free =
    let (body, present, parsed) = parse_candidate-eq line c e in
    (
      candidate_of-Fields (Free p) line (split_ascii_whitespace body) c
          (words-Free p body (strip_prefix-Free p (codes "a=candidate:") line body present free))
          parsed,
      candidate_of-rest p line (split_ascii_whitespace body) c parsed free,
    )

-- A test that the literals of the rewritten lines do not pass.
pub record IsPlain (p : ℕ → Bool) : Type 0 where
  pub blank : p 32 ≡ false
  pub prefix : Free p (codes "a=candidate:")
  pub keyword : Free p (codes "typ")
  pub connection : Free p (codes "c=IN IP4 ")

word-Free :
    (p : ℕ → Bool) (w s : Text) → p 32 ≡ false → Free p w → Free p s → Free p (w ++ (32 ∷ s))
word-Free p w s blank fw fs = Free-append p w (32 ∷ s) fw (blank, fs)

pub with_address-Free :
    (p : ℕ → Bool) (c : Candidate) (ip : Text)
    → IsPlain p
    → Fields (Free p) c
    → Free p c.rest
    → Free p ip
    → Free p (with_address c ip)
with_address-Free p c ip plain f fr fi = rw (with_address_text c ip) (
    Free-append p (codes "a=candidate:") (body_text c ip (tail_text c)) plain.prefix (
      word-Free p c.foundation _ plain.blank f.foundation (
        word-Free p c.component _ plain.blank f.component (
          word-Free p c.transport _ plain.blank f.transport (
            word-Free p c.priority _ plain.blank f.priority (
              word-Free p ip _ plain.blank fi (
                word-Free p c.port _ plain.blank f.port (
                  word-Free p (codes "typ") _ plain.blank plain.keyword
                    (Free-append p c.typ (tail_text c) f.typ tail_free)))))))))
  where
    tail_free : Free p (tail_text c)
    tail_free = elim (Bool-cases (is_empty c.rest)) [
      | inl nothing ↦ rw nothing tt
      | inr something ↦ rw something (plain.blank, fr)
    ]
