-- ===== src/Proto/Sdp/Candidates.antt =====
-- Candidates: what a line that parses says of its fields, and what a rewritten line parses to.
use vmscren_share.Prelude.{
  ℕ, ◌≡◌, refl, ◌∙◌, ap, Bool, true, ◌==◌, ==→eq, eq→==, and→, if◌then◌else◌, some, List, [], ◌∷◌,
  ◌++◌, All, inl, inr, Bool-cases, Option-cases, arith,
}
use mathlib.Core.Path.{subst}
use mathlib.Core.List.{append_assoc, append-nil}
use vmscren_share.Prelude.Text.{
  is_ascii_whitespace, Text, codes, is_empty, strip_prefix, join, split_ascii_whitespace,
  rfind_suffix, text_eq,
}
use vmscren_share.Prelude.Text.Split.{Free, IsToken, words-token_space, words-token}
use vmscren_share.Proto.Sdp.{Candidate, rest_of, candidate_of, parse_candidate, with_address}

pub text_eq→eq : (s t : Text) → text_eq s t ≡ true → s ≡ t
unfolding text_eq
text_eq→eq [] [] h = refl
text_eq→eq [] (y ∷ t) h = cc
text_eq→eq (x ∷ s) [] h = cc
text_eq→eq (x ∷ s) (y ∷ t) h =
    let (e, rest) = and→ (x == y) (text_eq s t) h in cc (==→eq x y e, text_eq→eq s t rest)

-- A predicate of all the words that a candidate was read from.
pub record Fields {κ} (P : Text → Type κ) (c : Candidate) : Type κ where
  pub foundation : P c.foundation
  pub component : P c.component
  pub transport : P c.transport
  pub priority : P c.priority
  pub port : P c.port
  pub typ : P c.typ

pub candidate_of-Fields {κ} :
    (P : Text → Type κ) (line : Text) (ws : List Text) (c : Candidate)
    → All P ws
    → candidate_of line ws ≡ some c
    → Fields P c
unfolding candidate_of
candidate_of-Fields P line (f ∷ co ∷ tr ∷ pr ∷ ad ∷ po ∷ kw ∷ ty ∷ ws) c h e =
    elim (Option-cases (rest_of line ws)) [
      | inl no_rest ↦ absurd (ground arith)
      | inr (rest, found) ↦
          let same : record {
            foundation = f;
            component = co;
            transport = tr;
            priority = pr;
            address = ad;
            port = po;
            typ = ty;
            rest = rest;
          }
              ≡ c =
            ground arith in
          subst (Fields P) same (record {
            foundation = h.0;
            component = h.1.0;
            transport = h.1.1.0;
            priority = h.1.1.1.0;
            port = h.1.1.1.1.1.0;
            typ = h.1.1.1.1.1.1.1.0;
          })
    ]
candidate_of-Fields P line _ c h e = cc

pub strip_prefix-append : (p s : Text) → strip_prefix p (p ++ s) ≡ some s
unfolding strip_prefix
strip_prefix-append [] s = refl
strip_prefix-append (c ∷ p) s = rw (eq→== c c refl, strip_prefix-append p s)

pub strip_prefix-Free :
    (q : ℕ → Bool) (p s r : Text) → strip_prefix p s ≡ some r → Free q s → Free q r
unfolding strip_prefix
strip_prefix-Free q [] s r e free = let same : s ≡ r = cc in subst (Free q) same free
strip_prefix-Free q (c ∷ p) [] r e free = cc
strip_prefix-Free q (c ∷ p) (x ∷ s) r e free = elim (Bool-cases (c == x)) [
  | inl same ↦ strip_prefix-Free q p s r (rw same at e) free.1
  | inr other ↦ absurd (ground arith)
]

rfind_suffix-Free :
    (q : ℕ → Bool) (needle s r : Text) → rfind_suffix needle s ≡ some r → Free q s → Free q r
unfolding rfind_suffix
rfind_suffix-Free q needle [] r e free = elim (Bool-cases (is_empty needle)) [
  | inl same ↦ let nil : [] ≡ r = ground arith in subst (Free q) nil free
  | inr other ↦ absurd (ground arith)
]
rfind_suffix-Free q needle (x ∷ s) r e free = elim (Option-cases (rfind_suffix needle s)) [
  | inr (t, found) ↦
      let later : rfind_suffix needle s ≡ some r = ground arith in
      rfind_suffix-Free q needle s r later free.1
  | inl none_later ↦ let here : x ∷ s ≡ r = ground arith in subst (Free q) here free
]

rest_of-Free :
    (q : ℕ → Bool) (line : Text) (ws : List Text) (r : Text)
    → rest_of line ws ≡ some r
    → Free q line
    → Free q r
unfolding rest_of
rest_of-Free q line ws r e free = elim (Bool-cases (is_empty (join (codes " ") ws))) [
  | inl nothing ↦ let nil : [] ≡ r = ground arith in subst (Free q) nil tt
  | inr something ↦ rfind_suffix-Free q (join (codes " ") ws) line r (ground arith) free
]

pub candidate_of-rest :
    (q : ℕ → Bool) (line : Text) (ws : List Text) (c : Candidate)
    → candidate_of line ws ≡ some c
    → Free q line
    → Free q c.rest
unfolding candidate_of
candidate_of-rest q line (f ∷ co ∷ tr ∷ pr ∷ ad ∷ po ∷ kw ∷ ty ∷ ws) c e free =
    elim (Option-cases (rest_of line ws)) [
      | inl no_rest ↦ absurd (ground arith)
      | inr (rest, found) ↦
          let same : rest ≡ c.rest = ground arith in
          subst (Free q) same (rest_of-Free q line ws rest found free)
    ]
candidate_of-rest q line _ c e free = cc

-- The text of a candidate after its prefix, with another address.
abbrev pub body_text : Candidate → Text → Text → Text
body_text c ip tail =
    let from_port = c.port ++ (32 ∷ (codes "typ" ++ (32 ∷ (c.typ ++ tail)))) in
    let from_priority = c.priority ++ (32 ∷ (ip ++ (32 ∷ from_port))) in
    c.foundation ++ (32 ∷ (c.component ++ (32 ∷ (c.transport ++ (32 ∷ from_priority)))))

abbrev pub tail_text : Candidate → Text
tail_text c = if is_empty c.rest then [] else codes " " ++ c.rest

pub with_address_text :
    (c : Candidate) (ip : Text)
    → with_address c ip ≡ codes "a=candidate:" ++ body_text c ip (tail_text c)
unfolding with_address join
with_address_text c ip = simp append_assoc

pub typ-IsToken : IsToken (codes "typ")
unfolding is_ascii_whitespace
typ-IsToken = record { nonempty = refl; no_whitespace = (refl, (refl, (refl, tt))) }

-- The first eight words of the text after the prefix.
words-body_text :
    (c : Candidate) (ip tail : Text)
    → Fields IsToken c
    → IsToken ip
    → split_ascii_whitespace (body_text c ip tail)
      ≡ c.foundation
        ∷ c.component
        ∷ c.transport
        ∷ c.priority
        ∷ ip
        ∷ c.port
        ∷ codes "typ"
        ∷ split_ascii_whitespace (c.typ ++ tail)
words-body_text c ip tail f t = rw (
  words-token_space _ _ f.foundation,
  words-token_space _ _ f.component,
  words-token_space _ _ f.transport,
  words-token_space _ _ f.priority,
  words-token_space _ _ t,
  words-token_space _ _ f.port,
  words-token_space _ _ typ-IsToken,
)

words-typ_tail :
    (c : Candidate)
    → IsToken c.typ
    → (ws : List Text) × (split_ascii_whitespace (c.typ ++ tail_text c) ≡ c.typ ∷ ws)
words-typ_tail c t = elim (Bool-cases (is_empty c.rest)) [
  | inl nothing ↦ ([], rw (nothing, append-nil) (words-token c.typ t))
  | inr something ↦ (split_ascii_whitespace c.rest, rw something (words-token_space c.typ c.rest t))
]

-- Whatever follows, a candidate's address is its fifth word.
candidate_of-address :
    (line f co tr pr ip po kw ty : Text) (ws : List Text) (c : Candidate)
    → candidate_of line (f ∷ co ∷ tr ∷ pr ∷ ip ∷ po ∷ kw ∷ ty ∷ ws) ≡ some c
    → c.address ≡ ip
unfolding candidate_of
candidate_of-address line f co tr pr ip po kw ty ws c e = ground arith

pub parse_candidate-body :
    (line body : Text)
    → strip_prefix (codes "a=candidate:") line ≡ some body
    → parse_candidate line ≡ candidate_of line (split_ascii_whitespace body)
unfolding parse_candidate
parse_candidate-body line body e = rw (e, parse_candidate)

pub parse-with_address :
    (c : Candidate) (ip : Text) (d : Candidate)
    → Fields IsToken c
    → IsToken ip
    → parse_candidate (with_address c ip) ≡ some d
    → d.address ≡ ip
parse-with_address c ip d f t e =
    let (ws, tail_words) = words-typ_tail c f.typ in
    let body = body_text c ip (tail_text c) in
    let stripped : strip_prefix (codes "a=candidate:") (with_address c ip) ≡ some body =
      ap (strip_prefix (codes "a=candidate:")) (with_address_text c ip)
      ∙ strip_prefix-append (codes "a=candidate:") body in
    let words = words-body_text c ip (tail_text c) f t in
    candidate_of-address (with_address c ip) c.foundation c.component c.transport c.priority ip
      c.port (codes "typ") c.typ ws d
      (rw (parse_candidate-body (with_address c ip) body stripped, words, tail_words) at e)
