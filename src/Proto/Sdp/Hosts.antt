-- ===== src/Proto/Sdp/Hosts.antt =====
-- proto/src/sdp.rs: host candidates by their grammar (RFC 8839, 5.1), and what the rewrite makes of them.
use vmscren_share.Prelude.{
  ◌≡◌, ◌⊎◌, refl, sym, ap, ◌∙◌, subst, if◌then◌else◌, Option, none, some, List, [], ◌∷◌, ◌++◌, All,
  inl, inr, Bool-cases, append_nil,
}
use vmscren_share.Prelude.Text.{
  is_ascii_whitespace, Text, codes, is_empty, strip_prefix, starts_with, join,
  split_ascii_whitespace, rfind_suffix, text_eq, is_some,
}
use vmscren_share.Prelude.Text.Split.{IsToken, words-token_space, words-token}
use vmscren_share.Proto.Sdp.{Candidate, rest_of, candidate_of, parse_candidate}
use vmscren_share.Proto.Sdp.Candidates.{strip_prefix-append, parse_candidate-body, typ-IsToken}

-- The words of a host candidate, but for `typ` and `host`.
pub record HostWords : Type 0 where
  pub foundation : Text
  pub component : Text
  pub transport : Text
  pub priority : Text
  pub address : Text
  pub port : Text
  pub extensions : List Text

pub record AreWords (w : HostWords) : Type 0 where
  pub foundation : IsToken w.foundation
  pub component : IsToken w.component
  pub transport : IsToken w.transport
  pub priority : IsToken w.priority
  pub address : IsToken w.address
  pub port : IsToken w.port
  pub extensions : All IsToken w.extensions

-- Each word with a space before it.
abbrev pub spaced : List Text → Text
spaced [] = []
spaced (w ∷ ws) = 32 ∷ (w ++ spaced ws)

-- The words of the candidate, with single spaces.
abbrev pub host_body : HostWords → Text
host_body w =
    let typed = 32 ∷ (codes "typ" ++ (32 ∷ (codes "host" ++ spaced w.extensions))) in
    let from_priority = 32 ∷ (w.priority ++ (32 ∷ (w.address ++ (32 ∷ (w.port ++ typed))))) in
    w.foundation ++ (32 ∷ (w.component ++ (32 ∷ (w.transport ++ from_priority))))

abbrev pub host_line : HostWords → Text
host_line w = codes "a=candidate:" ++ host_body w

abbrev pub In : Text → List Text → Type 0
In l [] = ⊥
In l (m ∷ ms) = (m ≡ l) ⊎ In l ms

host-IsToken : IsToken (codes "host")
unfolding is_ascii_whitespace
host-IsToken = record { nonempty = refl; no_whitespace = (refl, (refl, (refl, (refl, tt)))) }

words-spaced :
    (w : Text) (ws : List Text)
    → IsToken w
    → All IsToken ws
    → split_ascii_whitespace (w ++ spaced ws) ≡ w ∷ ws
words-spaced w [] t ts = ap split_ascii_whitespace (append_nil w) ∙ words-token w t
words-spaced w (v ∷ ws) t ts =
    words-token_space w (v ++ spaced ws) t ∙ ap (λ r. w ∷ r) (words-spaced v ws ts.0 ts.1)

-- A text in which a needle is found.
abbrev Found : Text → Text → Type 0
Found needle s = (r : Text) × (rfind_suffix needle s ≡ some r)

Found-behind : (needle p s : Text) → Found needle s → Found needle (p ++ s)
unfolding rfind_suffix
Found-behind needle [] s f = f
Found-behind needle (x ∷ p) s f =
    let (r, e) = Found-behind needle p s f in (r, rw (e, rfind_suffix) refl)

Found-after : (needle p s : Text) → Found needle s → Found needle (p ++ (32 ∷ s))
Found-after needle p s f = Found-behind needle p (32 ∷ s) (Found-behind needle (32 ∷ []) s f)

Found-self : (needle : Text) → Found needle needle
unfolding rfind_suffix starts_with
Found-self [] = ([], refl)
Found-self (x ∷ xs) = by_rest (rfind_suffix (x ∷ xs) xs)
  where
    whole : strip_prefix (x ∷ xs) (x ∷ xs) ≡ some []
    whole = ap (strip_prefix (x ∷ xs)) (sym (append_nil (x ∷ xs))) ∙ strip_prefix-append (x ∷ xs) []

    by_rest :
        (o : Option Text)
        → (r : Text) × (elim o [
          | some s ↦ some s
          | none ↦ if is_some (strip_prefix (x ∷ xs) (x ∷ xs)) then some (x ∷ xs) else none
        ]
            ≡ some r)
    by_rest (some s) = (s, refl)
    by_rest none = (x ∷ xs, rw whole refl)

spaced-join : (w : Text) (ws : List Text) → spaced (w ∷ ws) ≡ 32 ∷ join (codes " ") (w ∷ ws)
unfolding join
spaced-join w [] = ap (λ t. 32 ∷ t) (append_nil w)
spaced-join w (v ∷ ws) = ap (λ t. 32 ∷ (w ++ t)) (spaced-join v ws)

-- The extensions, joined by single spaces, stand at the end of the line.
Found-extensions :
    (w : HostWords) (e : Text) (es : List Text)
    → w.extensions ≡ e ∷ es
    → Found (join (codes " ") (e ∷ es)) (host_line w)
Found-extensions w e es same =
    let needle = join (codes " ") (e ∷ es) in
    let at_end : Found needle (spaced w.extensions) =
      subst (Found needle) (sym (ap spaced same ∙ spaced-join e es))
        (Found-behind needle (32 ∷ []) needle (Found-self needle)) in
    Found-behind needle (codes "a=candidate:") _ (
      Found-after needle w.foundation _ (
        Found-after needle w.component _ (
          Found-after needle w.transport _ (
            Found-after needle w.priority _ (
              Found-after needle w.address _ (
                Found-after needle w.port _ (
                  Found-after needle (codes "typ") _
                    (Found-behind needle (codes "host") _ at_end))))))))

rest_of-host_line : (w : HostWords) → (r : Text) × (rest_of (host_line w) w.extensions ≡ some r)
rest_of-host_line w = by_extensions w.extensions refl
  where
    by_extensions :
        (es : List Text) → w.extensions ≡ es → (r : Text) × (rest_of (host_line w) es ≡ some r)
    by_extensions [] same = unfold rest_of join in ([], refl)
    by_extensions (e ∷ es) same =
        let (r, found) = Found-extensions w e es same in
        elim (Bool-cases (is_empty (join (codes " ") (e ∷ es)))) [
          | inl nothing ↦ ([], unfold rest_of in rw nothing refl)
          | inr something ↦ (r, unfold rest_of in rw something found)
        ]

words-host_body :
    (w : HostWords)
    → AreWords w
    → split_ascii_whitespace (host_body w)
      ≡ w.foundation
        ∷ w.component
        ∷ w.transport
        ∷ w.priority
        ∷ w.address
        ∷ w.port
        ∷ codes "typ"
        ∷ codes "host"
        ∷ w.extensions
words-host_body w t = rw (
  words-token_space w.foundation _ t.foundation,
  words-token_space w.component _ t.component,
  words-token_space w.transport _ t.transport,
  words-token_space w.priority _ t.priority,
  words-token_space w.address _ t.address,
  words-token_space w.port _ t.port,
  words-token_space (codes "typ") _ typ-IsToken,
  words-spaced (codes "host") w.extensions host-IsToken t.extensions,
)

abbrev pub candidate : HostWords → Text → Candidate
candidate w rest = record {
  foundation = w.foundation;
  component = w.component;
  transport = w.transport;
  priority = w.priority;
  address = w.address;
  port = w.port;
  typ = codes "host";
  rest = rest;
}

candidate_of-host :
    (line : Text) (w : HostWords) (rest : Text)
    → rest_of line w.extensions ≡ some rest
    → candidate_of line (
        w.foundation
        ∷ w.component
        ∷ w.transport
        ∷ w.priority
        ∷ w.address
        ∷ w.port
        ∷ codes "typ"
        ∷ codes "host"
        ∷ w.extensions)
      ≡ some (candidate w rest)
unfolding candidate_of text_eq
candidate_of-host line w rest found = rw (found, candidate_of) refl

-- A host candidate of the grammar is one that the parser reads.
pub parse-host_line :
    (w : HostWords)
    → AreWords w
    → (rest : Text) × (parse_candidate (host_line w) ≡ some (candidate w rest))
parse-host_line w t =
    let (rest, found) = rest_of-host_line w in
    (
      rest,
      parse_candidate-body (host_line w) (host_body w)
            (strip_prefix-append (codes "a=candidate:") (host_body w))
          ∙ ap (candidate_of (host_line w)) (words-host_body w t)
          ∙ candidate_of-host (host_line w) w rest found,
    )
