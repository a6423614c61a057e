-- ===== src/Proto/Sdp.antt =====
-- proto/src/sdp.rs: inspecting SDP text, and rewriting its host candidates.
pub mod Lines
pub mod Candidates
pub mod Rewrite
pub mod Addresses
pub mod Hosts
pub mod Survive
pub mod Untouched
use vmscren_share.Prelude.{
  ℕ, suc, ◌==◌, Bool, true, false, not, ◌&&◌, if◌then◌else◌, Option, none, some, List, [], ◌∷◌,
  ◌++◌, map, length,
}
use vmscren_share.Prelude.Text.{
  Text, codes, is_empty, keep, any, text_eq, strip_prefix, starts_with, contains_text, split,
  split_ascii_whitespace, strip_cr, trim_end, join, rfind_suffix, to_ascii_lowercase,
}

-- The parsed `a=candidate:` line.
pub record Candidate : Type 0 where
  pub foundation : Text
  pub component : Text
  pub transport : Text
  pub priority : Text
  pub address : Text
  pub port : Text
  pub typ : Text
  pub rest : Text

unfoldable pub lines : Text → List Text
unfolding keep split strip_cr
lines sdp = keep (λ l. not (is_empty l)) (map strip_cr (split (λ c. c == 10) sdp))

-- Everything after the type, as a slice of the line.
unfoldable pub rest_of : Text → List Text → Option Text
unfolding join rfind_suffix
rest_of line words =
    let rest = join (codes " ") words in if is_empty rest then some [] else rfind_suffix rest line

-- The words after the prefix, taken one by one: a missing one or another word than `typ` is `None`.
unfoldable pub candidate_of : Text → List Text → Option Candidate
unfolding rest_of text_eq
candidate_of line
      (foundation ∷ component ∷ transport ∷ priority ∷ address ∷ port ∷ keyword ∷ typ ∷ words) =
    elim (text_eq keyword (codes "typ")) [
      | true ↦ elim (rest_of line words) [
        | some rest ↦ some (record {
          foundation = foundation;
          component = component;
          transport = transport;
          priority = priority;
          address = address;
          port = port;
          typ = typ;
          rest = rest;
        })
        | none ↦ none
      ]
      | false ↦ none
    ]
candidate_of line _ = none

unfoldable pub parse_candidate : Text → Option Candidate
parse_candidate line = elim (strip_prefix (codes "a=candidate:") line) [
  | some body ↦ candidate_of line (split_ascii_whitespace body)
  | none ↦ none
]

unfoldable pub with_address : Candidate → Text → Text
with_address c address =
    (codes "a=candidate:"
      ++ join (codes " ") (
          c.foundation
          ∷ c.component
          ∷ c.transport
          ∷ c.priority
          ∷ address
          ∷ c.port
          ∷ codes "typ"
          ∷ c.typ
          ∷ []))
    ++ (if is_empty c.rest then [] else codes " " ++ c.rest)

unfoldable pub has_media : Text → Text → Bool
unfolding lines starts_with any
has_media sdp kind =
    let prefix = codes "m=" ++ (kind ++ codes " ") in any (λ l. starts_with prefix l) (lines sdp)

unfoldable pub candidate_count : Text → ℕ
unfolding lines starts_with keep
candidate_count sdp = length (keep (λ l. starts_with (codes "a=candidate:") l) (lines sdp))

unfoldable pub is_ice_lite : Text → Bool
unfolding lines any text_eq trim_end
is_ice_lite sdp = any (λ l. text_eq (trim_end l) (codes "a=ice-lite")) (lines sdp)

unfoldable pub is_host : Candidate → Bool
unfolding text_eq
is_host c = text_eq c.typ (codes "host")

-- The address of a line, if it is a host candidate.
unfoldable pub host_address : Text → Option Text
host_address line = elim (parse_candidate line) [
  | some c ↦ if is_host c then some c.address else none
  | none ↦ none
]

abbrev pub cons_some {ℓ} : {A : Type ℓ} → Option A → List A → List A
cons_some none xs = xs
cons_some (some a) xs = a ∷ xs

-- The addresses of the host candidates among some lines.
unfoldable pub host_addresses : List Text → List Text
host_addresses [] = []
host_addresses (l ∷ ls) = cons_some (host_address l) (host_addresses ls)

unfoldable pub host_candidate_addresses : Text → List Text
host_candidate_addresses sdp = host_addresses (lines sdp)

-- The key by which candidates are the same after the rewrite.
unfoldable pub dedup_key : Candidate → Text → Text
unfolding to_ascii_lowercase
dedup_key c public_ip =
    map to_ascii_lowercase c.transport ++ (codes "|" ++ (public_ip ++ (codes "|" ++ c.port)))

-- A line of the rewritten text, and what the loop has `seen`. `none` is a line that is left out.
unfoldable pub rewrite_host : Text → List Text → Candidate → List Text × Option Text
rewrite_host public_ip seen c =
    let key = dedup_key c public_ip in
    if any (λ k. text_eq k key) seen
    then (seen, none)
    else (seen ++ key ∷ [], some (with_address c public_ip))

-- A line that is no candidate: a connection line gets the public address, any other stays.
unfoldable pub rewrite_other : Text → Text → Text
rewrite_other public_ip line = elim (strip_prefix (codes "c=IN IP4 ") line) [
  | some rest ↦
      if text_eq (trim_end rest) (codes "0.0.0.0") then line else codes "c=IN IP4 " ++ public_ip
  | none ↦ line
]

-- The body of the loop.
unfoldable pub rewrite_line : Text → List Text → Text → List Text × Option Text
rewrite_line public_ip seen line = elim (parse_candidate line) [
  | some c ↦ if is_host c then rewrite_host public_ip seen c else (seen, some line)
  | none ↦ (seen, some (rewrite_other public_ip line))
]

-- The lines that the loop pushes, in order.
unfoldable pub rewrite_lines : Text → List Text → List Text → List Text
rewrite_lines public_ip seen [] = []
rewrite_lines public_ip seen (line ∷ ls) =
    let (seen', pushed) = rewrite_line public_ip seen line in
    cons_some pushed (rewrite_lines public_ip seen' ls)

-- Every pushed line is followed by the line ending.
unfoldable pub push_lines : Text → List Text → Text
push_lines eol [] = []
push_lines eol (l ∷ ls) = l ++ (eol ++ push_lines eol ls)

abbrev pub crlf : Text
crlf = 13 ∷ 10 ∷ []

unfoldable pub rewrite_host_candidates : Text → Text → Text
rewrite_host_candidates sdp public_ip =
    push_lines (if contains_text crlf sdp then crlf else 10 ∷ [])
      (rewrite_lines public_ip [] (lines sdp))
