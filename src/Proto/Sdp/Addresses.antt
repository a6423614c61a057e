-- ===== src/Proto/Sdp/Addresses.antt =====
-- The addresses that the host candidates of a rewritten text carry.
use vmscren_share.Prelude.{
  ℕ, ◌≡◌, ◌⊎◌, refl, Bool, true, false, none, some, List, [], ◌∷◌, ◌++◌, All, inl, inr, Bool-cases,
  Option-cases, arith,
}
use vmscren_share.Prelude.Text.{
  Text, codes, is_empty, strip_prefix, text_eq, trim_end, any, contains_text, is_ascii_whitespace,
}
use vmscren_share.Prelude.Text.Split.{Free, Free-append, Free-check, Free-mono, IsToken}
use vmscren_share.Proto.Sdp.{
  Candidate, lines, crlf, parse_candidate, with_address, is_host, host_address, host_addresses,
  host_candidate_addresses, dedup_key, rewrite_host, rewrite_other, rewrite_line, rewrite_lines,
  rewrite_host_candidates,
}
use vmscren_share.Proto.Sdp.Lines.{
  IsLine, is_newline, is_return, lines-IsLine, lines-Free, lines-push_crlf, lines-push_lf,
}
use vmscren_share.Proto.Sdp.Candidates.{parse-with_address}
use vmscren_share.Proto.Sdp.Rewrite.{IsPlain, parsed-IsToken, parsed-Free, with_address-Free}

-- Where a pushed line comes from.
pub data Pushed (ip line pushed : Text) : Type 0 where
  host :
      (c : Candidate)
      → parse_candidate line ≡ some c
      → pushed ≡ with_address c ip
      → Pushed ip line pushed
  kept :
      (c : Candidate)
      → parse_candidate line ≡ some c
      → is_host c ≡ false
      → pushed ≡ line
      → Pushed ip line pushed
  other : parse_candidate line ≡ none → pushed ≡ rewrite_other ip line → Pushed ip line pushed

rewrite_host-pushed :
    (ip : Text) (seen : List Text) (c : Candidate) (pushed : Text)
    → (rewrite_host ip seen c).1 ≡ some pushed
    → pushed ≡ with_address c ip
unfolding rewrite_host
rewrite_host-pushed ip seen c pushed e =
    elim (Bool-cases (any (λ k. text_eq k (dedup_key c ip)) seen)) [
      | inl again ↦ absurd (ground arith)
      | inr first ↦ ground arith
    ]

rewrite_line-Pushed :
    (ip : Text) (seen : List Text) (line pushed : Text)
    → (rewrite_line ip seen line).1 ≡ some pushed
    → Pushed ip line pushed
unfolding rewrite_line
rewrite_line-Pushed ip seen line pushed e = elim (Option-cases (parse_candidate line)) [
  | inl absent ↦ other absent (ground arith)
  | inr (c, present) ↦ elim (Bool-cases (is_host c)) [
    | inl yes_host ↦ host c present (rewrite_host-pushed ip seen c pushed (ground arith))
    | inr no_host ↦ kept c present no_host (ground arith)
  ]
]

-- A predicate of the pushed lines, from one of the lines that they come from.
pub rewrite_lines-All {κ μ} :
    (P : Text → Type κ) (Q : Text → Type μ) (ip : Text)
    → ((line pushed : Text) → P line → Pushed ip line pushed → Q pushed)
    → (seen : List Text) (ls : List Text) → All P ls
    → All Q (rewrite_lines ip seen ls)
unfolding rewrite_lines
rewrite_lines-All P Q ip step seen [] h = tt
rewrite_lines-All P Q ip step seen (l ∷ ls) h = elim (Option-cases ((rewrite_line ip seen l).1)) [
  | inl nothing ↦ rw nothing (rewrite_lines-All P Q ip step (rewrite_line ip seen l).0 ls h.1)
  | inr (pushed, e) ↦ rw e (
    step l pushed h.0 (rewrite_line-Pushed ip seen l pushed e),
    rewrite_lines-All P Q ip step (rewrite_line ip seen l).0 ls h.1,
  )
]

-- A line that is no host candidate, or one with the public address.
abbrev pub IsRewritten : Text → Text → Type 0
IsRewritten ip l = (host_address l ≡ none) ⊎ (host_address l ≡ some ip)

connection_line : (ip : Text) → parse_candidate (codes "c=IN IP4 " ++ ip) ≡ none
unfolding parse_candidate strip_prefix
connection_line ip = refl

host_address-none : (l : Text) → parse_candidate l ≡ none → host_address l ≡ none
unfolding host_address
host_address-none l e = rw (e, host_address)

rewrite_other-cases :
    (ip line : Text)
    → (rewrite_other ip line ≡ line) ⊎ (rewrite_other ip line ≡ codes "c=IN IP4 " ++ ip)
unfolding rewrite_other
rewrite_other-cases ip line = elim (Option-cases (strip_prefix (codes "c=IN IP4 ") line)) [
  | inl absent ↦ inl (ground arith)
  | inr (rest, present) ↦ elim (Bool-cases (text_eq (trim_end rest) (codes "0.0.0.0"))) [
    | inl placeholder ↦ inl (ground arith)
    | inr address ↦ inr (ground arith)
  ]
]

pub Pushed-IsRewritten :
    (ip line pushed : Text) → IsToken ip → Pushed ip line pushed → IsRewritten ip pushed
Pushed-IsRewritten ip line pushed t (host c present e) =
    elim (Option-cases (parse_candidate (with_address c ip))) [
      | inl absent ↦ inl (rw e (host_address-none (with_address c ip) absent))
      | inr (d, again) ↦
          let same : d.address ≡ ip =
            parse-with_address c ip d (parsed-IsToken line c present) t again in
          elim (Bool-cases (is_host d)) [
            | inl yes_host ↦
                inr (rw e (unfold host_address in rw (again, host_address) (ground arith)))
            | inr no_host ↦
                inl (rw e (unfold host_address in rw (again, host_address) (ground arith)))
          ]
    ]
Pushed-IsRewritten ip line pushed t (kept c present no_host e) =
    inl (rw e (unfold host_address in rw (present, host_address) (ground arith)))
Pushed-IsRewritten ip line pushed t (other absent e) = elim (rewrite_other-cases ip line) [
  | inl same ↦ inl (rw (e, same) (host_address-none line absent))
  | inr moved ↦
      inl (rw (e, moved) (host_address-none (codes "c=IN IP4 " ++ ip) (connection_line ip)))
]

Pushed-Free :
    (p : ℕ → Bool) (ip line pushed : Text)
    → IsPlain p
    → Free p ip
    → Free p line
    → Pushed ip line pushed
    → Free p pushed
Pushed-Free p ip line pushed plain fi free (host c present e) =
    let (f, fr) = parsed-Free p line c present free in rw e (with_address-Free p c ip plain f fr fi)
Pushed-Free p ip line pushed plain fi free (kept c present no_host e) = rw e free
Pushed-Free p ip line pushed plain fi free (other absent e) = elim (rewrite_other-cases ip line) [
  | inl same ↦ rw (e, same) free
  | inr moved ↦ rw (e, moved) (Free-append p (codes "c=IN IP4 ") ip plain.connection fi)
]

Pushed-nonempty :
    (ip line pushed : Text)
    → is_empty line ≡ false
    → Pushed ip line pushed
    → is_empty pushed ≡ false
Pushed-nonempty ip line pushed h (host c present e) = rw e (unfold with_address in refl)
Pushed-nonempty ip line pushed h (kept c present no_host e) = rw e h
Pushed-nonempty ip line pushed h (other absent e) = elim (rewrite_other-cases ip line) [
  | inl same ↦ rw (e, same) h
  | inr moved ↦ rw (e, moved)
]

newline-IsPlain : IsPlain is_newline
newline-IsPlain = record {
  blank = refl;
  prefix = Free-check is_newline (codes "a=candidate:") refl;
  keyword = Free-check is_newline (codes "typ") refl;
  connection = Free-check is_newline (codes "c=IN IP4 ") refl;
}

return-IsPlain : IsPlain is_return
return-IsPlain = record {
  blank = refl;
  prefix = Free-check is_return (codes "a=candidate:") refl;
  keyword = Free-check is_return (codes "typ") refl;
  connection = Free-check is_return (codes "c=IN IP4 ") refl;
}

token-newline : (ip : Text) → IsToken ip → Free is_newline ip
unfolding is_ascii_whitespace
token-newline ip t =
    Free-mono is_ascii_whitespace is_newline ip (λ c h. ground arith) t.no_whitespace

token-return : (ip : Text) → IsToken ip → Free is_return ip
unfolding is_ascii_whitespace
token-return ip t = Free-mono is_ascii_whitespace is_return ip (λ c h. ground arith) t.no_whitespace

Pushed-IsLine :
    (ip line pushed : Text) → IsToken ip → IsLine line → Pushed ip line pushed → IsLine pushed
Pushed-IsLine ip line pushed t l p = record {
  nonempty = Pushed-nonempty ip line pushed l.nonempty p;
  no_newline =
      Pushed-Free is_newline ip line pushed newline-IsPlain (token-newline ip t) l.no_newline p;
}

-- A text whose lines all end in one way: it has `\r\n` somewhere, or no carriage return at all.
abbrev pub HasOneEnding : Text → Type 0
HasOneEnding sdp = (contains_text crlf sdp ≡ true) ⊎ Free is_return sdp

-- The lines of the rewritten text are the lines that the loop pushes, where the text has one kind
-- of line ending and the public address is a word.
pub lines-rewrite_host_candidates :
    (sdp ip : Text)
    → IsToken ip
    → HasOneEnding sdp
    → lines (rewrite_host_candidates sdp ip) ≡ rewrite_lines ip [] (lines sdp)
unfolding rewrite_host_candidates
lines-rewrite_host_candidates sdp ip t ending = elim (Bool-cases (contains_text crlf sdp)) [
  | inl some_crlf ↦ rw some_crlf (lines-push_crlf (rewrite_lines ip [] (lines sdp)) all_lines)
  | inr no_crlf ↦ rw no_crlf (
      lines-push_lf (rewrite_lines ip [] (lines sdp)) all_lines (
        rewrite_lines-All (Free is_return) (Free is_return) ip
          (λ line pushed free p.
            Pushed-Free is_return ip line pushed return-IsPlain (token-return ip t) free p)
          [] (lines sdp) (lines-Free is_return sdp (no_return no_crlf ending))))
]
  where
    all_lines : All IsLine (rewrite_lines ip [] (lines sdp))
    all_lines =
        rewrite_lines-All IsLine IsLine ip (λ line pushed l p. Pushed-IsLine ip line pushed t l p)
          [] (lines sdp) (lines-IsLine sdp)

    no_return : contains_text crlf sdp ≡ false → HasOneEnding sdp → Free is_return sdp
    no_return e (inl h) = cc
    no_return e (inr h) = h

host_addresses-All :
    (ip : Text) (ls : List Text) → All (IsRewritten ip) ls → All (λ a. a ≡ ip) (host_addresses ls)
unfolding host_addresses
host_addresses-All ip [] h = tt
host_addresses-All ip (l ∷ ls) h = elim h.0 [
  | inl nothing ↦ rw nothing (host_addresses-All ip ls h.1)
  | inr same ↦ rw same (refl, host_addresses-All ip ls h.1)
]

-- After the rewrite every host candidate that the parser reads carries the public address, where the
-- text has one kind of line ending and the address is a word.
host_candidate_addresses-rewrite :
    (sdp ip : Text)
    → IsToken ip
    → HasOneEnding sdp
    → All (λ a. a ≡ ip) (host_candidate_addresses (rewrite_host_candidates sdp ip))
unfolding host_candidate_addresses
host_candidate_addresses-rewrite sdp ip t ending =
    rw (lines-rewrite_host_candidates sdp ip t ending) (
      host_addresses-All ip (rewrite_lines ip [] (lines sdp)) (
        rewrite_lines-All IsLine (IsRewritten ip) ip
          (λ line pushed l p. Pushed-IsRewritten ip line pushed t p) [] (lines sdp)
          (lines-IsLine sdp)))
