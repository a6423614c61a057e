-- ===== src/Proto/Sdp/Untouched.antt =====
-- What the rewrite leaves alone: texts with nothing to rewrite, and, by a slip of the parser, host
-- candidates whose extensions are spaced otherwise than by single spaces.
use vmscren_share.Prelude.{
  ◌≡◌, refl, ◌∙◌, ap, true, false, none, some, List, [], ◌∷◌, ◌++◌, All, arith,
}
use vmscren_share.Prelude.Text.{
  Text, codes, is_empty, strip_prefix, split_ascii_whitespace, text_eq, trim_end, join,
  rfind_suffix, contains_text,
}
use vmscren_share.Proto.Sdp.{
  Candidate, push_lines, crlf, rest_of, candidate_of, parse_candidate, is_host, rewrite_other,
  rewrite_line, rewrite_lines, rewrite_host_candidates,
}
use vmscren_share.Proto.Sdp.Lines.{IsLine, lines-push_crlf}
use vmscren_share.Proto.Sdp.Candidates.{parse_candidate-body}

-- A line that the rewrite has no business with: a candidate of another type than `host`, or neither a
-- candidate nor a connection line, but for the placeholder address.
pub data IsOther (l : Text) : Type 0 where
  candidate : (c : Candidate) → parse_candidate l ≡ some c → is_host c ≡ false → IsOther l
  plain : parse_candidate l ≡ none → strip_prefix (codes "c=IN IP4 ") l ≡ none → IsOther l
  placeholder :
      (rest : Text)
      → parse_candidate l ≡ none
      → strip_prefix (codes "c=IN IP4 ") l ≡ some rest
      → text_eq (trim_end rest) (codes "0.0.0.0") ≡ true
      → IsOther l

rewrite_line-IsOther :
    (ip : Text) (seen : List Text) (l : Text) → IsOther l → rewrite_line ip seen l ≡ (seen, some l)
unfolding rewrite_line rewrite_other
rewrite_line-IsOther ip seen l (candidate c e no_host) = rw (e, rewrite_line) (rw no_host)
rewrite_line-IsOther ip seen l (plain e absent) = rw (e, rewrite_line) (rw (absent, rewrite_other))
rewrite_line-IsOther ip seen l (placeholder rest e present same) =
    rw (e, rewrite_line) (rw (present, rewrite_other) (rw same))

rewrite_lines-IsOther :
    (ip : Text) (seen ls : List Text) → All IsOther ls → rewrite_lines ip seen ls ≡ ls
unfolding rewrite_lines
rewrite_lines-IsOther ip seen [] h = refl
rewrite_lines-IsOther ip seen (l ∷ ls) h =
    rw (rewrite_line-IsOther ip seen l h.0)
      (ap (λ rest. l ∷ rest) (rewrite_lines-IsOther ip seen ls h.1))

contains_text-middle : (l s : Text) → contains_text crlf (l ++ (13 ∷ 10 ∷ s)) ≡ true
unfolding contains_text
contains_text-middle [] s = refl
contains_text-middle (c ∷ l) s = ground (arith, contains_text-middle l s)

-- A text with `\r\n` endings, none of whose lines is a host candidate or a connection line with an
-- address, is returned as it is.
pub rewrite_host_candidates-unchanged :
    (ip l : Text) (ls : List Text)
    → All IsLine (l ∷ ls)
    → All IsOther (l ∷ ls)
    → rewrite_host_candidates (push_lines crlf (l ∷ ls)) ip ≡ push_lines crlf (l ∷ ls)
unfolding rewrite_host_candidates
rewrite_host_candidates-unchanged ip l ls h other =
    let ending : contains_text crlf (push_lines crlf (l ∷ ls)) ≡ true =
      unfold push_lines in contains_text-middle l (push_lines crlf ls) in
    rw (ending, lines-push_crlf (l ∷ ls) h, rewrite_lines-IsOther ip [] (l ∷ ls) other)

-- A candidate line is no connection line.
candidate-connection :
    (line body : Text)
    → strip_prefix (codes "a=candidate:") line ≡ some body
    → strip_prefix (codes "c=IN IP4 ") line ≡ none
unfolding strip_prefix
candidate-connection [] body e = cc
candidate-connection (x ∷ line) body e = ground arith

candidate_of-wide_gap :
    (line f co tr pr ad po ty w : Text) (ws : List Text)
    → is_empty (join (codes " ") (w ∷ ws)) ≡ false
    → rfind_suffix (join (codes " ") (w ∷ ws)) line ≡ none
    → candidate_of line (f ∷ co ∷ tr ∷ pr ∷ ad ∷ po ∷ codes "typ" ∷ ty ∷ w ∷ ws) ≡ none
candidate_of-wide_gap line f co tr pr ad po ty w ws some_rest absent =
    let no_rest : rest_of line (w ∷ ws) ≡ none = unfold rest_of in rw (some_rest, absent) in
    unfold candidate_of in rw (no_rest, candidate_of)

-- A candidate whose extension words, joined by single spaces, do not stand in the line is taken for
-- no candidate: the rewrite keeps the line, with its address, also when its type is `host`.
pub rewrite_line-wide_gap :
    (ip line body f co tr pr ad po ty w : Text) (seen ws : List Text)
    → strip_prefix (codes "a=candidate:") line ≡ some body
    → split_ascii_whitespace body ≡ f ∷ co ∷ tr ∷ pr ∷ ad ∷ po ∷ codes "typ" ∷ ty ∷ w ∷ ws
    → is_empty (join (codes " ") (w ∷ ws)) ≡ false
    → rfind_suffix (join (codes " ") (w ∷ ws)) line ≡ none
    → rewrite_line ip seen line ≡ (seen, some line)
rewrite_line-wide_gap ip line body f co tr pr ad po ty w seen ws present words some_rest absent =
    let unparsed : parse_candidate line ≡ none =
      parse_candidate-body line body present
      ∙ ap (candidate_of line) words
      ∙ candidate_of-wide_gap line f co tr pr ad po ty w ws some_rest absent in
    rewrite_line-IsOther ip seen line (plain unparsed (candidate-connection line body present))
