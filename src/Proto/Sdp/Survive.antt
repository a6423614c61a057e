-- ===== src/Proto/Sdp/Survive.antt =====
-- proto/src/sdp.rs, rewrite_host_candidates: what becomes of the host candidates of a text.
use vmscren_share.Prelude.{
  ◌≡◌, ◌⊎◌, refl, sym, ap, ◌∙◌, subst, Bool, true, false, ◌||◌, if◌then◌else◌, Option, none, some,
  List, [], ◌∷◌, ◌++◌, map, All, inl, inr,
}
use vmscren_share.Prelude.Text.{Text, codes, is_empty, text_eq, join, any, to_ascii_lowercase}
use vmscren_share.Prelude.Text.Split.{IsToken}
use vmscren_share.Proto.Sdp.{
  Candidate, lines, parse_candidate, with_address, is_host, host_address, dedup_key, cons_some,
  rewrite_host, rewrite_other, rewrite_line, rewrite_lines, rewrite_host_candidates,
}
use vmscren_share.Proto.Sdp.Lines.{IsLine, lines-IsLine}
use vmscren_share.Proto.Sdp.Candidates.{text_eq→eq}
use vmscren_share.Proto.Sdp.Addresses.{
  HasOneEnding, IsRewritten, Pushed-IsRewritten, rewrite_lines-All, lines-rewrite_host_candidates,
}
use vmscren_share.Proto.Sdp.Hosts.{HostWords, AreWords, host_line, In, candidate, parse-host_line}

In-All {κ} : (P : Text → Type κ) (l : Text) (ls : List Text) → In l ls → All P ls → P l
In-All P l [] h all = absurd h
In-All P l (m ∷ ms) (inl same) all = subst P same all.0
In-All P l (m ∷ ms) (inr rest) all = In-All P l ms rest all.1

host_address-host_line : (w : HostWords) → AreWords w → host_address (host_line w) ≡ some w.address
unfolding host_address is_host text_eq
host_address-host_line w t =
    let (rest, parsed) = parse-host_line w t in rw (parsed, host_address) refl

-- After the rewrite every host candidate, as the grammar has it, carries the public address, where the
-- text has one kind of line ending and the address is a word.
pub rewritten-address :
    (sdp ip : Text)
    → IsToken ip
    → HasOneEnding sdp
    → (w : HostWords) → AreWords w
    → In (host_line w) (lines (rewrite_host_candidates sdp ip))
    → w.address ≡ ip
rewritten-address sdp ip token ending w t there =
    let pushed : All (IsRewritten ip) (rewrite_lines ip [] (lines sdp)) =
      rewrite_lines-All IsLine (IsRewritten ip) ip
        (λ line pushed l p. Pushed-IsRewritten ip line pushed token p) [] (lines sdp)
        (lines-IsLine sdp) in
    by_case (
      In-All (IsRewritten ip) (host_line w) (rewrite_lines ip [] (lines sdp))
        (subst (In (host_line w)) (lines-rewrite_host_candidates sdp ip token ending) there) pushed)
  where
    by_case : IsRewritten ip (host_line w) → w.address ≡ ip
    by_case (inl nothing) = let e = sym (host_address-host_line w t) ∙ nothing in cc
    by_case (inr public) = let e = sym (host_address-host_line w t) ∙ public in cc

-- What makes two candidates the same after the rewrite.
abbrev pub key_of : (transport ip port : Text) → Text
key_of transport ip port =
    map to_ascii_lowercase transport ++ (codes "|" ++ (ip ++ (codes "|" ++ port)))

-- A line of a host candidate with the public address, of the key that is wanted.
pub record Stands (ip key : Text) (ls : List Text) : Type 0 where
  pub origin : Candidate
  pub same_key : key_of origin.transport ip origin.port ≡ key
  pub there :
      In
        ((codes "a=candidate:"
            ++ join (codes " ") (
                origin.foundation
                ∷ origin.component
                ∷ origin.transport
                ∷ origin.priority
                ∷ ip
                ∷ origin.port
                ∷ codes "typ"
                ∷ codes "host"
                ∷ []))
          ++ (if is_empty origin.rest then [] else codes " " ++ origin.rest))
        ls

later :
    (ip key : Text) (o : Option Text) (ls : List Text)
    → Stands ip key ls
    → Stands ip key (cons_some o ls)
later ip key none ls s = s
later ip key (some l) ls s = record {
  origin = s.origin;
  same_key = s.same_key;
  there = inr s.there;
}

first :
    (ip : Text) (c : Candidate) (ls : List Text)
    → c.typ ≡ codes "host"
    → Stands ip (dedup_key c ip) (with_address c ip ∷ ls)
unfolding dedup_key with_address
first ip c ls h = record {
  origin = record c { typ = codes "host" };
  same_key = refl;
  there = inl (
      ap
        (λ t.
          (codes "a=candidate:"
            ++ join (codes " ") (
                c.foundation
                ∷ c.component
                ∷ c.transport
                ∷ c.priority
                ∷ ip
                ∷ c.port
                ∷ codes "typ"
                ∷ t
                ∷ []))
          ++ (if is_empty c.rest then [] else codes " " ++ c.rest))
        h);
}

any-append :
    (key : Text) (seen : List Text) (k : Text)
    → any (λ x. text_eq x key) (seen ++ k ∷ []) ≡ true
    → (any (λ x. text_eq x key) seen ≡ true) ⊎ (k ≡ key)
unfolding any
any-append key [] k h = by_test (text_eq k key) refl h
  where
    by_test : (b : Bool) → text_eq k key ≡ b → (b || false) ≡ true → (false ≡ true) ⊎ (k ≡ key)
    by_test true e h = inr (text_eq→eq k key e)
    by_test false e h = cc
any-append key (x ∷ seen) k h = by_test (text_eq x key) (any-append key seen k) h
  where
    by_test :
        (b : Bool)
        → (any (λ y. text_eq y key) (seen ++ k ∷ []) ≡ true
            → (any (λ y. text_eq y key) seen ≡ true) ⊎ (k ≡ key))
        → (b || any (λ y. text_eq y key) (seen ++ k ∷ [])) ≡ true
        → ((b || any (λ y. text_eq y key) seen) ≡ true) ⊎ (k ≡ key)
    by_test true rest h = inl refl
    by_test false rest h = rest h

-- A key that the loop has seen, or has come to see with the line that it pushes.
abbrev Accounted : Text → Text → List Text → List Text → Type 0
Accounted ip key seen pushed = (any (λ k. text_eq k key) seen ≡ true) ⊎ Stands ip key pushed

-- One line, when what follows it accounts for the key.
host_step :
    (ip key : Text) (seen : List Text) (c : Candidate) (rest : List Text)
    → c.typ ≡ codes "host"
    → Accounted ip key (rewrite_host ip seen c).0 rest
    → Accounted ip key seen (cons_some (rewrite_host ip seen c).1 rest)
unfolding rewrite_host
host_step ip key seen c rest host h = by_seen (any (λ k. text_eq k (dedup_key c ip)) seen) h
  where
    by_seen :
        (b : Bool)
        → let r : List Text × Option Text =
            if b then (seen, none) else (seen ++ dedup_key c ip ∷ [], some (with_address c ip)) in
          Accounted ip key r.0 rest → Accounted ip key seen (cons_some r.1 rest)
    by_seen true h = h
    by_seen false (inr stands) = inr (later ip key (some (with_address c ip)) rest stands)
    by_seen false (inl known) = elim (any-append key seen (dedup_key c ip) known) [
      | inl before ↦ inl before
      | inr same ↦
          inr (subst (λ k. Stands ip k (with_address c ip ∷ rest)) same (first ip c rest host))
    ]

line_step :
    (ip key : Text) (seen : List Text) (l : Text) (rest : List Text)
    → Accounted ip key (rewrite_line ip seen l).0 rest
    → Accounted ip key seen (cons_some (rewrite_line ip seen l).1 rest)
unfolding rewrite_line
line_step ip key seen l rest = by_parse (parse_candidate l)
  where
    kept : (line : Text) → Accounted ip key seen rest → Accounted ip key seen (line ∷ rest)
    kept line (inl before) = inl before
    kept line (inr stands) = inr (later ip key (some line) rest stands)

    by_type :
        (c : Candidate) (b : Bool)
        → is_host c ≡ b
        → let r : List Text × Option Text = if b then rewrite_host ip seen c else (seen, some l) in
          Accounted ip key r.0 rest → Accounted ip key seen (cons_some r.1 rest)
    by_type c true e h =
        host_step ip key seen c rest (unfold is_host in text_eq→eq c.typ (codes "host") e) h
    by_type c false e h = kept l h

    by_parse :
        (o : Option Candidate)
        → let r : List Text × Option Text = elim o [
          | some c ↦ if is_host c then rewrite_host ip seen c else (seen, some l)
          | none ↦ (seen, some (rewrite_other ip l))
        ] in
          Accounted ip key r.0 rest → Accounted ip key seen (cons_some r.1 rest)
    by_parse none h = kept (rewrite_other ip l) h
    by_parse (some c) h = by_type c (is_host c) refl h

rewrite_line-host :
    (ip : Text) (seen : List Text) (line : Text) (c : Candidate)
    → parse_candidate line ≡ some c
    → is_host c ≡ true
    → rewrite_line ip seen line ≡ rewrite_host ip seen c
unfolding rewrite_line
rewrite_line-host ip seen line c parsed host = rw (parsed, rewrite_line) (rw host refl)

-- A host candidate at the head of the lines accounts for its key.
host_line-Accounted :
    (ip : Text) (seen : List Text) (w : HostWords) (rest : List Text)
    → AreWords w
    → Accounted ip
        (key_of w.transport ip w.port)
        seen
        (cons_some (rewrite_line ip seen (host_line w)).1 rest)
unfolding rewrite_host is_host text_eq
host_line-Accounted ip seen w rest t =
    let (extra, parsed) = parse-host_line w t in
    subst
      (λ (r : List Text × Option Text).
        Accounted ip (key_of w.transport ip w.port) seen (cons_some r.1 rest))
      (sym (rewrite_line-host ip seen (host_line w) (candidate w extra) parsed refl))
      (by_seen extra (any (λ k. text_eq k (dedup_key (candidate w extra) ip)) seen) refl)
  where
    by_seen :
        (extra : Text) (b : Bool)
        → any (λ k. text_eq k (dedup_key (candidate w extra) ip)) seen ≡ b
        → let r : List Text × Option Text = if b then (seen, none) else (
          seen ++ dedup_key (candidate w extra) ip ∷ [],
          some (with_address (candidate w extra) ip),
        ) in
          Accounted ip (key_of w.transport ip w.port) seen (cons_some r.1 rest)
    by_seen extra true e = inl (unfold dedup_key in e)
    by_seen extra false e = inr (unfold dedup_key in first ip (candidate w extra) rest refl)

survives :
    (ip : Text) (w : HostWords)
    → AreWords w
    → (seen ls : List Text) → In (host_line w) ls
    → Accounted ip (key_of w.transport ip w.port) seen (rewrite_lines ip seen ls)
unfolding rewrite_lines
survives ip w t seen [] there = absurd there
survives ip w t seen (l ∷ ls) (inl same) =
    subst
      (λ x.
        Accounted ip (key_of w.transport ip w.port) seen
          (cons_some (rewrite_line ip seen x).1 (rewrite_lines ip (rewrite_line ip seen x).0 ls)))
      (sym same) (host_line-Accounted ip seen w _ t)
survives ip w t seen (l ∷ ls) (inr there) =
    line_step ip (key_of w.transport ip w.port) seen l _
      (survives ip w t (rewrite_line ip seen l).0 ls there)

-- The rewrite loses no host candidate of the grammar: the text has afterwards a host candidate with the
-- public address whose transport in small letters, address and port, with bars between them, are those
-- of the candidate, where the text has one kind of line ending and the address is a word.
pub rewritten-Stands :
    (sdp ip : Text)
    → IsToken ip
    → HasOneEnding sdp
    → (w : HostWords) → AreWords w
    → In (host_line w) (lines sdp)
    → Stands ip (key_of w.transport ip w.port) (lines (rewrite_host_candidates sdp ip))
rewritten-Stands sdp ip token ending w t there =
    subst (Stands ip (key_of w.transport ip w.port))
      (sym (lines-rewrite_host_candidates sdp ip token ending))
      (by_case (survives ip w t [] (lines sdp) there))
  where
    by_case :
        Accounted ip (key_of w.transport ip w.port) [] (rewrite_lines ip [] (lines sdp))
        → Stands ip (key_of w.transport ip w.port) (rewrite_lines ip [] (lines sdp))
    by_case (inl known) = let clash : false ≡ true = unfold any in known in cc
    by_case (inr stands) = stands
