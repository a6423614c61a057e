-- ===== src/Proto/Tests/Sdp.antt =====
-- SDP text: the cases of the unit tests.
use vmscren_share.Prelude.{◌≡◌, refl, true, false, List, [], ◌∷◌, ◌++◌, All, inl, inr}
use vmscren_share.Prelude.Text.{
  Text, codes, is_ascii_whitespace, strip_prefix, split_ascii_whitespace, contains_text, join,
  trim_end, text_eq, any,
}
use vmscren_share.Prelude.Text.Split.{IsToken, IsToken-check, Free-check}
use vmscren_share.Proto.Sdp.Lines.{IsLine, is_newline}
use vmscren_share.Proto.Sdp.Addresses.{HasOneEnding}
use vmscren_share.Proto.Sdp.Hosts.{HostWords, AreWords}
use vmscren_share.Proto.Sdp.Survive.{key_of, Stands, rewritten-Stands}
use vmscren_share.Proto.Sdp.Untouched.{IsOther, plain}
use vmscren_share.Proto.Sdp.{
  crlf, push_lines, has_media, candidate_count, is_ice_lite, host_candidate_addresses,
  rewrite_host_candidates, lines, parse_candidate, candidate_of, host_address, host_addresses,
  is_host, rewrite_host, rewrite_other, rewrite_line, rewrite_lines, with_address, dedup_key,
}

-- All that a run of the module computes with.
opened : Unit {0}
unfolding has_media candidate_count is_ice_lite host_candidate_addresses rewrite_host_candidates
    lines push_lines parse_candidate candidate_of host_address host_addresses is_host rewrite_host
    rewrite_other rewrite_line rewrite_lines with_address dedup_key strip_prefix
    split_ascii_whitespace contains_text join trim_end text_eq any
opened = tt

abbrev answer : Text
answer = push_lines crlf (
    codes "v=0"
    ∷ codes "a=ice-lite"
    ∷ codes "m=video 9 UDP/TLS/RTP/SAVPF 102"
    ∷ codes "c=IN IP4 10.0.0.7"
    ∷ codes "a=candidate:1234 1 udp 2130706431 10.0.0.7 50000 typ host generation 0"
    ∷ codes "a=candidate:5678 1 UDP 2130706175 172.17.0.1 50000 typ host generation 0"
    ∷ codes
        "a=candidate:9999 1 udp 1694498815 203.0.113.9 50000 typ srflx raddr 10.0.0.7 rport 50000"
    ∷ codes "m=application 9 UDP/DTLS/SCTP webrtc-datachannel"
    ∷ codes "c=IN IP4 0.0.0.0"
    ∷ [])

inspection :
    (has_media answer (codes "video") ≡ true)
    × (has_media answer (codes "audio") ≡ false)
    × (candidate_count answer ≡ 3)
    × (is_ice_lite answer ≡ true)
    × (host_candidate_addresses answer ≡ codes "10.0.0.7" ∷ codes "172.17.0.1" ∷ [])
unfolding push_lines opened
inspection = (refl, refl, refl, refl, refl)

rewritten :
    rewrite_host_candidates answer (codes "129.146.1.2")
    ≡ push_lines crlf (
        codes "v=0"
        ∷ codes "a=ice-lite"
        ∷ codes "m=video 9 UDP/TLS/RTP/SAVPF 102"
        ∷ codes "c=IN IP4 129.146.1.2"
        ∷ codes "a=candidate:1234 1 udp 2130706431 129.146.1.2 50000 typ host generation 0"
        ∷ codes
            "a=candidate:9999 1 udp 1694498815 203.0.113.9 50000 typ srflx raddr 10.0.0.7 rport 50000"
        ∷ codes "m=application 9 UDP/DTLS/SCTP webrtc-datachannel"
        ∷ codes "c=IN IP4 0.0.0.0"
        ∷ [])
unfolding push_lines opened
rewritten = refl

-- A host candidate with two spaces in its extensions is taken for malformed, and keeps its address.
malformed :
    rewrite_host_candidates
      (codes "a=candidate:1 1 udp 1 10.0.0.7 5 typ host generation  0" ++ crlf)
      (codes "1.2.3.4")
    ≡ codes "a=candidate:1 1 udp 1 10.0.0.7 5 typ host generation  0" ++ crlf
unfolding opened
malformed = refl

abbrev public_ip : Text
public_ip = codes "129.146.1.2"

public_ip-IsToken : IsToken public_ip
unfolding is_ascii_whitespace
public_ip-IsToken = record {
  nonempty = refl;
  no_whitespace = Free-check is_ascii_whitespace public_ip refl;
}

answer_ending : HasOneEnding answer
unfolding push_lines contains_text
answer_ending = inl refl

-- The second host candidate of the answer, which goes into the first.
abbrev second : HostWords
second = record {
  foundation = codes "5678";
  component = codes "1";
  transport = codes "UDP";
  priority = codes "2130706175";
  address = codes "172.17.0.1";
  port = codes "50000";
  extensions = codes "generation" ∷ codes "0" ∷ [];
}

second-AreWords : AreWords second
unfolding is_ascii_whitespace
second-AreWords = record {
  foundation = IsToken-check (codes "5678") refl refl;
  component = IsToken-check (codes "1") refl refl;
  transport = IsToken-check (codes "UDP") refl refl;
  priority = IsToken-check (codes "2130706175") refl refl;
  address = IsToken-check (codes "172.17.0.1") refl refl;
  port = IsToken-check (codes "50000") refl refl;
  extensions =
      (IsToken-check (codes "generation") refl refl, (IsToken-check (codes "0") refl refl, tt));
}

rewritten-Stands_example :
    Stands public_ip
      (key_of (codes "udp") public_ip (codes "50000"))
      (lines (rewrite_host_candidates answer public_ip))
unfolding opened
rewritten-Stands_example =
    rewritten-Stands answer public_ip public_ip-IsToken answer_ending second second-AreWords
      (inr (inr (inr (inr (inr (inl refl))))))

abbrev plain_lines : List Text
plain_lines = codes "v=0" ∷ codes "s=-" ∷ []

plain_lines-IsLine : All IsLine plain_lines
plain_lines-IsLine = (
  record { nonempty = refl; no_newline = Free-check is_newline (codes "v=0") refl },
  (record { nonempty = refl; no_newline = Free-check is_newline (codes "s=-") refl }, tt),
)

plain_lines-IsOther : All IsOther plain_lines
unfolding opened
plain_lines-IsOther = (plain refl refl, (plain refl refl, tt))

abbrev wide : Text
wide = codes "a=candidate:1 1 udp 1 10.0.0.7 5 typ host generation  0"
