-- ===== src/Server/Tests/Session.antt =====
-- The session manager on concrete offers and events.
use vmscren_share.Prelude.{
  ◌≤◌, ◌≡◌, refl, true, false, sym, none, some, [], ◌∷◌, inl, inr, ◌⊎◌, arith,
}
use vmscren_share.Prelude.Result.{ok, err}
use vmscren_share.Prelude.Sets.{contains}
use vmscren_share.Prelude.Text.{
  Text, codes, is_ascii_whitespace, strip_prefix, split_ascii_whitespace, contains_text, join,
  trim_end, text_eq, any,
}
use vmscren_share.Prelude.Text.Split.{IsToken, IsToken-check, Free-check}
use vmscren_share.Proto.Sdp.Addresses.{HasOneEnding}
use vmscren_share.Proto.Sdp.Hosts.{HostWords, AreWords}
use vmscren_share.Proto.Sdp.Lines.{is_return}
use vmscren_share.Proto.Sdp.{
  push_lines, has_media, candidate_count, host_candidate_addresses, rewrite_host_candidates, lines,
  parse_candidate, candidate_of, host_address, host_addresses, is_host, rewrite_host, rewrite_other,
  rewrite_line, rewrite_lines, with_address, dedup_key,
}
use vmscren_share.Server.Config.{default, validate}
use vmscren_share.Server.Config.Validate.{IsValid, validate-IsValid_iff}
use vmscren_share.Server.Shared
use vmscren_share.Server.Input.{log_input}
use vmscren_share.Server.Session
use vmscren_share.Server.Session.{
  SessionManager, known_ip, allocate_port, next_port_after, allocate_session_id, public_ip_of,
  replace_previous, disconnect, release_input, publish,
}
use vmscren_share.Server.Session.Offer.{
  Stack, bad_offer, gathering_state, connection, complete, connected, Accepted, check_offer,
  accept_offer,
}
use vmscren_share.Server.Session.Offer.Accept.{Serves, accept_offer-advertises, accept_offer-Serves}
use vmscren_share.Server.Session.Offer.Refused.{accept_offer-err}
use vmscren_share.Server.Session.Events.{run_session}
use vmscren_share.Server.Session.Events.Replaced.{run_session-replaced}
use vmscren_share.Server.Session.Events.Ended.{IsEnded, run_session-IsEnded}
use vmscren_share.Server.Session.Steps.{
  System, Run, start, here, then_step, take_id, store_active, install, store_connected, clear,
  with_id, with_active, with_shared,
}
use vmscren_share.Server.Session.Invariant.{IsSound, Run-IsSound}

-- All that an offer computes with.
opened : Unit {0}
unfolding has_media candidate_count host_candidate_addresses rewrite_host_candidates lines
    push_lines parse_candidate candidate_of host_address host_addresses is_host rewrite_host
    rewrite_other rewrite_line rewrite_lines with_address dedup_key strip_prefix
    split_ascii_whitespace contains_text join trim_end text_eq any accept_offer Session.new
opened = tt

abbrev offer_sdp : Text
offer_sdp =
    codes "v=0\nm=video 9 UDP/TLS/RTP/SAVPF 102\nm=application 9 UDP/DTLS/SCTP webrtc-datachannel\n"

abbrev described : Text
described = codes "v=0\na=candidate:1 1 udp 1 10.0.0.7 50000 typ host\n"

abbrev stack : Stack
stack = record {
  create = λ port. ok tt;
  parse_offer = λ sdp. ok tt;
  set_remote_description = λ sdp. ok tt;
  create_answer = ok tt;
  set_local_description = ok tt;
  received = some (connection connected) ∷ some (gathering_state complete) ∷ [];
  local_description = some described;
  detected = ok (codes "129.146.1.2");
}

manager : SessionManager log_input
unfolding opened
manager = Session.new log_input default (Shared.new 12000) tt none

accepted : Accepted
accepted = record {
  session_id = 1;
  port = 50000;
  answer = codes "v=0\na=candidate:1 1 udp 1 129.146.1.2 50000 typ host\n";
  pending = connection connected ∷ [];
}

accepts : (accept_offer log_input stack manager offer_sdp).1 ≡ ok accepted
unfolding opened manager accepted
accepts = refl

refuses :
    (accept_offer log_input stack manager (codes "v=0\n")).1
    ≡ err (bad_offer (codes "offer has no video media section"))
unfolding opened manager
refuses = refl

default_range : 50000 ≤ 50100
default_range = omega arith

default-IsValid : IsValid default
unfolding validate
default-IsValid = (validate-IsValid_iff default).0 refl

token : IsToken (codes "129.146.1.2")
unfolding is_ascii_whitespace
token = record {
  nonempty = refl;
  no_whitespace = Free-check is_ascii_whitespace (codes "129.146.1.2") refl;
}

ending : (sdp : Text) → some described ≡ some sdp → HasOneEnding sdp
ending sdp h =
    let same : described ≡ sdp = cc in inr (rw (sym same) (Free-check is_return described refl))

-- The one host candidate of the answer.
abbrev advertised : HostWords
advertised = record {
  foundation = codes "1";
  component = codes "1";
  transport = codes "udp";
  priority = codes "1";
  address = codes "129.146.1.2";
  port = codes "50000";
  extensions = [];
}

advertised-AreWords : AreWords advertised
unfolding is_ascii_whitespace
advertised-AreWords = record {
  foundation = IsToken-check (codes "1") refl refl;
  component = IsToken-check (codes "1") refl refl;
  transport = IsToken-check (codes "udp") refl refl;
  priority = IsToken-check (codes "1") refl refl;
  address = IsToken-check (codes "129.146.1.2") refl refl;
  port = IsToken-check (codes "50000") refl refl;
  extensions = tt;
}

accept_offer-advertises_example : advertised.address ≡ codes "129.146.1.2"
unfolding manager opened known_ip accepted
accept_offer-advertises_example =
    accept_offer-advertises log_input stack manager offer_sdp accepted (codes "129.146.1.2") accepts
      refl token ending advertised advertised-AreWords (unfold lines in inr (inl refl))

accept_offer-Serves_example :
    Serves log_input manager accepted (accept_offer log_input stack manager offer_sdp).0
unfolding manager opened
accept_offer-Serves_example =
    accept_offer-Serves log_input stack manager offer_sdp accepted default_range accepts

abbrev idle : System log_input
idle = start log_input default tt none

accept_offer-err_example :
    ((check_offer (codes "v=0\n") ≡ err (bad_offer (codes "offer has no video media section")))
      × ((accept_offer log_input stack manager (codes "v=0\n")).0 ≡ manager))
    ⊎ ((check_offer (codes "v=0\n") ≡ ok tt)
        × (((accept_offer log_input stack manager (codes "v=0\n")).0.current ≡ none)
            × ((accept_offer log_input stack manager (codes "v=0\n")).0.shared.active_session
                ≡ manager.shared.active_session)))
accept_offer-err_example =
    accept_offer-err log_input stack manager (codes "v=0\n")
      (bad_offer (codes "offer has no video media section")) refuses

-- A manager whose active session is the first.
serving : SessionManager log_input
unfolding publish
serving = publish log_input manager 1

run_session-IsEnded_example :
    IsEnded log_input 1 (run_session log_input serving 1 (connection connected ∷ []))
unfolding serving
run_session-IsEnded_example =
    run_session-IsEnded log_input serving 1 (connection connected ∷ []) refl

run_session-replaced_example :
    ((run_session log_input serving 0 (connection connected ∷ [])).shared ≡ serving.shared)
    × ((run_session log_input serving 0 (connection connected ∷ [])).current ≡ serving.current)
unfolding serving
run_session-replaced_example =
    run_session-replaced log_input serving 0 (connection connected ∷ []) refl

-- A first offer has an id, and is published.
abbrev first : System log_input
first = with_active log_input (with_id log_input idle) 1

first-Run : Run log_input idle first
unfolding contains Session.new allocate_session_id
first-Run =
    then_step (then_step (here idle) (take_id idle)) (store_active (with_id log_input idle) 1 refl)

Run-IsSound_example : IsSound log_input default first
Run-IsSound_example = Run-IsSound log_input default tt none default-IsValid first-Run

-- The session connects while a newer offer cuts it off, store by store: it installs its sink, the
-- offer stores that no client is connected and clears the sink, and the session stores that a client
-- is.
abbrev raced : System log_input
raced =
    with_shared log_input first
      (record first.manager.shared { sink = none; client_connected = true })

raced-Run : Run log_input idle raced
unfolding contains Session.new allocate_session_id
raced-Run =
    then_step
      (then_step (then_step (then_step first-Run (install first 1 refl)) (store_connected _ false))
        (clear _))
      (store_connected _ true)
