-- ===== src/Client/Tests/Network.antt =====
-- The client's network loop on a concrete session, and a handshake.
use vmscren_share.Prelude.{
  ℕ, ◌-◌, arith, ◌≡◌, refl, ap, suc, zero, true, false, Option, none, some, List, [], ◌∷◌, ◌++◌,
  map, length, take, drop,
}
use vmscren_share.Prelude.Result.{Result, ok, err}
use vmscren_share.Prelude.Text.{Text, codes}
use vmscren_share.Proto.KeyCode.{KeyCode}
use vmscren_share.Proto.Message
use vmscren_share.Proto.Message.{ControlMessage, key}
use vmscren_share.Proto.MouseMove.{MouseMove}
use vmscren_share.Proto.Signalling.{Serde, SessionDescription}
use vmscren_share.Server.Session.Offer.{SessionError, bad_offer}
use vmscren_share.Server.Signalling.{Response}
use vmscren_share.Client.Messages.{control, mouse, quit}
use vmscren_share.Client.Net.{
  PcEvent, connection, connected, track, LoopEvent, ui, mouse_tick, decoder_request, reader_request,
  Net, going, select, run, start, drain_pending, run_loop, flow_then, flow_of, on_event,
  on_peer_state, with_video, pli_for_track, on_ui, request_pli, emit, pli_interval, gather_loop,
  received, gathering, timed_out,
}
use vmscren_share.Client.Net.Frames.{frames, controls_after, net_of, run-frames}
use vmscren_share.Client.Net.Pli.{spaced, recent, loop_from, run-spaced, request-answered}
use vmscren_share.Client.Net.Mouse.{last_frame, last_position, tick_sends_latest}
use vmscren_share.Client.Net.Track.{
  accepted, full, TrackEvent, on_rtp_packet, on_ended, fresh_reader, read_track, completed,
  until_gone, taken, refused, finds_gone, read_track-loses_none,
}
use vmscren_share.Client.Net.Offer.{exchange_offer}
use vmscren_share.Client.Net.Offer.Handshake.{served, outcome, handshake}

abbrev press : ControlMessage
press = key KeyCode.key_a true

abbrev here : MouseMove
here = record { x = 1; y = 2 }

-- A track appears, a key is pressed, the mouse moves, and both the decoder and the reader ask for a
-- keyframe.
abbrev pending : List PcEvent
pending = connection connected ∷ track (some 7) ∷ []

abbrev events : List (ℕ × LoopEvent)
events =
    (1000, ui (some (control press)))
    ∷ (1001, ui (some (mouse here)))
    ∷ (1100, decoder_request (some tt))
    ∷ (1300, reader_request)
    ∷ []

abbrev quitting : List (ℕ × LoopEvent)
quitting = events ++ (1400, ui (some quit)) ∷ []

run-frames_example :
    frames (net_of (run 1000 pending quitting)).out
    ≡ map Message.encode (controls_after pending quitting)
run-frames_example = run-frames 1000 pending quitting

quitting_controls : controls_after pending quitting ≡ press ∷ ControlMessage.release_all ∷ []
unfolding controls_after
quitting_controls = refl

run-spaced_example : spaced (1000 - pli_interval) (net_of (run 1000 pending quitting)).out ≡ true
run-spaced_example = run-spaced 1000 pending quitting

-- The state in which the loop stands after the events.
abbrev standing : Net
standing = net_of (loop_from 1000 pending events)

stands : loop_from 1000 pending events ≡ going standing
unfolding drain_pending run_loop flow_then flow_of on_event on_peer_state with_video pli_for_track
    emit select on_ui request_pli start
stands = refl

has_video : standing.video ≡ some 7
unfolding drain_pending run_loop flow_then flow_of on_event on_peer_state with_video pli_for_track
    emit select on_ui request_pli start
has_video = refl

request-answered_example :
    (recent 1500 (net_of (select 1500 (decoder_request (some tt)) standing)).out ≡ true)
    × (recent 1500 (net_of (select 1500 reader_request standing)).out ≡ true)
request-answered_example =
    request-answered 1000 1500 7 pending events standing (omega arith) (omega arith) stands
      has_video

tick_sends_latest_example :
    last_frame none (net_of (select 1500 mouse_tick standing)).out ≡ last_position none events
tick_sends_latest_example = tick_sends_latest 1000 1500 pending events standing stands

-- Three samples, for the second of which there is no room.
abbrev packets : List TrackEvent
packets =
    on_rtp_packet (
      record { bytes = 1 ∷ []; answer = accepted }
      ∷ record { bytes = 2 ∷ []; answer = full }
      ∷ record { bytes = 3 ∷ []; answer = accepted }
      ∷ [])
    ∷ on_ended
    ∷ []

read_track-loses_none_example :
    let r = read_track packets fresh_reader in
    (r.delivered ≡ taken (until_gone (completed packets)))
    × ((r.requests ≡ refused (until_gone (completed packets)))
        × (r.returned ≡ finds_gone (completed packets)))
read_track-loses_none_example = read_track-loses_none packets

-- A layout of descriptions with the length of the kind in front, for the JSON.
take-append : (xs ys : List ℕ) → take (length xs) (xs ++ ys) ≡ xs
take-append [] ys = refl
take-append (x ∷ xs) ys = ap (λ zs. x ∷ zs) (take-append xs ys)

drop-append : (xs ys : List ℕ) → drop (length xs) (xs ++ ys) ≡ ys
drop-append [] ys = refl
drop-append (x ∷ xs) ys = drop-append xs ys

parse : Text → Option SessionDescription
parse [] = none
parse (n ∷ s) = some (record { kind = take n s; sdp = drop n s })

parse_back : (d : SessionDescription) → parse (length d.kind ∷ (d.kind ++ d.sdp)) ≡ some d
unfolding parse
parse_back d = rw (take-append d.kind d.sdp, drop-append d.kind d.sdp) refl

abbrev layout : Serde
layout = record {
  description_to = λ d. length d.kind ∷ (d.kind ++ d.sdp);
  description_from = parse;
  error_to = λ e. e;
  error_from = λ e. some e;
  description_back = parse_back;
  error_back = λ e. refl;
}

-- A manager that counts its offers and refuses all but the first.
abbrev once : ℕ → Text → ℕ × Result SessionError Text
once zero sdp = (1, ok (codes "v=0"))
once (suc n) sdp = (suc (suc n), err (bad_offer (codes "busy")))

abbrev unprocessable : Response
unprocessable = record { status = 422; body = [] }

handshake_example :
    exchange_offer layout
      (served once (codes "http://127.0.0.1:8080") layout unprocessable)
      (codes "http://127.0.0.1:8080//")
      (codes "v=0")
      1
    ≡ ((once 1 (codes "v=0")).0, outcome (once 1 (codes "v=0")).1)
handshake_example =
    handshake once layout unprocessable (codes "http://127.0.0.1:808") 48 2 (codes "v=0") 1
      (λ e. cc)

-- Events other than the gathering's are kept, and the timeout goes on without the rest.
gather_keeps :
    gather_loop (received (connection connected) ∷ received (gathering false) ∷ timed_out ∷ []) []
    ≡ some (ok (connection connected ∷ []))
unfolding gather_loop
gather_keeps = refl
