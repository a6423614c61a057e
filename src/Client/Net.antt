-- ===== src/Client/Net.antt =====
-- client/src/net.rs: the session of the client. The WebRTC stack is a parameter of what happens: its
-- events are the inputs of the loop, and what the loop hands to it is the list `out`. A send that
-- fails is only logged by the code, so that a failure changes nothing here.
pub mod Offer
pub mod Track
pub mod Frames
pub mod Pli
pub mod Mouse
use vmscren_share.Prelude.{
  ℕ, ◌+◌, ◌-◌, Bool, true, false, leb, if◌then◌else◌, Option, none, some, List, [], ◌∷◌, ◌++◌,
}
use vmscren_share.Prelude.Result.{Result, ok, err}
use vmscren_share.Proto.Message
use vmscren_share.Proto.Message.{ControlMessage, hello, set_bitrate}
use vmscren_share.Proto.MouseMove
use vmscren_share.Proto.MouseMove.{MouseMove}
use vmscren_share.Client.Messages.{UiCommand, control, mouse, quit}

-- `RTCPeerConnectionState`.
pub data PeerState : Type 0 where
  connection_new connecting connected disconnected failed closed : PeerState

-- A track is known by its first SSRC, if it has one.
pub data PcEvent : Type 0 where
  connection : PeerState → PcEvent
  ice : PcEvent
  gathering : (complete : Bool) → PcEvent
  track : (ssrc : Option ℕ) → PcEvent

-- What the title bar is told.
pub data Status : Type 0 where
  status_connected status_disconnected : Status

pub data NetError : Type 0 where
  closed_during_gathering driver_stopped connection_lost could_not_connect closed_by_server :
      NetError

-- What is handed to the two channels, as bytes, and to the track: a PLI, with the time at which it is
-- sent and whether a new track is the reason. A `reader` is the task that reads a track.
pub data Output : Type 0 where
  control_frame : List ℕ → Output
  mouse_frame : List ℕ → Output
  pli : (at : ℕ) (new_track : Bool) (ssrc : ℕ) → Output
  told : Status → Output
  reader : Output

-- `PLI_INTERVAL`, in milliseconds.
abbrev pub pli_interval : ℕ
pli_interval = 250

-- `LoopState` with the variables of the loop. An instant is a number of milliseconds.
pub record Net : Type 0 where
  pub video : Option ℕ
  pub connected_once : Bool
  pub last_pli : ℕ
  pub latest_mouse : Option MouseMove
  pub out : List Output

-- The loop's variables when it starts: `last_pli` lies one interval back.
unfoldable pub start : (now : ℕ) → Net
start now = record {
  video = none;
  connected_once = false;
  last_pli = now - pli_interval;
  latest_mouse = none;
  out = [];
}

unfoldable pub emit : Net → Output → Net
emit n o = record n { out = n.out ++ o ∷ [] }

unfoldable pub on_peer_state : PeerState → Net → Result NetError Net
unfolding emit
on_peer_state connected n = ok (emit (record n { connected_once = true }) (told status_connected))
on_peer_state disconnected n = ok (emit n (told status_disconnected))
on_peer_state failed n = err (if n.connected_once then connection_lost else could_not_connect)
on_peer_state closed n = err closed_by_server
on_peer_state connection_new n = ok n
on_peer_state connecting n = ok n

-- A track without an SSRC leaves the video as it is.
unfoldable pub with_video : Option ℕ → Net → Net
with_video none n = n
with_video (some ssrc) n = record n { video = some ssrc }

-- The `if let Some((track, ssrc)) = &state.video` after a new track.
unfoldable pub pli_for_track : (now : ℕ) → Option ℕ → Net → Net
unfolding emit
pli_for_track now none n = n
pli_for_track now (some ssrc) n = emit (record n { last_pli = now }) (pli now true ssrc)

-- `on_event`, with the PLI that its caller sends for a new track.
unfoldable pub on_event : (now : ℕ) → PcEvent → Net → Result NetError Net
unfolding on_peer_state with_video pli_for_track
on_event now (connection s) n = on_peer_state s n
on_event now ice n = ok n
on_event now (gathering complete) n = ok n
on_event now (track ssrc) n =
    let m = emit (with_video ssrc n) reader in ok (pli_for_track now m.video m)

-- A request for a keyframe, from the decoder or from the reader of a track.
unfoldable pub request_pli : (now : ℕ) → Option ℕ → Net → Net
unfolding emit
request_pli now none n = n
request_pli now (some ssrc) n =
    if leb pli_interval (now - n.last_pli)
    then emit (record n { last_pli = now }) (pli now false ssrc)
    else n

-- The branches of `select!`. The sender of `events_rx` and of `ui_rx` may be gone, that of `req_rx`
-- too; `kf_rx` has a sender as long as the loop runs.
pub data LoopEvent : Type 0 where
  peer : Option PcEvent → LoopEvent
  ui : Option UiCommand → LoopEvent
  mouse_tick : LoopEvent
  decoder_request : Option (Unit {0}) → LoopEvent
  reader_request : LoopEvent

pub data Flow : Type 0 where
  going : Net → Flow
  left : Net → Flow
  bailed : NetError → Net → Flow

unfoldable pub flow_of : Net → Result NetError Net → Flow
flow_of n (ok m) = going m
flow_of n (err e) = bailed e n

unfoldable pub on_ui : Option UiCommand → Net → Flow
unfolding emit
on_ui none n = left n
on_ui (some quit) n = left n
on_ui (some (control msg)) n = going (emit n (control_frame (Message.encode msg)))
on_ui (some (mouse m)) n = going (record n { latest_mouse = some m })

-- `latest_mouse.take()`, and the send of what it held.
unfoldable pub flush_mouse : Option MouseMove → Net → Net
unfolding emit
flush_mouse none n = n
flush_mouse (some m) n = emit (record n { latest_mouse = none }) (mouse_frame (MouseMove.encode m))

unfoldable pub select : (now : ℕ) → LoopEvent → Net → Flow
unfolding flow_of on_event on_ui flush_mouse request_pli
select now (peer none) n = bailed driver_stopped n
select now (peer (some ev)) n = flow_of n (on_event now ev n)
select now (ui cmd) n = on_ui cmd n
select now mouse_tick n = going (flush_mouse n.latest_mouse n)
select now (decoder_request none) n = going n
select now (decoder_request (some t)) n = going (request_pli now n.video n)
select now reader_request n = going (request_pli now n.video n)

-- What comes after a step that leaves the loop going.
unfoldable pub flow_then : Flow → (Net → Flow) → Flow
flow_then (going n) f = f n
flow_then (left n) f = left n
flow_then (bailed e n) f = bailed e n

-- The loop, on the events that come with their times: it stops at the first that ends it.
unfoldable pub run_loop : List (ℕ × LoopEvent) → Net → Flow
unfolding select flow_then
run_loop [] n = going n
run_loop (e ∷ es) n = flow_then (select e.0 e.1 n) (run_loop es)

-- The events that came while the candidates were gathered.
unfoldable pub drain_pending : (now : ℕ) → List PcEvent → Net → Flow
unfolding flow_of on_event flow_then
drain_pending now [] n = going n
drain_pending now (ev ∷ evs) n = flow_then (flow_of n (on_event now ev n)) (drain_pending now evs)

-- After `break`, everything is released; an error returns before that.
unfoldable pub finish : Flow → Flow
unfolding emit
finish (going n) = going n
finish (left n) = left (emit n (control_frame (Message.encode ControlMessage.release_all)))
finish (bailed e n) = bailed e n

-- `run` from the first event on: the pending ones at the time `now`, then those of the loop.
unfoldable pub run : (now : ℕ) → List PcEvent → List (ℕ × LoopEvent) → Flow
unfolding start drain_pending run_loop finish
run now pending events =
    finish (flow_then (drain_pending now pending (start now)) (run_loop events))

-- Waiting for the candidates: an event, the end of the events, or the timeout.
pub data GatherEvent : Type 0 where
  received : PcEvent → GatherEvent
  no_more : GatherEvent
  timed_out : GatherEvent

-- The events that are kept for later, or none when the list ends before the wait does.
unfoldable pub gather_loop :
    List GatherEvent → (pending : List PcEvent) → Option (Result NetError (List PcEvent))
gather_loop [] pending = none
gather_loop (received (gathering true) ∷ es) pending = some (ok pending)
gather_loop (received (gathering false) ∷ es) pending = gather_loop es pending
gather_loop (received ice ∷ es) pending = gather_loop es (pending ++ ice ∷ [])
gather_loop (received (connection s) ∷ es) pending = gather_loop es (pending ++ connection s ∷ [])
gather_loop (received (track ssrc) ∷ es) pending = gather_loop es (pending ++ track ssrc ∷ [])
gather_loop (no_more ∷ es) pending = some (err closed_during_gathering)
gather_loop (timed_out ∷ es) pending = some (ok pending)

-- The events of the control channel, and what its task sends.
pub data ChannelEvent : Type 0 where
  on_open on_close on_error on_other : ChannelEvent

-- `proto::PROTOCOL_VERSION`.
abbrev pub protocol_version : ℕ
protocol_version = 1

unfoldable pub greeting : (bitrate_kbps : Option ℕ) → List (List ℕ)
greeting none = Message.encode (hello protocol_version) ∷ []
greeting (some kbps) =
    Message.encode (hello protocol_version) ∷ Message.encode (set_bitrate kbps) ∷ []

unfoldable pub control_task : (bitrate_kbps : Option ℕ) → List ChannelEvent → List (List ℕ)
unfolding greeting
control_task kbps [] = []
control_task kbps (on_open ∷ es) = greeting kbps ++ control_task kbps es
control_task kbps (on_close ∷ es) = []
control_task kbps (on_error ∷ es) = []
control_task kbps (on_other ∷ es) = control_task kbps es
