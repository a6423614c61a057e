-- ===== src/Client/Net/Frames.antt =====
-- The control channel: which frames the loop sends on it.
use vmscren_share.Prelude.{
  ℕ, append_nil, append_assoc, ◌≡◌, refl, sym, ap, ◌∙◌, Bool, true, false, leb, ◌-◌, if◌then◌else◌,
  Option, none, some, List, [], ◌∷◌, ◌++◌, map,
}
use vmscren_share.Prelude.Result.{Result, ok, err}
use vmscren_share.Proto.Message
use vmscren_share.Proto.Message.{ControlMessage}
use vmscren_share.Proto.MouseMove.{MouseMove}
use vmscren_share.Client.Messages.{control, mouse, quit}
use vmscren_share.Client.Net.{
  connection_new, connecting, connected, disconnected, failed, closed, PcEvent, connection, ice,
  gathering, track, NetError, Output, control_frame, mouse_frame, pli, told, reader, pli_interval,
  Net, start, emit, on_peer_state, with_video, pli_for_track, on_event, request_pli, LoopEvent,
  peer, ui, mouse_tick, decoder_request, reader_request, Flow, going, left, bailed, flow_of, on_ui,
  flush_mouse, select, flow_then, run_loop, drain_pending, finish, run,
}

-- The frames of the control channel, in order.
unfoldable pub frames : List Output → List (List ℕ)
frames [] = []
frames (control_frame bytes ∷ os) = bytes ∷ frames os
frames (mouse_frame bytes ∷ os) = frames os
frames (pli at new_track ssrc ∷ os) = frames os
frames (told s ∷ os) = frames os
frames (reader ∷ os) = frames os

-- An event of the peer connection that ends the session.
unfoldable pub fails : PcEvent → Bool
fails (connection failed) = true
fails (connection closed) = true
fails _ = false

-- The control messages that a session sends, told from its events alone: those of the window until
-- the session ends, and a last `release_all` if it was the window that ended it.
unfoldable pub controls : List (ℕ × LoopEvent) → List ControlMessage
unfolding fails
controls [] = []
controls ((at, peer none) ∷ es) = []
controls ((at, peer (some ev)) ∷ es) = if fails ev then [] else controls es
controls ((at, ui none) ∷ es) = ControlMessage.release_all ∷ []
controls ((at, ui (some quit)) ∷ es) = ControlMessage.release_all ∷ []
controls ((at, ui (some (control m))) ∷ es) = m ∷ controls es
controls ((at, ui (some (mouse m))) ∷ es) = controls es
controls ((at, mouse_tick) ∷ es) = controls es
controls ((at, decoder_request r) ∷ es) = controls es
controls ((at, reader_request) ∷ es) = controls es

unfoldable pub controls_after :
    (pending : List PcEvent) → List (ℕ × LoopEvent) → List ControlMessage
unfolding controls
controls_after [] es = controls es
controls_after (ev ∷ evs) es = if fails ev then [] else controls_after evs es

-- The state in which a flow stands.
abbrev pub net_of : Flow → Net
net_of (going n) = n
net_of (left n) = n
net_of (bailed e n) = n

frames-append :
    (os : List Output) (o : Output) → frames (os ++ o ∷ []) ≡ frames os ++ frames (o ∷ [])
unfolding frames
frames-append [] o = refl
frames-append (control_frame bytes ∷ os) o = ap (λ fs. bytes ∷ fs) (frames-append os o)
frames-append (mouse_frame bytes ∷ os) o = frames-append os o
frames-append (pli at new_track ssrc ∷ os) o = frames-append os o
frames-append (told s ∷ os) o = frames-append os o
frames-append (reader ∷ os) o = frames-append os o

-- An output that is not for the control channel.
quiet_output : (n : Net) (o : Output) → frames (o ∷ []) ≡ [] → frames (emit n o).out ≡ frames n.out
unfolding emit
quiet_output n o h = frames-append n.out o ∙ rw h (append_nil (frames n.out))

request_pli-silent :
    (now : ℕ) (v : Option ℕ) (n : Net) → frames (request_pli now v n).out ≡ frames n.out
unfolding request_pli
request_pli-silent now none n = refl
request_pli-silent now (some ssrc) n = by_age (leb pli_interval (now - n.last_pli))
  where
    by_age :
        (due : Bool)
        → frames (if due then emit (record n { last_pli = now }) (pli now false ssrc) else n).out
          ≡ frames n.out
    by_age true =
        quiet_output (record n { last_pli = now }) (pli now false ssrc) (unfold frames in refl)
    by_age false = refl

flush_mouse-silent : (m : Option MouseMove) (n : Net) → frames (flush_mouse m n).out ≡ frames n.out
unfolding flush_mouse frames
flush_mouse-silent none n = refl
flush_mouse-silent (some m) n = quiet_output (record n { latest_mouse = none }) (mouse_frame _) refl

pli_for_track-silent :
    (now : ℕ) (v : Option ℕ) (n : Net) → frames (pli_for_track now v n).out ≡ frames n.out
unfolding pli_for_track frames
pli_for_track-silent now none n = refl
pli_for_track-silent now (some ssrc) n =
    quiet_output (record n { last_pli = now }) (pli now true ssrc) refl

with_video-silent : (v : Option ℕ) (n : Net) → (with_video v n).out ≡ n.out
unfolding with_video
with_video-silent none n = refl
with_video-silent (some ssrc) n = refl

-- What an event of the peer connection does to the control channel.
abbrev Quiet : PcEvent → Net → Result NetError Net → Type 0
Quiet ev n (ok m) = (fails ev ≡ false) × (frames m.out ≡ frames n.out)
Quiet ev n (err e) = fails ev ≡ true

on_event-Quiet : (now : ℕ) (ev : PcEvent) (n : Net) → Quiet ev n (on_event now ev n)
unfolding on_event on_peer_state fails frames
on_event-Quiet now (connection connected) n =
    (refl, quiet_output (record n { connected_once = true }) (told _) refl)
on_event-Quiet now (connection disconnected) n = (refl, quiet_output n (told _) refl)
on_event-Quiet now (connection failed) n = refl
on_event-Quiet now (connection closed) n = refl
on_event-Quiet now (connection connection_new) n = (refl, refl)
on_event-Quiet now (connection connecting) n = (refl, refl)
on_event-Quiet now ice n = (refl, refl)
on_event-Quiet now (gathering complete) n = (refl, refl)
on_event-Quiet now (track ssrc) n =
    let m = emit (with_video ssrc n) reader in
    (
      refl,
      pli_for_track-silent now m.video m
          ∙ quiet_output (with_video ssrc n) reader refl
          ∙ ap frames (with_video-silent ssrc n),
    )

-- What a turn of the loop adds to the control channel, given what is left to send before it and
-- after it; `left` has the last message still to come.
abbrev Sends : (before after : List ControlMessage) → Net → Flow → Type 0
Sends before after n (going m) =
    frames m.out ++ map Message.encode after ≡ frames n.out ++ map Message.encode before
Sends before after n (left m) =
    frames m.out ++ Message.encode ControlMessage.release_all ∷ []
    ≡ frames n.out ++ map Message.encode before
Sends before after n (bailed e m) = frames m.out ≡ frames n.out ++ map Message.encode before

peer-Sends :
    (ev : PcEvent) (after : List ControlMessage) (n : Net) (r : Result NetError Net)
    → Quiet ev n r
    → Sends (if fails ev then [] else after) after n (flow_of n r)
unfolding flow_of
peer-Sends ev after n (ok m) (fine, same) = rw (fine, same) refl
peer-Sends ev after n (err e) bad = rw bad (sym (append_nil (frames n.out)))

select-Sends :
    (now : ℕ) (e : LoopEvent) (es : List (ℕ × LoopEvent)) (n : Net)
    → Sends (controls ((now, e) ∷ es)) (controls es) n (select now e n)
unfolding select controls on_ui frames
select-Sends now (peer none) es n = sym (append_nil (frames n.out))
select-Sends now (peer (some ev)) es n =
    peer-Sends ev (controls es) n (on_event now ev n) (on_event-Quiet now ev n)
select-Sends now (ui none) es n = refl
select-Sends now (ui (some quit)) es n = refl
select-Sends now (ui (some (control m))) es n =
    rw (frames-append n.out (control_frame (Message.encode m)))
      (append_assoc (frames n.out) (Message.encode m ∷ []) (map Message.encode (controls es)))
select-Sends now (ui (some (mouse m))) es n = refl
select-Sends now mouse_tick es n = rw (flush_mouse-silent n.latest_mouse n) refl
select-Sends now (decoder_request none) es n = refl
select-Sends now (decoder_request (some t)) es n = rw (request_pli-silent now n.video n) refl
select-Sends now reader_request es n = rw (request_pli-silent now n.video n) refl

run_loop-frames :
    (es : List (ℕ × LoopEvent)) (n : Net)
    → frames (net_of (finish (run_loop es n))).out
      ≡ frames n.out ++ map Message.encode (controls es)
unfolding run_loop controls finish frames
run_loop-frames [] n = sym (append_nil (frames n.out))
run_loop-frames ((now, e) ∷ es) n =
    onwards (select now e n) (select-Sends now e es n) (run_loop-frames es)
  where
    onwards :
        (f : Flow)
        → Sends (controls ((now, e) ∷ es)) (controls es) n f
        → ((m : Net)
            → frames (net_of (finish (run_loop es m))).out
              ≡ frames m.out ++ map Message.encode (controls es))
        → frames (net_of (finish (flow_then f (run_loop es)))).out
          ≡ frames n.out ++ map Message.encode (controls ((now, e) ∷ es))
    onwards (going m) sends rest = rest m ∙ sends
    onwards (left m) sends rest =
        frames-append m.out (control_frame (Message.encode ControlMessage.release_all)) ∙ sends
    onwards (bailed error m) sends rest = sends

drain_pending-frames :
    (now : ℕ) (pending : List PcEvent) (es : List (ℕ × LoopEvent)) (n : Net)
    → frames (net_of (finish (flow_then (drain_pending now pending n) (run_loop es)))).out
      ≡ frames n.out ++ map Message.encode (controls_after pending es)
unfolding drain_pending controls_after finish frames
drain_pending-frames now [] es n = run_loop-frames es n
drain_pending-frames now (ev ∷ evs) es n =
    onwards (flow_of n (on_event now ev n))
      (peer-Sends ev (controls_after evs es) n (on_event now ev n) (on_event-Quiet now ev n))
      (drain_pending-frames now evs es)
  where
    onwards :
        (f : Flow)
        → Sends (if fails ev then [] else controls_after evs es) (controls_after evs es) n f
        → ((m : Net)
            → frames (net_of (finish (flow_then (drain_pending now evs m) (run_loop es)))).out
              ≡ frames m.out ++ map Message.encode (controls_after evs es))
        → frames
            (net_of (finish (flow_then (flow_then f (drain_pending now evs)) (run_loop es)))).out
          ≡ frames n.out ++ map Message.encode (if fails ev then [] else controls_after evs es)
    onwards (going m) sends rest = rest m ∙ sends
    onwards (left m) sends rest =
        frames-append m.out (control_frame (Message.encode ControlMessage.release_all)) ∙ sends
    onwards (bailed error m) sends rest = sends

-- The control channel carries the window's control messages, each encoded, in the order in which they
-- were sent, up to the event that ends the session. It ends with a `release_all` if that event is the
-- window's, and with none if the connection failed.
pub run-frames :
    (now : ℕ) (pending : List PcEvent) (es : List (ℕ × LoopEvent))
    → frames (net_of (run now pending es)).out ≡ map Message.encode (controls_after pending es)
unfolding run start frames
run-frames now pending es = drain_pending-frames now pending es (start now)
