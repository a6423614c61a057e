-- ===== src/Client/Net/Mouse.antt =====
-- The mouse channel: positions are coalesced, and a tick sends the latest one.
use vmscren_share.Prelude.{
  ℕ, ◌-◌, ◌≡◌, refl, ap, ◌∙◌, subst, Bool, true, false, leb, if◌then◌else◌, Option, none, some,
  List, [], ◌∷◌, ◌++◌,
}
use vmscren_share.Prelude.Result.{Result, ok, err}
use vmscren_share.Proto.MouseMove
use vmscren_share.Proto.MouseMove.{MouseMove}
use vmscren_share.Client.Messages.{control, mouse, quit}
use vmscren_share.Client.Net.{
  connection_new, connecting, connected, disconnected, failed, closed, PcEvent, connection, ice,
  gathering, track, NetError, Output, control_frame, mouse_frame, pli, told, reader, pli_interval,
  Net, start, emit, on_peer_state, with_video, pli_for_track, on_event, request_pli, LoopEvent,
  peer, ui, mouse_tick, decoder_request, reader_request, Flow, going, left, bailed, flow_of, on_ui,
  flush_mouse, select, flow_then, run_loop, drain_pending,
}
use vmscren_share.Client.Net.Frames.{net_of}
use vmscren_share.Client.Net.Pli.{loop_from}

-- The last frame of the mouse channel, or `before` if there is none.
unfoldable pub last_frame : (before : Option (List ℕ)) → List Output → Option (List ℕ)
last_frame before [] = before
last_frame before (mouse_frame bytes ∷ os) = last_frame (some bytes) os
last_frame before (control_frame bytes ∷ os) = last_frame before os
last_frame before (pli at new_track ssrc ∷ os) = last_frame before os
last_frame before (told s ∷ os) = last_frame before os
last_frame before (reader ∷ os) = last_frame before os

-- The last position of the window, encoded, or `before` if there is none.
unfoldable pub last_position : (before : Option (List ℕ)) → List (ℕ × LoopEvent) → Option (List ℕ)
last_position before [] = before
last_position before ((at, ui (some (mouse m))) ∷ es) = last_position (some (MouseMove.encode m)) es
last_position before (e ∷ es) = last_position before es

-- The position that the loop stands at: the one that waits, or else the one that was sent last.
position_of : Option MouseMove → List Output → Option (List ℕ)
position_of (some m) os = some (MouseMove.encode m)
position_of none os = last_frame none os

abbrev position : Net → Option (List ℕ)
position n = position_of n.latest_mouse n.out

last_frame-append :
    (before : Option (List ℕ)) (os : List Output) (o : Output)
    → last_frame before (os ++ o ∷ []) ≡ last_frame (last_frame before os) (o ∷ [])
unfolding last_frame
last_frame-append before [] o = refl
last_frame-append before (mouse_frame bytes ∷ os) o = last_frame-append (some bytes) os o
last_frame-append before (control_frame bytes ∷ os) o = last_frame-append before os o
last_frame-append before (pli at new_track ssrc ∷ os) o = last_frame-append before os o
last_frame-append before (told s ∷ os) o = last_frame-append before os o
last_frame-append before (reader ∷ os) o = last_frame-append before os o

-- An output for another channel.
other-position :
    (m : Option MouseMove) (os : List Output) (o : Output)
    → ((b : Option (List ℕ)) → last_frame b (o ∷ []) ≡ b)
    → position_of m (os ++ o ∷ []) ≡ position_of m os
unfolding position_of
other-position (some m) os o h = refl
other-position none os o h = last_frame-append none os o ∙ h (last_frame none os)

flush_mouse-position :
    (m : Option MouseMove) (n : Net)
    → n.latest_mouse ≡ m
    → (position (flush_mouse m n) ≡ position_of m n.out)
      × (last_frame none (flush_mouse m n).out ≡ position_of m n.out)
unfolding flush_mouse emit position_of last_frame
flush_mouse-position none n e = (rw e refl, refl)
flush_mouse-position (some m) n e = (
  last_frame-append none n.out (mouse_frame (MouseMove.encode m)),
  last_frame-append none n.out (mouse_frame (MouseMove.encode m)),
)

request_pli-position :
    (now : ℕ) (v : Option ℕ) (n : Net) → position (request_pli now v n) ≡ position n
unfolding request_pli emit last_frame
request_pli-position now none n = refl
request_pli-position now (some ssrc) n = by_age (leb pli_interval (now - n.last_pli))
  where
    by_age :
        (due : Bool)
        → position (if due then emit (record n { last_pli = now }) (pli now false ssrc) else n)
          ≡ position n
    by_age true = other-position n.latest_mouse n.out (pli now false ssrc) (λ b. refl)
    by_age false = refl

pli_for_track-position :
    (now : ℕ) (v : Option ℕ) (n : Net) → position (pli_for_track now v n) ≡ position n
unfolding pli_for_track emit last_frame
pli_for_track-position now none n = refl
pli_for_track-position now (some ssrc) n =
    other-position n.latest_mouse n.out (pli now true ssrc) (λ b. refl)

with_video-position : (v : Option ℕ) (n : Net) → position (with_video v n) ≡ position n
unfolding with_video
with_video-position none n = refl
with_video-position (some ssrc) n = refl

-- A result or a flow that leaves the loop where it stood.
abbrev Kept : Option (List ℕ) → Result NetError Net → Type 0
Kept p (ok n) = position n ≡ p
Kept p (err e) = Unit

on_event-Kept : (now : ℕ) (ev : PcEvent) (n : Net) → Kept (position n) (on_event now ev n)
unfolding on_event on_peer_state emit last_frame
on_event-Kept now (connection connected) n =
    other-position n.latest_mouse n.out (told _) (λ b. refl)
on_event-Kept now (connection disconnected) n =
    other-position n.latest_mouse n.out (told _) (λ b. refl)
on_event-Kept now (connection failed) n = tt
on_event-Kept now (connection closed) n = tt
on_event-Kept now (connection connection_new) n = refl
on_event-Kept now (connection connecting) n = refl
on_event-Kept now ice n = refl
on_event-Kept now (gathering complete) n = refl
on_event-Kept now (track ssrc) n =
    let v = with_video ssrc n in
    let m = emit v reader in
    pli_for_track-position now m.video m
    ∙ other-position v.latest_mouse v.out reader (λ b. refl)
    ∙ with_video-position ssrc n

-- A flow that goes on from a given position.
abbrev Stands : Option (List ℕ) → Flow → Type 0
Stands p (going n) = position n ≡ p
Stands p (left n) = Unit
Stands p (bailed e n) = Unit

flow_of-Stands :
    (p : Option (List ℕ)) (n : Net) (r : Result NetError Net) → Kept p r → Stands p (flow_of n r)
unfolding flow_of
flow_of-Stands p n (ok m) k = k
flow_of-Stands p n (err e) k = tt

select-Stands :
    (now : ℕ) (e : LoopEvent) (n : Net)
    → Stands (last_position (position n) ((now, e) ∷ [])) (select now e n)
unfolding select on_ui last_position emit last_frame
select-Stands now (peer none) n = tt
select-Stands now (peer (some ev)) n =
    flow_of-Stands (position n) n (on_event now ev n) (on_event-Kept now ev n)
select-Stands now (ui none) n = tt
select-Stands now (ui (some quit)) n = tt
select-Stands now (ui (some (control m))) n =
    other-position n.latest_mouse n.out (control_frame _) (λ b. refl)
select-Stands now (ui (some (mouse m))) n = unfold position_of in refl
select-Stands now mouse_tick n = (flush_mouse-position n.latest_mouse n refl).0
select-Stands now (decoder_request none) n = refl
select-Stands now (decoder_request (some u)) n = request_pli-position now n.video n
select-Stands now reader_request n = request_pli-position now n.video n

last_position-cons :
    (p : Option (List ℕ)) (e : ℕ × LoopEvent) (es : List (ℕ × LoopEvent))
    → last_position p (e ∷ es) ≡ last_position (last_position p (e ∷ [])) es
unfolding last_position
last_position-cons p (now, peer ev) es = refl
last_position-cons p (now, ui none) es = refl
last_position-cons p (now, ui (some quit)) es = refl
last_position-cons p (now, ui (some (control m))) es = refl
last_position-cons p (now, ui (some (mouse m))) es = refl
last_position-cons p (now, mouse_tick) es = refl
last_position-cons p (now, decoder_request r) es = refl
last_position-cons p (now, reader_request) es = refl

run_loop-Stands :
    (es : List (ℕ × LoopEvent)) (n : Net) → Stands (last_position (position n) es) (run_loop es n)
unfolding run_loop
run_loop-Stands [] n = unfold last_position in refl
run_loop-Stands ((now, e) ∷ es) n =
    rw (last_position-cons (position n) (now, e) es)
      (onwards (select now e n) (select-Stands now e n) (run_loop-Stands es))
  where
    onwards :
        (f : Flow)
        → Stands (last_position (position n) ((now, e) ∷ [])) f
        → ((m : Net) → Stands (last_position (position m) es) (run_loop es m))
        → Stands
            (last_position (last_position (position n) ((now, e) ∷ [])) es)
            (flow_then f (run_loop es))
    onwards (going m) s rest = rw⁻¹ s (rest m)
    onwards (left m) s rest = tt
    onwards (bailed error m) s rest = tt

drain_pending-Stands :
    (now : ℕ) (evs : List PcEvent) (n : Net) → Stands (position n) (drain_pending now evs n)
unfolding drain_pending
drain_pending-Stands now [] n = refl
drain_pending-Stands now (ev ∷ evs) n =
    onwards (flow_of n (on_event now ev n))
      (flow_of-Stands (position n) n (on_event now ev n) (on_event-Kept now ev n))
      (drain_pending-Stands now evs)
  where
    onwards :
        (f : Flow)
        → Stands (position n) f
        → ((m : Net) → Stands (position m) (drain_pending now evs m))
        → Stands (position n) (flow_then f (drain_pending now evs))
    onwards (going m) s rest = rw⁻¹ s (rest m)
    onwards (left m) s rest = tt
    onwards (bailed error m) s rest = tt

-- In a session that still goes, a tick leaves the window's last position, encoded, as the last frame
-- of the mouse channel, or no frame if the window has sent no position.
pub tick_sends_latest :
    (now at : ℕ) (pending : List PcEvent) (es : List (ℕ × LoopEvent)) (n : Net)
    → loop_from now pending es ≡ going n
    → last_frame none (net_of (select at mouse_tick n)).out ≡ last_position none es
unfolding select start position_of last_frame flow_then run_loop
tick_sends_latest now at pending es n reached =
    (flush_mouse-position n.latest_mouse n refl).1
    ∙ stands (drain_pending now pending (start now)) (drain_pending-Stands now pending (start now))
        reached
  where
    stands :
        (f : Flow)
        → Stands none f
        → flow_then f (run_loop es) ≡ going n
        → position n ≡ last_position none es
    stands (going m) s e =
        let here : Stands (last_position (position m) es) (going n) =
          subst (Stands (last_position (position m) es)) e (run_loop-Stands es m) in
        here ∙ ap (λ p. last_position p es) s
    stands (left m) s e = cc
    stands (bailed error m) s e = cc
