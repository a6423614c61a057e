-- ===== src/Client/Net/Pli.antt =====
-- Keyframe requests: how close together the PLIs are, and that a request is answered by one.
use vmscren_share.Prelude.{
  ℕ, ◌+◌, ◌-◌, ◌≤◌, ◌≡◌, refl, sym, ◌∙◌, subst, Bool, true, false, ◌&&◌, ◌||◌, leb, ltb, Option,
  none, some, List, [], ◌∷◌, ◌++◌, Bool-cases, inl, inr, arith,
}
use vmscren_share.Prelude.Result.{Result, ok, err}
use vmscren_share.Proto.MouseMove.{MouseMove}
use vmscren_share.Client.Messages.{control, mouse, quit}
use vmscren_share.Client.Net.{
  connection_new, connecting, connected, disconnected, failed, closed, PcEvent, connection, ice,
  gathering, track, NetError, Output, control_frame, mouse_frame, pli, told, reader, pli_interval,
  Net, start, emit, on_peer_state, with_video, pli_for_track, on_event, request_pli, LoopEvent,
  peer, ui, mouse_tick, decoder_request, reader_request, Flow, going, left, bailed, flow_of, on_ui,
  flush_mouse, select, flow_then, run_loop, drain_pending, finish, run,
}
use vmscren_share.Client.Net.Frames.{net_of}

-- Each PLI that no new track is the reason of comes at least an interval after the one before it, or
-- after `last` if it is the first.
unfoldable pub spaced : (last : ℕ) → List Output → Bool
spaced last [] = true
spaced last (pli at new_track ssrc ∷ os) =
    (new_track || leb (last + pli_interval) at) && spaced at os
spaced last (control_frame bytes ∷ os) = spaced last os
spaced last (mouse_frame bytes ∷ os) = spaced last os
spaced last (told s ∷ os) = spaced last os
spaced last (reader ∷ os) = spaced last os

-- When the last PLI was sent.
unfoldable last_of : ℕ → List Output → ℕ
last_of last [] = last
last_of last (pli at new_track ssrc ∷ os) = last_of at os
last_of last (control_frame bytes ∷ os) = last_of last os
last_of last (mouse_frame bytes ∷ os) = last_of last os
last_of last (told s ∷ os) = last_of last os
last_of last (reader ∷ os) = last_of last os

-- A PLI that was sent less than an interval before `now`.
unfoldable pub recent : (now : ℕ) → List Output → Bool
recent now [] = false
recent now (pli at new_track ssrc ∷ os) = ltb (now - at) pli_interval || recent now os
recent now (control_frame bytes ∷ os) = recent now os
recent now (mouse_frame bytes ∷ os) = recent now os
recent now (told s ∷ os) = recent now os
recent now (reader ∷ os) = recent now os

-- The clock of the loop is that of its last PLI, and its PLIs are far enough apart.
record OnTime (first : ℕ) (n : Net) : Type 0 where
  apart : spaced first n.out ≡ true
  clock : n.last_pli ≡ last_of first n.out

spaced-append :
    (last : ℕ) (os : List Output) (o : Output)
    → spaced last os ≡ true
    → spaced (last_of last os) (o ∷ []) ≡ true
    → spaced last (os ++ o ∷ []) ≡ true
unfolding spaced last_of
spaced-append last [] o h k = k
spaced-append last (pli at true ssrc ∷ os) o h k = spaced-append at os o h k
spaced-append last (pli at false ssrc ∷ os) o h k = ground (arith, spaced-append at os o, h, k)
spaced-append last (control_frame bytes ∷ os) o h k = spaced-append last os o h k
spaced-append last (mouse_frame bytes ∷ os) o h k = spaced-append last os o h k
spaced-append last (told s ∷ os) o h k = spaced-append last os o h k
spaced-append last (reader ∷ os) o h k = spaced-append last os o h k

last_of-append :
    (last : ℕ) (os : List Output) (o : Output)
    → last_of last (os ++ o ∷ []) ≡ last_of (last_of last os) (o ∷ [])
unfolding last_of
last_of-append last [] o = refl
last_of-append last (pli at new_track ssrc ∷ os) o = last_of-append at os o
last_of-append last (control_frame bytes ∷ os) o = last_of-append last os o
last_of-append last (mouse_frame bytes ∷ os) o = last_of-append last os o
last_of-append last (told s ∷ os) o = last_of-append last os o
last_of-append last (reader ∷ os) o = last_of-append last os o

recent-append :
    (now : ℕ) (os : List Output) (o : Output)
    → recent now (o ∷ []) ≡ true
    → recent now (os ++ o ∷ []) ≡ true
unfolding recent
recent-append now [] o h = h
recent-append now (pli at new_track ssrc ∷ os) o h = ground (arith, recent-append now os o h)
recent-append now (control_frame bytes ∷ os) o h = recent-append now os o h
recent-append now (mouse_frame bytes ∷ os) o h = recent-append now os o h
recent-append now (told s ∷ os) o h = recent-append now os o h
recent-append now (reader ∷ os) o h = recent-append now os o h

-- A recent last PLI is a PLI.
recent_last :
    (now last : ℕ) (os : List Output)
    → pli_interval ≤ now - last
    → ltb (now - last_of last os) pli_interval ≡ true
    → recent now os ≡ true
unfolding recent last_of
recent_last now last [] old h = absurd (ground arith)
recent_last now last (pli at new_track ssrc ∷ os) old h =
    elim (Bool-cases (ltb (now - at) pli_interval)) [
      | inl young ↦ rw young refl
      | inr older ↦ rw older (recent_last now at os (ground arith) h)
    ]
recent_last now last (control_frame bytes ∷ os) old h = recent_last now last os old h
recent_last now last (mouse_frame bytes ∷ os) old h = recent_last now last os old h
recent_last now last (told s ∷ os) old h = recent_last now last os old h
recent_last now last (reader ∷ os) old h = recent_last now last os old h

-- An output that is no PLI.
other-OnTime :
    (first : ℕ) (n : Net) (o : Output)
    → ((last : ℕ) → (spaced last (o ∷ []) ≡ true) × (last_of last (o ∷ []) ≡ last))
    → OnTime first n
    → OnTime first (emit n o)
unfolding emit
other-OnTime first n o h t = record {
  apart = spaced-append first n.out o t.apart (h (last_of first n.out)).0;
  clock = t.clock ∙ sym (last_of-append first n.out o ∙ (h (last_of first n.out)).1);
}

-- A PLI that comes late enough, or for a new track.
pli-OnTime :
    (first now : ℕ) (new_track : Bool) (ssrc : ℕ) (n : Net)
    → (new_track || leb (n.last_pli + pli_interval) now) ≡ true
    → OnTime first n
    → OnTime first (emit (record n { last_pli = now }) (pli now new_track ssrc))
unfolding emit spaced last_of
pli-OnTime first now new_track ssrc n due t = record {
  apart = spaced-append first n.out (pli now new_track ssrc) t.apart (rw⁻¹ t.clock (rw due refl));
  clock = sym (last_of-append first n.out (pli now new_track ssrc));
}

request_pli-OnTime :
    (first now : ℕ) (v : Option ℕ) (n : Net) → OnTime first n → OnTime first (request_pli now v n)
unfolding request_pli
request_pli-OnTime first now none n t = t
request_pli-OnTime first now (some ssrc) n t =
    elim (Bool-cases (leb pli_interval (now - n.last_pli))) [
      | inl due ↦
          let late : leb (n.last_pli + pli_interval) now ≡ true = ground arith in
          rw due (pli-OnTime first now false ssrc n late t)
      | inr early ↦ rw early t
    ]

pli_for_track-OnTime :
    (first now : ℕ) (v : Option ℕ) (n : Net) → OnTime first n → OnTime first (pli_for_track now v n)
unfolding pli_for_track
pli_for_track-OnTime first now none n t = t
pli_for_track-OnTime first now (some ssrc) n t = pli-OnTime first now true ssrc n refl t

flush_mouse-OnTime :
    (first : ℕ) (m : Option MouseMove) (n : Net) → OnTime first n → OnTime first (flush_mouse m n)
unfolding flush_mouse spaced last_of
flush_mouse-OnTime first none n t = t
flush_mouse-OnTime first (some m) n t =
    other-OnTime first (record n { latest_mouse = none }) (mouse_frame _) (λ last. (refl, refl))
      (record { apart = t.apart; clock = t.clock })

with_video-OnTime :
    (first : ℕ) (v : Option ℕ) (n : Net) → OnTime first n → OnTime first (with_video v n)
unfolding with_video
with_video-OnTime first none n t = t
with_video-OnTime first (some ssrc) n t = record { apart = t.apart; clock = t.clock }

abbrev ResultOnTime : ℕ → Result NetError Net → Type 0
ResultOnTime first (ok n) = OnTime first n
ResultOnTime first (err e) = Unit

on_event-OnTime :
    (first now : ℕ) (ev : PcEvent) (n : Net)
    → OnTime first n
    → ResultOnTime first (on_event now ev n)
unfolding on_event on_peer_state spaced last_of
on_event-OnTime first now (connection connected) n t =
    other-OnTime first (record n { connected_once = true }) (told _) (λ last. (refl, refl))
      (record { apart = t.apart; clock = t.clock })
on_event-OnTime first now (connection disconnected) n t =
    other-OnTime first n (told _) (λ last. (refl, refl)) t
on_event-OnTime first now (connection failed) n t = tt
on_event-OnTime first now (connection closed) n t = tt
on_event-OnTime first now (connection connection_new) n t = t
on_event-OnTime first now (connection connecting) n t = t
on_event-OnTime first now ice n t = t
on_event-OnTime first now (gathering complete) n t = t
on_event-OnTime first now (track ssrc) n t =
    let m = emit (with_video ssrc n) reader in
    pli_for_track-OnTime first now m.video m (
      other-OnTime first (with_video ssrc n) reader (λ last. (refl, refl))
        (with_video-OnTime first ssrc n t))

flow_of-OnTime :
    (first : ℕ) (n : Net) (r : Result NetError Net)
    → OnTime first n
    → ResultOnTime first r
    → OnTime first (net_of (flow_of n r))
unfolding flow_of
flow_of-OnTime first n (ok m) t s = s
flow_of-OnTime first n (err e) t s = t

select-OnTime :
    (first now : ℕ) (e : LoopEvent) (n : Net)
    → OnTime first n
    → OnTime first (net_of (select now e n))
unfolding select on_ui spaced last_of
select-OnTime first now (peer none) n t = t
select-OnTime first now (peer (some ev)) n t =
    flow_of-OnTime first n (on_event now ev n) t (on_event-OnTime first now ev n t)
select-OnTime first now (ui none) n t = t
select-OnTime first now (ui (some quit)) n t = t
select-OnTime first now (ui (some (control m))) n t =
    other-OnTime first n (control_frame _) (λ last. (refl, refl)) t
select-OnTime first now (ui (some (mouse m))) n t = record { apart = t.apart; clock = t.clock }
select-OnTime first now mouse_tick n t = flush_mouse-OnTime first n.latest_mouse n t
select-OnTime first now (decoder_request none) n t = t
select-OnTime first now (decoder_request (some u)) n t = request_pli-OnTime first now n.video n t
select-OnTime first now reader_request n t = request_pli-OnTime first now n.video n t

flow_then-OnTime :
    (first : ℕ) (f : Flow) (g : Net → Flow)
    → OnTime first (net_of f)
    → ((n : Net) → OnTime first n → OnTime first (net_of (g n)))
    → OnTime first (net_of (flow_then f g))
unfolding flow_then
flow_then-OnTime first (going n) g t h = h n t
flow_then-OnTime first (left n) g t h = t
flow_then-OnTime first (bailed e n) g t h = t

run_loop-OnTime :
    (first : ℕ) (es : List (ℕ × LoopEvent)) (n : Net)
    → OnTime first n
    → OnTime first (net_of (run_loop es n))
unfolding run_loop
run_loop-OnTime first [] n t = t
run_loop-OnTime first (e ∷ es) n t =
    flow_then-OnTime first (select e.0 e.1 n) (run_loop es) (select-OnTime first e.0 e.1 n t)
      (run_loop-OnTime first es)

drain_pending-OnTime :
    (first now : ℕ) (evs : List PcEvent) (n : Net)
    → OnTime first n
    → OnTime first (net_of (drain_pending now evs n))
unfolding drain_pending
drain_pending-OnTime first now [] n t = t
drain_pending-OnTime first now (ev ∷ evs) n t =
    flow_then-OnTime first (flow_of n (on_event now ev n)) (drain_pending now evs)
      (flow_of-OnTime first n (on_event now ev n) t (on_event-OnTime first now ev n t))
      (drain_pending-OnTime first now evs)

finish-OnTime : (first : ℕ) (f : Flow) → OnTime first (net_of f) → OnTime first (net_of (finish f))
unfolding finish spaced last_of
finish-OnTime first (going n) t = t
finish-OnTime first (left n) t = other-OnTime first n (control_frame _) (λ last. (refl, refl)) t
finish-OnTime first (bailed e n) t = t

-- The loop before it finishes, from the events that were pending on.
abbrev pub loop_from : (now : ℕ) → List PcEvent → List (ℕ × LoopEvent) → Flow
loop_from now pending es = flow_then (drain_pending now pending (start now)) (run_loop es)

loop_from-OnTime :
    (now : ℕ) (pending : List PcEvent) (es : List (ℕ × LoopEvent))
    → OnTime (now - pli_interval) (net_of (loop_from now pending es))
unfolding start spaced last_of
loop_from-OnTime now pending es =
    flow_then-OnTime (now - pli_interval) (drain_pending now pending (start now)) (run_loop es)
      (drain_pending-OnTime (now - pli_interval) now pending (start now)
        (record { apart = refl; clock = refl }))
      (run_loop-OnTime (now - pli_interval) es)

-- In a whole session, two PLIs are at least 250 ms apart, unless the later one is for a new track.
pub run-spaced :
    (now : ℕ) (pending : List PcEvent) (es : List (ℕ × LoopEvent))
    → spaced (now - pli_interval) (net_of (run now pending es)).out ≡ true
unfolding run
run-spaced now pending es =
    (finish-OnTime (now - pli_interval) (loop_from now pending es)
      (loop_from-OnTime now pending es)).apart

answered :
    (first now : ℕ) (ssrc : ℕ) (n : Net)
    → OnTime first n
    → pli_interval ≤ now - first
    → recent now (request_pli now (some ssrc) n).out ≡ true
unfolding request_pli emit recent
answered first now ssrc n t old = elim (Bool-cases (leb pli_interval (now - n.last_pli))) [
  | inl due ↦ rw due (recent-append now n.out (pli now false ssrc) (ground arith))
  | inr early ↦
      let clock = t.clock in
      let young : ltb (now - last_of first n.out) pli_interval ≡ true = ground arith in
      rw early (recent_last now first n.out old young)
]

-- A request for a keyframe is answered: once there is a video, whatever has happened before, a
-- request that the decoder or a reader makes at a time `at` finds or makes a PLI that is less than
-- 250 ms old. The clock does not run backwards, and was at 250 ms or later at the start.
pub request-answered :
    (now at ssrc : ℕ) (pending : List PcEvent) (es : List (ℕ × LoopEvent)) (n : Net)
    → pli_interval ≤ now
    → now ≤ at
    → loop_from now pending es ≡ going n
    → n.video ≡ some ssrc
    → (recent at (net_of (select at (decoder_request (some tt)) n)).out ≡ true)
      × (recent at (net_of (select at reader_request n)).out ≡ true)
unfolding select
request-answered now at ssrc pending es n started later reached video =
    let t = rw reached at (loop_from-OnTime now pending es) in
    let made = answered (now - pli_interval) at ssrc n t (omega arith) in
    let served = subst (λ v. recent at (request_pli at v n).out ≡ true) (sym video) made in
    (served, served)
