-- ===== src/Server/Pipeline/Pictures.antt =====
-- Which pictures the capture loop leaves out, and that it does not panic.
use vmscren_share.Prelude.{
  ℕ, ◌-◌, ◌<◌, ◌≡◌, ◌↔◌, eq→==, lt→ltb, refl, sym, ap, ◌∙◌, subst, Bool, true, false, not, ◌&&◌,
  ltb, if◌then◌else◌, Option, none, some, List, [], ◌∷◌, and→, ==→eq, ltb→lt,
}
use vmscren_share.Prelude.Result.{Result, ok, err}
use vmscren_share.Server.Capture.{CaptureError, FrameSource, CapturedFrame, capture}
use vmscren_share.Server.Convert.{I420Frame, xrgb_to_i420}
use vmscren_share.Server.Pipeline.{Captured}
use vmscren_share.Server.Pipeline.CaptureLoop.{
  Answer, accepted, full, gone, Moment, CaptureState, Turn, idle, no_display, capture_failed,
  panicked, stopped, unchanged, sent, dropped, start, is_hash, connected, source_of, stops,
  after_send, offer_picture, on_picture, on_capture, on_source, turn, run,
}

-- The time at which a frame was sent last, told from the turns and their moments.
abbrev pub time_of : ℕ → ℕ → Turn → ℕ
time_of before now (sent c) = now
time_of before now _ = before

abbrev pub sent_at : ℕ → List Moment → List Turn → ℕ
sent_at before ms [] = before
sent_at before [] (t ∷ ts) = before
sent_at before (m ∷ ms) (t ∷ ts) = sent_at (time_of before m.now t) ms ts

-- The picture that a turn offers to the encoder.
abbrev pub offered : Turn → Option I420Frame
offered (sent c) = some c.frame
offered (dropped f) = some f
offered _ = none

-- The picture that a turn has captured.
abbrev pub pictured : Turn → Option I420Frame
pictured (unchanged f) = some f
pictured t = offered t

module _ (hash : I420Frame → ℕ) where
  -- The hash of the picture that was sent last to the client that is connected, told from the turns
  -- alone.
  unfoldable pub sent_last : Option ℕ → List Turn → Option ℕ
  sent_last h [] = h
  sent_last h (idle ∷ ts) = sent_last none ts
  sent_last h (sent c ∷ ts) = sent_last (some (hash c.frame)) ts
  sent_last h (no_display ∷ ts) = sent_last h ts
  sent_last h (capture_failed ∷ ts) = sent_last h ts
  sent_last h (panicked ∷ ts) = sent_last h ts
  sent_last h (stopped ∷ ts) = sent_last h ts
  sent_last h (unchanged f ∷ ts) = sent_last h ts
  sent_last h (dropped f ∷ ts) = sent_last h ts

  -- A picture like the one that was sent last, less than a second ago, with no keyframe asked for.
  abbrev pub Repeats : Option ℕ → ℕ → Moment → I420Frame → Type 0
  Repeats last time m f =
      (last ≡ some (hash f)) × ((m.force_keyframe ≡ false) × (m.now - time < 1000))

  -- What a turn with a client does to the state, and when it leaves a picture out.
  record Follows (m : Moment) (s : CaptureState) (r : CaptureState × Turn) : Type 0 where
    kept : r.0.was_connected ≡ s.was_connected
    hashed : r.0.last_hash ≡ sent_last s.last_hash (r.1 ∷ [])
    timed : r.0.last_sent ≡ time_of s.last_sent m.now r.1
    skips : (f : I420Frame) → r.1 ≡ unchanged f → Repeats s.last_hash s.last_sent m f
    offers : (f : I420Frame) → offered r.1 ≡ some f → Repeats s.last_hash s.last_sent m f → ⊥

  is_hash-some : (o : Option ℕ) (h : ℕ) → is_hash o h ≡ true → o ≡ some h
  is_hash-some none h e = cc
  is_hash-some (some k) h e = ap some (==→eq k h e)

  is_hash-of : (o : Option ℕ) (h : ℕ) → o ≡ some h → is_hash o h ≡ true
  is_hash-of none h e = cc
  is_hash-of (some k) h e = eq→== k h (cc)

  not-true : (b : Bool) → not b ≡ true → b ≡ false
  not-true true e = cc
  not-true false e = refl

  -- What the channel answers, for a picture that does not repeat the last one.
  after_send-Follows :
      (a : Answer) (m : Moment) (c : Captured) (s : CaptureState)
      → (Repeats s.last_hash s.last_sent m c.frame → ⊥)
      → Follows m s (after_send hash a m c s)
  unfolding after_send sent_last
  after_send-Follows accepted m c s new = record {
    kept = refl;
    hashed = refl;
    timed = refl;
    skips = λ f e. cc;
    offers = λ f e.
        let is : c.frame ≡ f = cc in subst (λ x. Repeats s.last_hash s.last_sent m x → ⊥) is new;
  }
  after_send-Follows full m c s new = record {
    kept = refl;
    hashed = refl;
    timed = refl;
    skips = λ f e. cc;
    offers = λ f e.
        let is : c.frame ≡ f = cc in subst (λ x. Repeats s.last_hash s.last_sent m x → ⊥) is new;
  }
  after_send-Follows gone m c s new = record {
    kept = refl;
    hashed = refl;
    timed = refl;
    skips = λ f e. cc;
    offers = λ f e. cc;
  }

  -- The test of the loop is that of a picture that repeats the last one.
  unfoldable repeated : Moment → I420Frame → CaptureState → Bool
  repeated m f s =
      is_hash s.last_hash (hash f) && (not m.force_keyframe && ltb (m.now - s.last_sent) 1000)

  repeated-Repeats :
      (m : Moment) (f : I420Frame) (s : CaptureState)
      → repeated m f s ≡ true
      → Repeats s.last_hash s.last_sent m f
  unfolding repeated
  repeated-Repeats m f s e =
      let (same, rest) =
        and→ (is_hash s.last_hash (hash f)) (not m.force_keyframe && ltb (m.now - s.last_sent) 1000)
          e in
      let (quiet, young) = and→ (not m.force_keyframe) (ltb (m.now - s.last_sent) 1000) rest in
      (
        is_hash-some s.last_hash (hash f) same,
        (not-true m.force_keyframe quiet, ltb→lt (m.now - s.last_sent) 1000 young),
      )

  Repeats-repeated :
      (m : Moment) (f : I420Frame) (s : CaptureState)
      → repeated m f s ≡ false
      → Repeats s.last_hash s.last_sent m f
      → ⊥
  unfolding repeated
  Repeats-repeated m f s e (same, (quiet, young)) =
      let yes : is_hash s.last_hash (hash f) ≡ true = is_hash-of s.last_hash (hash f) same in
      let soon : ltb (m.now - s.last_sent) 1000 ≡ true = lt→ltb (m.now - s.last_sent) 1000 young in
      let clash : true ≡ false = rw (yes, quiet, soon) at e in cc

  offer_picture-Follows :
      (m : Moment) (f : I420Frame) (s : CaptureState) → Follows m s (offer_picture hash m f s)
  unfolding offer_picture repeated
  offer_picture-Follows m f s = by_test (repeated m f s) refl
    where
      c : Captured
      c = record { frame = f; pts_ms = m.now; keyframe = m.force_keyframe }

      by_test :
          (b : Bool)
          → repeated m f s ≡ b
          → Follows m s (
              if b
              then (record s { current = f }, unchanged f)
              else after_send hash m.answer m c (record s { current = f }))
      by_test true e = record {
        kept = refl;
        hashed = unfold sent_last in refl;
        timed = refl;
        skips = λ g u.
            let is : f ≡ g = cc in
            subst (Repeats s.last_hash s.last_sent m) is (repeated-Repeats m f s e);
        offers = λ g u. cc;
      }
      by_test false e =
          let r =
            after_send-Follows m.answer m c (record s { current = f }) (Repeats-repeated m f s e) in
          record {
            kept = r.kept;
            hashed = r.hashed;
            timed = r.timed;
            skips = r.skips;
            offers = r.offers;
          }

  on_capture-Follows :
      (m : Moment) (s : CaptureState) (o : Option (FrameSource × Result CaptureError CapturedFrame))
      → Follows m s (on_capture hash m s o)
  unfolding on_capture sent_last
  on_capture-Follows m s none = record {
    kept = refl;
    hashed = refl;
    timed = refl;
    skips = λ f e. cc;
    offers = λ f e. cc;
  }
  on_capture-Follows m s (some (src, err e)) = record {
    kept = refl;
    hashed = refl;
    timed = refl;
    skips = λ f u. cc;
    offers = λ f u. cc;
  }
  on_capture-Follows m s (some (src, ok f)) =
      by_picture (xrgb_to_i420 f.bytes f.width f.height f.pitch)
    where
      by_picture :
          (o : Option I420Frame)
          → Follows m s (on_picture hash m (record s { source = some src }) o)
      by_picture none =
          unfold on_picture in
          record { kept = refl; hashed = refl; timed = refl; skips = λ g e. cc; offers = λ g e. cc }
      by_picture (some i) =
          let r = offer_picture-Follows m i (record s { source = some src }) in
          unfold on_picture in
          record {
            kept = r.kept;
            hashed = r.hashed;
            timed = r.timed;
            skips = r.skips;
            offers = r.offers;
          }

  on_source-Follows :
      (m : Moment) (s : CaptureState) (o : Option FrameSource) → Follows m s (on_source hash m s o)
  unfolding on_source sent_last
  on_source-Follows m s none = record {
    kept = refl;
    hashed = refl;
    timed = refl;
    skips = λ f e. cc;
    offers = λ f e. cc;
  }
  on_source-Follows m s (some src) =
      let r = on_capture-Follows m (record s { source = some src }) (capture m.drm src) in
      record {
        kept = r.kept;
        hashed = r.hashed;
        timed = r.timed;
        skips = r.skips;
        offers = r.offers;
      }

  -- The hash that the next turn of a connected client compares with.
  effective : CaptureState → Option ℕ
  effective s = if s.was_connected then s.last_hash else none

  record Turns (m : Moment) (s : CaptureState) (r : CaptureState × Turn) : Type 0 where
    hashed : effective r.0 ≡ sent_last (effective s) (r.1 ∷ [])
    timed : r.0.last_sent ≡ time_of s.last_sent m.now r.1
    skips : (f : I420Frame) → r.1 ≡ unchanged f → Repeats (effective s) s.last_sent m f
    offers : (f : I420Frame) → offered r.1 ≡ some f → Repeats (effective s) s.last_sent m f → ⊥

  turn-Turns : (m : Moment) (s : CaptureState) → Turns m s (turn hash m s)
  unfolding turn connected
  turn-Turns m s = by_client m.client_connected
    where
      by_client :
          (b : Bool)
          → Turns m s (
              if not b
              then (record s { was_connected = false }, idle)
              else on_source hash m (connected s) (source_of s.source m.found))
      by_client false = record {
        hashed = unfold effective sent_last in refl;
        timed = refl;
        skips = λ f e. cc;
        offers = λ f e. cc;
      }
      by_client true =
          let r = on_source-Follows m (connected s) (source_of s.source m.found) in
          record {
            hashed = unfold effective in (rw r.kept r.hashed);
            timed = r.timed;
            skips = unfold effective in r.skips;
            offers = unfold effective in r.offers;
          }

  sent_last-cons :
      (h : Option ℕ) (t : Turn) (ts : List Turn)
      → sent_last h (t ∷ ts) ≡ sent_last (sent_last h (t ∷ [])) ts
  unfolding sent_last
  sent_last-cons h idle ts = refl
  sent_last-cons h (sent c) ts = refl
  sent_last-cons h no_display ts = refl
  sent_last-cons h capture_failed ts = refl
  sent_last-cons h panicked ts = refl
  sent_last-cons h stopped ts = refl
  sent_last-cons h (unchanged f) ts = refl
  sent_last-cons h (dropped f) ts = refl

  run-sent_last :
      (ms : List Moment) (s : CaptureState)
      → effective (run hash ms s).0 ≡ sent_last (effective s) (run hash ms s).1
  unfolding run
  run-sent_last [] s = unfold sent_last in refl
  run-sent_last (m ∷ ms) s =
      by_end (stops (turn hash m s).1) (turn-Turns m s).hashed (run-sent_last ms (turn hash m s).0)
    where
      next : CaptureState × Turn
      next = turn hash m s

      rest : CaptureState × List Turn
      rest = run hash ms next.0

      by_end :
          (b : Bool)
          → effective next.0 ≡ sent_last (effective s) (next.1 ∷ [])
          → effective rest.0 ≡ sent_last (effective next.0) rest.1
          → let r : CaptureState × List Turn =
              if b then (next.0, next.1 ∷ []) else (rest.0, next.1 ∷ rest.1) in
            effective r.0 ≡ sent_last (effective s) r.1
      by_end true one more = one
      by_end false one more =
          more ∙ ap (λ h. sent_last h rest.1) one ∙ sym (sent_last-cons (effective s) next.1 rest.1)

  run-sent_at :
      (ms : List Moment) (s : CaptureState)
      → (run hash ms s).0.last_sent ≡ sent_at s.last_sent ms (run hash ms s).1
  unfolding run
  run-sent_at [] s = refl
  run-sent_at (m ∷ ms) s =
      by_end (stops (turn hash m s).1) (turn-Turns m s).timed (run-sent_at ms (turn hash m s).0)
    where
      next : CaptureState × Turn
      next = turn hash m s

      rest : CaptureState × List Turn
      rest = run hash ms next.0

      by_end :
          (b : Bool)
          → next.0.last_sent ≡ time_of s.last_sent m.now next.1
          → rest.0.last_sent ≡ sent_at next.0.last_sent ms rest.1
          → let r : CaptureState × List Turn =
              if b then (next.0, next.1 ∷ []) else (rest.0, next.1 ∷ rest.1) in
            r.0.last_sent ≡ sent_at s.last_sent (m ∷ ms) r.1
      by_end true one more = one
      by_end false one more = more ∙ ap (λ t. sent_at t ms rest.1) one

  left_out :
      (t : Turn) (f : I420Frame) → pictured t ≡ some f → (offered t ≡ some f → ⊥) → t ≡ unchanged f
  left_out (unchanged g) f p none_offered = let is : g ≡ f = cc in ap unchanged is
  left_out (sent c) f p none_offered = absurd (none_offered p)
  left_out (dropped g) f p none_offered = absurd (none_offered p)
  left_out idle f p none_offered = cc
  left_out no_display f p none_offered = cc
  left_out capture_failed f p none_offered = cc
  left_out panicked f p none_offered = cc
  left_out stopped f p none_offered = cc

  -- After any turns of the loop, a picture that is captured is left out exactly if the client that is
  -- connected was last sent one with the same hash, no keyframe is asked for, and less than a second has
  -- gone by since the last turn that sent a frame, or since the start where none has.
  pub skipped_picture_iff :
      (ms : List Moment) (m : Moment) (f : I420Frame)
      → pictured (turn hash m (run hash ms start).0).1 ≡ some f
      → ((turn hash m (run hash ms start).0).1 ≡ unchanged f)
        ↔ Repeats (sent_last none (run hash ms start).1) (sent_at 0 ms (run hash ms start).1) m f
  skipped_picture_iff ms m f p =
      subst
        (λ h.
          ((turn hash m s).1 ≡ unchanged f) ↔ Repeats h (sent_at 0 ms (run hash ms start).1) m f)
        same_hash
        (subst (λ t. ((turn hash m s).1 ≡ unchanged f) ↔ Repeats (effective s) t m f) same_time
          (follows.skips f, λ r. left_out (turn hash m s).1 f p (λ o. follows.offers f o r)))
    where
      s : CaptureState
      s = (run hash ms start).0

      follows : Turns m s (turn hash m s)
      follows = turn-Turns m s

      same_hash : effective s ≡ sent_last none (run hash ms start).1
      same_hash = run-sent_last ms start ∙ unfold start effective in refl

      same_time : s.last_sent ≡ sent_at 0 ms (run hash ms start).1
      same_time = run-sent_at ms start ∙ unfold start in refl
