-- ===== src/Server/Pipeline/CaptureLoop.antt =====
-- server/src/pipeline.rs, capture_loop: the pictures of the display, up to the channel of the encoder.
-- The hash is the xxhash crate's, a parameter; the sleeps that pace the loop are left out.
use vmscren_share.Prelude.{
  ℕ, ◌-◌, Bool, true, false, not, ◌&&◌, ◌==◌, ltb, if◌then◌else◌, Option, none, some, List, [], ◌∷◌,
}
use vmscren_share.Prelude.Result.{Result, ok, err}
use vmscren_share.Server.Capture.{Drm, CaptureError, FrameSource, CapturedFrame, capture}
use vmscren_share.Server.Convert.{I420Frame, new, xrgb_to_i420}
use vmscren_share.Server.Pipeline.{Captured}

-- The answers of `try_send`.
pub data Answer : Type 0 where
  accepted full gone : Answer

-- What the loop meets in one turn: the flags of the shared state, what `wait_for_display` would find,
-- DRM's answers, a buffer that the encoder has given back, the channel's answer, and the time in
-- milliseconds since the loop started.
pub record Moment : Type 0 where
  pub client_connected : Bool
  pub force_keyframe : Bool
  pub found : Option FrameSource
  pub drm : Drm
  pub spare : Option I420Frame
  pub answer : Answer
  pub now : ℕ

pub record CaptureState : Type 0 where
  pub source : Option FrameSource
  pub current : I420Frame
  pub last_hash : Option ℕ
  pub last_sent : ℕ
  pub was_connected : Bool

-- What a turn came to. `panicked` is a slice out of range.
pub data Turn : Type 0 where
  idle no_display capture_failed panicked stopped : Turn
  unchanged : I420Frame → Turn
  sent : Captured → Turn
  dropped : I420Frame → Turn

unfoldable pub start : CaptureState
start = record {
  source = none;
  current = new 0 0;
  last_hash = none;
  last_sent = 0;
  was_connected = false;
}

abbrev pub is_hash : Option ℕ → ℕ → Bool
is_hash none h = false
is_hash (some k) h = k == h

unfoldable pub spare_or_new : Option I420Frame → I420Frame → I420Frame
spare_or_new (some f) current = f
spare_or_new none current = new current.width current.height

-- A client that has just connected: nothing has been sent to it.
unfoldable pub connected : CaptureState → CaptureState
connected s = record s {
  was_connected = true;
  last_hash = if s.was_connected then s.last_hash else none;
}

-- The source that is open, or the one that is found.
unfoldable pub source_of : Option FrameSource → Option FrameSource → Option FrameSource
source_of (some s) found = some s
source_of none found = found

abbrev pub stops : Turn → Bool
stops stopped = true
stops _ = false

module _ (hash : I420Frame → ℕ) where
  unfoldable pub after_send : Answer → Moment → Captured → CaptureState → CaptureState × Turn
  unfolding spare_or_new
  after_send accepted m c s = (
    record s {
      current = spare_or_new m.spare c.frame;
      last_hash = some (hash c.frame);
      last_sent = m.now;
    },
    sent c,
  )
  after_send full m c s = (record s { current = c.frame }, dropped c.frame)
  after_send gone m c s = (s, stopped)

  -- A picture that has been converted.
  unfoldable pub offer_picture : Moment → I420Frame → CaptureState → CaptureState × Turn
  unfolding after_send
  offer_picture m f s =
      if is_hash s.last_hash (hash f) && (not m.force_keyframe && ltb (m.now - s.last_sent) 1000)
      then (record s { current = f }, unchanged f)
      else after_send m.answer m (record { frame = f; pts_ms = m.now; keyframe = m.force_keyframe })
          (record s { current = f })

  unfoldable pub on_picture : Moment → CaptureState → Option I420Frame → CaptureState × Turn
  unfolding offer_picture
  on_picture m s none = (s, panicked)
  on_picture m s (some f) = offer_picture m f s

  -- The match on `capture`, with the conversion.
  unfoldable pub on_capture :
      Moment
      → CaptureState
      → Option (FrameSource × Result CaptureError CapturedFrame)
      → CaptureState × Turn
  unfolding on_picture
  on_capture m s none = (s, panicked)
  on_capture m s (some (src, err e)) = (record s { source = none }, capture_failed)
  on_capture m s (some (src, ok f)) =
      on_picture m (record s { source = some src }) (xrgb_to_i420 f.bytes f.width f.height f.pitch)

  unfoldable pub on_source : Moment → CaptureState → Option FrameSource → CaptureState × Turn
  unfolding on_capture
  on_source m s none = (s, no_display)
  on_source m s (some src) = on_capture m (record s { source = some src }) (capture m.drm src)

  -- One turn of the loop.
  unfoldable pub turn : Moment → CaptureState → CaptureState × Turn
  unfolding connected source_of on_source
  turn m s =
      if not m.client_connected
      then (record s { was_connected = false }, idle)
      else on_source m (connected s) (source_of s.source m.found)

  -- The turns of the loop, with what they came to: the encoder's end stops it.
  unfoldable pub run : List Moment → CaptureState → CaptureState × List Turn
  unfolding turn
  run [] s = (s, [])
  run (m ∷ ms) s =
      let next = turn m s in
      let rest = run ms next.0 in
      if stops next.1 then (next.0, next.1 ∷ []) else (rest.0, next.1 ∷ rest.1)
