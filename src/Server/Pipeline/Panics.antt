-- ===== src/Server/Pipeline/Panics.antt =====
-- That the capture loop does not panic.
use vmscren_share.Prelude.{
  ℕ, ◌-◌, ◌≡◌, ◌≢◌, refl, Bool, true, false, not, ◌&&◌, ltb, if◌then◌else◌, Option, none, some,
  List, [], ◌∷◌,
}
use vmscren_share.Prelude.Result.{Result, ok, err}
use vmscren_share.Server.Capture.{CaptureError, FrameSource, CapturedFrame, capture}
use vmscren_share.Server.Capture.Frames.{
  SoundMapping, IsCurrent, capture-IsCurrent, capture-converts,
}
use vmscren_share.Server.Capture.Wide.{IsWideDrm, WideMapping, IsWide, capture-IsWide}
use vmscren_share.Server.Convert.{I420Frame}
use vmscren_share.Server.Pipeline.{Captured}
use vmscren_share.Server.Pipeline.CaptureLoop.{
  Answer, accepted, full, gone, Moment, CaptureState, Turn, idle, unchanged, panicked, start,
  is_hash, connected, source_of, stops, after_send, offer_picture, on_picture, on_capture,
  on_source, turn, run,
}

-- A moment at which a new source has mapped nothing, and DRM's framebuffers have rows of four bytes
-- for each pixel.
pub record IsFair (m : Moment) : Type 0 where
  pub fresh : (s : FrameSource) → m.found ≡ some s → s.mapping ≡ none
  pub wide : IsWideDrm m.drm

unfoldable pub AreFair : List Moment → Type 0
AreFair [] = Unit
AreFair (m ∷ ms) = IsFair m × AreFair ms

-- No turn of the list is a panic.
unfoldable pub NoPanic : List Turn → Type 0
NoPanic [] = Unit
NoPanic (t ∷ ts) = (t ≢ panicked) × NoPanic ts

unfoldable SoundSource : Option FrameSource → Type 0
SoundSource none = Unit
SoundSource (some s) = SoundMapping s.mapping × WideMapping s.mapping

module _ (hash : I420Frame → ℕ) where
  -- A turn that does not panic and leaves a sound source.
  unfoldable Safe : CaptureState × Turn → Type 0
  Safe r = SoundSource r.0.source × (r.1 ≢ panicked)

  after_send-Safe :
      (a : Answer) (m : Moment) (c : Captured) (s : CaptureState)
      → SoundSource s.source
      → Safe (after_send hash a m c s)
  unfolding after_send Safe
  after_send-Safe accepted m c s sound = (sound, λ e. cc)
  after_send-Safe full m c s sound = (sound, λ e. cc)
  after_send-Safe gone m c s sound = (sound, λ e. cc)

  offer_picture-Safe :
      (m : Moment) (f : I420Frame) (s : CaptureState)
      → SoundSource s.source
      → Safe (offer_picture hash m f s)
  unfolding offer_picture
  offer_picture-Safe m f s sound =
      by_test
        (is_hash s.last_hash (hash f) && (not m.force_keyframe && ltb (m.now - s.last_sent) 1000))
    where
      by_test :
          (b : Bool)
          → Safe (
              if b
              then (record s { current = f }, unchanged f)
              else after_send hash m.answer m
                  (record { frame = f; pts_ms = m.now; keyframe = m.force_keyframe })
                  (record s { current = f }))
      by_test true = unfold Safe in (sound, λ e. cc)
      by_test false = after_send-Safe m.answer m _ (record s { current = f }) sound

  on_capture-Safe :
      (m : Moment) (s : CaptureState) (src : FrameSource)
      → IsFair m
      → SoundSource (some src)
      → Safe (on_capture hash m s (capture m.drm src))
  unfolding on_capture on_picture SoundSource
  on_capture-Safe m s src fair (sound, wide) =
      by_capture (capture m.drm src) refl (capture-IsCurrent m.drm src sound)
        (capture-IsWide m.drm fair.wide src wide)
    where
      by_capture :
          (o : Option (FrameSource × Result CaptureError CapturedFrame))
          → capture m.drm src ≡ o
          → IsCurrent (m.drm.get_plane src.plane) o
          → IsWide o
          → Safe (on_capture hash m s o)
      by_capture none e c w = absurd (unfold IsCurrent in c)
      by_capture (some (src', err x)) e c w = unfold Safe in (tt, λ e. cc)
      by_capture (some (src', ok f)) e c w =
          let (i, converted) = capture-converts m.drm src src' f sound e (unfold IsWide in w.1) in
          let current : SoundMapping src'.mapping = unfold IsCurrent in c.0 in
          let as_wide : WideMapping src'.mapping = unfold IsWide in w.0 in
          rw converted (offer_picture-Safe m i (record s { source = some src' }) (current, as_wide))

  on_source-Safe :
      (m : Moment) (s : CaptureState) (o : Option FrameSource)
      → IsFair m
      → SoundSource s.source
      → SoundSource o
      → Safe (on_source hash m s o)
  unfolding on_source SoundSource
  on_source-Safe m s none fair kept sound = unfold Safe in (kept, λ e. cc)
  on_source-Safe m s (some src) fair kept sound =
      on_capture-Safe m (record s { source = some src }) src fair sound

  source_of-SoundSource :
      (m : Moment) (o : Option FrameSource)
      → IsFair m
      → SoundSource o
      → SoundSource (source_of o m.found)
  unfolding source_of SoundSource
  source_of-SoundSource m (some s) fair sound = sound
  source_of-SoundSource m none fair sound = by_found m.found refl
    where
      by_found : (o : Option FrameSource) → m.found ≡ o → SoundSource o
      by_found none e = tt
      by_found (some s) e = rw (fair.fresh s e) (unfold SoundMapping WideMapping in (tt, tt))

  turn-Safe :
      (m : Moment) (s : CaptureState) → IsFair m → SoundSource s.source → Safe (turn hash m s)
  unfolding turn connected
  turn-Safe m s fair sound = by_client m.client_connected
    where
      by_client :
          (b : Bool)
          → Safe (
              if not b
              then (record s { was_connected = false }, idle)
              else on_source hash m (connected s) (source_of s.source m.found))
      by_client false = unfold Safe in (sound, λ e. cc)
      by_client true =
          on_source-Safe m (connected s) (source_of s.source m.found) fair sound
            (source_of-SoundSource m s.source fair sound)

  run-Safe :
      (ms : List Moment) (s : CaptureState)
      → AreFair ms
      → SoundSource s.source
      → NoPanic (run hash ms s).1
  unfolding run NoPanic AreFair
  run-Safe [] s fair sound = tt
  run-Safe (m ∷ ms) s (fair, more) sound =
      let safe : SoundSource (turn hash m s).0.source × ((turn hash m s).1 ≢ panicked) =
        unfold Safe in turn-Safe m s fair sound in
      by_end (stops (turn hash m s).1) safe.1 (run-Safe ms (turn hash m s).0 more safe.0)
    where
      next : CaptureState × Turn
      next = turn hash m s

      rest : CaptureState × List Turn
      rest = run hash ms next.0

      by_end :
          (b : Bool)
          → next.1 ≢ panicked
          → NoPanic rest.1
          → let r : CaptureState × List Turn =
              if b then (next.0, next.1 ∷ []) else (rest.0, next.1 ∷ rest.1) in
            NoPanic r.1
      by_end true one more = (one, tt)
      by_end false one more = (one, more)

  -- If each new source has mapped nothing and DRM's framebuffers have rows of four bytes for each
  -- pixel, no turn of the capture loop panics, whatever DRM, the encoder and the client do.
  pub run-NoPanic : (ms : List Moment) → AreFair ms → NoPanic (run hash ms start).1
  run-NoPanic ms fair = run-Safe ms start fair (unfold start SoundSource in tt)
