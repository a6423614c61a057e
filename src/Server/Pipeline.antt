-- ===== src/Server/Pipeline.antt =====
-- server/src/pipeline.rs, encode_loop: one captured frame through the encoder to the sink of the active
-- session. The encoder is a parameter: what it answers for the frame.
pub mod Keyframes
pub mod CaptureLoop
pub mod Pictures
pub mod Panics
pub mod Created
use vmscren_share.Prelude.{
  ℕ, ◌+◌, ◌≡◌, Bool, true, false, not, ◌&&◌, ◌||◌, ◌==◌, if◌then◌else◌, Option, none, some, List,
  [], ◌∷◌, length,
}
use vmscren_share.Prelude.Result.{Result, ok, err}
use vmscren_share.Server.Config.{Config}
use vmscren_share.Server.Shared.{Shared}
use vmscren_share.Server.Convert.{I420Frame}
use vmscren_share.Server.Encoder.{EncoderSettings}
use vmscren_share.Server.Session.Frames.{EncodedFrame}

pub record Captured : Type 0 where
  pub frame : I420Frame
  pub pts_ms : ℕ
  pub keyframe : Bool

-- What the encoder answers: whether it can be created, whether it takes a new bitrate, and the frame
-- that it encodes, for the settings it was created with, or none if it skips the frame. `takes` is
-- what the channel of a session answers to `blocking_send`: false if it is closed.
pub record Encoder : Type 0 where
  pub create : EncoderSettings → Bool
  pub set_bitrate : ℕ → Bool
  pub encode : I420Frame → ℕ → Bool → Result (Unit {0}) (Option EncodedFrame)
  pub takes : ℕ → EncodedFrame → Bool

-- The variables of the loop, with the shared state. An encoder is kept as the settings it was created
-- with, whose width and height are `encoder_size`.
pub record EncodeState : Type 0 where
  pub shared : Shared
  pub encoder : Option EncoderSettings
  pub current_bitrate : ℕ

-- A frame that goes to the sink, which is named by the session that installed it.
pub record Sent : Type 0 where
  pub session : ℕ
  pub frame : EncodedFrame

-- What the loop has done with a captured frame: it dropped an empty one, had no encoder, or had one
-- encode it, with the keyframe flag that it was given and the frame it gave out. `closed` is a frame
-- that was for a sink whose channel is closed.
pub data Done : Type 0 where
  dropped no_encoder failed : Done
  encoded : (forced : Bool) (sent : Option Sent) → Done
  closed : (forced : Bool) (frame : Sent) → Done
  skipped : (forced : Bool) → Done

unfoldable pub settings_for : Config → Shared → I420Frame → EncoderSettings
settings_for config shared f = record {
  width = f.width;
  height = f.height;
  fps = config.video.fps;
  bitrate_kbps = shared.bitrate_kbps;
  keyframe_interval = config.video.keyframe_interval;
  threads = config.video.encoder_threads;
}

-- Whether the encoder in use is one for frames of this size.
unfoldable pub fits_encoder : Option EncoderSettings → I420Frame → Bool
fits_encoder none f = false
fits_encoder (some s) f = s.width == f.width && s.height == f.height

-- A changed bitrate is applied, if the encoder takes it.
unfoldable pub apply_bitrate : Encoder → EncodeState → EncodeState
apply_bitrate enc s =
    let wanted = s.shared.bitrate_kbps in
    if wanted == s.current_bitrate
    then s
    else if enc.set_bitrate wanted
    then record s { current_bitrate = wanted }
    else s

-- An encoded frame is counted and goes to the sink, which may be closed; where there is none, a keyframe that was asked for
-- is asked for again.
unfoldable pub deliver : Encoder → EncodeState → Bool → EncodedFrame → EncodeState × Done
deliver enc s force out =
    let counted = record s.shared {
      frames_encoded = s.shared.frames_encoded + 1;
      bytes_encoded = s.shared.bytes_encoded + length out.bytes;
    } in
    elim s.shared.sink [
      | some session ↦
          let frame : Sent = record { session = session; frame = out } in
          (
            record s { shared = counted },
            if enc.takes session out then encoded force (some frame) else closed force frame,
          )
      | none ↦ (
        record s { shared = record counted { force_keyframe = counted.force_keyframe || force } },
        encoded force none,
      )
    ]

-- The match on what the encoder answers.
unfoldable pub encoder_answered :
    Encoder → EncodeState → Bool → Result (Unit {0}) (Option EncodedFrame) → EncodeState × Done
unfolding deliver
encoder_answered enc s force (ok (some out)) = deliver enc s force out
encoder_answered enc s force (ok none) = (s, skipped force)
encoder_answered enc s force (err e) = (record s { encoder = none }, failed)

-- The second half of the loop's body, with an encoder of the frame's size.
unfoldable pub encode_with : Encoder → EncodeState → Captured → Bool → EncodeState × Done
unfolding apply_bitrate encoder_answered
encode_with enc s c force =
    encoder_answered enc (apply_bitrate enc s) force (enc.encode c.frame c.pts_ms force)

-- The body of the loop of `encode_loop`, but for its statistics.
unfoldable pub encode_frame : Config → Encoder → EncodeState → Captured → EncodeState × Done
unfolding fits_encoder settings_for encode_with
encode_frame config enc s c =
    if c.frame.width == 0 || c.frame.height == 0
    then (s, dropped)
    else let force = c.keyframe || s.shared.force_keyframe in
      let taken : EncodeState = record s { shared = record s.shared { force_keyframe = false } } in
      if fits_encoder s.encoder c.frame
      then encode_with enc taken c force
      else let settings = settings_for config s.shared c.frame in
        if enc.create settings
        then encode_with enc
            (record taken { encoder = some settings; current_bitrate = settings.bitrate_kbps }) c
            true
        else (taken, no_encoder)
