-- ===== src/Server/Pipeline/Keyframes.antt =====
-- server/src/pipeline.rs, encode_loop: what becomes of a keyframe that was asked for.
use vmscren_share.Prelude.{◌≡◌, ◌⊎◌, true, false, none, some}
use vmscren_share.Prelude.Result.{Result, ok}
use vmscren_share.Server.Config.{Config}
use vmscren_share.Server.Convert.{I420Frame}
use vmscren_share.Server.Pipeline.{
  Captured, Encoder, EncodeState, Sent, Done, encoded, closed, skipped, fits_encoder,
}

-- Whether the next frame of a size that is encoded will be a keyframe: because the flag is set, or
-- because it takes a new encoder.
abbrev pub IsPending : EncodeState → I420Frame → Type 0
IsPending s f = (s.shared.force_keyframe ≡ true) ⊎ (fits_encoder s.encoder f ≡ false)

-- What becomes of a keyframe that was asked for with a captured frame.
pub data Kept (enc : Encoder) (c : Captured) : EncodeState × Done → Type 0 where
  -- The encoder was told to encode a keyframe, and the sink that is installed took its frame.
  sent :
      (s : EncodeState) (x : Sent)
      → enc.encode c.frame c.pts_ms true ≡ ok (some x.frame)
      → s.shared.sink ≡ some x.session
      → enc.takes x.session x.frame ≡ true
      → Kept enc c (s, encoded true (some x))
  still_pending : (s : EncodeState) (d : Done) → IsPending s c.frame → Kept enc c (s, d)
  -- The encoder skipped a frame that it was told to encode as a keyframe.
  lost_skipped :
      (s : EncodeState) → enc.encode c.frame c.pts_ms true ≡ ok none → Kept enc c (s, skipped true)
  -- The channel of the sink that is installed is closed.
  lost_closed :
      (s : EncodeState) (x : Sent)
      → s.shared.sink ≡ some x.session
      → enc.takes x.session x.frame ≡ false
      → Kept enc c (s, closed true x)
