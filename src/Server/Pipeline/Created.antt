-- ===== src/Server/Pipeline/Created.antt =====
-- server/src/pipeline.rs, encode_loop, and the checks of the encoder's new: the encoder of a picture.
use vmscren_share.Prelude.{
  ℕ, ◌*◌, ◌/◌, ◌%◌, ◌≤◌, ◌≡◌, refl, true, leb, Option, some, List, arith, eq→==,
}
use vmscren_share.Prelude.Result.{ok}
use vmscren_share.Server.Config.{Config}
use vmscren_share.Server.Shared.{Shared}
use vmscren_share.Server.Convert.{I420Frame, xrgb_to_i420}
use vmscren_share.Server.Convert.Size.{IsFrame, xrgb_to_i420-IsFrame}
use vmscren_share.Server.Encoder.{EncoderSettings}
use vmscren_share.Server.Encoder.Encode.{check_settings, threads}
use vmscren_share.Server.Pipeline.{settings_for}

threads-Bounds :
    (cores : Option ℕ) (s : EncoderSettings) → (1 ≤ threads cores s) × (threads cores s ≤ 16)
unfolding threads
threads-Bounds cores s = (ground arith, ground arith)

-- The encoder that the loop creates for a converted picture of at least 16 by 16 passes the checks of
-- new, and has from 1 to 16 threads, whatever the configuration and the machine.
pub settings_for-checked :
    (config : Config) (shared : Shared) (cores : Option ℕ) (src : List ℕ) (w h pitch : ℕ)
    (f : I420Frame)
    → xrgb_to_i420 src w h pitch ≡ some f
    → 16 ≤ f.width
    → 16 ≤ f.height
    → (check_settings (settings_for config shared f) ≡ ok tt)
      × ((1 ≤ threads cores (settings_for config shared f))
          × (threads cores (settings_for config shared f) ≤ 16))
settings_for-checked config shared cores src w h pitch f made wide high =
    let frame : IsFrame f = (xrgb_to_i420-IsFrame src w h pitch f made).0 in
    (
      accepted frame.even_width frame.even_height,
      threads-Bounds cores (settings_for config shared f),
    )
  where
    fits : (n : ℕ) → 16 ≤ n → leb 16 n ≡ true
    fits n h = ground arith

    accepted :
        f.width / 2 * 2 ≡ f.width
        → f.height / 2 * 2 ≡ f.height
        → check_settings (settings_for config shared f) ≡ ok tt
    accepted ew eh =
        let w2 : f.width % 2 ≡ 0 = omega arith in
        let h2 : f.height % 2 ≡ 0 = omega arith in
        unfold check_settings settings_for in
        rw
          (
            eq→== (f.width % 2) 0 w2,
            eq→== (f.height % 2) 0 h2,
            fits f.width wide,
            fits f.height high,
          )
          refl
