-- ===== src/Server/Encoder/Frames.antt =====
-- server/src/encoder/openh264.rs, encode: the frames that the conversion leaves pass the checks.
use vmscren_share.Prelude.{ℕ, ◌*◌, ◌/◌, ◌≡◌, refl, eq→==, some, List, length}
use vmscren_share.Prelude.Result.{ok}
use vmscren_share.Server.Convert.{I420Frame, xrgb_to_i420}
use vmscren_share.Server.Convert.Size.{IsFrame, xrgb_to_i420-IsFrame}
use vmscren_share.Server.Encoder.{EncoderSettings, check_frame}

IsFrame-checked :
    (s : EncoderSettings) (f : I420Frame)
    → IsFrame f
    → f.width ≡ s.width
    → f.height ≡ s.height
    → check_frame s f ≡ ok tt
unfolding check_frame
IsFrame-checked s f frame same_width same_height =
    rw
      (
        eq→== f.width s.width same_width,
        eq→== f.height s.height same_height,
        eq→== (length f.y) (f.width * f.height) frame.y_size,
        eq→== (length f.u) ((f.width / 2) * (f.height / 2)) frame.u_size,
        eq→== (length f.v) ((f.width / 2) * (f.height / 2)) frame.v_size,
      )
      refl

-- A frame that the conversion leaves is encoded by an encoder of its size: neither check fails.
pub xrgb_to_i420-check_frame :
    (s : EncoderSettings) (src : List ℕ) (w h pitch : ℕ) (f : I420Frame)
    → xrgb_to_i420 src w h pitch ≡ some f
    → f.width ≡ s.width
    → f.height ≡ s.height
    → check_frame s f ≡ ok tt
xrgb_to_i420-check_frame s src w h pitch f returned same_width same_height =
    IsFrame-checked s f (xrgb_to_i420-IsFrame src w h pitch f returned).0 same_width same_height
