-- ===== src/Client/Decoder.antt =====
-- client/src/decoder/mod.rs and scaler.rs: the decode thread. FFmpeg is the parameter `Codec`: its
-- decoders, and swscale, which fills a buffer that it is given.
pub mod Fallback
pub mod Kept
pub mod Published
pub mod Ffmpeg
use vmscren_share.Prelude.{
  ℕ, ◌+◌, ◌-◌, ◌*◌, ◌≡◌, max, Bool, true, false, ◌&&◌, leb, ◌==◌, if◌then◌else◌, Option, none, some,
  List, [], ◌∷◌, ◌++◌, length, replicate,
}
use vmscren_share.Prelude.Floats.{Floats}
use vmscren_share.Prelude.Result.{Result, ok, err}
use vmscren_share.Client.View.{SharedView, RgbFrame, set_source_size, target_size, publish}
use vmscren_share.Client.App.{fit_aspect}

pub record DecodedImage : Type 0 where
  pub width : ℕ
  pub height : ℕ
  pub pixel_format : ℕ
  pub bytes : List ℕ

pub data HwPreference : Type 0 where
  auto software : HwPreference

-- The messages of the two errors are only logged.
pub data DecodeError : Type 0 where
  corrupt fatal : DecodeError

-- `create n` is the n-th call of `FfmpegDecoder::new`. A decoder that is made for software does not
-- come to use hardware, and swscale writes into the buffer's length.
pub record Codec : Type 1 where
  pub D : Type 0
  pub create : ℕ → HwPreference → Option D
  pub decode : D → List ℕ → D × Result DecodeError (List DecodedImage)
  pub is_hardware : D → Bool
  pub pictures_decoded : D → ℕ
  pub sws_scale : DecodedImage → (dw dh : ℕ) → List ℕ → Option (List ℕ)
  pub software_made : (n : ℕ) (d : D) → create n software ≡ some d → is_hardware d ≡ false
  pub software_kept :
      (d : D) (au : List ℕ) → is_hardware d ≡ false → is_hardware (decode d au).0 ≡ false
  pub sws_fills :
      (img : DecodedImage) (dw dh : ℕ) (buffer pixels : List ℕ)
      → sws_scale img dw dh buffer ≡ some pixels
      → length pixels ≡ length buffer

abbrev pub hw_failure_limit : ℕ
hw_failure_limit = 8

-- Milliseconds between two requests for a keyframe.
abbrev pub request_interval : ℕ
request_interval = 200

module _ (codec : Codec) where
  open codec use {D, create, decode, is_hardware, pictures_decoded, sws_scale}

  -- `Box<dyn VideoDecoder>`: one of FFmpeg's, or `BrokenDecoder`.
  pub data Decoder : Type 0 where
    ffmpeg : D → Decoder
    broken : Decoder

  unfoldable pub decode_with : Decoder → List ℕ → Decoder × Result DecodeError (List DecodedImage)
  decode_with (ffmpeg d) au = (ffmpeg (decode d au).0, (decode d au).1)
  decode_with broken au = (broken, err fatal)

  unfoldable pub uses_hardware : Decoder → Bool
  uses_hardware (ffmpeg d) = is_hardware d
  uses_hardware broken = false

  unfoldable pub pictures_of : Decoder → ℕ
  pictures_of (ffmpeg d) = pictures_decoded d
  pictures_of broken = 0

  -- The variables of `run`. `made` counts the decoders that were tried, `requests` are the times of
  -- the requests for a keyframe, and `frames` counts the `Frame` events. A thread that has `failed`
  -- has told the window of a fatal error and returned. The decoder's name is left out.
  pub record Thread : Type 0 where
    pub decoder : Decoder
    pub view : SharedView
    pub hw_failures : ℕ
    pub last_request : ℕ
    pub requests : List ℕ
    pub frames : ℕ
    pub made : ℕ
    pub failed : Bool

  -- The decoder that the thread starts with, or the fatal error.
  unfoldable pub start_with : SharedView → (last_request : ℕ) → Option D → Option Thread
  start_with view last_request none = none
  start_with view last_request (some d) = some (record {
    decoder = ffmpeg d;
    view = view;
    hw_failures = 0;
    last_request = last_request;
    requests = [];
    frames = 0;
    made = 1;
    failed = false;
  })

  unfoldable pub start : HwPreference → SharedView → (last_request : ℕ) → Option Thread
  unfolding start_with
  start preference view last_request = start_with view last_request (create 0 preference)

  -- The closure `request_keyframe`.
  unfoldable pub request_keyframe : (now : ℕ) → Thread → Thread
  request_keyframe now t =
      let due = leb request_interval (now - t.last_request) in
      record t {
        last_request = if due then now else t.last_request;
        requests = if due then t.requests ++ now ∷ [] else t.requests;
      }

  -- What takes the place of a hardware decoder.
  unfoldable pub software_or_broken : Option D → Decoder
  software_or_broken (some d) = ffmpeg d
  software_or_broken none = broken

  unfoldable pub fallback_to_software : Thread → Thread
  unfolding software_or_broken
  fallback_to_software t = record t {
    decoder = software_or_broken (create t.made software);
    made = t.made + 1;
  }

  -- A software decoder that fails is made again, or the thread gives up.
  unfoldable pub recreate : Option D → Thread → Thread
  recreate (some d) t = record t { decoder = ffmpeg d; made = t.made + 1 }
  recreate none t = record t { made = t.made + 1; failed = true }

  -- `Scaler::scale`.
  unfoldable pub framed : (dw dh : ℕ) → Option (List ℕ) → Option RgbFrame
  framed dw dh none = none
  framed dw dh (some pixels) = some (record { width = dw; height = dh; pixels = pixels })

  unfoldable pub scale : DecodedImage → (dst_w dst_h : ℕ) → Option RgbFrame
  unfolding framed
  scale img dst_w dst_h =
      let dw = max dst_w 1 in
      let dh = max dst_h 1 in framed dw dh (sws_scale img dw dh (replicate (dw * dh) 0))

  -- A failure to scale is only logged.
  unfoldable pub show : Option RgbFrame → Thread → Thread
  show (some f) t = record t { view = publish t.view f; frames = t.frames + 1 }
  show none t = t

  -- A count of a failure before the first picture.
  unfoldable pub count_failure : Thread → Thread
  unfolding fallback_to_software
  count_failure t =
      if leb hw_failure_limit (t.hw_failures + 1)
      then record (fallback_to_software t) { hw_failures = 0 }
      else record t { hw_failures = t.hw_failures + 1 }

  unfoldable pub on_corrupt : (now : ℕ) → Thread → Thread
  unfolding request_keyframe uses_hardware pictures_of count_failure
  on_corrupt now t =
      let asked = request_keyframe now t in
      if uses_hardware t.decoder && pictures_of t.decoder == 0 then count_failure asked else asked

  unfoldable pub on_fatal : (now : ℕ) → Thread → Thread
  unfolding request_keyframe uses_hardware fallback_to_software recreate
  on_fatal now t =
      let asked = request_keyframe now t in
      if uses_hardware t.decoder
      then fallback_to_software asked
      else recreate (create asked.made software) asked

  module _ (floats : Floats) where
    -- The pictures of an access unit, one after the other.
    unfoldable pub show_image : DecodedImage → Thread → Thread
    unfolding scale show
    show_image img t =
        let sized : Thread = record t { view = set_source_size t.view img.width img.height } in
        let (tw, th) = fit_aspect floats (target_size sized.view) (img.width, img.height) in
        show (scale img tw th) sized

    unfoldable pub show_images : List DecodedImage → Thread → Thread
    unfolding show_image
    show_images [] t = t
    show_images (img ∷ imgs) t = show_images imgs (show_image img t)

    unfoldable pub on_decoded : (now : ℕ) → Result DecodeError (List DecodedImage) → Thread → Thread
    unfolding show_images on_corrupt on_fatal
    on_decoded now (ok imgs) t = show_images imgs (record t { hw_failures = 0 })
    on_decoded now (err corrupt) t = on_corrupt now t
    on_decoded now (err fatal) t = on_fatal now t

    -- One turn of the loop, for an access unit that is received at the time `now`.
    unfoldable pub turn : (now : ℕ) → List ℕ → Thread → Thread
    unfolding decode_with on_decoded
    turn now au t =
        let (d, r) = decode_with t.decoder au in on_decoded now r (record t { decoder = d })

    unfoldable pub run : List (ℕ × List ℕ) → Thread → Thread
    unfolding turn
    run [] t = t
    run (u ∷ us) t =
        let next = turn u.0 u.1 t in let rest = run us next in if next.failed then next else rest
