-- ===== src/Client/Tests/Decoding.antt =====
-- The decode thread with a decoder that never succeeds in hardware.
use vmscren_share.Prelude.{
  ℕ, ◌==◌, ◌*◌, ◌≡◌, refl, Bool, true, false, Option, none, some, List, [], ◌∷◌, length, replicate,
  length-replicate,
}
use vmscren_share.Prelude.Result.{Result, ok, err}
use vmscren_share.Client.View.{new}
use vmscren_share.Client.App.Window.{Surface, redraw}
use vmscren_share.Client.Decoder.{
  DecodedImage, HwPreference, auto, software, DecodeError, corrupt, Codec, ffmpeg, uses_hardware,
  Thread, run,
}
use vmscren_share.Client.Decoder.Fallback.{
  Software, run-Software, Stuck, with_decoder, eight_failures-Software,
}
use vmscren_share.Client.Decoder.Published.{IsSized, redraw_after_run}
use vmscren_share.Client.Decoder.{start, start_with}
use vmscren_share.Client.Decoder.Ffmpeg
use vmscren_share.Client.Decoder.Ffmpeg.{
  linux, vaapi, Library, CallbackState, open_decoder, open_with, opened, hw_setup, get_format,
  pick_format,
}
use vmscren_share.Client.Decoder.Ffmpeg.IsCodec.{ffmpeg_codec}
use vmscren_share.Client.Decoder.Ffmpeg.Preference.{InSoftware, preference-InSoftware}
use vmscren_share.Client.Decoder.Kept.{Has}
use vmscren_share.Client.Tests.Arithmetic.{whole_numbers}

-- A decoder is whether it uses hardware: that reports corrupt data, and software shows a picture of
-- two by two.
abbrev shown : DecodedImage
shown = record { width = 2; height = 2; pixel_format = 0; bytes = [] }

abbrev made : HwPreference → Bool
made auto = true
made software = false

abbrev decoded : Bool → Result DecodeError (List DecodedImage)
decoded true = err corrupt
decoded false = ok (shown ∷ [])

made_software : (n : ℕ) (d : Bool) → some (made software) ≡ some d → d ≡ false
made_software n d e = cc

filled :
    (img : DecodedImage) (dw dh : ℕ) (buffer pixels : List ℕ)
    → some (replicate (length buffer) 1) ≡ some pixels
    → length pixels ≡ length buffer
filled img dw dh buffer pixels e =
    let same : replicate (length buffer) 1 ≡ pixels = cc in
    rw⁻¹ same (length-replicate (length buffer) 1)

abbrev codec : Codec
codec = record {
  D = Bool;
  create = λ n preference. some (made preference);
  decode = λ d au. (d, decoded d);
  is_hardware = λ d. d;
  pictures_decoded = λ d. 0;
  sws_scale = λ img dw dh buffer. some (replicate (length buffer) 1);
  software_made = made_software;
  software_kept = λ d au h. h;
  sws_fills = filled;
}

abbrev thread : Thread codec
thread = record {
  decoder = ffmpeg true;
  view = new;
  hw_failures = 0;
  last_request = 0;
  requests = [];
  frames = 0;
  made = 1;
  failed = false;
}

abbrev units : List (ℕ × List ℕ)
units =
    (1000, [])
    ∷ (1017, [])
    ∷ (1033, [])
    ∷ (1050, [])
    ∷ (1067, [])
    ∷ (1083, [])
    ∷ (1100, [])
    ∷ (1117, [])
    ∷ []

units-Stuck : Stuck codec whole_numbers true units
unfolding Stuck
units-Stuck = (
  refl,
  (
    refl,
    (
      refl,
      (
        refl,
        (
          refl,
          (
            refl,
            (
              refl,
              (
                refl,
                (
                  refl,
                  (
                    refl,
                    (
                      refl,
                      (
                        refl,
                        (
                          refl,
                          (
                            refl,
                            (
                              refl,
                              (
                                refl,
                                (refl, (refl, (refl, (refl, (refl, (refl, (refl, (refl, tt)))))))),
                              ),
                            ),
                          ),
                        ),
                      ),
                    ),
                  ),
                ),
              ),
            ),
          ),
        ),
      ),
    ),
  ),
)

eight_failures-Software_example :
    Software codec (run codec whole_numbers units (with_decoder codec whole_numbers true thread))
eight_failures-Software_example =
    eight_failures-Software codec whole_numbers units true thread refl refl refl units-Stuck

abbrev softened : Thread codec
softened = record thread { decoder = ffmpeg false }

run-Software_example : Software codec (run codec whole_numbers units softened)
run-Software_example =
    run-Software codec whole_numbers units softened (unfold uses_hardware in refl)

-- A surface that lends a buffer of nines.
abbrev surface : Surface
surface = record { resize = λ w h. true; buffer_mut = λ w h. some (replicate (h * w) 9) }

surface-IsSized : IsSized surface
surface-IsSized = record { sized = lent }
  where
    lent :
        (w h : ℕ) (buffer : List ℕ)
        → some (replicate (h * w) 9) ≡ some buffer
        → length buffer ≡ h * w
    lent w h buffer e =
        let same : replicate (h * w) 9 ≡ buffer = cc in rw⁻¹ same (length-replicate (h * w) 9)

redraw_after_run_example :
    (drawing : Option (List ℕ)) × (redraw surface
        (some (4, 4))
        (run codec whole_numbers units softened).view
      ≡ some drawing)
unfolding new
redraw_after_run_example =
    redraw_after_run codec whole_numbers units softened surface (some (4, 4)) refl surface-IsSized

-- FFmpeg on a machine with VA-API, which refuses the device.
abbrev lib : Library
lib = record {
  Ctx = ℕ;
  platform = linux;
  has_h264 = true;
  hw_configs = record { device_type = vaapi; by_device_ctx = true; pix_fmt = 44 } ∷ [];
  is_hw_format = λ f. f == 44;
  device_create = λ n dev. false;
  allocate = λ n. true;
  open_codec = λ n hw. some n;
  new_packet = λ c len. true;
  send_packet = λ c au. record { ctx = c; offered = none; failed = none; frames = [] };
}

abbrev fill : DecodedImage → ℕ → ℕ → List ℕ → Option (List ℕ)
fill img dw dh buffer = some (replicate (length buffer) 1)

abbrev soft : Thread (ffmpeg_codec lib fill filled)
soft = record {
  decoder =
      ffmpeg (record { ctx = 0; hw_pix_fmt = none; callback = none; hw_name = none; pictures = 0 });
  view = new;
  hw_failures = 0;
  last_request = 0;
  requests = [];
  frames = 0;
  made = 1;
  failed = false;
}

soft_starts : start (ffmpeg_codec lib fill filled) software new 0 ≡ some soft
unfolding start start_with Ffmpeg.new open_decoder open_with opened hw_setup
soft_starts = refl

preference-InSoftware_example :
    Has
      (ffmpeg_codec lib fill filled)
      (InSoftware lib)
      (run (ffmpeg_codec lib fill filled) whole_numbers units soft).decoder
preference-InSoftware_example =
    preference-InSoftware lib whole_numbers fill filled new 0 units soft soft_starts

-- A stream for which VA-API's format 44 is not offered.
abbrev asked_for : CallbackState
asked_for = record { wanted = 44; fell_back = false }

abbrev is_vaapi : ℕ → Bool
is_vaapi f = f == 44

picked_software : (get_format is_vaapi (0 ∷ 12 ∷ []) asked_for).0 ≡ some 0
unfolding get_format pick_format
picked_software = refl
