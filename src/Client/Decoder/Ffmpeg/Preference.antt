-- ===== src/Client/Decoder/Ffmpeg/Preference.antt =====
-- The preference for software, through FFmpeg's decoder and the decode thread.
use vmscren_share.Prelude.{
  ℕ, ◌≡◌, Bool, true, false, not, ltb, if◌then◌else◌, Option, none, some, List, [], ◌∷◌, length, ap,
  refl, ◌∙◌, subst,
}
use vmscren_share.Prelude.Floats.{Floats}
use vmscren_share.Prelude.Result.{err}
use vmscren_share.Client.View.{SharedView}
use vmscren_share.Client.Decoder.{
  DecodedImage, software, DecodeError, Codec, ffmpeg, Thread, start_with, start, run,
}
use vmscren_share.Client.Decoder.Kept.{Has, run-Has}
use vmscren_share.Client.Decoder.Ffmpeg.{
  Library, FfmpegDecoder, ErrorCode, Received, called_back, c_int_max, opened, open_with,
  open_decoder, hw_setup, new, counted, receive, decode_packet, decode,
}
use vmscren_share.Client.Decoder.Ffmpeg.IsCodec.{ffmpeg_codec}

module _ (lib : Library) where
  open lib use {Ctx, is_hw_format, open_codec, allocate, has_h264, new_packet, send_packet}

  -- A context that was opened without a device, and what sending packets makes of it.
  pub data WithoutDevice : Ctx → Type 0 where
    just_opened : (n : ℕ) (ctx : Ctx) → open_codec n none ≡ some ctx → WithoutDevice ctx
    after_packet :
        (ctx : Ctx) (bytes : List ℕ) → WithoutDevice ctx → WithoutDevice (send_packet ctx bytes).ctx

  -- A decoder that decodes in software: its context has no device and no `get_format` of ours, and it
  -- transfers no frame from hardware.
  pub record InSoftware (d : FfmpegDecoder Ctx) : Type 0 where
    pub no_device : WithoutDevice d.ctx
    pub no_callback : d.callback ≡ none
    pub no_format : d.hw_pix_fmt ≡ none
    pub no_name : d.hw_name ≡ none

  opened-InSoftware :
      (n : ℕ) (o : Option Ctx) (d : FfmpegDecoder Ctx)
      → open_codec n none ≡ o
      → opened lib none none o ≡ some d
      → InSoftware d
  unfolding opened
  opened-InSoftware n none d at_open e = cc
  opened-InSoftware n (some ctx) d at_open e =
      let first : FfmpegDecoder Ctx = record {
        ctx = ctx;
        hw_pix_fmt = none;
        callback = none;
        hw_name = none;
        pictures = 0;
      } in
      let same : first ≡ d = cc in
      subst InSoftware same (record {
        no_device = just_opened n ctx at_open;
        no_callback = refl;
        no_format = refl;
        no_name = refl;
      })

  new-InSoftware : (n : ℕ) (d : FfmpegDecoder Ctx) → new lib n software ≡ some d → InSoftware d
  unfolding new open_decoder open_with hw_setup
  new-InSoftware n d e = by_build has_h264 (allocate n) e
    where
      by_build :
          (h264 room : Bool)
          → (if not h264
              then none
              else if not room
              then none
              else opened lib none none (open_codec n none))
            ≡ some d
          → InSoftware d
      by_build false room e = cc
      by_build true false e = cc
      by_build true true e = opened-InSoftware n (open_codec n none) d refl e

  receive-InSoftware :
      (d : FfmpegDecoder Ctx) (failed : Option ErrorCode) (frames : List Received)
      → InSoftware d
      → InSoftware (receive lib d failed frames).0
  unfolding receive counted
  receive-InSoftware d (some code) frames h = h
  receive-InSoftware d none frames h = record {
    no_device = h.no_device;
    no_callback = h.no_callback;
    no_format = h.no_format;
    no_name = h.no_name;
  }

  called_back-none : (o : Option (List ℕ)) → called_back is_hw_format o none ≡ none
  unfolding called_back
  called_back-none none = refl
  called_back-none (some formats) = refl

  packet-InSoftware :
      (d : FfmpegDecoder Ctx) (bytes : List ℕ)
      → InSoftware d
      → InSoftware (decode_packet lib d (send_packet d.ctx bytes)).0
  unfolding decode_packet
  packet-InSoftware d bytes h =
      let s = send_packet d.ctx bytes in
      receive-InSoftware
        (record d { ctx = s.ctx; callback = called_back is_hw_format s.offered d.callback })
        s.failed s.frames
        (record {
          no_device = after_packet d.ctx bytes h.no_device;
          no_callback =
              ap (called_back is_hw_format s.offered) h.no_callback ∙ called_back-none s.offered;
          no_format = h.no_format;
          no_name = h.no_name;
        })

  decode-InSoftware :
      (d : FfmpegDecoder Ctx) (au : List ℕ) → InSoftware d → InSoftware (decode lib d au).0
  unfolding decode
  decode-InSoftware d [] h = h
  decode-InSoftware d (b ∷ bs) h =
      by_checks (ltb c_int_max (length (b ∷ bs))) (new_packet d.ctx (length (b ∷ bs)))
    where
      by_checks :
          (large packet : Bool)
          → InSoftware
              (if large
                then (d, err DecodeError.corrupt)
                else if not packet
                then (d, err DecodeError.fatal)
                else decode_packet lib d (send_packet d.ctx (b ∷ bs))).0
      by_checks true packet = h
      by_checks false false = h
      by_checks false true = packet-InSoftware d (b ∷ bs) h

-- With the preference for software, FFmpeg's decoder decodes in software, whatever the decode thread
-- receives and however often it makes the decoder again: it is open without a device and without the
-- callback that picks a format of hardware, and it transfers no frame.
pub preference-InSoftware :
    (lib : Library) (floats : Floats) (sws : DecodedImage → ℕ → ℕ → List ℕ → Option (List ℕ))
    (fills : (img : DecodedImage) (dw dh : ℕ) (buffer pixels : List ℕ)
      → sws img dw dh buffer ≡ some pixels
      → length pixels ≡ length buffer)
    (view : SharedView) (last : ℕ) (us : List (ℕ × List ℕ))
    (t : Thread (ffmpeg_codec lib sws fills))
    → start (ffmpeg_codec lib sws fills) software view last ≡ some t
    → Has
        (ffmpeg_codec lib sws fills)
        (InSoftware lib)
        (run (ffmpeg_codec lib sws fills) floats us t).decoder
unfolding start start_with
preference-InSoftware lib floats sws fills view last us t e =
    run-Has codec (InSoftware lib) (new-InSoftware lib) (decode-InSoftware lib) floats us t
      (by_attempt (new lib 0 software) refl e)
  where
    codec : Codec
    codec = ffmpeg_codec lib sws fills

    by_attempt :
        (o : Option (FfmpegDecoder lib.Ctx))
        → new lib 0 software ≡ o
        → start_with codec view last o ≡ some t
        → Has codec (InSoftware lib) t.decoder
    by_attempt none made e = cc
    by_attempt (some d) made e =
        let first : Thread codec = record {
          decoder = ffmpeg d;
          view = view;
          hw_failures = 0;
          last_request = last;
          requests = [];
          frames = 0;
          made = 1;
          failed = false;
        } in
        let same : first ≡ t = cc in
        subst (λ (x : Thread codec). Has codec (InSoftware lib) x.decoder) same
          (unfold Has in new-InSoftware lib 0 d made)
