-- ===== src/Client/Decoder/Ffmpeg/IsCodec.antt =====
-- FFmpeg's decoder is what the decode thread expects of one.
use vmscren_share.Prelude.{
  ℕ, ◌⊎◌, ==→eq, ◌≡◌, refl, sym, ap, Bool, true, false, not, ◌&&◌, ltb, ◌==◌, if◌then◌else◌, Option,
  none, some, List, [], ◌∷◌, length, find?, inl, inr,
}
use vmscren_share.Prelude.Result.{err}
use vmscren_share.Client.Decoder.{DecodedImage, software, DecodeError, Codec}
use vmscren_share.Client.Decoder.Ffmpeg.{
  Library, FfmpegDecoder, CallbackState, ErrorCode, Received, Sent, pick_format, get_format,
  called_back, c_int_max, opened, open_with, open_decoder, hw_setup, new, counted, receive,
  decode_packet, decode, has_fallen_back, callback_for, is_named, is_hardware,
}

-- A decoder whose device has been given up stays without it.
pick_format-fell_back :
    (is_hw : ℕ → Bool) (formats : List ℕ) (o : Option ℕ) (state : CallbackState)
    → state.fell_back ≡ true
    → (pick_format is_hw formats o state).1.fell_back ≡ true
unfolding pick_format
pick_format-fell_back is_hw formats none state h = refl
pick_format-fell_back is_hw formats (some f) state h = h

find?-passes : (p : ℕ → Bool) (xs : List ℕ) (x : ℕ) → find? p xs ≡ some x → p x ≡ true
find?-passes p [] x e = cc
find?-passes p (y ∷ ys) x e = by_test (p y) refl e (find?-passes p ys x)
  where
    by_test :
        (b : Bool)
        → p y ≡ b
        → (if b then some y else find? p ys) ≡ some x
        → (find? p ys ≡ some x → p x ≡ true)
        → p x ≡ true
    by_test true h e rest = let same : y ≡ x = cc in rw⁻¹ same h
    by_test false h e rest = rest e

not-true : (b : Bool) → not b ≡ true → b ≡ false
not-true true h = cc
not-true false h = refl

-- The format that `get_format` picks is the one that was wanted, or else no format of hardware, and
-- then the decoder counts as software from there on.
pub get_format-picks :
    (is_hw : ℕ → Bool) (formats : List ℕ) (state : CallbackState) (f : ℕ)
    → (get_format is_hw formats state).0 ≡ some f
    → (f ≡ state.wanted)
      ⊎ ((is_hw f ≡ false) × ((get_format is_hw formats state).1.fell_back ≡ true))
unfolding get_format pick_format
get_format-picks is_hw formats state f e = by_offer (find? (λ g. g == state.wanted) formats) refl e
  where
    by_offer :
        (o : Option ℕ)
        → find? (λ g. g == state.wanted) formats ≡ o
        → (pick_format is_hw formats o state).0 ≡ some f
        → (f ≡ state.wanted)
          ⊎ ((is_hw f ≡ false) × ((pick_format is_hw formats o state).1.fell_back ≡ true))
    by_offer (some g) found e =
        let passes = find?-passes (λ g. g == state.wanted) formats g found in
        let same : g ≡ f = cc in inl (rw⁻¹ same (==→eq g state.wanted passes))
    by_offer none found e =
        let passes = find?-passes (λ g. not (is_hw g)) formats f e in
        inr (not-true (is_hw f) passes, refl)

module _ (lib : Library) where
  open lib use {Ctx, is_hw_format, open_codec, allocate, has_h264, new_packet, send_packet}

  called_back-kept :
      (offered : Option (List ℕ)) (state : Option CallbackState)
      → has_fallen_back lib state ≡ true
      → has_fallen_back lib (called_back is_hw_format offered state) ≡ true
  unfolding called_back get_format
  called_back-kept none state h = h
  called_back-kept (some formats) none h = h
  called_back-kept (some formats) (some state) h =
      pick_format-fell_back is_hw_format formats (find? (λ f. f == state.wanted) formats) state h

  -- What a decode leaves of a decoder.
  pub record Keeps (d d' : FfmpegDecoder Ctx) : Type 0 where
    pub same_name : d'.hw_name ≡ d.hw_name
    pub still_back : has_fallen_back lib d.callback ≡ true → has_fallen_back lib d'.callback ≡ true

  receive-Keeps :
      (d : FfmpegDecoder Ctx) (failed : Option ErrorCode) (frames : List Received)
      → Keeps d (receive lib d failed frames).0
  unfolding receive counted
  receive-Keeps d (some code) frames = record { same_name = refl; still_back = λ h. h }
  receive-Keeps d none frames = record { same_name = refl; still_back = λ h. h }

  decode_packet-Keeps : (d : FfmpegDecoder Ctx) (s : Sent Ctx) → Keeps d (decode_packet lib d s).0
  unfolding decode_packet
  decode_packet-Keeps d s =
      let next : FfmpegDecoder Ctx = record d {
        ctx = s.ctx;
        callback = called_back is_hw_format s.offered d.callback;
      } in
      let k = receive-Keeps next s.failed s.frames in
      record {
        same_name = k.same_name;
        still_back = λ h. k.still_back (called_back-kept s.offered d.callback h);
      }

  pub decode-Keeps : (d : FfmpegDecoder Ctx) (au : List ℕ) → Keeps d (decode lib d au).0
  unfolding decode
  decode-Keeps d [] = record { same_name = refl; still_back = λ h. h }
  decode-Keeps d (b ∷ bs) =
      by_checks (ltb c_int_max (length (b ∷ bs))) (new_packet d.ctx (length (b ∷ bs)))
    where
      by_checks :
          (large packet : Bool)
          → Keeps d
              (if large
                then (d, err DecodeError.corrupt)
                else if not packet
                then (d, err DecodeError.fatal)
                else decode_packet lib d (send_packet d.ctx (b ∷ bs))).0
      by_checks true packet = record { same_name = refl; still_back = λ h. h }
      by_checks false false = record { same_name = refl; still_back = λ h. h }
      by_checks false true = decode_packet-Keeps d (send_packet d.ctx (b ∷ bs))

  -- Software is what has no name, or has fallen back.
  pub software_decode :
      (d d' : FfmpegDecoder Ctx)
      → Keeps d d'
      → is_hardware lib d ≡ false
      → is_hardware lib d' ≡ false
  unfolding is_hardware
  software_decode d d' k h = rw k.same_name (
      by_parts (is_named lib d.hw_name) (has_fallen_back lib d.callback)
        (has_fallen_back lib d'.callback) k.still_back h)
    where
      by_parts :
          (named back back' : Bool)
          → (back ≡ true → back' ≡ true)
          → (named && not back) ≡ false
          → (named && not back') ≡ false
      by_parts false back back' keeps e = refl
      by_parts true true back' keeps e = rw (keeps refl) refl
      by_parts true false back' keeps e = cc

  open_with-software :
      (n : ℕ) (pix_fmt : Option (Option ℕ)) (d : FfmpegDecoder Ctx)
      → open_with lib n none pix_fmt ≡ some d
      → is_hardware lib d ≡ false
  unfolding open_with opened is_hardware
  open_with-software n none d e = cc
  open_with-software n (some pix_fmt) d e = by_codec (allocate n) (open_codec n none) e
    where
      by_codec :
          (room : Bool) (o : Option Ctx)
          → (if not room then none else opened lib none pix_fmt o) ≡ some d
          → (is_named lib d.hw_name && not (has_fallen_back lib d.callback)) ≡ false
      by_codec false o e = cc
      by_codec true none e = cc
      by_codec true (some ctx) e =
          let made : FfmpegDecoder Ctx = record {
            ctx = ctx;
            hw_pix_fmt = pix_fmt;
            callback = callback_for lib pix_fmt;
            hw_name = none;
            pictures = 0;
          } in
          let same : made ≡ d = cc in
          sym (ap (λ x. is_named lib x.hw_name && not (has_fallen_back lib x.callback)) same)

  pub software_new :
      (n : ℕ) (d : FfmpegDecoder Ctx) → new lib n software ≡ some d → is_hardware lib d ≡ false
  unfolding new open_decoder
  software_new n d e = by_build has_h264 e
    where
      by_build :
          (h264 : Bool)
          → (if not h264 then none else open_with lib n none (hw_setup lib n none)) ≡ some d
          → is_hardware lib d ≡ false
      by_build false e = cc
      by_build true e = open_with-software n (hw_setup lib n none) d e

  -- The decoders of FFmpeg, as the decode thread uses them: a decoder that is made for software does
  -- not use hardware, and one that does not use hardware never comes to. swscale is handed on.
  abbrev pub ffmpeg_codec :
      (sws : DecodedImage → ℕ → ℕ → List ℕ → Option (List ℕ))
      → ((img : DecodedImage) (dw dh : ℕ) (buffer pixels : List ℕ)
          → sws img dw dh buffer ≡ some pixels
          → length pixels ≡ length buffer)
      → Codec
  ffmpeg_codec sws fills = record {
    D = FfmpegDecoder Ctx;
    create = new lib;
    decode = decode lib;
    is_hardware = is_hardware lib;
    pictures_decoded = λ d. d.pictures;
    sws_scale = sws;
    software_made = software_new;
    software_kept = λ d au h. software_decode d (decode lib d au).0 (decode-Keeps d au) h;
    sws_fills = fills;
  }
