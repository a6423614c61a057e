-- ===== src/Client/Decoder/Published.antt =====
-- What the decode thread publishes is what the window can draw.
use vmscren_share.Prelude.{
  ℕ, ◌+◌, ◌*◌, ◌≡◌, max, refl, sym, ap, ◌∙◌, subst, Bool, true, false, not, ◌&&◌, ◌||◌, leb, ◌==◌,
  if◌then◌else◌, Option, none, some, List, [], ◌∷◌, length, replicate, length-replicate, Bool-cases,
  inl, inr, arith,
}
use vmscren_share.Prelude.Floats.{Floats}
use vmscren_share.Prelude.Result.{Result, ok, err}
use vmscren_share.Client.View.{SharedView, RgbFrame, set_source_size, target_size, publish}
use vmscren_share.Client.Blit.Centred.{blit-IsCentred}
use vmscren_share.Client.App.{fit_aspect}
use vmscren_share.Client.App.Window.{Surface, drawn, presented, draw_into, redraw}
use vmscren_share.Client.Decoder.{
  DecodedImage, DecodeError, corrupt, fatal, Codec, decode_with, Thread, request_keyframe,
  fallback_to_software, recreate, framed, scale, show, count_failure, on_corrupt, on_fatal,
  show_image, show_images, on_decoded, turn, run, uses_hardware, pictures_of, hw_failure_limit,
  software,
}

-- A frame has all its pixels.
abbrev pub AllPixels : Option RgbFrame → Type 0
AllPixels none = Unit
AllPixels (some f) = length f.pixels ≡ f.height * f.width

module _ (codec : Codec) where
  open codec use {D, create, sws_scale, sws_fills}

  abbrev Whole : Thread codec → Type 0
  Whole t = AllPixels t.view.latest

  framed-AllPixels :
      (img : DecodedImage) (dw dh : ℕ) (o : Option (List ℕ))
      → sws_scale img dw dh (replicate (dw * dh) 0) ≡ o
      → AllPixels (framed codec dw dh o)
  unfolding framed
  framed-AllPixels img dw dh none e = tt
  framed-AllPixels img dw dh (some pixels) e =
      let filled = sws_fills img dw dh (replicate (dw * dh) 0) pixels e in
      filled ∙ length-replicate (dw * dh) 0 ∙ omega arith

  show-Whole :
      (o : Option RgbFrame) (t : Thread codec) → AllPixels o → Whole t → Whole (show codec o t)
  unfolding show publish
  show-Whole none t h w = w
  show-Whole (some f) t h w = h

  fallback-view : (t : Thread codec) → (fallback_to_software codec t).view ≡ t.view
  unfolding fallback_to_software
  fallback-view t = refl

  on_corrupt-Whole : (now : ℕ) (t : Thread codec) → Whole t → Whole (on_corrupt codec now t)
  unfolding on_corrupt request_keyframe count_failure fallback_to_software
  on_corrupt-Whole now t w =
      by_count (uses_hardware codec t.decoder && pictures_of codec t.decoder == 0)
        (leb hw_failure_limit (t.hw_failures + 1))
    where
      by_count :
          (useless reached : Bool)
          → let asked = request_keyframe codec now t in
            Whole (
              if useless
              then (if reached
                  then record (fallback_to_software codec asked) { hw_failures = 0 }
                  else record asked { hw_failures = asked.hw_failures + 1 })
              else asked)
      by_count true true = w
      by_count true false = w
      by_count false reached = w

  on_fatal-Whole : (now : ℕ) (t : Thread codec) → Whole t → Whole (on_fatal codec now t)
  unfolding on_fatal request_keyframe fallback_to_software recreate
  on_fatal-Whole now t w = by_hardware (uses_hardware codec t.decoder) (create t.made software)
    where
      by_hardware :
          (b : Bool) (made : Option D)
          → let asked = request_keyframe codec now t in
            Whole (if b then fallback_to_software codec asked else recreate codec made asked)
      by_hardware true made = w
      by_hardware false none = w
      by_hardware false (some d) = w

  module _ (floats : Floats) where
    show_images-Whole :
        (imgs : List DecodedImage) (t : Thread codec)
        → Whole t
        → Whole (show_images codec floats imgs t)
    unfolding show_images show_image scale set_source_size
    show_images-Whole [] t w = w
    show_images-Whole (img ∷ imgs) t w =
        let sized : Thread codec = record t {
          view = set_source_size t.view img.width img.height;
        } in
        let fitted = fit_aspect floats (target_size sized.view) (img.width, img.height) in
        let dw = max fitted.0 1 in
        let dh = max fitted.1 1 in
        show_images-Whole imgs (show_image codec floats img t) (
          show-Whole (scale codec img fitted.0 fitted.1) sized
            (framed-AllPixels img dw dh (sws_scale img dw dh (replicate (dw * dh) 0)) refl) w)

    on_decoded-Whole :
        (now : ℕ) (r : Result DecodeError (List DecodedImage)) (t : Thread codec)
        → Whole t
        → Whole (on_decoded codec floats now r t)
    unfolding on_decoded
    on_decoded-Whole now (ok imgs) t w = show_images-Whole imgs (record t { hw_failures = 0 }) w
    on_decoded-Whole now (err corrupt) t w = on_corrupt-Whole now t w
    on_decoded-Whole now (err fatal) t w = on_fatal-Whole now t w

    turn-Whole :
        (now : ℕ) (au : List ℕ) (t : Thread codec) → Whole t → Whole (turn codec floats now au t)
    unfolding turn
    turn-Whole now au t w =
        on_decoded-Whole now (decode_with codec t.decoder au).1
          (record t { decoder = (decode_with codec t.decoder au).0 }) w

    run-Whole :
        (us : List (ℕ × List ℕ)) (t : Thread codec) → Whole t → Whole (run codec floats us t)
    unfolding run
    run-Whole [] t w = w
    run-Whole ((now, au) ∷ us) t w =
        let next = turn codec floats now au t in
        let kept = turn-Whole now au t w in
        either next (run codec floats us next) next.failed kept (run-Whole us next kept)
      where
        either :
            (a b : Thread codec) (failed : Bool)
            → Whole a
            → Whole b
            → Whole (if failed then a else b)
        either a b true x y = x
        either a b false x y = y

-- A surface whose buffers have the size that it was given, as softbuffer documents.
pub record IsSized (surface : Surface) : Type 0 where
  pub sized :
      (w h : ℕ) (buffer : List ℕ) → surface.buffer_mut w h ≡ some buffer → length buffer ≡ h * w

drawn-some :
    (latest : Option RgbFrame) (buffer : List ℕ) (w h : ℕ)
    → AllPixels latest
    → length buffer ≡ h * w
    → (pixels : List ℕ) × (drawn latest buffer w h ≡ some pixels)
unfolding drawn
drawn-some none buffer w h whole size = (replicate (length buffer) 0, refl)
drawn-some (some f) buffer w h whole size =
    let (out, (e, centred)) = blit-IsCentred f buffer w h whole size in (out, e)

draw_into-some :
    (latest : Option RgbFrame) (w h : ℕ) (buffer : Option (List ℕ))
    → AllPixels latest
    → ((b : List ℕ) → buffer ≡ some b → length b ≡ h * w)
    → (shown : Option (List ℕ)) × (draw_into latest w h buffer ≡ some shown)
unfolding draw_into presented
draw_into-some latest w h none whole size = (none, refl)
draw_into-some latest w h (some b) whole size =
    let (out, e) = drawn-some latest b w h whole (size b refl) in (some out, ap presented e)

redraw-some :
    (surface : Surface) (size : Option (ℕ × ℕ)) (view : SharedView)
    → IsSized surface
    → AllPixels view.latest
    → (shown : Option (List ℕ)) × (redraw surface size view ≡ some shown)
unfolding redraw
redraw-some surface none view s whole = (none, refl)
redraw-some surface (some (w, h)) view s whole =
    elim (Bool-cases ((w == 0 || h == 0) || not (surface.resize w h))) [
      | inl skipped ↦ (none, rw skipped refl)
      | inr goes ↦
          let (shown, e) =
            draw_into-some view.latest w h (surface.buffer_mut w h) whole (s.sized w h) in
          (shown, rw goes e)
    ]

-- Whatever the decode thread has received and however FFmpeg answers, the window can be redrawn: with
-- the frame that is published, at any size of the window, no slice in `blit` is out of range.
pub redraw_after_run :
    (codec : Codec) (floats : Floats) (us : List (ℕ × List ℕ)) (t : Thread codec)
    (surface : Surface) (size : Option (ℕ × ℕ))
    → t.view.latest ≡ none
    → IsSized surface
    → (shown : Option (List ℕ)) × (redraw surface size (run codec floats us t).view ≡ some shown)
redraw_after_run codec floats us t surface size empty s =
    redraw-some surface size (run codec floats us t).view s
      (run-Whole codec floats us t (subst AllPixels (sym empty) tt))
