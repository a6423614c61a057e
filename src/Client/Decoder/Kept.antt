-- ===== src/Client/Decoder/Kept.antt =====
-- client/src/decoder/mod.rs: what holds of every software decoder holds of the thread's decoder.
use vmscren_share.Prelude.{
  ℕ, ◌+◌, ◌≡◌, refl, sym, subst, Bool, true, false, ◌&&◌, leb, ◌==◌, if◌then◌else◌, Option, none,
  some, List, [], ◌∷◌,
}
use vmscren_share.Prelude.Floats.{Floats}
use vmscren_share.Prelude.Result.{Result, ok, err}
use vmscren_share.Client.Decoder.{
  DecodedImage, software, DecodeError, corrupt, fatal, Codec, Decoder, ffmpeg, broken,
  hw_failure_limit, decode_with, uses_hardware, pictures_of, Thread, request_keyframe,
  software_or_broken, fallback_to_software, recreate, count_failure, on_corrupt, on_fatal,
  on_decoded, turn, run,
}
use vmscren_share.Client.Decoder.Fallback.{show_images-decoder}

-- A property of a thread's decoder, where a broken one decodes nothing.
module _ (codec : Codec) (P : codec.D → Type 0) where
  unfoldable pub Has : Decoder codec → Type 0
  Has (ffmpeg d) = P d
  Has broken = Unit

-- A property of the decoders that are made for software, which decoding keeps.
module _ (codec : Codec) (P : codec.D → Type 0)
    (made : (n : ℕ) (d : codec.D) → codec.create n software ≡ some d → P d)
    (kept : (d : codec.D) (au : List ℕ) → P d → P (codec.decode d au).0) where
  open codec use {D, create, decode}

  abbrev HasIt : Thread codec → Type 0
  HasIt t = Has codec P t.decoder

  either : (a b : Thread codec) (x : Bool) → HasIt a → HasIt b → HasIt (if x then a else b)
  either a b true x y = x
  either a b false x y = y

  made-Has :
      (n : ℕ) (o : Option D) → create n software ≡ o → Has codec P (software_or_broken codec o)
  unfolding Has software_or_broken
  made-Has n none e = tt
  made-Has n (some d) e = made n d e

  fallback-Has : (t : Thread codec) → HasIt (fallback_to_software codec t)
  unfolding fallback_to_software
  fallback-Has t = made-Has t.made (create t.made software) refl

  decode_with-Has :
      (d : Decoder codec) (au : List ℕ) → Has codec P d → Has codec P (decode_with codec d au).0
  unfolding Has decode_with
  decode_with-Has (ffmpeg d) au h = kept d au h
  decode_with-Has broken au h = tt

  on_corrupt-Has : (now : ℕ) (t : Thread codec) → HasIt t → HasIt (on_corrupt codec now t)
  unfolding on_corrupt request_keyframe count_failure
  on_corrupt-Has now t h =
      let asked = request_keyframe codec now t in
      either (count_failure codec asked) asked
        (uses_hardware codec t.decoder && pictures_of codec t.decoder == 0)
        (either (record (fallback_to_software codec asked) { hw_failures = 0 })
          (record asked { hw_failures = t.hw_failures + 1 })
          (leb hw_failure_limit (t.hw_failures + 1)) (fallback-Has asked) h)
        h

  recreate-Has :
      (n : ℕ) (o : Option D) (t : Thread codec)
      → create n software ≡ o
      → HasIt t
      → HasIt (recreate codec o t)
  unfolding recreate Has
  recreate-Has n none t e h = h
  recreate-Has n (some d) t e h = made n d e

  on_fatal-Has : (now : ℕ) (t : Thread codec) → HasIt t → HasIt (on_fatal codec now t)
  unfolding on_fatal request_keyframe
  on_fatal-Has now t h =
      let asked = request_keyframe codec now t in
      either (fallback_to_software codec asked) (recreate codec (create asked.made software) asked)
        (uses_hardware codec t.decoder) (fallback-Has asked)
        (recreate-Has asked.made (create asked.made software) asked refl h)

  module _ (floats : Floats) where
    on_decoded-Has :
        (now : ℕ) (r : Result DecodeError (List DecodedImage)) (t : Thread codec)
        → HasIt t
        → HasIt (on_decoded codec floats now r t)
    unfolding on_decoded
    on_decoded-Has now (ok imgs) t h =
        subst (Has codec P)
          (sym (show_images-decoder codec floats imgs (record t { hw_failures = 0 }))) h
    on_decoded-Has now (err corrupt) t h = on_corrupt-Has now t h
    on_decoded-Has now (err fatal) t h = on_fatal-Has now t h

    turn-Has :
        (now : ℕ) (au : List ℕ) (t : Thread codec) → HasIt t → HasIt (turn codec floats now au t)
    unfolding turn
    turn-Has now au t h =
        on_decoded-Has now (decode_with codec t.decoder au).1
          (record t { decoder = (decode_with codec t.decoder au).0 })
          (decode_with-Has t.decoder au h)

    -- Whatever a thread receives that has such a decoder, it goes on to have one.
    pub run-Has :
        (us : List (ℕ × List ℕ)) (t : Thread codec)
        → Has codec P t.decoder
        → Has codec P (run codec floats us t).decoder
    unfolding run
    run-Has [] t h = h
    run-Has ((now, au) ∷ us) t h =
        either (turn codec floats now au t) (run codec floats us (turn codec floats now au t))
          (turn codec floats now au t).failed (turn-Has now au t h)
          (run-Has us (turn codec floats now au t) (turn-Has now au t h))
