-- ===== src/Client/Decoder/Fallback.antt =====
-- The fallback from a hardware decoder to software.
use vmscren_share.Prelude.{
  ℕ, ◌+◌, ◌<◌, ◌≡◌, refl, sym, ap, ◌∙◌, subst, Bool, true, false, ◌&&◌, leb, ◌==◌, if◌then◌else◌,
  Option, none, some, List, [], ◌∷◌, length, Bool-cases, inl, inr, arith,
}
use vmscren_share.Prelude.Floats.{Floats}
use vmscren_share.Prelude.Result.{Result, ok, err}
use vmscren_share.Client.View.{RgbFrame, set_source_size, target_size}
use vmscren_share.Client.App.{fit_aspect}
use vmscren_share.Client.Decoder.{
  DecodedImage, software, DecodeError, corrupt, fatal, Codec, hw_failure_limit, Decoder, ffmpeg,
  broken, decode_with, uses_hardware, pictures_of, Thread, request_keyframe, software_or_broken,
  fallback_to_software, recreate, scale, show, count_failure, on_corrupt, on_fatal, show_image,
  show_images, on_decoded, turn, run,
}

module _ (codec : Codec) where
  open codec use {D, create, decode, is_hardware, pictures_decoded, software_made, software_kept}

  -- The thread does not use hardware.
  abbrev pub Software : Thread codec → Type 0
  Software t = uses_hardware codec t.decoder ≡ false

  either :
      (a b : Thread codec) (failed : Bool)
      → Software a
      → Software b
      → Software (if failed then a else b)
  either a b true x y = x
  either a b false x y = y

  goes_on :
      (a b : Thread codec) (failed : Bool)
      → failed ≡ false
      → Software b
      → Software (if failed then a else b)
  goes_on a b true e y = cc
  goes_on a b false e y = y

  made-Software :
      (n : ℕ) (o : Option D)
      → create n software ≡ o
      → uses_hardware codec (software_or_broken codec o) ≡ false
  unfolding uses_hardware software_or_broken
  made-Software n none e = refl
  made-Software n (some d) e = software_made n d e

  fallback-Software : (t : Thread codec) → Software (fallback_to_software codec t)
  unfolding fallback_to_software
  fallback-Software t = made-Software t.made (create t.made software) refl

  decode_with-Software :
      (d : Decoder codec) (au : List ℕ)
      → uses_hardware codec d ≡ false
      → uses_hardware codec (decode_with codec d au).0 ≡ false
  unfolding uses_hardware decode_with
  decode_with-Software (ffmpeg d) au h = software_kept d au h
  decode_with-Software broken au h = refl

  on_corrupt-Software :
      (now : ℕ) (t : Thread codec) → Software t → Software (on_corrupt codec now t)
  unfolding on_corrupt request_keyframe
  on_corrupt-Software now t h =
      subst
        (λ b. Software (
          if b && pictures_of codec t.decoder == 0
          then count_failure codec (request_keyframe codec now t)
          else request_keyframe codec now t))
        (sym h) h

  recreate-Software :
      (n : ℕ) (o : Option D) (t : Thread codec)
      → create n software ≡ o
      → Software t
      → Software (recreate codec o t)
  unfolding recreate uses_hardware
  recreate-Software n none t e h = h
  recreate-Software n (some d) t e h = software_made n d e

  on_fatal-Software : (now : ℕ) (t : Thread codec) → Software (on_fatal codec now t)
  unfolding on_fatal request_keyframe
  on_fatal-Software now t = by_hardware (uses_hardware codec t.decoder) refl
    where
      by_hardware :
          (b : Bool)
          → uses_hardware codec t.decoder ≡ b
          → let asked = request_keyframe codec now t in
            Software (
              if b
              then fallback_to_software codec asked
              else recreate codec (create asked.made software) asked)
      by_hardware true h = fallback-Software (request_keyframe codec now t)
      by_hardware false h =
          let asked = request_keyframe codec now t in
          recreate-Software asked.made (create asked.made software) asked refl h

  module _ (floats : Floats) where
    show-decoder : (o : Option RgbFrame) (t : Thread codec) → (show codec o t).decoder ≡ t.decoder
    unfolding show
    show-decoder none t = refl
    show-decoder (some f) t = refl

    show_image-decoder :
        (img : DecodedImage) (t : Thread codec)
        → (show_image codec floats img t).decoder ≡ t.decoder
    unfolding show_image
    show_image-decoder img t =
        let sized : Thread codec = record t {
          view = set_source_size t.view img.width img.height;
        } in
        let fitted = fit_aspect floats (target_size sized.view) (img.width, img.height) in
        show-decoder (scale codec img fitted.0 fitted.1) sized

    pub show_images-decoder :
        (imgs : List DecodedImage) (t : Thread codec)
        → (show_images codec floats imgs t).decoder ≡ t.decoder
    unfolding show_images
    show_images-decoder [] t = refl
    show_images-decoder (img ∷ imgs) t =
        show_images-decoder imgs (show_image codec floats img t) ∙ show_image-decoder img t

    on_decoded-Software :
        (now : ℕ) (r : Result DecodeError (List DecodedImage)) (t : Thread codec)
        → Software t
        → Software (on_decoded codec floats now r t)
    unfolding on_decoded
    on_decoded-Software now (ok imgs) t h =
        ap (uses_hardware codec) (show_images-decoder imgs (record t { hw_failures = 0 })) ∙ h
    on_decoded-Software now (err corrupt) t h = on_corrupt-Software now t h
    on_decoded-Software now (err fatal) t h = on_fatal-Software now t

    turn-Software :
        (now : ℕ) (au : List ℕ) (t : Thread codec)
        → Software t
        → Software (turn codec floats now au t)
    unfolding turn
    turn-Software now au t h =
        on_decoded-Software now (decode_with codec t.decoder au).1
          (record t { decoder = (decode_with codec t.decoder au).0 })
          (decode_with-Software t.decoder au h)

    -- A thread that does not use hardware never comes to use it, whatever it receives.
    pub run-Software :
        (us : List (ℕ × List ℕ)) (t : Thread codec) → Software t → Software (run codec floats us t)
    unfolding run
    run-Software [] t h = h
    run-Software ((now, au) ∷ us) t h =
        either (turn codec floats now au t) (run codec floats us (turn codec floats now au t))
          (turn codec floats now au t).failed (turn-Software now au t h)
          (run-Software us (turn codec floats now au t) (turn-Software now au t h))

    -- Access units on each of which a hardware decoder reports corrupt data, with no picture so far.
    unfoldable pub Stuck : D → List (ℕ × List ℕ) → Type 0
    Stuck d [] = Unit
    Stuck d ((now, au) ∷ us) =
        ((decode d au).1 ≡ err corrupt)
        × ((is_hardware (decode d au).0 ≡ true)
            × ((pictures_decoded (decode d au).0 ≡ 0) × Stuck (decode d au).0 us))

    abbrev pub with_decoder : D → Thread codec → Thread codec
    with_decoder d t = record t { decoder = ffmpeg d }

    -- One such access unit, on its own.
    stuck_turn :
        (now : ℕ) (au : List ℕ) (d : D) (t : Thread codec)
        → (decode d au).1 ≡ err corrupt
        → is_hardware (decode d au).0 ≡ true
        → pictures_decoded (decode d au).0 ≡ 0
        → turn codec floats now au (with_decoder d t)
          ≡ count_failure codec (request_keyframe codec now (with_decoder (decode d au).0 t))
    unfolding turn decode_with on_decoded on_corrupt uses_hardware pictures_of
    stuck_turn now au d t bad hw none_yet = rw bad (rw hw (rw none_yet refl))

    limit_reached :
        (t : Thread codec)
        → leb hw_failure_limit (t.hw_failures + 1) ≡ true
        → count_failure codec t ≡ record (fallback_to_software codec t) { hw_failures = 0 }
    unfolding count_failure
    limit_reached t e = rw e refl

    limit_not_reached :
        (t : Thread codec)
        → leb hw_failure_limit (t.hw_failures + 1) ≡ false
        → count_failure codec t ≡ record t { hw_failures = t.hw_failures + 1 }
    unfolding count_failure
    limit_not_reached t e = rw e refl

    counted-Software :
        (us : List (ℕ × List ℕ)) (d : D) (t : Thread codec)
        → t.hw_failures + length us ≡ hw_failure_limit
        → t.hw_failures < hw_failure_limit
        → t.failed ≡ false
        → Stuck d us
        → Software (run codec floats us (with_decoder d t))
    unfolding run Stuck request_keyframe
    counted-Software [] d t count below alive stuck = absurd (omega arith)
    counted-Software ((now, au) ∷ us) d t count below alive stuck =
        let asked = request_keyframe codec now (with_decoder (decode d au).0 t) in
        let counted : Thread codec = record asked { hw_failures = t.hw_failures + 1 } in
        let back : Thread codec = record (fallback_to_software codec asked) { hw_failures = 0 } in
        rw (stuck_turn now au d t stuck.0 stuck.1.0 stuck.1.1.0)
          (elim (Bool-cases (leb hw_failure_limit (t.hw_failures + 1))) [
            | inl e ↦ rw (limit_reached asked e) (
                either back (run codec floats us back) back.failed (fallback-Software asked)
                  (run-Software us back (fallback-Software asked)))
            | inr e ↦ rw (limit_not_reached asked e) (
                goes_on counted (run codec floats us counted) t.failed alive (
                  counted-Software us (decode d au).0 counted (omega arith) (ground arith) alive
                    stuck.1.1.1))
          ])

    -- A hardware decoder that is of no use is given up: eight access units in a row that are corrupt
    -- to it, with no picture before, end with a thread that does not use hardware.
    pub eight_failures-Software :
        (us : List (ℕ × List ℕ)) (d : D) (t : Thread codec)
        → t.hw_failures ≡ 0
        → t.failed ≡ false
        → length us ≡ hw_failure_limit
        → Stuck d us
        → Software (run codec floats us (with_decoder d t))
    eight_failures-Software us d t none_yet alive eight stuck =
        counted-Software us d t (omega arith) (omega arith) alive stuck
