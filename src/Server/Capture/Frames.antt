-- ===== src/Server/Capture/Frames.antt =====
-- A captured frame is that of the framebuffer which is scanned out, and the conversion can read it.
use vmscren_share.Prelude.{
  ℕ, zero, suc, [], ◌∷◌, ◌+◌, ◌-◌, ◌*◌, ◌≤◌, ◌≡◌, refl, sym, ap, ◌∙◌, subst, Bool, true, false, leb,
  ◌==◌, Option, none, some, List, length, take, drop, inl, inr, arith, Bool-cases, ==→eq,
}
use vmscren_share.Prelude.Arith.{row_end}
use vmscren_share.Prelude.Result.{Result, ok, err, ok_or, from_ok, ok_inj}
use vmscren_share.Server.Capture.{
  Drm, CaptureError, no_gem_handle, Mapping, PlanarInfo, first_mapping, map_bytes, map_info,
  check_format, framebuffer_info, map_framebuffer, FrameSource, CapturedFrame, rows_of, view_of,
  with_mapping, use_mapping, capture_plane, capture,
}
use vmscren_share.Server.Convert.{I420Frame, even, xrgb_to_i420}
use vmscren_share.Server.Convert.Outcome.{Fits, xrgb_to_i420-Fits_iff}

-- A mapping of a framebuffer, with all its rows.
pub record IsMapped (fb : ℕ) (m : Mapping) : Type 0 where
  pub is_fb : m.fb ≡ fb
  pub whole : length m.mmap ≡ m.pitch * m.height + m.offset

-- What a source has mapped is a whole framebuffer.
unfoldable pub SoundMapping : Option Mapping → Type 0
SoundMapping none = Unit
SoundMapping (some m) = IsMapped m.fb m

-- A frame of a framebuffer, which the source has mapped: all its rows.
pub record Shows (fb : ℕ) (s : FrameSource) (f : CapturedFrame) : Type 0 where
  pub mapped : (m : Mapping) × ((s.mapping ≡ some m) × (m.fb ≡ fb))
  pub rows : length f.bytes ≡ f.pitch * f.height

-- A capture that does not panic, and whose frame, if there is one, is that of the framebuffer that
-- the plane scans out now.
unfoldable pub IsCurrent :
    Option (Option ℕ) → Option (FrameSource × Result CaptureError (CapturedFrame)) → Type 0
unfolding SoundMapping
IsCurrent plane none = ⊥
IsCurrent plane (some (s, err e)) = SoundMapping s.mapping
IsCurrent plane (some (s, ok f)) =
    SoundMapping s.mapping × ((fb : ℕ) × ((plane ≡ some (some fb)) × Shows fb s f))

take_rows : (n k : ℕ) (xs : List ℕ) → length xs ≡ n + k → length (take n (drop k xs)) ≡ n
take_rows n zero xs h = of_take n xs (omega arith)
  where
    of_take : (n : ℕ) (xs : List ℕ) → n ≤ length xs → length (take n xs) ≡ n
    of_take zero xs h = refl
    of_take (suc n) [] h = omega arith
    of_take (suc n) (x ∷ xs) h = ap suc (of_take n xs (omega arith))
take_rows n (suc k) [] h = omega arith
take_rows n (suc k) (x ∷ xs) h = take_rows n k xs (omega arith)

module _ (drm : Drm) where
  open drm use {
    get_plane, get_planar, get_framebuffer, map_prime, map_dumb, prime_length, dumb_length,
  }

  first_mapping-length :
      (buffer len : ℕ) (prime dumb : Option (List ℕ)) (m : List ℕ)
      → map_prime buffer len ≡ prime
      → map_dumb buffer len ≡ dumb
      → first_mapping prime dumb ≡ ok m
      → length m ≡ len
  unfolding first_mapping
  first_mapping-length buffer len (some p) dumb m ep ed e =
      let same : p ≡ m = ok_inj e in prime_length buffer len m (ep ∙ ap some same)
  first_mapping-length buffer len none (some p) m ep ed e =
      let same : p ≡ m = ok_inj e in dumb_length buffer len m (ed ∙ ap some same)
  first_mapping-length buffer len none none m ep ed e = cc

  map_info-IsMapped :
      (fb : ℕ) (i : PlanarInfo) (m : Mapping) → map_info drm fb i ≡ ok m → IsMapped fb m
  unfolding map_info map_bytes
  map_info-IsMapped fb i m e =
      let (checked, (c, e1)) = from_ok (check_format i.format) _ m e in
      let (buffer, (b, e2)) = from_ok (ok_or i.buffer no_gem_handle) _ m e1 in
      let len = i.pitch * i.height + i.offset in
      let (mmap, (made, e3)) =
        from_ok (first_mapping (map_prime buffer len) (map_dumb buffer len)) _ m e2 in
      let same = ok_inj e3 in
      let whole =
        first_mapping-length buffer len (map_prime buffer len) (map_dumb buffer len) mmap refl refl
          made in
      subst (IsMapped fb) same (record { is_fb = refl; whole = whole })

  map_framebuffer-IsMapped : (fb : ℕ) (m : Mapping) → map_framebuffer drm fb ≡ ok m → IsMapped fb m
  unfolding map_framebuffer
  map_framebuffer-IsMapped fb m e =
      let (i, (found, made)) =
        from_ok (framebuffer_info (get_planar fb) (get_framebuffer fb)) (map_info drm fb) m e in
      map_info-IsMapped fb i m made

  with_mapping-IsCurrent :
      (s : FrameSource) (fb : ℕ) (remapped : Bool) (m : Mapping)
      → IsMapped fb m
      → IsCurrent (some (some fb)) (with_mapping drm s remapped (ok m))
  unfolding with_mapping rows_of view_of IsCurrent
  with_mapping-IsCurrent s fb remapped m mapped =
      let whole = mapped.whole in
      let fits : leb (m.offset + m.pitch * m.height) (length m.mmap) ≡ true = ground arith in
      rw fits (
        subst (λ b. IsMapped b m) (sym mapped.is_fb) mapped,
        (
          fb,
          (
            refl,
            record {
              mapped = (m, (refl, mapped.is_fb));
              rows = take_rows (m.pitch * m.height) m.offset m.mmap whole;
            },
          ),
        ),
      )

  fresh-IsCurrent :
      (s : FrameSource) (fb : ℕ) (r : Result CaptureError Mapping)
      → map_framebuffer drm fb ≡ r
      → SoundMapping s.mapping
      → IsCurrent (some (some fb)) (with_mapping drm s true r)
  unfolding IsCurrent
  fresh-IsCurrent s fb (ok m) e sound =
      with_mapping-IsCurrent s fb true m (map_framebuffer-IsMapped fb m e)
  fresh-IsCurrent s fb (err e) made sound = unfold with_mapping in sound

  use_mapping-IsCurrent :
      (s : FrameSource) (o : Option Mapping) (fb : ℕ)
      → SoundMapping o
      → SoundMapping s.mapping
      → IsCurrent (some (some fb)) (use_mapping drm s o fb)
  unfolding use_mapping SoundMapping
  use_mapping-IsCurrent s none fb h sound = fresh-IsCurrent s fb (map_framebuffer drm fb) refl sound
  use_mapping-IsCurrent s (some m) fb h sound = elim (Bool-cases (m.fb == fb)) [
    | inl same ↦
        rw same
          (with_mapping-IsCurrent s fb false m (subst (λ b. IsMapped b m) (==→eq m.fb fb same) h))
    | inr fresh ↦ rw fresh (fresh-IsCurrent s fb (map_framebuffer drm fb) refl sound)
  ]

  pub capture-IsCurrent :
      (s : FrameSource) → SoundMapping s.mapping → IsCurrent (get_plane s.plane) (capture drm s)
  unfolding capture
  capture-IsCurrent s sound = by_plane (get_plane s.plane)
    where
      by_plane : (p : Option (Option ℕ)) → IsCurrent p (capture_plane drm s p)
      by_plane none = unfold capture_plane IsCurrent in sound
      by_plane (some none) = unfold capture_plane IsCurrent SoundMapping in tt
      by_plane (some (some fb)) =
          unfold capture_plane in use_mapping-IsCurrent s s.mapping fb sound sound

  -- A frame of a sound source whose rows are as far apart as they are long is converted: the
  -- conversion to I420 does not panic on it.
  pub capture-converts :
      (s s' : FrameSource) (f : CapturedFrame)
      → SoundMapping s.mapping
      → capture drm s ≡ some (s', ok f)
      → f.width * 4 ≤ f.pitch
      → (i : I420Frame) × (xrgb_to_i420 f.bytes f.width f.height f.pitch ≡ some i)
  capture-converts s s' f sound e apart =
      let current = subst (IsCurrent (get_plane s.plane)) e (capture-IsCurrent s sound) in
      (xrgb_to_i420-Fits_iff f.bytes f.width f.height f.pitch).1
        (fits (unfold IsCurrent in current.1.1.1.rows))
    where
      fits : length f.bytes ≡ f.pitch * f.height → Fits f.bytes f.width f.height f.pitch
      fits rows = record {
        rows_apart = omega arith;
        long_enough = elim (Bool-cases (even f.height == 0)) [
          | inl no_rows ↦ inr (inl (ground arith))
          | inr some_rows ↦
              let last = row_end (even f.height - 1) f.height f.pitch (ground arith) in
              let swap : f.pitch * f.height ≡ f.height * f.pitch = omega arith in
              inr (inr (omega arith))
        ];
      }
