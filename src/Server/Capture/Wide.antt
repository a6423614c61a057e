-- ===== src/Server/Capture/Wide.antt =====
-- The rows of a captured frame are as far apart as they are long, if DRM's framebuffers are such.
use vmscren_share.Prelude.{
  ℕ, ◌*◌, ◌+◌, ◌≤◌, ◌≡◌, refl, subst, Bool, true, false, ◌==◌, Option, none, some, List, Bool-cases,
  inl, inr,
}
use vmscren_share.Prelude.Result.{Result, ok, err, ok_or, from_ok, ok_inj}
use vmscren_share.Server.Capture.{
  Drm, CaptureError, no_gem_handle, PlanarInfo, LegacyInfo, Mapping, FrameSource, CapturedFrame,
  legacy_format, legacy_info, framebuffer_info, check_format, map_bytes, map_info, map_framebuffer,
  rows_of, view_of, with_mapping, use_mapping, capture_plane, capture,
}

-- A card whose framebuffers have rows of four bytes for each pixel.
pub record IsWideDrm (drm : Drm) : Type 0 where
  pub planar : (fb : ℕ) (i : PlanarInfo) → drm.get_planar fb ≡ some i → i.width * 4 ≤ i.pitch
  pub legacy : (fb : ℕ) (i : LegacyInfo) → drm.get_framebuffer fb ≡ some i → i.width * 4 ≤ i.pitch

unfoldable pub WideMapping : Option Mapping → Type 0
WideMapping none = Unit
WideMapping (some m) = m.width * 4 ≤ m.pitch

-- A source whose mapping is wide, and a frame that is, if there is one.
unfoldable pub IsWide : Option (FrameSource × Result CaptureError CapturedFrame) → Type 0
unfolding WideMapping
IsWide none = Unit
IsWide (some (s, err e)) = WideMapping s.mapping
IsWide (some (s, ok f)) = WideMapping s.mapping × (f.width * 4 ≤ f.pitch)

module _ (drm : Drm) (wide : IsWideDrm drm) where
  framebuffer_info-wide :
      (fb : ℕ) (p : Option PlanarInfo) (l : Option LegacyInfo) (i : PlanarInfo)
      → drm.get_planar fb ≡ p
      → drm.get_framebuffer fb ≡ l
      → framebuffer_info p l ≡ ok i
      → i.width * 4 ≤ i.pitch
  unfolding framebuffer_info legacy_info
  framebuffer_info-wide fb (some p) l i ep el e =
      subst (λ (x : PlanarInfo). x.width * 4 ≤ x.pitch) (ok_inj e) (wide.planar fb p ep)
  framebuffer_info-wide fb none none i ep el e = cc
  framebuffer_info-wide fb none (some l) i ep el e =
      let (format, (known, made)) = from_ok (legacy_format l.bpp l.depth) _ i e in
      subst (λ (x : PlanarInfo). x.width * 4 ≤ x.pitch) (ok_inj made) (wide.legacy fb l el)

  map_framebuffer-wide :
      (fb : ℕ) (m : Mapping) → map_framebuffer drm fb ≡ ok m → m.width * 4 ≤ m.pitch
  unfolding map_framebuffer map_info
  map_framebuffer-wide fb m e =
      let (i, (found, e1)) =
        from_ok (framebuffer_info (drm.get_planar fb) (drm.get_framebuffer fb)) (map_info drm fb) m
          e in
      let (checked, (c, e2)) = from_ok (check_format i.format) _ m e1 in
      let (buffer, (b, e3)) = from_ok (ok_or i.buffer no_gem_handle) _ m e2 in
      let (mmap, (made, e4)) =
        from_ok (map_bytes drm buffer (i.pitch * i.height + i.offset)) _ m e3 in
      subst (λ (x : Mapping). x.width * 4 ≤ x.pitch) (ok_inj e4)
        (framebuffer_info-wide fb (drm.get_planar fb) (drm.get_framebuffer fb) i refl refl found)

  with_mapping-IsWide :
      (s : FrameSource) (remapped : Bool) (m : Mapping)
      → m.width * 4 ≤ m.pitch
      → IsWide (with_mapping drm s remapped (ok m))
  unfolding with_mapping
  with_mapping-IsWide s remapped m h = by_rows (rows_of m)
    where
      by_rows :
          (o : Option (List ℕ)) → IsWide (view_of (record s { mapping = some m }) m remapped o)
      by_rows none = unfold view_of IsWide in tt
      by_rows (some bytes) = unfold view_of IsWide WideMapping in (h, h)

  fresh-IsWide :
      (s : FrameSource) (fb : ℕ) (r : Result CaptureError Mapping)
      → map_framebuffer drm fb ≡ r
      → WideMapping s.mapping
      → IsWide (with_mapping drm s true r)
  fresh-IsWide s fb (ok m) e h = with_mapping-IsWide s true m (map_framebuffer-wide fb m e)
  fresh-IsWide s fb (err x) e h = unfold with_mapping IsWide in h

  use_mapping-IsWide :
      (s : FrameSource) (o : Option Mapping) (fb : ℕ)
      → WideMapping o
      → WideMapping s.mapping
      → IsWide (use_mapping drm s o fb)
  unfolding use_mapping WideMapping
  use_mapping-IsWide s none fb h sound = fresh-IsWide s fb (map_framebuffer drm fb) refl sound
  use_mapping-IsWide s (some m) fb h sound = elim (Bool-cases (m.fb == fb)) [
    | inl same ↦ rw same (with_mapping-IsWide s false m h)
    | inr fresh ↦ rw fresh (fresh-IsWide s fb (map_framebuffer drm fb) refl sound)
  ]

  pub capture-IsWide : (s : FrameSource) → WideMapping s.mapping → IsWide (capture drm s)
  unfolding capture
  capture-IsWide s h = by_plane (drm.get_plane s.plane)
    where
      by_plane : (p : Option (Option ℕ)) → IsWide (capture_plane drm s p)
      by_plane none = unfold capture_plane IsWide in h
      by_plane (some none) = unfold capture_plane IsWide WideMapping in tt
      by_plane (some (some fb)) = unfold capture_plane in use_mapping-IsWide s s.mapping fb h h
