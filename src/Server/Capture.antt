-- ===== src/Server/Capture.antt =====
-- server/src/capture.rs: the framebuffer of the display that is scanned out. DRM and the mapping of
-- memory are the parameter `Drm`: what each call answers at the moment.
pub mod Locate
pub mod Chosen
pub mod Frames
pub mod Wide
pub mod Shown
use vmscren_share.Prelude.{
  ℕ, ◌+◌, ◌*◌, ◌≡◌, Bool, true, false, not, leb, ◌==◌, ◌||◌, if◌then◌else◌, Option, none, some,
  List, length, take, drop,
}
use vmscren_share.Prelude.Result.{Result, ok, err, ok_or, ◌>>=◌, ◌>>◌}

-- The formats that are told apart.
pub data Fourcc : Type 0 where
  xrgb8888 argb8888 : Fourcc
  other_format : ℕ → Fourcc

-- The answer of GETFB2, and that of GETFB. A buffer without a handle is none.
pub record PlanarInfo : Type 0 where
  pub buffer : Option ℕ
  pub width : ℕ
  pub height : ℕ
  pub pitch : ℕ
  pub offset : ℕ
  pub format : Fourcc

pub record LegacyInfo : Type 0 where
  pub buffer : Option ℕ
  pub width : ℕ
  pub height : ℕ
  pub pitch : ℕ
  pub bpp : ℕ
  pub depth : ℕ

-- `map_prime` is the export of a buffer with its mapping, and `map_dumb` the mapping of the card's
-- node: a mapping has the length that is asked for.
pub record Drm : Type 0 where
  pub get_plane : ℕ → Option (Option ℕ)
  pub get_planar : ℕ → Option PlanarInfo
  pub get_framebuffer : ℕ → Option LegacyInfo
  pub map_prime : (buffer len : ℕ) → Option (List ℕ)
  pub map_dumb : (buffer len : ℕ) → Option (List ℕ)
  pub prime_length : (b n : ℕ) (m : List ℕ) → map_prime b n ≡ some m → length m ≡ n
  pub dumb_length : (b n : ℕ) (m : List ℕ) → map_dumb b n ≡ some m → length m ≡ n

pub data CaptureError : Type 0 where
  no_plane_info no_framebuffer getfb_failed unsupported_legacy wrong_format no_gem_handle
        map_failed :
      CaptureError

-- A mapping with the bytes that it shows.
pub record Mapping : Type 0 where
  pub fb : ℕ
  pub width : ℕ
  pub height : ℕ
  pub pitch : ℕ
  pub offset : ℕ
  pub format : Fourcc
  pub mmap : List ℕ

unfoldable pub legacy_format : (bpp depth : ℕ) → Result CaptureError Fourcc
legacy_format bpp depth =
    if not (bpp == 32)
    then err unsupported_legacy
    else if depth == 24
    then ok xrgb8888
    else if depth == 32
    then ok argb8888
    else err unsupported_legacy

-- The description of a framebuffer: GETFB2, or else GETFB, which has no offset.
unfoldable pub legacy_info : Option LegacyInfo → Result CaptureError PlanarInfo
unfolding legacy_format
legacy_info none = err getfb_failed
legacy_info (some i) = legacy_format i.bpp i.depth >>= λ format. ok (record {
  buffer = i.buffer;
  width = i.width;
  height = i.height;
  pitch = i.pitch;
  offset = 0;
  format = format;
})

unfoldable pub framebuffer_info :
    Option PlanarInfo → Option LegacyInfo → Result CaptureError PlanarInfo
unfolding legacy_info
framebuffer_info (some i) legacy = ok i
framebuffer_info none legacy = legacy_info legacy

unfoldable pub check_format : Fourcc → Result CaptureError (Unit {0})
check_format xrgb8888 = ok tt
check_format argb8888 = ok tt
check_format (other_format f) = err wrong_format

-- PRIME, or else the node of the card.
unfoldable pub first_mapping : Option (List ℕ) → Option (List ℕ) → Result CaptureError (List ℕ)
first_mapping (some m) dumb = ok m
first_mapping none dumb = ok_or dumb map_failed

pub record CapturedFrame : Type 0 where
  pub bytes : List ℕ
  pub width : ℕ
  pub height : ℕ
  pub pitch : ℕ
  pub format : Fourcc
  pub remapped : Bool

-- A `FrameSource`: the plane of its display, and the framebuffer that it has mapped.
pub record FrameSource : Type 0 where
  pub plane : ℕ
  pub mapping : Option Mapping

-- `&m.mmap[m.offset..m.offset + len]`, with none for the panic.
unfoldable pub rows_of : Mapping → Option (List ℕ)
rows_of m =
    let len = m.pitch * m.height in
    if leb (m.offset + len) (length m.mmap) then some (take len (drop m.offset m.mmap)) else none

-- The end of `capture`. The outer none is a panic.
unfoldable pub view_of :
    FrameSource
    → Mapping
    → (remapped : Bool) → Option (List ℕ)
    → Option (FrameSource × Result CaptureError CapturedFrame)
view_of s m remapped none = none
view_of s m remapped (some bytes) = some (
  s,
  ok (record {
    bytes = bytes;
    width = m.width;
    height = m.height;
    pitch = m.pitch;
    format = m.format;
    remapped = remapped;
  }),
)

module _ (drm : Drm) where
  open drm use {get_plane, get_planar, get_framebuffer, map_prime, map_dumb}

  unfoldable pub map_bytes : (buffer len : ℕ) → Result CaptureError (List ℕ)
  unfolding first_mapping
  map_bytes buffer len = first_mapping (map_prime buffer len) (map_dumb buffer len)

  -- A mapping of all the rows and what stands before them.
  unfoldable pub map_info : (fb : ℕ) → PlanarInfo → Result CaptureError Mapping
  unfolding check_format map_bytes
  map_info fb i =
      check_format i.format
      >> (ok_or i.buffer no_gem_handle >>= λ buffer.
          map_bytes buffer (i.pitch * i.height + i.offset) >>= λ mmap. ok (record {
            fb = fb;
            width = i.width;
            height = i.height;
            pitch = i.pitch;
            offset = i.offset;
            format = i.format;
            mmap = mmap;
          }))

  unfoldable pub map_framebuffer : (fb : ℕ) → Result CaptureError Mapping
  unfolding framebuffer_info map_info
  map_framebuffer fb = framebuffer_info (get_planar fb) (get_framebuffer fb) >>= map_info fb

  unfoldable pub with_mapping :
      FrameSource
      → (remapped : Bool) → Result CaptureError Mapping
      → Option (FrameSource × Result CaptureError CapturedFrame)
  unfolding rows_of view_of
  with_mapping s remapped (ok m) = view_of (record s { mapping = some m }) m remapped (rows_of m)
  with_mapping s remapped (err e) = some (s, err e)

  -- A framebuffer that is mapped already is not mapped again.
  unfoldable pub use_mapping :
      FrameSource
      → Option Mapping
      → (fb : ℕ) → Option (FrameSource × Result CaptureError CapturedFrame)
  unfolding map_framebuffer with_mapping
  use_mapping s none fb = with_mapping s true (map_framebuffer fb)
  use_mapping s (some m) fb =
      if m.fb == fb then with_mapping s false (ok m) else with_mapping s true (map_framebuffer fb)

  unfoldable pub capture_plane :
      FrameSource → Option (Option ℕ) → Option (FrameSource × Result CaptureError CapturedFrame)
  unfolding use_mapping
  capture_plane s none = some (s, err no_plane_info)
  capture_plane s (some none) = some (record s { mapping = none }, err no_framebuffer)
  capture_plane s (some (some fb)) = use_mapping s s.mapping fb

  -- `FrameSource::capture`.
  unfoldable pub capture : FrameSource → Option (FrameSource × Result CaptureError CapturedFrame)
  unfolding capture_plane
  capture s = capture_plane s (get_plane s.plane)
