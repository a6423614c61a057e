-- ===== src/Client/View.antt =====
-- client/src/app.rs, SharedView: what the decoder's thread and the window's thread share. The two
-- sizes are packed into one u64 each.
use vmscren_share.Prelude.{
  ℕ, ◌+◌, ◌*◌, ◌/◌, ◌%◌, ◌^◌, ◌≡◌, max, ◌==◌, ◌||◌, if◌then◌else◌, Option, none, some, List, arith,
  ap,
}
use vmscren_share.Prelude.Bytes.{IsU32}

-- `0x00RRGGBB` pixels, row by row.
pub record RgbFrame : Type 0 where
  pub width : ℕ
  pub height : ℕ
  pub pixels : List ℕ

-- `(w << 32) | h`, for two u32 values, of which the `|` is a sum.
unfoldable pub pack : ℕ → ℕ → ℕ
pack w h = w * 0x100000000 + h

unfoldable pub unpack : ℕ → ℕ × ℕ
unpack v = (v / 0x100000000 % 0x100000000, v % 0x100000000)

-- The name of the decoder, which is a text of the window's title, is left out.
pub record SharedView : Type 0 where
  pub latest : Option RgbFrame
  pub packed_target : ℕ
  pub packed_source : ℕ
  pub decoded_frames : ℕ

unfoldable pub new : SharedView
unfolding pack
new = record { latest = none; packed_target = pack 1280 720; packed_source = 0; decoded_frames = 0 }

unfoldable pub set_target_size : SharedView → ℕ → ℕ → SharedView
unfolding pack
set_target_size v w h = record v { packed_target = pack (max w 1) (max h 1) }

unfoldable pub target_size : SharedView → ℕ × ℕ
unfolding unpack
target_size v = unpack v.packed_target

unfoldable pub set_source_size : SharedView → ℕ → ℕ → SharedView
unfolding pack
set_source_size v w h = record v { packed_source = pack w h }

-- The `match` of `source_size`: a size with no width or no height is no size.
unfoldable pub known_size : ℕ × ℕ → Option (ℕ × ℕ)
known_size s = if s.0 == 0 || s.1 == 0 then none else some s

unfoldable pub source_size : SharedView → Option (ℕ × ℕ)
unfolding unpack known_size
source_size v = known_size (unpack v.packed_source)

-- The u64 counter wraps around.
unfoldable pub publish : SharedView → RgbFrame → SharedView
publish v f = record v { latest = some f; decoded_frames = (v.decoded_frames + 1) % 2 ^ 64 }

pub unpack-pack : (w h : ℕ) → IsU32 w → IsU32 h → unpack (pack w h) ≡ (w, h)
unfolding unpack pack
unpack-pack w h hw hh = grind arith

-- A pair of u32 sizes that is stored is read back, where the window has at least one pixel each way
-- and a video without a width or a height has no size.
pub sizes_read_back :
    (v : SharedView) (w h : ℕ)
    → IsU32 w
    → IsU32 h
    → (target_size (set_target_size v w h) ≡ (max w 1, max h 1))
      × (source_size (set_source_size v w h) ≡ (if w == 0 || h == 0 then none else some (w, h)))
unfolding target_size set_target_size source_size set_source_size known_size
sizes_read_back v w h hw hh = (
  unpack-pack (max w 1) (max h 1) (ground arith) (ground arith),
  ap known_size (unpack-pack w h hw hh),
)
