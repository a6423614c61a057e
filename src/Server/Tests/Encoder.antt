-- ===== src/Server/Tests/Encoder.antt =====
-- The encoder's settings on concrete bitrates.
use vmscren_share.Prelude.{
  ℕ, ◌*◌, ◌/◌, ◌≤◌, ◌≡◌, refl, Bool, true, none, some, [], ◌∷◌, All, replicate, arith,
}
use vmscren_share.Prelude.Result.{Result, ok}
use vmscren_share.Prelude.Int.{ℤ, pos}
use vmscren_share.Server.Convert.{I420Frame, xrgb_to_i420}
use vmscren_share.Server.Encoder.{
  EncoderSettings, OpenH264Encoder, BitrateOption, check_frame, initialize, set_bitrate,
}
use vmscren_share.Server.Encoder.Bitrate.{IsOrdered, InForce, set_bitrate-IsOrdered}
use vmscren_share.Server.Encoder.Encode.{idr, FrameInfo, Library, encode, check_settings, threads}
use vmscren_share.Server.Encoder.Delivered.{Delivers, encode-Delivers}
use vmscren_share.Server.Config
use vmscren_share.Server.Shared
use vmscren_share.Server.Pipeline.{settings_for}
use vmscren_share.Server.Pipeline.Created.{settings_for-checked}

abbrev settings : ℕ → EncoderSettings
settings kbps = record {
  width = 0;
  height = 0;
  fps = 30;
  bitrate_kbps = kbps;
  keyframe_interval = 600;
  threads = 0;
}

abbrev accepts : BitrateOption → ℕ → Bool
accepts option bps = true

lowered : set_bitrate accepts (initialize (settings 12000)) 4000 ≡ (
  record { bitrate_kbps = 12000; ceiling = 36000000; target = 4000000 }
      ∷ record { bitrate_kbps = 12000; ceiling = 12000000; target = 4000000 }
      ∷ [],
  ok (record { bitrate_kbps = 4000; ceiling = 12000000; target = 4000000 }),
)
unfolding set_bitrate initialize
lowered = refl

-- From 1 Gbit/s the ceiling goes below the target in force.
wrapped : set_bitrate accepts (initialize (settings 1000000)) 100000 ≡ (
  record { bitrate_kbps = 1000000; ceiling = 300000000; target = 1000000000 }
      ∷ record { bitrate_kbps = 1000000; ceiling = 300000000; target = 100000000 }
      ∷ [],
  ok (record { bitrate_kbps = 100000; ceiling = 300000000; target = 100000000 }),
)
unfolding set_bitrate initialize
wrapped = refl

initial : InForce (initialize (settings 12000))
unfolding initialize
initial = record { ceiling_set = refl; target_set = refl }

set_bitrate-IsOrdered_example :
    All IsOrdered (set_bitrate accepts (initialize (settings 12000)) 4000).0
unfolding initialize
set_bitrate-IsOrdered_example =
    set_bitrate-IsOrdered accepts (initialize (settings 12000)) 4000 initial (omega arith)

abbrev slower : OpenH264Encoder
slower = record { bitrate_kbps = 4000; ceiling = 12000000; target = 4000000 }

abbrev white : I420Frame
white = record {
  width = 2;
  height = 2;
  y = replicate 4 235;
  u = replicate 1 128;
  v = replicate 1 128;
}

converts : xrgb_to_i420 (replicate 16 255) 3 2 8 ≡ some white
unfolding xrgb_to_i420
converts = refl

abbrev square : (side : ℕ) → I420Frame
square side = record {
  width = side;
  height = side;
  y = replicate (side * side) 235;
  u = replicate (side / 2 * (side / 2)) 128;
  v = replicate (side / 2 * (side / 2)) 128;
}

abbrev two_by_two : EncoderSettings
two_by_two = record (settings 4000) { width = 2; height = 2 }

-- A library whose pictures have two layers with bytes, and a third that it does not count.
abbrev two_layers : FrameInfo
two_layers = record {
  frame_type = idr;
  layer_count = pos 2;
  layers =
      record { buffer = some (0 ∷ 0 ∷ 1 ∷ 103 ∷ []); nal_lengths = pos 4 ∷ [] }
      ∷ record { buffer = some (0 ∷ 0 ∷ 1 ∷ 101 ∷ 7 ∷ []); nal_lengths = pos 4 ∷ pos 1 ∷ [] }
      ∷ record { buffer = some (9 ∷ []); nal_lengths = pos 1 ∷ [] }
      ∷ [];
}

abbrev answers : Bool → I420Frame → ℕ → Result ℤ FrameInfo
answers force_keyframe f pts_ms = ok two_layers

abbrev library : Library
library = record { encode_frame = some answers; has_force = true }

encoded :
    encode library two_by_two 4 white 50 true
    ≡ ok (
      5,
      some (record {
        bytes = 0 ∷ 0 ∷ 1 ∷ 103 ∷ 0 ∷ 0 ∷ 1 ∷ 101 ∷ 7 ∷ [];
        keyframe = true;
        pts_ms = 50;
      }),
    )
unfolding encode check_frame
encoded = refl

encode-Delivers_example : Delivers 4 50 (ok two_layers) (encode library two_by_two 4 white 50 true)
encode-Delivers_example =
    encode-Delivers library answers refl refl two_by_two (replicate 16 255) 3 2 8 white converts
      refl refl 4 50 true

converts_square : xrgb_to_i420 (replicate 1024 255) 16 16 64 ≡ some (square 16)
unfolding xrgb_to_i420
converts_square = refl

settings_for-checked_example :
    (check_settings (settings_for Config.default (Shared.new 4000) (square 16)) ≡ ok tt)
    × ((1 ≤ threads none (settings_for Config.default (Shared.new 4000) (square 16)))
        × (threads none (settings_for Config.default (Shared.new 4000) (square 16)) ≤ 16))
settings_for-checked_example =
    settings_for-checked Config.default (Shared.new 4000) none (replicate 1024 255) 16 16 64
      (square 16) converts_square (omega arith) (omega arith)
