-- ===== src/Server/Tests/Pipeline.antt =====
-- The encoder's loop on a concrete frame.
use vmscren_share.Prelude.{◌≡◌, refl, true, false, none, some, [], ◌∷◌, replicate}
use vmscren_share.Prelude.Result.{ok}
use vmscren_share.Server.Config.{default}
use vmscren_share.Server.Shared
use vmscren_share.Server.Shared.{Shared}
use vmscren_share.Server.Convert.{I420Frame}
use vmscren_share.Server.Pipeline.{Captured, Encoder, EncodeState, encoded, closed, encode_frame}

abbrev small : I420Frame
small = record {
  width = 2;
  height = 2;
  y = replicate 4 16;
  u = replicate 1 128;
  v = replicate 1 128;
}

abbrev captured : Captured
captured = record { frame = small; pts_ms = 40; keyframe = false }

abbrev encoder : Encoder
encoder = record {
  create = λ settings. true;
  set_bitrate = λ kbps. true;
  encode =
      λ frame pts force. ok (some (record { bytes = 1 ∷ 2 ∷ []; keyframe = force; pts_ms = pts }));
  takes = λ session frame. false;
}

-- A client is connected, and has no sink yet.
abbrev waiting : EncodeState
waiting = record {
  shared = record (Shared.new 12000) { force_keyframe = true; client_connected = true };
  encoder = none;
  current_bitrate = 12000;
}

asked_again :
    ((encode_frame default encoder waiting captured).0.shared.force_keyframe ≡ true)
    × ((encode_frame default encoder waiting captured).1 ≡ encoded true none)
unfolding encode_frame
asked_again = (refl, refl)

-- The write task of the session that is connected has ended: its keyframe is lost.
abbrev broken : EncodeState
broken = record waiting { shared = record waiting.shared { sink = some 1 } }

lost :
    ((encode_frame default encoder broken captured).0.shared.force_keyframe ≡ false)
    × ((encode_frame default encoder broken captured).1
        ≡ closed true (record {
          session = 1;
          frame = record { bytes = 1 ∷ 2 ∷ []; keyframe = true; pts_ms = 40 };
        }))
unfolding encode_frame
lost = (refl, refl)
