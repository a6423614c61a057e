-- ===== src/Server/Tests/Frames.antt =====
-- The frame writer on concrete frames.
use vmscren_share.Prelude.{◌+◌, ◌*◌, ◌≤◌, ◌≡◌, refl, true, false, none, some, [], ◌∷◌, List, arith}
use vmscren_share.Prelude.Result.{ok}
use vmscren_share.Server.Session.Frames.{
  EncodedFrame, Answers, write_frames, total, last_pts_of, write_frames-total,
}

abbrev frames : List (EncodedFrame × Answers)
frames =
    (
      record { bytes = 1 ∷ []; keyframe = true; pts_ms = 40 },
      record { parameters = ok (102 ∷ []); written = true },
    )
    ∷ (
      record { bytes = 2 ∷ []; keyframe = false; pts_ms = 9000 },
      record { parameters = ok (102 ∷ []); written = true },
    )
    ∷ []

samples :
    write_frames 33333 none none frames
    ≡ record { payload_type = 102; bytes = 1 ∷ []; duration = 33333 }
      ∷ record { payload_type = 102; bytes = 2 ∷ []; duration = 2000000 }
      ∷ []
unfolding write_frames
samples = refl

write_frames-total_example :
    total (write_frames 33333 (some 102) (some 7) frames) + 7 * 1000 ≤ last_pts_of 7 frames * 1000
write_frames-total_example = write_frames-total 33333 102 7 frames (omega arith, (omega arith, tt))
