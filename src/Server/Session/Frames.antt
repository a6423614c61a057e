-- ===== src/Server/Session/Frames.antt =====
-- server/src/session.rs, write_frames: encoded frames on their way to the video track, and how long
-- each of them is said to last. Durations are in microseconds.
use vmscren_share.Prelude.{
  ℕ, ◌+◌, ◌-◌, ◌*◌, ◌/◌, ◌≤◌, ◌<◌, Bool, ltb, if◌then◌else◌, Option, none, some, List, [], ◌∷◌, All,
  min, max, arith, Bool-cases, inl, inr,
}
use vmscren_share.Prelude.Result.{Result, ok, err}

-- `EncodedFrame` of the encoder.
pub record EncodedFrame : Type 0 where
  pub bytes : List ℕ
  pub keyframe : Bool
  pub pts_ms : ℕ

-- A `Sample` for the track, with the payload type it is written with.
pub record Sample : Type 0 where
  pub payload_type : ℕ
  pub bytes : List ℕ
  pub duration : ℕ

-- What the webrtc crate answers for one frame: the codecs that the sender has negotiated (which are
-- asked for only until there is one), and whether the sample could be written.
pub record Answers : Type 0 where
  pub parameters : Result (Unit {0}) (List ℕ)
  pub written : Bool

-- The frame duration of a session.
unfoldable pub frame_duration : ℕ → ℕ
frame_duration fps = 1000000 / max fps 1

-- The time since the frame before, but no more than two seconds; the first frame, and one that goes
-- back in time, lasts a frame duration.
unfoldable pub sample_duration : ℕ → Option ℕ → ℕ → ℕ
sample_duration frame none pts = frame
sample_duration frame (some prev) pts =
    if ltb prev pts then min ((pts - prev) * 1000) 2000000 else frame

-- The payload type, once it is known; before that every frame asks for it.
unfoldable pub payload_type_of : Option ℕ → Answers → Option ℕ
payload_type_of (some pt) a = some pt
payload_type_of none a = elim a.parameters [
  | ok codecs ↦ elim codecs [ pt ∷ rest ↦ some pt | [] ↦ none ]
  | err e ↦ none
]

-- The loop of `write_frames`: the samples that it hands to the track, in order.
unfoldable pub write_frames : ℕ → Option ℕ → Option ℕ → List (EncodedFrame × Answers) → List Sample
unfolding payload_type_of sample_duration
write_frames frame payload_type last_pts [] = []
write_frames frame payload_type last_pts ((f, a) ∷ fs) = elim (payload_type_of payload_type a) [
  | none ↦ write_frames frame none last_pts fs
  | some pt ↦
      let sample : Sample = record {
        payload_type = pt;
        bytes = f.bytes;
        duration = sample_duration frame last_pts f.pts_ms;
      } in
      let rest = write_frames frame (some pt) (some f.pts_ms) fs in
      if a.written then sample ∷ rest else sample ∷ []
]

-- The sum of the durations.
abbrev pub total : List Sample → ℕ
total [] = 0
total (s ∷ ss) = s.duration + total ss

-- Presentation times that grow, from one on, and the last of them.
abbrev pub IsIncreasing : ℕ → List (EncodedFrame × Answers) → Type 0
IsIncreasing p [] = Unit {0}
IsIncreasing p ((f, a) ∷ fs) = (p < f.pts_ms) × IsIncreasing f.pts_ms fs

abbrev pub last_pts_of : ℕ → List (EncodedFrame × Answers) → ℕ
last_pts_of p [] = p
last_pts_of p ((f, a) ∷ fs) = last_pts_of f.pts_ms fs

last_pts-late :
    (p : ℕ) (fs : List (EncodedFrame × Answers)) → IsIncreasing p fs → p ≤ last_pts_of p fs
last_pts-late p [] h = omega arith
last_pts-late p ((f, a) ∷ fs) h = omega (arith, h.0, last_pts-late f.pts_ms fs h.1)

-- Once a frame has been sent, the durations of the frames after it, whose times grow, add up to no
-- more than the time that has passed since.
pub write_frames-total :
    (frame pt p : ℕ) (fs : List (EncodedFrame × Answers))
    → IsIncreasing p fs
    → total (write_frames frame (some pt) (some p) fs) + p * 1000 ≤ last_pts_of p fs * 1000
unfolding write_frames payload_type_of sample_duration
write_frames-total frame pt p [] h = omega arith
write_frames-total frame pt p ((f, a) ∷ fs) h =
    let later = h.0 in
    let rest = write_frames-total frame pt f.pts_ms fs h.1 in
    let late = last_pts-late f.pts_ms fs h.1 in ground arith

-- Every sample lasts at least a microsecond, and no longer than two seconds or a frame duration,
-- whichever is more.
pub write_frames-bounded :
    (frame : ℕ) (payload_type last_pts : Option ℕ) (fs : List (EncodedFrame × Answers))
    → 1 ≤ frame
    → All
        (λ s. (1 ≤ s.duration) × (s.duration ≤ max frame 2000000))
        (write_frames frame payload_type last_pts fs)
unfolding write_frames sample_duration
write_frames-bounded frame payload_type last_pts [] h = tt
write_frames-bounded frame payload_type last_pts ((f, a) ∷ fs) h =
    sent (payload_type_of payload_type a) (write_frames-bounded frame none last_pts fs h)
      (λ pt. write_frames-bounded frame (some pt) (some f.pts_ms) fs h)
  where
    lasts :
        (last : Option ℕ) (pts : ℕ)
        → (1 ≤ sample_duration frame last pts)
          × (sample_duration frame last pts ≤ max frame 2000000)
    lasts none pts = (omega arith, omega arith)
    lasts (some prev) pts = ground arith

    sent :
        (o : Option ℕ)
        → All
            (λ s. (1 ≤ s.duration) × (s.duration ≤ max frame 2000000))
            (write_frames frame none last_pts fs)
        → ((pt : ℕ)
            → All
                (λ s. (1 ≤ s.duration) × (s.duration ≤ max frame 2000000))
                (write_frames frame (some pt) (some f.pts_ms) fs))
        → All
            (λ s. (1 ≤ s.duration) × (s.duration ≤ max frame 2000000))
            (elim o [
              | none ↦ write_frames frame none last_pts fs
              | some pt ↦
                  let sample : Sample = record {
                    payload_type = pt;
                    bytes = f.bytes;
                    duration = sample_duration frame last_pts f.pts_ms;
                  } in
                  let rest = write_frames frame (some pt) (some f.pts_ms) fs in
                  if a.written then sample ∷ rest else sample ∷ []
            ])
    sent none dropped going = dropped
    sent (some pt) dropped going = elim (Bool-cases a.written) [
      | inl well ↦ rw well (lasts last_pts f.pts_ms, going pt)
      | inr failed ↦ rw failed (lasts last_pts f.pts_ms, tt)
    ]
