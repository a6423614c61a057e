-- ===== src/Server/Encoder/Encode.antt =====
-- server/src/encoder/openh264.rs: the checks of `new`, the number of threads, and `encode`. The OpenH264
-- library is a parameter: what its calls answer.
use vmscren_share.Prelude.{
  ℕ, suc, ◌+◌, ◌%◌, min, max, Bool, true, false, not, ◌&&◌, ◌==◌, leb, if◌then◌else◌, Option, none,
  some, List, [], ◌∷◌, ◌++◌, take,
}
use vmscren_share.Prelude.Result.{Result, ok, err, ok_or, ◌>>=◌, ◌>>◌}
use vmscren_share.Prelude.Int.{ℤ, pos_part}
use vmscren_share.Prelude.Text.{is_empty}
use vmscren_share.Server.Convert.{I420Frame}
use vmscren_share.Server.Encoder.{
  EncoderSettings, EncodeError, no_entry, encode_failed, check_frame,
}
use vmscren_share.Server.Session.Frames.{EncodedFrame}

pub data NewError : Type 0 where
  too_small odd_size : NewError

-- The `ensure!`s of `OpenH264Encoder::new`.
unfoldable pub check_settings : EncoderSettings → Result NewError (Unit {0})
check_settings s =
    if not (leb 16 s.width && leb 16 s.height)
    then err too_small
    else if s.width % 2 == 0 && s.height % 2 == 0
    then ok tt
    else err odd_size

abbrev pub known_cores : Option ℕ → ℕ
known_cores none = 1
known_cores (some n) = n

-- The threads of an encoder, on a machine whose cores may be known.
unfoldable pub threads : (cores : Option ℕ) → EncoderSettings → ℕ
threads cores s =
    if not (s.threads == 0) then min s.threads 16 else max 1 (min (known_cores cores) 4)

pub data FrameType : Type 0 where
  invalid idr skip other_type : FrameType

-- A layer: the memory at its buffer, if it has one, and the lengths of its NAL units, which are none
-- where the library's count of them is not positive.
pub record Layer : Type 0 where
  pub buffer : Option (List ℕ)
  pub nal_lengths : List ℤ

pub record FrameInfo : Type 0 where
  pub frame_type : FrameType
  pub layer_count : ℤ
  pub layers : List Layer

-- The entries of the table that `encode` uses: `encode_frame` answers a code or the info, for whether
-- an intra frame has been forced, the picture and its time.
pub record Library : Type 0 where
  pub encode_frame : Option (Bool → I420Frame → ℕ → Result ℤ FrameInfo)
  pub has_force : Bool

-- The sum of the lengths.
unfoldable pub total_len : List ℤ → ℕ
total_len [] = 0
total_len (n ∷ ns) = pos_part n + total_len ns

unfoldable pub layer_bytes : Layer → List ℕ
unfolding total_len
layer_bytes l = elim l.buffer [
  | none ↦ []
  | some memory ↦ if is_empty l.nal_lengths then [] else take (total_len l.nal_lengths) memory
]

-- The loop over the layers, with the `data` so far.
unfoldable pub collect_layers : (bytes : List ℕ) → List Layer → List ℕ
unfolding layer_bytes
collect_layers bytes [] = bytes
collect_layers bytes (l ∷ ls) = collect_layers (bytes ++ layer_bytes l) ls

abbrev pub is_skipped : FrameType → Bool
is_skipped skip = true
is_skipped invalid = true
is_skipped _ = false

abbrev pub is_idr : FrameType → Bool
is_idr idr = true
is_idr _ = false

unfoldable pub frame_of : FrameInfo → (pts_ms : ℕ) → (bytes : List ℕ) → Option EncodedFrame
frame_of info pts_ms bytes =
    if is_empty bytes
    then none
    else some (record { bytes = bytes; keyframe = is_idr info.frame_type; pts_ms = pts_ms })

-- What is made of the answer of `EncodeFrame`.
unfoldable pub output : FrameInfo → (pts_ms : ℕ) → Option EncodedFrame
unfolding collect_layers frame_of
output info pts_ms =
    if is_skipped info.frame_type
    then none
    else frame_of info pts_ms (collect_layers [] (take (pos_part info.layer_count) info.layers))

unfoldable pub on_encoded :
    (frames pts_ms : ℕ) → Result ℤ FrameInfo → Result EncodeError (ℕ × Option EncodedFrame)
unfolding output
on_encoded frames pts_ms (err code) = err encode_failed
on_encoded frames pts_ms (ok info) = ok (suc frames, output info pts_ms)

-- `ForceIntraFrame` may fail, which is only logged.
unfoldable pub check_force : Library → (force_keyframe : Bool) → Result EncodeError (Unit {0})
check_force lib force_keyframe = if force_keyframe && not lib.has_force then err no_entry else ok tt

-- `encode`, with the encoder's count of frames, which an error leaves as it is.
unfoldable pub encode :
    Library
    → EncoderSettings
    → (frames : ℕ) → I420Frame
    → (pts_ms : ℕ) → (force_keyframe : Bool) → Result EncodeError (ℕ × Option EncodedFrame)
unfolding check_force on_encoded
encode lib s frames f pts_ms force_keyframe =
    check_frame s f
    >> (ok_or lib.encode_frame no_entry >>= λ encode_frame.
        (check_force lib force_keyframe
          >> on_encoded frames pts_ms (encode_frame force_keyframe f pts_ms)))
