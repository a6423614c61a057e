-- ===== src/Server/Encoder.antt =====
-- server/src/encoder/mod.rs and server/src/encoder/openh264.rs: the settings of the encoder, the checks
-- before a frame is encoded, and the change of the bitrate. The OpenH264 library is a parameter: what
-- its `SetOption` answers.
pub mod Bitrate
pub mod Frames
pub mod Encode
pub mod Delivered
use vmscren_share.Prelude.{
  ℕ, zero, suc, ◌+◌, ◌-◌, ◌*◌, ◌/◌, ◌%◌, min, max, Bool, true, false, not, ◌&&◌, ◌==◌, ltb, leb,
  if◌then◌else◌, Option, none, some, List, [], ◌∷◌, ◌++◌, length,
}
use vmscren_share.Prelude.Result.{Result, ok, err, ◌>>=◌, ◌>>◌}
use vmscren_share.Prelude.Int.{ℤ, pos, negsuc, ltb_ℤ}
use vmscren_share.Server.Convert.{I420Frame}

pub record EncoderSettings : Type 0 where
  pub width : ℕ
  pub height : ℕ
  pub fps : ℕ
  pub bitrate_kbps : ℕ
  pub keyframe_interval : ℕ
  pub threads : ℕ

abbrev pub strides : I420Frame → ℕ × (ℕ × ℕ)
strides f = (f.width, (f.width / 2, f.width / 2))

pub data EncodeError : Type 0 where
  size_mismatch malformed_planes no_entry encode_failed : EncodeError

-- The `ensure!`s of `encode`.
unfoldable pub check_frame : EncoderSettings → I420Frame → Result EncodeError (Unit {0})
check_frame s f =
    if not (f.width == s.width && f.height == s.height)
    then err size_mismatch
    else let (sy, (su, sv)) = strides f in
      if length f.y == sy * f.height
        && length f.u == su * (f.height / 2)
        && length f.v == sv * (f.height / 2)
      then ok tt
      else err malformed_planes

abbrev pub max_bitrate_factor : ℕ
max_bitrate_factor = 3

-- `saturating_mul` of u32.
abbrev pub saturating_mul : ℕ → ℕ → ℕ
saturating_mul a b = min (a * b) 4294967295

-- `i32::try_from(x).unwrap_or(i32::MAX)` of a u32.
abbrev pub to_i32 : ℕ → ℕ
to_i32 x = if leb x 2147483647 then x else 2147483647

-- `as i32` of a u32, which wraps around.
abbrev pub as_i32 : ℕ → ℤ
as_i32 x = if ltb x 2147483648 then pos x else negsuc (4294967295 - x)

abbrev pub target_bps : ℕ → ℕ
target_bps kbps = to_i32 (saturating_mul kbps 1000)

abbrev pub max_bps : ℕ → ℕ
max_bps kbps = to_i32 (saturating_mul (saturating_mul kbps 1000) max_bitrate_factor)

pub data BitrateOption : Type 0 where
  max_bitrate target_bitrate : BitrateOption

-- The encoder, with the options in force: those of `initialize`, and each that was set.
pub record OpenH264Encoder : Type 0 where
  pub bitrate_kbps : ℕ
  pub ceiling : ℕ
  pub target : ℕ

-- An encoder on which `SetOption` has succeeded.
abbrev pub with_option : OpenH264Encoder → BitrateOption → ℕ → OpenH264Encoder
with_option e max_bitrate bps = record e { ceiling = bps }
with_option e target_bitrate bps = record e { target = bps }

-- The encoder of some settings, as `initialize` sets it up.
unfoldable pub initialize : EncoderSettings → OpenH264Encoder
initialize s = record {
  bitrate_kbps = s.bitrate_kbps;
  ceiling = max_bps s.bitrate_kbps;
  target = target_bps s.bitrate_kbps;
}

-- The ceiling is raised first: the test of `set_bitrate`, for the bitrate in force and the new one.
unfoldable pub ceiling_first : ℕ → ℕ → Bool
ceiling_first current kbps =
    ltb_ℤ (as_i32 (saturating_mul (saturating_mul current 1000) max_bitrate_factor))
      (pos (max_bps kbps))

-- The two options in their order, with the encoder after each call; `?` ends the list.
unfoldable pub option_calls : ℕ → ℕ → List (BitrateOption × ℕ)
unfolding ceiling_first
option_calls current kbps =
    if ceiling_first current kbps
    then (max_bitrate, max_bps kbps) ∷ (target_bitrate, target_bps kbps) ∷ []
    else (target_bitrate, target_bps kbps) ∷ (max_bitrate, max_bps kbps) ∷ []

-- The calls of `SetOption` up to the first that fails: the encoders on the way, and the last of them.
unfoldable pub set_options :
    (BitrateOption → ℕ → Bool)
    → OpenH264Encoder
    → List (BitrateOption × ℕ)
    → List OpenH264Encoder × Result BitrateOption OpenH264Encoder
set_options answers e [] = ([], ok e)
set_options answers e ((option, bps) ∷ calls) =
    let e' = with_option e option bps in
    let (on_the_way, end) = set_options answers e' calls in
    if answers option bps then (e' ∷ on_the_way, end) else ([], err option)

-- The encoders on the way, and what `set_bitrate` leaves.
unfoldable pub set_bitrate :
    (BitrateOption → ℕ → Bool)
    → OpenH264Encoder
    → ℕ
    → List OpenH264Encoder × Result BitrateOption OpenH264Encoder
unfolding option_calls set_options
set_bitrate answers e asked =
    let kbps = max asked 100 in
    if kbps == e.bitrate_kbps
    then ([], ok e)
    else let (on_the_way, end) = set_options answers e (option_calls e.bitrate_kbps kbps) in
      (on_the_way, end >>= λ e'. ok (record e' { bitrate_kbps = kbps }))
