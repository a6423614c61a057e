-- ===== src/Client/Decoder/Ffmpeg.antt =====
-- client/src/decoder/ffmpeg.rs: the decoder on top of FFmpeg, whose C functions are the parameter
-- `Library`: what each call answers. Memory and the log are left out.
pub mod IsCodec
pub mod Preference
use vmscren_share.Prelude.{
  ℕ, ◌+◌, ◌≡◌, Bool, true, false, not, ◌&&◌, ◌||◌, ltb, leb, ◌==◌, if◌then◌else◌, Option, none,
  some, List, [], ◌∷◌, ◌++◌, length, find?,
}
use vmscren_share.Prelude.Result.{Result, ok, err}
use vmscren_share.Client.Decoder.{
  DecodedImage, HwPreference, auto, software, DecodeError, corrupt, fatal,
}

-- The platform that the client is built for.
pub data Platform : Type 0 where
  windows linux other : Platform

pub data HwDevice : Type 0 where
  d3d11va dxva2 vaapi : HwDevice

unfoldable pub hw_candidates : Platform → List HwDevice
hw_candidates windows = d3d11va ∷ dxva2 ∷ []
hw_candidates linux = vaapi ∷ []
hw_candidates other = []

abbrev pub same_device : HwDevice → HwDevice → Bool
same_device d3d11va d3d11va = true
same_device dxva2 dxva2 = true
same_device vaapi vaapi = true
same_device _ _ = false

-- An entry of `avcodec_get_hw_config`: `by_device_ctx` is the flag of the method.
pub record HwConfig : Type 0 where
  pub device_type : HwDevice
  pub by_device_ctx : Bool
  pub pix_fmt : ℕ

-- The codes of FFmpeg, apart from those that end the loops.
pub data ErrorCode : Type 0 where
  invalid_data einval other_code : ErrorCode

-- A frame that FFmpeg gives, with what transferring it from hardware and copying it come to: the bytes,
-- or the failure of the size or of the copy.
pub record Frame : Type 0 where
  pub width : ℕ
  pub height : ℕ
  pub format : ℕ
  pub valid : Bool
  pub transfers : Bool
  pub transferred_format : ℕ
  pub copied : Option (List ℕ)

-- What `avcodec_receive_frame` answers.
pub data Received : Type 0 where
  again_or_eof : Received
  receive_failed : ErrorCode → Received
  received : Frame → Received

-- What `avcodec_send_packet` does: the formats that it offers to `get_format`, if it calls it, how it
-- ends, where none is success or EAGAIN, and what the decoder then has to give, in order.
pub record Sent (Ctx : Type 0) : Type 0 where
  pub ctx : Ctx
  pub offered : Option (List ℕ)
  pub failed : Option ErrorCode
  pub frames : List Received

-- The functions of FFmpeg. The n-th attempt to open a decoder may fail at each of its steps.
pub record Library : Type 1 where
  pub Ctx : Type 0
  pub platform : Platform
  pub has_h264 : Bool
  pub hw_configs : List HwConfig
  pub is_hw_format : ℕ → Bool
  pub device_create : ℕ → HwDevice → Bool
  pub allocate : ℕ → Bool
  pub open_codec : ℕ → Option HwDevice → Option Ctx
  pub new_packet : Ctx → ℕ → Bool
  pub send_packet : Ctx → List ℕ → Sent Ctx

pub record CallbackState : Type 0 where
  pub wanted : ℕ
  pub fell_back : Bool

pub record FfmpegDecoder (Ctx : Type 0) : Type 0 where
  pub ctx : Ctx
  pub hw_pix_fmt : Option ℕ
  pub callback : Option CallbackState
  pub hw_name : Option HwDevice
  pub pictures : ℕ

-- `get_format`: the format that is picked, where none is AV_PIX_FMT_NONE, and the callback's state. A
-- context of a software decoder has no such callback.
unfoldable pub pick_format :
    (is_hw : ℕ → Bool) → List ℕ → Option ℕ → CallbackState → Option ℕ × CallbackState
pick_format is_hw formats (some f) state = (some f, state)
pick_format is_hw formats none state =
    (find? (λ f. not (is_hw f)) formats, record state { fell_back = true })

unfoldable pub get_format : (is_hw : ℕ → Bool) → List ℕ → CallbackState → Option ℕ × CallbackState
unfolding pick_format
get_format is_hw formats state =
    pick_format is_hw formats (find? (λ f. f == state.wanted) formats) state

-- What the callback leaves behind, if it is called.
unfoldable pub called_back :
    (is_hw : ℕ → Bool) → Option (List ℕ) → Option CallbackState → Option CallbackState
unfolding get_format
called_back is_hw (some formats) (some state) = some (get_format is_hw formats state).1
called_back is_hw none state = state
called_back is_hw (some formats) none = none

unfoldable pub classify : ErrorCode → DecodeError
classify invalid_data = corrupt
classify einval = corrupt
classify other_code = fatal

unfoldable pub copy_image : (format : ℕ) → Frame → Result DecodeError DecodedImage
copy_image format f = if not f.valid then err corrupt else elim f.copied [
  | none ↦ err fatal
  | some bytes ↦
      ok (record { width = f.width; height = f.height; pixel_format = format; bytes = bytes })
]

abbrev pub is_format : Option ℕ → ℕ → Bool
is_format none f = false
is_format (some g) f = f == g

-- The picture of a frame, which is transferred first if it is in hardware.
unfoldable pub picture_of : (hw_pix_fmt : Option ℕ) → Frame → Result DecodeError DecodedImage
unfolding copy_image
picture_of hw_pix_fmt f =
    if is_format hw_pix_fmt f.format
    then (if not f.transfers then err fatal else copy_image f.transferred_format f)
    else copy_image f.format f

-- The result of a frame, put before those of the frames after it.
abbrev pub before :
    DecodedImage
    → ℕ × Result DecodeError (List DecodedImage)
    → ℕ × Result DecodeError (List DecodedImage)
before img (n, ok imgs) = (n + 1, ok (img ∷ imgs))
before img (n, err e) = (n + 1, err e)

abbrev pub after_picture :
    Result DecodeError DecodedImage
    → ℕ × Result DecodeError (List DecodedImage)
    → ℕ × Result DecodeError (List DecodedImage)
after_picture (ok img) rest = before img rest
after_picture (err e) rest = (0, err e)

-- The loop over the frames: how many pictures it counts, and the pictures, which an error leaves out
-- as the decode thread does. The list ends where there is nothing more to receive.
unfoldable pub receive_all :
    (hw_pix_fmt : Option ℕ) → List Received → ℕ × Result DecodeError (List DecodedImage)
unfolding picture_of classify
receive_all hw_pix_fmt [] = (0, ok [])
receive_all hw_pix_fmt (again_or_eof ∷ rs) = (0, ok [])
receive_all hw_pix_fmt (receive_failed code ∷ rs) = (0, err (classify code))
receive_all hw_pix_fmt (received f ∷ rs) =
    after_picture (picture_of hw_pix_fmt f) (receive_all hw_pix_fmt rs)

-- `c_int::MAX`.
abbrev pub c_int_max : ℕ
c_int_max = 0x7FFFFFFF

module _ (lib : Library) where
  open lib use {
    Ctx, platform, has_h264, hw_configs, is_hw_format, device_create, allocate, open_codec,
    new_packet, send_packet,
  }

  -- The loop over `avcodec_get_hw_config`.
  unfoldable pub hw_format : HwDevice → List HwConfig → Option ℕ
  hw_format dev [] = none
  hw_format dev (c ∷ cs) =
      let rest = hw_format dev cs in
      if same_device c.device_type dev && c.by_device_ctx then some c.pix_fmt else rest

  -- The pixel format and the device that a decoder needs: none for software.
  unfoldable pub hw_setup : ℕ → Option HwDevice → Option (Option ℕ)
  unfolding hw_format
  hw_setup n none = some none
  hw_setup n (some dev) = elim (hw_format dev hw_configs) [
    | none ↦ none
    | some f ↦ if device_create n dev then some (some f) else none
  ]

  abbrev pub callback_for : Option ℕ → Option CallbackState
  callback_for none = none
  callback_for (some f) = some (record { wanted = f; fell_back = false })

  -- A decoder whose codec could be opened.
  unfoldable pub opened : Option HwDevice → Option ℕ → Option Ctx → Option (FfmpegDecoder Ctx)
  opened hw pix_fmt none = none
  opened hw pix_fmt (some ctx) = some (record {
    ctx = ctx;
    hw_pix_fmt = pix_fmt;
    callback = callback_for pix_fmt;
    hw_name = hw;
    pictures = 0;
  })

  unfoldable pub open_with : ℕ → Option HwDevice → Option (Option ℕ) → Option (FfmpegDecoder Ctx)
  unfolding opened
  open_with n hw none = none
  open_with n hw (some pix_fmt) =
      if not (allocate n) then none else opened hw pix_fmt (open_codec n hw)

  -- `FfmpegDecoder::open`.
  unfoldable pub open_decoder : ℕ → Option HwDevice → Option (FfmpegDecoder Ctx)
  unfolding hw_setup open_with
  open_decoder n hw = if not has_h264 then none else open_with n hw (hw_setup n hw)

  -- The first candidate that opens.
  unfoldable pub first_open : ℕ → List HwDevice → Option (FfmpegDecoder Ctx)
  unfolding open_decoder
  first_open n [] = none
  first_open n (dev ∷ devs) =
      let rest = first_open n devs in
      elim (open_decoder n (some dev)) [ some d ↦ some d | none ↦ rest ]

  unfoldable pub new : ℕ → HwPreference → Option (FfmpegDecoder Ctx)
  unfolding hw_candidates first_open
  new n software = open_decoder n none
  new n auto = elim (first_open n (hw_candidates platform)) [
    | some d ↦ some d
    | none ↦ open_decoder n none
  ]

  unfoldable pub counted :
      FfmpegDecoder Ctx
      → ℕ × Result DecodeError (List DecodedImage)
      → FfmpegDecoder Ctx × Result DecodeError (List DecodedImage)
  counted d (n, r) = (record d { pictures = d.pictures + n }, r)

  -- After `avcodec_send_packet`.
  unfoldable pub receive :
      FfmpegDecoder Ctx
      → Option ErrorCode
      → List Received
      → FfmpegDecoder Ctx × Result DecodeError (List DecodedImage)
  unfolding counted receive_all classify
  receive d (some code) frames = (d, err (classify code))
  receive d none frames = counted d (receive_all d.hw_pix_fmt frames)

  unfoldable pub decode_packet :
      FfmpegDecoder Ctx → Sent Ctx → FfmpegDecoder Ctx × Result DecodeError (List DecodedImage)
  unfolding receive called_back
  decode_packet d s =
      receive (record d { ctx = s.ctx; callback = called_back is_hw_format s.offered d.callback })
        s.failed s.frames

  -- `FfmpegDecoder::decode`.
  unfoldable pub decode :
      FfmpegDecoder Ctx → List ℕ → FfmpegDecoder Ctx × Result DecodeError (List DecodedImage)
  unfolding decode_packet
  decode d [] = (d, ok [])
  decode d (b ∷ bs) =
      if ltb c_int_max (length (b ∷ bs))
      then (d, err corrupt)
      else if not (new_packet d.ctx (length (b ∷ bs)))
      then (d, err fatal)
      else decode_packet d (send_packet d.ctx (b ∷ bs))

  abbrev pub has_fallen_back : Option CallbackState → Bool
  has_fallen_back none = false
  has_fallen_back (some state) = state.fell_back

  abbrev pub is_named : Option HwDevice → Bool
  is_named none = false
  is_named (some dev) = true

  unfoldable pub is_hardware : FfmpegDecoder Ctx → Bool
  is_hardware d = is_named d.hw_name && not (has_fallen_back d.callback)
