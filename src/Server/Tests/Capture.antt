-- ===== src/Server/Tests/Capture.antt =====
-- The capture of the display on concrete inputs, and its theorems there.
use vmscren_share.Prelude.{
  ℕ, ◌*◌, ◌≡◌, ◌↔◌, refl, sym, ap, ◌∙◌, Bool, true, false, Option, none, some, List, [], ◌∷◌,
  length, replicate, subst, ◌==◌, if◌then◌else◌, length-replicate, ◌≤◌, arith,
}
use vmscren_share.Prelude.Result.{ok, err}
use vmscren_share.Prelude.Text.{codes, text_eq}
use vmscren_share.Server.Capture.{
  Drm, xrgb8888, PlanarInfo, Mapping, FrameSource, CapturedFrame, capture,
}
use vmscren_share.Server.Capture.Locate.{
  Card, find_card, Answers, PlaneInfo, Property, is_vkms, has_connector, no_connector,
  locate_display, wait_for_display, inactive,
}
use vmscren_share.Server.Capture.Chosen.{find_card-chosen}
use vmscren_share.Server.Capture.Shown.{IsShown, locate_display-IsShown}
use vmscren_share.Server.Capture.Wide.{IsWideDrm}
use vmscren_share.Server.Convert.{I420Frame, xrgb_to_i420}
use vmscren_share.Server.Pipeline.CaptureLoop.{
  Moment, accepted, Turn, unchanged, sent, idle, start, turn, run,
}
use vmscren_share.Server.Pipeline.Pictures.{sent_last, pictured, Repeats, skipped_picture_iff}
use vmscren_share.Server.Pipeline.Panics.{IsFair, AreFair, NoPanic, run-NoPanic}

abbrev vm_card : Card
vm_card = record { path = codes "card1"; driver = some (codes "vkms"); connectors = none }

abbrev other_card : Card
other_card = record {
  path = codes "card0";
  driver = some (codes "i915");
  connectors = some (codes "Virtual-1" ∷ []);
}

find_card-chosen_example :
    find_card [] (codes "Virtual-1") none (some other_card ∷ none ∷ some vm_card ∷ []) ≡ ok vm_card
unfolding is_vkms has_connector text_eq
find_card-chosen_example =
    find_card-chosen (codes "Virtual-1") none (some other_card ∷ none ∷ some vm_card ∷ [])

-- The plane 4 is on another CRTC, 5 is a cursor with a framebuffer, and 6 is primary.
abbrev plane_of : ℕ → Option PlaneInfo
plane_of n =
    if n == 4
    then some (record { crtc = some 8; framebuffer = some 7 })
    else if n == 5
    then some (record { crtc = some 9; framebuffer = some 7 })
    else if n == 6
    then some (record { crtc = some 9; framebuffer = none })
    else none

abbrev kind : ℕ → Property
kind raw = record {
  name = codes "type";
  values = some ((1, codes "Primary") ∷ (2, codes "Cursor") ∷ []);
  raw = raw;
}

abbrev properties_of : ℕ → Option (List (Option Property))
properties_of n =
    if n == 5 then some (some (kind 2) ∷ []) else if n == 6 then some (some (kind 1) ∷ []) else none

abbrev answers : Answers
answers = record {
  universal_planes = true;
  connectors =
      some (some (record { handle = 1; name = codes "Virtual-1"; current_encoder = some 2 }) ∷ []);
  get_encoder = λ n. some (some 9);
  get_crtc = λ n. some (record {
    mode = some (record { width = 2; height = 2; refresh = 60 });
    framebuffer = some 7;
  });
  plane_handles = some (4 ∷ 5 ∷ 6 ∷ []);
  get_plane = plane_of;
  get_properties = properties_of;
}

located :
    locate_display answers (codes "Virtual-1")
    ≡ ok (record { connector = 1; crtc = 9; plane = 6; width = 2; height = 2; refresh = 60 })
unfolding locate_display text_eq
located = refl

locate_display-IsShown_example :
    IsShown answers
      (codes "Virtual-1")
      (record { connector = 1; crtc = 9; plane = 6; width = 2; height = 2; refresh = 60 })
locate_display-IsShown_example =
    locate_display-IsShown answers (codes "Virtual-1")
      (record { connector = 1; crtc = 9; plane = 6; width = 2; height = 2; refresh = 60 }) located

timed_out :
    wait_for_display {A = ℕ}
      (some 1500)
      ((0, err inactive) ∷ (1000, err no_connector) ∷ (2000, err inactive) ∷ (3000, ok 1) ∷ [])
    ≡ some (err inactive)
unfolding wait_for_display
timed_out = refl

abbrev zeros : ℕ → ℕ → Option (List ℕ)
zeros buffer len = some (replicate len 0)

length-none : (n : ℕ) (m : List ℕ) → none ≡ some m → length m ≡ n
length-none n m e = cc

length-zeros : (n : ℕ) (m : List ℕ) → some (replicate n 0) ≡ some m → length m ≡ n
length-zeros n m e =
    let same : replicate n 0 ≡ m = cc in ap length (sym same) ∙ length-replicate n 0

abbrev framebuffer : PlanarInfo
framebuffer = record {
  buffer = some 3;
  width = 2;
  height = 2;
  pitch = 8;
  offset = 1;
  format = xrgb8888;
}

-- A card of one framebuffer, 2 by 2, whose buffers hold zeros.
abbrev screen : Drm
screen = record {
  get_plane = λ p. some (some 7);
  get_planar = λ fb. some framebuffer;
  get_framebuffer = λ fb. none;
  map_prime = λ b n. none;
  map_dumb = zeros;
  prime_length = λ b n m e. length-none n m e;
  dumb_length = λ b n m e. length-zeros n m e;
}

abbrev fresh : FrameSource
fresh = record { plane = 6; mapping = none }

abbrev mapped : Mapping
mapped = record {
  fb = 7;
  width = 2;
  height = 2;
  pitch = 8;
  offset = 1;
  format = xrgb8888;
  mmap = replicate 17 0;
}

abbrev used : FrameSource
used = record { plane = 6; mapping = some mapped }

abbrev captured : (remapped : Bool) → CapturedFrame
captured remapped = record {
  bytes = replicate 16 0;
  width = 2;
  height = 2;
  pitch = 8;
  format = xrgb8888;
  remapped = remapped;
}

captured_twice :
    (capture screen fresh ≡ some (used, ok (captured true)))
    × (capture screen used ≡ some (used, ok (captured false)))
unfolding capture
captured_twice = (refl, refl)

abbrev moment : (force_keyframe : Bool) → (now : ℕ) → Moment
moment force_keyframe now = record {
  client_connected = true;
  force_keyframe = force_keyframe;
  found = some fresh;
  drm = screen;
  spare = none;
  answer = accepted;
  now = now;
}

abbrev gone_client : Moment
gone_client = record (moment false 0) { client_connected = false }

abbrev constant : I420Frame → ℕ
constant f = 5

abbrev black : I420Frame
black = record {
  width = 2;
  height = 2;
  y = replicate 4 16;
  u = replicate 1 128;
  v = replicate 1 128;
}

abbrev first : Turn
first = sent (record { frame = black; pts_ms = 40; keyframe = true })

turns : (run constant (gone_client ∷ moment true 40 ∷ []) start).1 ≡ idle ∷ first ∷ []
unfolding run start capture xrgb_to_i420
turns = refl

skipped :
    (turn constant (moment false 80) (run constant (gone_client ∷ moment true 40 ∷ []) start).0).1
    ≡ unchanged black
unfolding turn run start capture xrgb_to_i420
skipped = refl

skipped_picture_iff_example :
    ((turn constant (moment false 80) (run constant (gone_client ∷ moment true 40 ∷ []) start).0).1
      ≡ unchanged black)
    ↔ Repeats constant (some 5) 40 (moment false 80) black
unfolding run start capture xrgb_to_i420 sent_last
skipped_picture_iff_example =
    skipped_picture_iff constant (gone_client ∷ moment true 40 ∷ []) (moment false 80) black
      (ap pictured skipped)

screen-IsWideDrm : IsWideDrm screen
screen-IsWideDrm = record {
  planar = λ fb i e.
      let same : framebuffer ≡ i = cc in
      subst (λ (x : PlanarInfo). x.width * 4 ≤ x.pitch) same (omega arith);
  legacy = λ fb i e. cc;
}

moment-IsFair : (force_keyframe : Bool) (now : ℕ) → IsFair (moment force_keyframe now)
moment-IsFair force_keyframe now = record {
  fresh = λ s e. let same : fresh ≡ s = cc in sym (ap (λ (x : FrameSource). x.mapping) same);
  wide = screen-IsWideDrm;
}

run-NoPanic_example : NoPanic (idle ∷ first ∷ [])
unfolding run start capture xrgb_to_i420 AreFair
run-NoPanic_example = run-NoPanic constant (gone_client ∷ moment true 40 ∷ []) (
  record { fresh = (moment-IsFair false 0).fresh; wide = screen-IsWideDrm },
  (moment-IsFair true 40, tt),
)
