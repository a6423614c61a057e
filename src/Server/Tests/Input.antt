-- ===== src/Server/Tests/Input.antt =====
-- Key maps and the input sink: two concrete devices, and the theorems at concrete events.
use vmscren_share.Prelude.{ℕ, ◌≡◌, ◌↔◌, refl, Bool, true, false, ◌==◌, some, List, [], ◌∷◌}
use vmscren_share.Prelude.Result.{Result, ok, err}
use vmscren_share.Prelude.Sets.{contains, insert}
use vmscren_share.Proto.KeyCode.{KeyCode}
use vmscren_share.Proto.Message.{ControlMessage}
use vmscren_share.Server.Keymap.{Ev, to_evdev}
use vmscren_share.Server.Keymap.Injective.{physical, to_evdev_shared_iff}
use vmscren_share.Server.Uinput.{
  InputEvent, IoError, io_error, Device, UinputSink, SinkEvent, control, replay, handle,
  press_mapped, release_all, press_key, release_buttons, then_release_buttons, emit_keyboard,
}
use vmscren_share.Server.Uinput.Held.{Tracks}
use vmscren_share.Server.Uinput.Handle.{handle-Tracks, release_all_forgets}

to_evdev_shared_iff_example :
    (to_evdev KeyCode.katakana ≡ some Ev.key_katakana)
    ↔ (physical KeyCode.lang3 ≡ physical KeyCode.katakana)
to_evdev_shared_iff_example =
    to_evdev_shared_iff KeyCode.lang3 KeyCode.katakana Ev.key_katakana (unfold to_evdev in refl)

-- A device is what it holds, and whether it still works.
abbrev Toy : Type 0
Toy = (ℕ → Bool) × Bool

emit_toy : Toy → List InputEvent → Toy × Result IoError (Unit {0})
emit_toy (held, true) es = ((replay es held, true), ok tt)
emit_toy (held, false) es = ((held, false), err io_error)

emit_toy_replays :
    (d : Toy) (es : List InputEvent) (c : ℕ)
    → (emit_toy d es).1 ≡ ok tt
    → (emit_toy d es).0.0 c ≡ replay es d.0 c
unfolding emit_toy
emit_toy_replays (held, true) es c h = refl
emit_toy_replays (held, false) es c h = cc

abbrev toy : Device
toy = record { State = Toy; held = λ d. d.0; emit = emit_toy; emit_replays = emit_toy_replays }

-- Numbers for the codes: those of two keys and of one button matter here.
abbrev code : Ev → ℕ
code Ev.key_a = 30
code Ev.key_b = 48
code Ev.btn_left = 0x110
code e = 0

abbrev working : Toy
working = (λ c. false, true)

abbrev start : UinputSink toy
start = record { keyboard = working; pointer = working; pressed_keys = []; pressed_buttons = [] }

start-Tracks : Tracks toy start
unfolding contains
start-Tracks = record { keys = λ c. refl; buttons = λ c. refl }

abbrev press_a : SinkEvent
press_a = control (ControlMessage.key KeyCode.key_a true)

abbrev after_a : UinputSink toy
after_a = (handle toy code start press_a).0

handled : (handle toy code start press_a).1 ≡ ok tt
unfolding handle press_mapped to_evdev press_key emit_toy
handled = refl

handle-Tracks_example : Tracks toy (handle toy code start press_a).0
handle-Tracks_example = handle-Tracks toy code start press_a start-Tracks handled

released : (release_all toy after_a).1 ≡ ok tt
unfolding handle press_mapped to_evdev press_key insert contains release_all emit_keyboard
    then_release_buttons release_buttons emit_toy
released = refl

-- A keyboard that no longer works, with a key and a button held down.
abbrev broken : UinputSink toy
broken = record {
  keyboard = (λ c. c == 30, false);
  pointer = (λ c. c == 0x110, true);
  pressed_keys = 30 ∷ [];
  pressed_buttons = 0x110 ∷ [];
}

release_all_forgets_example :
    ((release_all toy broken).1 ≡ err io_error)
    × ((release_all toy broken).0.pointer ≡ broken.pointer)
    × ((release_all toy broken).0.pressed_buttons ≡ [])
    × (release_all toy (release_all toy broken).0 ≡ ((release_all toy broken).0, ok tt))
release_all_forgets_example = release_all_forgets toy broken io_error refl (unfold emit_toy in refl)
