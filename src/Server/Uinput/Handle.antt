-- ===== src/Server/Uinput/Handle.antt =====
-- `handle` and `release_all` as a whole: every event keeps the sink in step with its devices, and
-- what an emit that fails leaves behind.
use vmscren_share.Prelude.{ℕ, ◌≡◌, refl, Bool, false, Option, none, some, []}
use vmscren_share.Prelude.Result.{ok, err}
use vmscren_share.Prelude.Sets.{contains}
use vmscren_share.Proto.Message.{ControlMessage}
use vmscren_share.Server.Keymap.{Ev, to_evdev, button_to_evdev}
use vmscren_share.Server.Uinput.{
  SinkEvent, control, mouse, IoError, Device, UinputSink, releases, is_empty, emit_keyboard,
  release_buttons, then_release_buttons, release_all, press_mapped, handle,
}
use vmscren_share.Server.Uinput.Held.{
  Tracks, Freed, press_key-Tracks, press_button-Tracks, wheel-Tracks, move_abs-Tracks,
  release_all-Freed,
}

module _ (dev : Device) where
  open dev use {held, emit}

  Freed-Tracks : {s : UinputSink dev} → Freed dev s → Tracks dev s
  unfolding contains
  Freed-Tracks {s} f = record {
    keys = λ c. rw f.no_keys (f.keys_up c);
    buttons = λ c. rw f.no_buttons (f.buttons_up c);
  }

  module _ (code : Ev → ℕ) where
    press_mapped-Tracks :
        (s : UinputSink dev) (ev : Option Ev) (pressed : Bool)
        → Tracks dev s
        → (press_mapped dev code s ev pressed).1 ≡ ok tt
        → Tracks dev (press_mapped dev code s ev pressed).0
    unfolding press_mapped
    press_mapped-Tracks s none pressed t h = t
    press_mapped-Tracks s (some ev) pressed t h = press_key-Tracks dev s (code ev) pressed t h

    -- An event that is injected without an error keeps the devices and the sink's sets in step.
    pub handle-Tracks :
        (s : UinputSink dev) (e : SinkEvent)
        → Tracks dev s
        → (handle dev code s e).1 ≡ ok tt
        → Tracks dev (handle dev code s e).0
    unfolding handle
    handle-Tracks s (mouse m) t h = move_abs-Tracks dev s m t h
    handle-Tracks s (control (ControlMessage.key k pressed)) t h =
        press_mapped-Tracks s (to_evdev k) pressed t h
    handle-Tracks s (control (ControlMessage.button b pressed)) t h =
        press_button-Tracks dev s (code (button_to_evdev b)) pressed t h
    handle-Tracks s (control (ControlMessage.wheel horizontal vertical)) t h =
        wheel-Tracks dev s horizontal vertical t h
    handle-Tracks s (control ControlMessage.release_all) t h =
        Freed-Tracks (release_all-Freed dev s t h)
    handle-Tracks s (control (ControlMessage.hello version)) t h = t
    handle-Tracks s (control (ControlMessage.set_bitrate kbps)) t h = t

  -- A `release_all` whose emit on the keyboard fails reports the error, and has forgotten the
  -- pressed buttons without releasing them: the pointer is left as it was, and a second
  -- `release_all` succeeds without an emit.
  pub release_all_forgets :
      (s : UinputSink dev) (e : IoError)
      → is_empty s.pressed_keys ≡ false
      → (emit s.keyboard (releases s.pressed_keys)).1 ≡ err e
      → ((release_all dev s).1 ≡ err e)
        × ((release_all dev s).0.pointer ≡ s.pointer)
        × ((release_all dev s).0.pressed_buttons ≡ [])
        × (release_all dev (release_all dev s).0 ≡ ((release_all dev s).0, ok tt))
  unfolding release_all emit_keyboard then_release_buttons release_buttons
  release_all_forgets s e some_keys failed = rw (some_keys, failed) (refl, refl, refl, refl)
