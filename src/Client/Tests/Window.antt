-- ===== src/Client/Tests/Window.antt =====
-- The window on concrete events, and the copy of a frame into its buffer.
use vmscren_share.Prelude.{
  ℕ, ◌≡◌, refl, Bool, true, false, max, ◌≤◌, some, List, [], ◌∷◌, replicate, All,
}
use vmscren_share.Prelude.Int.{pos, negsuc}
use vmscren_share.Prelude.Result.{ok}
use vmscren_share.Proto.KeyCode.{KeyCode}
use vmscren_share.Proto.MouseButton.{MouseButton}
use vmscren_share.Proto.Message.{ControlMessage, wheel}
use vmscren_share.Client.Messages.{control, quit}
use vmscren_share.Client.Keymap
use vmscren_share.Client.Keymap.{named, unnamed, to_proto, button_to_proto}
use vmscren_share.Client.View.{RgbFrame, new}
use vmscren_share.Client.Blit.{blit, geometry, copy_rows, copy_row, slice, copy_from_slice, splice}
use vmscren_share.Client.Blit.Centred.{IsCentred, blit-IsCentred}
use vmscren_share.Client.App.{
  App, code, KeyEvent, line_delta, start, fit_aspect, handle_code, is_f11, send_control,
  release_all, handle_wheel, send_notches, notches, whole_notches, toggle_fullscreen, toggle_in,
}
use vmscren_share.Client.App.Window.{
  AppEvent, resumed, window, close_requested, keyboard_input, cursor_moved, mouse_input,
  mouse_wheel, handle_events, window_event,
}
use vmscren_share.Client.App.Held.{InStep, held_keys, held_buttons}
use vmscren_share.Client.App.Events.{
  handle_events-InStep, unfocused, left_after, leaving_holds_nothing,
}
use vmscren_share.Client.App.Arrives.{Arrives, every_command-Arrives, fit_aspect_bounds}
use vmscren_share.Client.Tests.Arithmetic.{whole_numbers}

abbrev two_by_two : RgbFrame
two_by_two = record { width = 2; height = 2; pixels = 1 ∷ 2 ∷ 3 ∷ 4 ∷ [] }

-- A window that is larger, of the same size, and smaller.
blit_larger :
    blit two_by_two (replicate 16 9) 4 4
    ≡ some (0 ∷ 0 ∷ 0 ∷ 0 ∷ 0 ∷ 1 ∷ 2 ∷ 0 ∷ 0 ∷ 3 ∷ 4 ∷ 0 ∷ 0 ∷ 0 ∷ 0 ∷ 0 ∷ [])
unfolding blit copy_rows copy_row slice copy_from_slice splice geometry
blit_larger = refl

blit_same : blit two_by_two (replicate 4 0) 2 2 ≡ some (1 ∷ 2 ∷ 3 ∷ 4 ∷ [])
unfolding blit
blit_same = refl

blit_smaller : blit two_by_two (replicate 1 9) 1 1 ≡ some (1 ∷ [])
unfolding blit copy_rows copy_row slice copy_from_slice splice geometry
blit_smaller = refl

blit-IsCentred_example :
    (out : List ℕ) × ((blit two_by_two (replicate 16 9) 4 4 ≡ some out)
      × IsCentred two_by_two 4 4 out)
blit-IsCentred_example = blit-IsCentred two_by_two (replicate 16 9) 4 4 refl refl

-- A window that opens, in which a key and a button are pressed while the mouse moves.
abbrev key_event : KeyCode → Bool → KeyEvent
key_event k pressed = record { physical_key = code (named k); pressed = pressed; repeat = false }

abbrev pressing : List (AppEvent whole_numbers)
pressing =
    resumed (ok (640, 480))
    ∷ window (keyboard_input (key_event KeyCode.key_a true) false)
    ∷ window (cursor_moved (pos 320) (pos 240))
    ∷ window (mouse_input true Keymap.left)
    ∷ window (mouse_wheel (line_delta (pos 2) (negsuc 0)))
    ∷ window (keyboard_input (key_event KeyCode.f11 true) false)
    ∷ []

handle_events-InStep_example :
    InStep whole_numbers (handle_events whole_numbers (start whole_numbers new []) pressing)
handle_events-InStep_example = handle_events-InStep whole_numbers new [] pressing

leaving_holds_nothing_example :
    ((k : KeyCode) → held_keys (left_after whole_numbers new [] pressing unfocused).ui k ≡ false)
    × ((b : MouseButton)
        → held_buttons (left_after whole_numbers new [] pressing unfocused).ui b ≡ false)
leaving_holds_nothing_example = leaving_holds_nothing whole_numbers new [] pressing unfocused

every_command-Arrives_example :
    All Arrives (handle_events whole_numbers (start whole_numbers new []) pressing).ui
every_command-Arrives_example = every_command-Arrives whole_numbers new [] pressing

fit_aspect_bounds_example :
    let fitted = fit_aspect whole_numbers (0, 10) (1920, 1080) in
    ((2 ≤ fitted.0) × (fitted.0 ≤ max 0 2)) × ((2 ≤ fitted.1) × (fitted.1 ≤ max 10 2))
fit_aspect_bounds_example = fit_aspect_bounds whole_numbers (0, 10) (1920, 1080)

-- The commands of a key, a scroll to the right and down, and the end.
abbrev scrolled : App whole_numbers
scrolled = start whole_numbers new []

scroll_sends :
    (handle_wheel whole_numbers scrolled (line_delta (pos 2) (negsuc 0))).ui
    ≡ control (wheel (negsuc 1) (negsuc 0)) ∷ []
unfolding handle_wheel send_notches notches whole_notches send_control start
scroll_sends = refl

close_sends :
    (window_event whole_numbers scrolled close_requested).ui
    ≡ control ControlMessage.release_all ∷ quit ∷ []
unfolding window_event release_all start
close_sends = refl

-- F11 is the window's own, and a key that repeats is not sent.
repeat_is_silent : (handle_code whole_numbers scrolled (named KeyCode.key_a) true true).ui ≡ []
unfolding handle_code is_f11 start
repeat_is_silent = refl

f11_is_silent : (handle_code whole_numbers scrolled (named KeyCode.f11) true false).ui ≡ []
unfolding handle_code is_f11 toggle_fullscreen toggle_in start
f11_is_silent = refl
