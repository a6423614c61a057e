-- ===== src/Client/App/Arrives.antt =====
-- The commands of the window, through the codecs of the two channels.
use vmscren_share.Prelude.{
  ℕ, max, ◌≤◌, arith, ◌≡◌, Bool, true, false, not, ◌&&◌, ◌||◌, if◌then◌else◌, Option, none, some,
  List, [], ◌∷◌, ◌++◌, All, All-joined,
}
use vmscren_share.Prelude.Floats.{Floats}
use vmscren_share.Prelude.Result.{Result, ok, err}
use vmscren_share.Prelude.Text.{Text}
use vmscren_share.Proto.KeyCode.{KeyCode}
use vmscren_share.Proto.MouseButton.{MouseButton}
use vmscren_share.Proto.Message
use vmscren_share.Proto.Message.{ControlMessage, key, button, wheel}
use vmscren_share.Proto.Message.RoundTrip.{decode-encode}
use vmscren_share.Proto.MouseMove
use vmscren_share.Proto.MouseMove.Codec.{move_decodes}
use vmscren_share.Proto.MouseMove.Position.{from_video_position-IsMove}
use vmscren_share.Client.Messages.{UiCommand, control, mouse, quit, frame, status, fatal}
use vmscren_share.Client.Keymap.{WinitKey, to_proto, button_to_proto}
use vmscren_share.Client.View.{SharedView}
use vmscren_share.Client.App.{
  App, code, unidentified, is_f11, start, send, release_all, toggle_fullscreen, press_known,
  handle_code, PhysicalKey, handle_physical, handle_key, whole_notches, send_notches, toggle_in,
  press_mouse_button, ScrollDelta, notches, handle_wheel, video_rect, fit_aspect, fitted_side,
}
use vmscren_share.Client.App.Window.{
  WindowEvent, close_requested, resized, redraw_requested, focused, keyboard_input, cursor_moved,
  mouse_input, mouse_wheel, other, AppEvent, resumed, user, window, create_window, resume_with,
  on_resumed, user_event, on_resized, pointer, window_event, handle_event, handle_events,
}

-- What the server decodes from the bytes of a command is the command. Quitting has no bytes.
unfoldable pub Arrives : UiCommand → Type 0
Arrives (control m) = Message.decode (Message.encode m) ≡ ok m
Arrives (mouse m) = MouseMove.decode (MouseMove.encode m) ≡ ok m
Arrives quit = Unit

All-snoc :
    {A : Type 0} (P : A → Type 0) (xs : List A) (x : A) → All P xs → P x → All P (xs ++ x ∷ [])
All-snoc P xs x h p = All-joined P xs (x ∷ []) h (p, tt)

module _ (floats : Floats) where
  abbrev AllArrive : App floats → Type 0
  AllArrive a = All Arrives a.ui

  send-AllArrive :
      (a : App floats) (c : UiCommand) → AllArrive a → Arrives c → AllArrive (send floats a c)
  unfolding send
  send-AllArrive a c h arrives = All-snoc Arrives a.ui c h arrives

  release_all-AllArrive : (a : App floats) → AllArrive a → AllArrive (release_all floats a)
  unfolding release_all Arrives
  release_all-AllArrive a h =
      All-snoc Arrives a.ui (control ControlMessage.release_all) h
        (decode-encode ControlMessage.release_all tt)

  press_known-AllArrive :
      (a : App floats) (k : Option KeyCode) (pressed : Bool)
      → AllArrive a
      → AllArrive (press_known floats a k pressed)
  unfolding press_known Arrives
  press_known-AllArrive a none pressed h = h
  press_known-AllArrive a (some k) pressed h =
      All-snoc Arrives a.ui (control (key k pressed)) h (decode-encode (key k pressed) tt)

  press_mouse_button-AllArrive :
      (a : App floats) (b : Option MouseButton) (pressed : Bool)
      → AllArrive a
      → AllArrive (press_mouse_button floats a b pressed)
  unfolding press_mouse_button Arrives
  press_mouse_button-AllArrive a none pressed h = h
  press_mouse_button-AllArrive a (some b) pressed h =
      All-snoc Arrives a.ui (control (button b pressed)) h (decode-encode (button b pressed) tt)

  toggle_in-AllArrive :
      (size : Option (ℕ × ℕ)) (a : App floats) → AllArrive a → AllArrive (toggle_in floats size a)
  unfolding toggle_in
  toggle_in-AllArrive none a h = h
  toggle_in-AllArrive (some size) a h = h

  handle_code-AllArrive :
      (a : App floats) (k : WinitKey) (pressed repeat : Bool)
      → AllArrive a
      → AllArrive (handle_code floats a k pressed repeat)
  unfolding handle_code toggle_fullscreen
  handle_code-AllArrive a k pressed repeat h = by_key (is_f11 k) repeat (pressed && not repeat)
    where
      by_key :
          (f11 again toggles : Bool)
          → AllArrive (
              if f11
              then (if toggles then toggle_fullscreen floats a else a)
              else if again
              then a
              else press_known floats a (to_proto k) pressed)
      by_key true again true = toggle_in-AllArrive a.window a h
      by_key true again false = h
      by_key false true toggles = h
      by_key false false toggles = press_known-AllArrive a (to_proto k) pressed h

  keyboard_input-AllArrive :
      (a : App floats) (k : PhysicalKey) (is_synthetic pressed repeat : Bool)
      → AllArrive a
      → AllArrive (if not is_synthetic then handle_physical floats a k pressed repeat else a)
  unfolding handle_physical
  keyboard_input-AllArrive a k true pressed repeat h = h
  keyboard_input-AllArrive a unidentified false pressed repeat h = h
  keyboard_input-AllArrive a (code k) false pressed repeat h =
      handle_code-AllArrive a k pressed repeat h

  -- The casts of the wheel's notches end in the range of an i16.
  wheel-Arrives :
      (h v : floats.F) → Arrives (control (wheel (whole_notches floats h) (whole_notches floats v)))
  unfolding whole_notches Arrives
  wheel-Arrives h v =
      let lo = floats.neg (floats.of_u32 1000) in
      let hi = floats.of_u32 1000 in
      decode-encode (wheel (whole_notches floats h) (whole_notches floats v))
        (floats.as_i16_range (floats.clamp h lo hi), floats.as_i16_range (floats.clamp v lo hi))

  send_notches-AllArrive :
      (any : Bool) (a : App floats) (acc : floats.F × floats.F)
      → AllArrive a
      → AllArrive (send_notches floats any a acc)
  unfolding send_notches
  send_notches-AllArrive true a acc h =
      let x = floats.trunc acc.0 in
      let y = floats.trunc acc.1 in
      All-snoc Arrives a.ui (control (wheel (whole_notches floats x) (whole_notches floats y))) h
        (wheel-Arrives x y)
  send_notches-AllArrive false a acc h = h

  handle_wheel-AllArrive :
      (a : App floats) (delta : ScrollDelta floats)
      → AllArrive a
      → AllArrive (handle_wheel floats a delta)
  unfolding handle_wheel
  handle_wheel-AllArrive a delta h =
      let acc : floats.F × floats.F = (
        floats.add a.wheel_acc.0 (notches floats delta).0,
        floats.add a.wheel_acc.1 (notches floats delta).1,
      ) in
      let zero = floats.of_u32 0 in
      send_notches-AllArrive
        (not (floats.eq (floats.trunc acc.0) zero) || not (floats.eq (floats.trunc acc.1) zero)) a
        acc h

  pointer-Arrives : (a : App floats) (x y : floats.F) → Arrives (mouse (pointer floats a x y))
  unfolding pointer Arrives
  pointer-Arrives a px py =
      let (x, (y, (w, h))) = video_rect floats a in
      move_decodes (pointer floats a px py)
        (from_video_position-IsMove floats (floats.sub px x) (floats.sub py y) w h)

  focused-AllArrive :
      (a : App floats) (f : Bool)
      → AllArrive a
      → AllArrive (if not f then release_all floats a else a)
  focused-AllArrive a true h = h
  focused-AllArrive a false h = release_all-AllArrive a h

  window_event-AllArrive :
      (a : App floats) (e : WindowEvent floats) → AllArrive a → AllArrive (window_event floats a e)
  unfolding window_event on_resized handle_key Arrives
  window_event-AllArrive a close_requested h =
      send-AllArrive (release_all floats a) quit (release_all-AllArrive a h) tt
  window_event-AllArrive a (resized w h) s = s
  window_event-AllArrive a redraw_requested h = h
  window_event-AllArrive a (focused f) h = focused-AllArrive a f h
  window_event-AllArrive a (keyboard_input e is_synthetic) h =
      keyboard_input-AllArrive a e.physical_key is_synthetic e.pressed e.repeat h
  window_event-AllArrive a (cursor_moved x y) h =
      send-AllArrive a (mouse (pointer floats a x y)) h (pointer-Arrives a x y)
  window_event-AllArrive a (mouse_input pressed b) h =
      press_mouse_button-AllArrive a (button_to_proto b) pressed h
  window_event-AllArrive a (mouse_wheel delta) h = handle_wheel-AllArrive a delta h
  window_event-AllArrive a other h = h

  create_window-AllArrive :
      (size : Option (ℕ × ℕ)) (a : App floats) (created : Result Text (ℕ × ℕ))
      → AllArrive a
      → AllArrive (resume_with floats size a created)
  unfolding resume_with create_window
  create_window-AllArrive (some size) a created h = h
  create_window-AllArrive none a (ok (w, h)) s = s
  create_window-AllArrive none a (err message) h = h

  handle_event-AllArrive :
      (a : App floats) (e : AppEvent floats) → AllArrive a → AllArrive (handle_event floats a e)
  unfolding handle_event on_resumed user_event
  handle_event-AllArrive a (resumed created) h = create_window-AllArrive a.window a created h
  handle_event-AllArrive a (user frame) h = h
  handle_event-AllArrive a (user (status s)) h = h
  handle_event-AllArrive a (user (fatal message)) h =
      release_all-AllArrive (record a { fatal = some message }) h
  handle_event-AllArrive a (window e) h = window_event-AllArrive a e h

  handle_events-AllArrive :
      (a : App floats) (es : List (AppEvent floats))
      → AllArrive a
      → AllArrive (handle_events floats a es)
  unfolding handle_events
  handle_events-AllArrive a [] h = h
  handle_events-AllArrive a (e ∷ es) h =
      handle_events-AllArrive (handle_event floats a e) es (handle_event-AllArrive a e h)

  -- Whatever events the window gets, each command it sends, encoded for its channel, is decoded by
  -- the server as that command.
  pub every_command-Arrives :
      (view : SharedView) (s : Text) (es : List (AppEvent floats))
      → All Arrives (handle_events floats (start floats view s) es).ui
  every_command-Arrives view s es =
      handle_events-AllArrive (start floats view s) es (unfold start in tt)

  -- Whatever the arithmetic gives, the size that the decoder scales to is at least 2 by 2, and is no
  -- larger than the window on a side where the window has two pixels.
  pub fit_aspect_bounds :
      (target src : ℕ × ℕ)
      → let fitted = fit_aspect floats target src in
        ((2 ≤ fitted.0) × (fitted.0 ≤ max target.0 2))
        × ((2 ≤ fitted.1) × (fitted.1 ≤ max target.1 2))
  unfolding fit_aspect fitted_side
  fit_aspect_bounds target src = ((omega arith, omega arith), (omega arith, omega arith))
