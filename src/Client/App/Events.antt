-- ===== src/Client/App/Events.antt =====
-- client/src/app.rs: every event of the window keeps its sets in step with its commands.
use vmscren_share.Prelude.{
  ℕ, ◌≡◌, refl, ◌∙◌, sym, Bool, true, false, not, if◌then◌else◌, Option, none, some, List, [], ◌∷◌,
}
use vmscren_share.Prelude.Floats.{Floats}
use vmscren_share.Prelude.Result.{Result, ok, err}
use vmscren_share.Prelude.Sets.{contains_value}
use vmscren_share.Prelude.Text.{Text}
use vmscren_share.Proto.KeyCode.{KeyCode}
use vmscren_share.Proto.MouseButton.{MouseButton}
use vmscren_share.Client.Messages.{mouse, quit, UserEvent, frame, status, fatal}
use vmscren_share.Client.Keymap.{button_to_proto}
use vmscren_share.Client.View.{SharedView}
use vmscren_share.Client.App.{App, start, send, release_all, KeyEvent, handle_key}
use vmscren_share.Client.App.Window.{
  WindowEvent, close_requested, resized, redraw_requested, focused, keyboard_input, cursor_moved,
  mouse_input, mouse_wheel, other, AppEvent, resumed, user, window, create_window, resume_with,
  on_resumed, user_event, on_resized, pointer, window_event, handle_event, handle_events,
}
use vmscren_share.Client.App.Held.{
  held_keys, held_buttons, told_key, told_button, InStep, start-InStep, release_all-InStep,
  press_mouse_button-InStep, send-InStep, same-InStep, handle_key-InStep, handle_wheel-InStep,
}

-- The events on which the window lets go of the input.
pub data Leaving : Type 0 where
  closed unfocused : Leaving
  failed : Text → Leaving

abbrev pub leaving : (floats : Floats) → Leaving → AppEvent floats
leaving floats closed = window close_requested
leaving floats unfocused = window (focused false)
leaving floats (failed message) = user (fatal message)

module _ (floats : Floats) where
  focused-InStep :
      (a : App floats) (f : Bool)
      → InStep floats a
      → InStep floats (if not f then release_all floats a else a)
  focused-InStep a true i = i
  focused-InStep a false i = release_all-InStep floats a

  keyboard_input-InStep :
      (a : App floats) (e : KeyEvent) (is_synthetic : Bool)
      → InStep floats a
      → InStep floats (if not is_synthetic then handle_key floats a e else a)
  keyboard_input-InStep a e true i = i
  keyboard_input-InStep a e false i = handle_key-InStep floats a e i

  window_event-InStep :
      (a : App floats) (e : WindowEvent floats)
      → InStep floats a
      → InStep floats (window_event floats a e)
  unfolding window_event on_resized pointer told_key told_button
  window_event-InStep a close_requested i =
      let b = release_all floats a in
      let left = send-InStep floats b quit refl refl (release_all-InStep floats a) in
      same-InStep floats (send floats b quit) (record (send floats b quit) { exiting = true }) left
        refl refl refl
  window_event-InStep a (resized w h) i =
      same-InStep floats a (on_resized floats a w h) i refl refl refl
  window_event-InStep a redraw_requested i = i
  window_event-InStep a (focused f) i = focused-InStep a f i
  window_event-InStep a (keyboard_input e is_synthetic) i = keyboard_input-InStep a e is_synthetic i
  window_event-InStep a (cursor_moved x y) i =
      send-InStep floats a (mouse (pointer floats a x y)) refl refl i
  window_event-InStep a (mouse_input pressed b) i =
      press_mouse_button-InStep floats a (button_to_proto b) pressed i
  window_event-InStep a (mouse_wheel delta) i = handle_wheel-InStep floats a delta i
  window_event-InStep a other i = i

  create_window-InStep :
      (a : App floats) (created : Result Text (ℕ × ℕ))
      → InStep floats a
      → InStep floats (create_window floats a created)
  unfolding create_window
  create_window-InStep a (ok (w, h)) i =
      same-InStep floats a (create_window floats a (ok (w, h))) i refl refl refl
  create_window-InStep a (err message) i =
      same-InStep floats a (create_window floats a (err message)) i refl refl refl

  resume_with-InStep :
      (size : Option (ℕ × ℕ)) (a : App floats) (created : Result Text (ℕ × ℕ))
      → InStep floats a
      → InStep floats (resume_with floats size a created)
  unfolding resume_with
  resume_with-InStep none a created i = create_window-InStep a created i
  resume_with-InStep (some size) a created i = i

  user_event-InStep :
      (a : App floats) (e : UserEvent) → InStep floats a → InStep floats (user_event floats a e)
  unfolding user_event
  user_event-InStep a frame i = i
  user_event-InStep a (status s) i = same-InStep floats a (record a { status = s }) i refl refl refl
  user_event-InStep a (fatal message) i =
      let b = release_all floats (record a { fatal = some message }) in
      same-InStep floats b (record b { exiting = true })
        (release_all-InStep floats (record a { fatal = some message })) refl refl refl

  pub handle_event-InStep :
      (a : App floats) (e : AppEvent floats)
      → InStep floats a
      → InStep floats (handle_event floats a e)
  unfolding handle_event on_resumed
  handle_event-InStep a (resumed created) i = resume_with-InStep a.window a created i
  handle_event-InStep a (user e) i = user_event-InStep a e i
  handle_event-InStep a (window e) i = window_event-InStep a e i

  handle_events_keep :
      (a : App floats) (es : List (AppEvent floats))
      → InStep floats a
      → InStep floats (handle_events floats a es)
  unfolding handle_events
  handle_events_keep a [] i = i
  handle_events_keep a (e ∷ es) i =
      handle_events_keep (handle_event floats a e) es (handle_event-InStep a e i)

  -- Whatever events come, in whatever order, the window's sets of pressed keys and buttons are what
  -- the commands it has sent say is held down.
  pub handle_events-InStep :
      (view : SharedView) (s : Text) (es : List (AppEvent floats))
      → InStep floats (handle_events floats (start floats view s) es)
  handle_events-InStep view s es =
      handle_events_keep (start floats view s) es (start-InStep floats view s)

  -- The state after some events and one on which the window lets go of the input.
  abbrev pub left_after : SharedView → Text → List (AppEvent floats) → Leaving → App floats
  left_after view s es l =
      handle_event floats (handle_events floats (start floats view s) es) (leaving floats l)

  emptied :
      (a : App floats) (l : Leaving)
      → ((handle_event floats a (leaving floats l)).pressed_keys ≡ [])
        × ((handle_event floats a (leaving floats l)).pressed_buttons ≡ [])
  unfolding handle_event window_event user_event release_all send
  emptied a closed = (refl, refl)
  emptied a unfocused = (refl, refl)
  emptied a (failed message) = (refl, refl)

  nothing_left :
      (a : App floats)
      → InStep floats a
      → a.pressed_keys ≡ []
      → a.pressed_buttons ≡ []
      → ((k : KeyCode) → held_keys a.ui k ≡ false)
        × ((b : MouseButton) → held_buttons a.ui b ≡ false)
  unfolding contains_value
  nothing_left a i no_keys no_buttons =
      (λ k. sym (i.keys k) ∙ rw no_keys refl, λ b. sym (i.buttons b) ∙ rw no_buttons refl)

  -- After the window is closed, loses the focus or is told of a fatal error, whatever went before,
  -- the commands it has sent leave no key and no button held down.
  pub leaving_holds_nothing :
      (view : SharedView) (s : Text) (es : List (AppEvent floats)) (l : Leaving)
      → ((k : KeyCode) → held_keys (left_after view s es l).ui k ≡ false)
        × ((b : MouseButton) → held_buttons (left_after view s es l).ui b ≡ false)
  leaving_holds_nothing view s es l =
      let a = handle_events floats (start floats view s) es in
      nothing_left (left_after view s es l)
        (handle_event-InStep a (leaving floats l) (handle_events-InStep view s es)) (emptied a l).0
        (emptied a l).1
