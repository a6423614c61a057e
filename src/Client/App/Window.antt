-- ===== src/Client/App/Window.antt =====
-- client/src/app.rs, the event loop's handler: `resumed`, `user_event`, `window_event` and `redraw`.
-- winit and softbuffer are parameters: what they answer.
use vmscren_share.Prelude.{
  ℕ, Bool, true, not, ◌==◌, ◌||◌, if◌then◌else◌, Option, none, some, List, [], ◌∷◌, replicate,
  length,
}
use vmscren_share.Prelude.Floats.{Floats}
use vmscren_share.Prelude.Result.{Result, ok, err}
use vmscren_share.Prelude.Text.{Text}
use vmscren_share.Proto.MouseMove.{MouseMove}
use vmscren_share.Proto.MouseMove.Position.{from_video_position}
use vmscren_share.Client.Messages.{mouse, quit, UserEvent, frame, status, fatal}
use vmscren_share.Client.Keymap.{WinitButton, button_to_proto}
use vmscren_share.Client.View.{SharedView, RgbFrame, set_target_size}
use vmscren_share.Client.Blit.{blit}
use vmscren_share.Client.App.{
  App, KeyEvent, ScrollDelta, send, release_all, handle_key, press_mouse_button, handle_wheel,
  video_rect,
}

-- winit's `WindowEvent`. The state of a mouse button is whether it is pressed.
pub data WindowEvent (floats : Floats) : Type 0 where
  close_requested : WindowEvent floats
  resized : (width height : ℕ) → WindowEvent floats
  redraw_requested : WindowEvent floats
  focused : Bool → WindowEvent floats
  keyboard_input : KeyEvent → (is_synthetic : Bool) → WindowEvent floats
  cursor_moved : (x y : floats.F) → WindowEvent floats
  mouse_input : (pressed : Bool) → WinitButton → WindowEvent floats
  mouse_wheel : ScrollDelta floats → WindowEvent floats
  other : WindowEvent floats

-- The events that the loop hands to the handler.
pub data AppEvent (floats : Floats) : Type 0 where
  -- What `create_window`, `Context::new` and `Surface::new` come to: a window of some size, or the
  -- message for the first that fails.
  resumed : Result Text (ℕ × ℕ) → AppEvent floats
  user : UserEvent → AppEvent floats
  window : WindowEvent floats → AppEvent floats

module _ (floats : Floats) where
  open floats use {sub}

  -- The window and its size are there from the first `resumed` that succeeds.
  unfoldable pub create_window : App floats → Result Text (ℕ × ℕ) → App floats
  create_window a (ok (w, h)) = record a { view = set_target_size a.view w h; window = some (w, h) }
  create_window a (err message) = record a { fatal = some message; exiting = true }

  unfoldable pub resume_with : Option (ℕ × ℕ) → App floats → Result Text (ℕ × ℕ) → App floats
  unfolding create_window
  resume_with (some size) a created = a
  resume_with none a created = create_window a created

  unfoldable pub on_resumed : App floats → Result Text (ℕ × ℕ) → App floats
  unfolding resume_with
  on_resumed a created = resume_with a.window a created

  -- A request to redraw is the toolkit's affair.
  unfoldable pub user_event : App floats → UserEvent → App floats
  unfolding release_all
  user_event a frame = a
  user_event a (status s) = record a { status = s }
  user_event a (fatal message) = record (release_all floats (record a { fatal = some message })) {
    exiting = true;
  }

  -- The position in the video area, on the scale of the mouse channel.
  unfoldable pub pointer : App floats → (x y : floats.F) → MouseMove
  pointer a px py =
      let (x, (y, (w, h))) = video_rect floats a in
      from_video_position floats (sub px x) (sub py y) w h

  -- A window keeps the size that it was given last.
  unfoldable pub on_resized : App floats → ℕ → ℕ → App floats
  on_resized a w h = record a {
    view = set_target_size a.view w h;
    window = elim a.window [ none ↦ none | some size ↦ some (w, h) ];
  }

  unfoldable pub window_event : App floats → WindowEvent floats → App floats
  unfolding on_resized pointer
  window_event a close_requested = record (send floats (release_all floats a) quit) {
    exiting = true;
  }
  window_event a (resized w h) = on_resized a w h
  window_event a redraw_requested = a
  window_event a (focused f) = if not f then release_all floats a else a
  window_event a (keyboard_input event is_synthetic) =
      if not is_synthetic then handle_key floats a event else a
  window_event a (cursor_moved x y) = send floats a (mouse (pointer a x y))
  window_event a (mouse_input pressed b) = press_mouse_button floats a (button_to_proto b) pressed
  window_event a (mouse_wheel delta) = handle_wheel floats a delta
  window_event a other = a

  unfoldable pub handle_event : App floats → AppEvent floats → App floats
  unfolding on_resumed user_event window_event
  handle_event a (resumed created) = on_resumed a created
  handle_event a (user event) = user_event a event
  handle_event a (window event) = window_event a event

  unfoldable pub handle_events : App floats → List (AppEvent floats) → App floats
  unfolding handle_event
  handle_events a [] = a
  handle_events a (e ∷ es) = handle_events (handle_event a e) es

-- `redraw`: what is presented, if anything is. The surface is resized to the window, and lends a
-- buffer, unless it fails. The outer `none` is the panic of `blit`.
pub record Surface : Type 0 where
  pub resize : ℕ → ℕ → Bool
  pub buffer_mut : ℕ → ℕ → Option (List ℕ)

unfoldable pub drawn : Option RgbFrame → List ℕ → ℕ → ℕ → Option (List ℕ)
drawn none buffer w h = some (replicate (length buffer) 0)
drawn (some f) buffer w h = blit f buffer w h

unfoldable pub presented : Option (List ℕ) → Option (Option (List ℕ))
presented none = none
presented (some pixels) = some (some pixels)

unfoldable pub draw_into : Option RgbFrame → ℕ → ℕ → Option (List ℕ) → Option (Option (List ℕ))
unfolding drawn presented
draw_into latest w h none = some none
draw_into latest w h (some buffer) = presented (drawn latest buffer w h)

unfoldable pub redraw : Surface → Option (ℕ × ℕ) → SharedView → Option (Option (List ℕ))
unfolding draw_into
redraw surface none view = some none
redraw surface (some (w, h)) view =
    if (w == 0 || h == 0) || not (surface.resize w h)
    then some none
    else draw_into view.latest w h (surface.buffer_mut w h)
