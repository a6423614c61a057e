-- ===== src/Client/App.antt =====
-- client/src/app.rs: the window's thread, which turns the events of the window into commands for the
-- network's. The arithmetic of positions and wheel notches is the parameter `Floats`.
pub mod Window
pub mod Held
pub mod Events
pub mod Arrives
use vmscren_share.Prelude.{
  ℕ, max, min, Bool, true, false, not, ◌&&◌, ◌||◌, if◌then◌else◌, Option, none, some, List, [], ◌∷◌,
  ◌++◌, replicate, length,
}
use vmscren_share.Prelude.Floats.{Floats}
use vmscren_share.Prelude.Int.{ℤ}
use vmscren_share.Prelude.Sets.{insert_value, remove_value}
use vmscren_share.Prelude.Text.{Text}
use vmscren_share.Proto.KeyCode.{KeyCode, as_u16}
use vmscren_share.Proto.MouseButton.{MouseButton, as_u8}
use vmscren_share.Proto.Message.{ControlMessage, key, button, wheel}
use vmscren_share.Client.Messages.{UiCommand, control}
use vmscren_share.Client.Keymap.{WinitKey, named, to_proto}
use vmscren_share.Client.View.{SharedView, RgbFrame}

-- winit's `PhysicalKey`, `KeyEvent` (`pressed` is its state) and `MouseScrollDelta`.
pub data PhysicalKey : Type 0 where
  code : WinitKey → PhysicalKey
  unidentified : PhysicalKey

pub record KeyEvent : Type 0 where
  pub physical_key : PhysicalKey
  pub pressed : Bool
  pub repeat : Bool

pub data ScrollDelta (floats : Floats) : Type 0 where
  line_delta : (x y : floats.F) → ScrollDelta floats
  pixel_delta : (x y : floats.F) → ScrollDelta floats

-- `ui` is what the window has sent, in order: a send to a thread that is gone is ignored. A window
-- is its inner size, and `exiting` that the event loop was told to exit. The title, its timer and
-- the frame rate in it are left out.
pub record App (floats : Floats) : Type 0 where
  pub ui : List UiCommand
  pub view : SharedView
  pub window : Option (ℕ × ℕ)
  pub status : Text
  pub fullscreen : Bool
  pub pressed_keys : List KeyCode
  pub pressed_buttons : List MouseButton
  pub wheel_acc : floats.F × floats.F
  pub fatal : Option Text
  pub exiting : Bool

-- `code == KeyCode::F11`.
unfoldable pub is_f11 : WinitKey → Bool
is_f11 (named KeyCode.f11) = true
is_f11 _ = false

module _ (floats : Floats) where
  open floats use {
    F, of_u32, add, sub, mul, div, fmin, neg, trunc, floor, round, to_f32, clamp, le, eq, as_i16,
    as_u32,
  }

  -- `run`, before the first event.
  unfoldable pub start : SharedView → Text → App floats
  start view status = record {
    ui = [];
    view = view;
    window = none;
    status = status;
    fullscreen = false;
    pressed_keys = [];
    pressed_buttons = [];
    wheel_acc = (of_u32 0, of_u32 0);
    fatal = none;
    exiting = false;
  }

  unfoldable pub send : App floats → UiCommand → App floats
  send a cmd = record a { ui = a.ui ++ cmd ∷ [] }

  unfoldable pub send_control : App floats → ControlMessage → App floats
  unfolding send
  send_control a msg = send a (control msg)

  unfoldable pub release_all : App floats → App floats
  unfolding send_control
  release_all a =
      send_control (record a { pressed_keys = []; pressed_buttons = [] }) ControlMessage.release_all

  -- With no window there is nothing to toggle.
  unfoldable pub toggle_in : Option (ℕ × ℕ) → App floats → App floats
  toggle_in none a = a
  toggle_in (some size) a = record a { fullscreen = not a.fullscreen }

  unfoldable pub toggle_fullscreen : App floats → App floats
  unfolding toggle_in
  toggle_fullscreen a = toggle_in a.window a

  -- A key that the protocol has.
  unfoldable pub press_known : App floats → Option KeyCode → Bool → App floats
  unfolding send_control
  press_known a none pressed = a
  press_known a (some k) pressed =
      let keys =
        if pressed
        then insert_value as_u16 k a.pressed_keys
        else remove_value as_u16 k a.pressed_keys in
      send_control (record a { pressed_keys = keys }) (key k pressed)

  -- `handle_key`, for a key with a code.
  unfoldable pub handle_code : App floats → WinitKey → (pressed repeat : Bool) → App floats
  unfolding toggle_fullscreen press_known
  handle_code a k pressed repeat =
      if is_f11 k
      then (if pressed && not repeat then toggle_fullscreen a else a)
      else if repeat
      then a
      else press_known a (to_proto k) pressed

  -- A key with no code is ignored.
  unfoldable pub handle_physical : App floats → PhysicalKey → (pressed repeat : Bool) → App floats
  unfolding handle_code
  handle_physical a (code k) pressed repeat = handle_code a k pressed repeat
  handle_physical a unidentified pressed repeat = a

  unfoldable pub handle_key : App floats → KeyEvent → App floats
  unfolding handle_physical
  handle_key a event = handle_physical a event.physical_key event.pressed event.repeat

  -- The arm of a mouse button in `window_event`.
  unfoldable pub press_mouse_button : App floats → Option MouseButton → Bool → App floats
  unfolding send_control
  press_mouse_button a none pressed = a
  press_mouse_button a (some b) pressed =
      let buttons =
        if pressed
        then insert_value as_u8 b a.pressed_buttons
        else remove_value as_u8 b a.pressed_buttons in
      send_control (record a { pressed_buttons = buttons }) (button b pressed)

  abbrev pub pixels_per_notch : F
  pixels_per_notch = of_u32 60

  -- The notches of a scroll event: only the horizontal sign flips.
  unfoldable pub notches : ScrollDelta floats → F × F
  notches (line_delta x y) = (neg x, y)
  notches (pixel_delta x y) =
      (div (neg (to_f32 x)) pixels_per_notch, div (to_f32 y) pixels_per_notch)

  -- `v.clamp(-1000.0, 1000.0) as i16`.
  unfoldable pub whole_notches : F → ℤ
  whole_notches v = as_i16 (clamp v (neg (of_u32 1000)) (of_u32 1000))

  -- The whole notches of the sums are sent, if there are any, and the fractions are carried over.
  unfoldable pub send_notches : (any : Bool) → App floats → (acc : F × F) → App floats
  unfolding whole_notches send_control
  send_notches true a acc =
      let h = trunc acc.0 in
      let v = trunc acc.1 in
      send_control (record a { wheel_acc = (sub acc.0 h, sub acc.1 v) })
        (wheel (whole_notches h) (whole_notches v))
  send_notches false a acc = record a { wheel_acc = acc }

  unfoldable pub handle_wheel : App floats → ScrollDelta floats → App floats
  unfolding notches send_notches
  handle_wheel a delta =
      let acc : F × F =
        (add a.wheel_acc.0 (notches delta).0, add a.wheel_acc.1 (notches delta).1) in
      let any = not (eq (trunc acc.0) (of_u32 0)) || not (eq (trunc acc.1) (of_u32 0)) in
      send_notches any a acc

  -- (x, y, w, h) of the video in a window of the size `ww` by `wh`.
  unfoldable pub video_area : (ww wh : F) → Option RgbFrame → F × (F × (F × F))
  video_area ww wh none = (of_u32 0, (of_u32 0, (ww, wh)))
  video_area ww wh (some f) =
      let fw = of_u32 f.width in
      let fh = of_u32 f.height in
      if le fw ww && le fh wh
      then (floor (div (sub ww fw) (of_u32 2)), (floor (div (sub wh fh) (of_u32 2)), (fw, fh)))
      else (of_u32 0, (of_u32 0, (ww, wh)))

  unfoldable pub window_size : Option (ℕ × ℕ) → F × F
  window_size none = (of_u32 1, of_u32 1)
  window_size (some (w, h)) = (of_u32 (max w 1), of_u32 (max h 1))

  unfoldable pub video_rect : App floats → F × (F × (F × F))
  unfolding video_area window_size
  video_rect a = video_area (window_size a.window).0 (window_size a.window).1 a.view.latest

  -- One side of `fit_aspect`, at least 1 and at most `t`, then at least 2.
  unfoldable pub fitted_side : F → ℕ → ℕ
  fitted_side scaled t = max (min (max (as_u32 (round scaled)) 1) t) 2

  unfoldable pub fit_aspect : (target src : ℕ × ℕ) → ℕ × ℕ
  unfolding fitted_side
  fit_aspect target src =
      let tw = max target.0 1 in
      let th = max target.1 1 in
      let sw = of_u32 (max src.0 1) in
      let sh = of_u32 (max src.1 1) in
      let scale = fmin (div (of_u32 tw) sw) (div (of_u32 th) sh) in
      (fitted_side (mul sw scale) tw, fitted_side (mul sh scale) th)
