-- ===== src/Server/Uinput.antt =====
-- server/src/input/uinput.rs and server/src/input/mod.rs: the sink that injects input events.
-- The two virtual devices are those of the evdev crate, a parameter `Device`: an operation `emit`
-- and what it is documented to do when it succeeds. The numbers of the evdev codes are a parameter
-- as well.
pub mod Held
pub mod Handle
use vmscren_share.Prelude.{
  ℕ, ◌≡◌, Bool, true, false, not, ◌==◌, if◌then◌else◌, Option, none, some, List, [], ◌∷◌, ◌++◌, map,
}
use vmscren_share.Prelude.Result.{Result, ok, err, ◌>>=◌, ◌>>◌}
use vmscren_share.Prelude.Int.{ℤ, pos, negsuc}
use vmscren_share.Prelude.Sets.{insert, remove}
use vmscren_share.Proto.Message.{ControlMessage, bool_as_u8}
use vmscren_share.Proto.MouseMove.{MouseMove}
use vmscren_share.Server.Keymap.{Ev, to_evdev, button_to_evdev}

-- `enum InputEvent` of the sinks.
pub data SinkEvent : Type 0 where
  control : ControlMessage → SinkEvent
  mouse : MouseMove → SinkEvent

pub data RelativeAxis : Type 0 where
  rel_wheel rel_hwheel : RelativeAxis

pub data AbsoluteAxis : Type 0 where
  abs_x abs_y : AbsoluteAxis

-- evdev's `InputEvent::new`, a constructor for each event type.
pub data InputEvent : Type 0 where
  key : (code : ℕ) (value : ℤ) → InputEvent
  relative : RelativeAxis → (value : ℤ) → InputEvent
  absolute : AbsoluteAxis → (value : ℤ) → InputEvent

pub data IoError : Type 0 where
  io_error : IoError

abbrev pub is_zero : ℤ → Bool
is_zero (pos n) = n == 0
is_zero (negsuc n) = false

-- Whether a code is held down once some events are through, if `held` says it before them.
unfoldable pub replay : List InputEvent → (ℕ → Bool) → ℕ → Bool
replay [] held c = held c
replay (key code value ∷ es) held c =
    replay es (λ b. if code == b then not (is_zero value) else held b) c
replay (relative axis value ∷ es) held c = replay es held c
replay (absolute axis value ∷ es) held c = replay es held c

-- A `VirtualDevice`: the kernel's view of which codes are held down, and `emit`, which may fail.
-- Events that are emitted without an error take effect in their order.
pub record Device : Type 1 where
  pub State : Type 0
  pub held : State → ℕ → Bool
  pub emit : State → List InputEvent → State × Result IoError (Unit {0})
  pub emit_replays :
      (d : State) (es : List InputEvent) (c : ℕ)
      → (emit d es).1 ≡ ok tt
      → held (emit d es).0 c ≡ replay es (held d) c

pub record UinputSink (dev : Device) : Type 0 where
  pub keyboard : dev.State
  pub pointer : dev.State
  pub pressed_keys : List ℕ
  pub pressed_buttons : List ℕ

-- An operation returns the sink as it leaves it, with its `Result`.
abbrev pub Outcome : Device → Type 0
Outcome dev = UinputSink dev × Result IoError (Unit {0})

-- The events of a wheel movement: an axis that does not move has none.
unfoldable pub wheel_events : ℤ → ℤ → List InputEvent
wheel_events horizontal vertical =
    (if is_zero vertical then [] else relative rel_wheel vertical ∷ [])
    ++ (if is_zero horizontal then [] else relative rel_hwheel horizontal ∷ [])

abbrev pub is_empty {ℓ} : {A : Type ℓ} → List A → Bool
is_empty [] = true
is_empty (x ∷ xs) = false

-- The events that release a set of codes.
unfoldable pub releases : List ℕ → List InputEvent
releases codes = map (λ c. key c (pos 0)) codes

module _ (dev : Device) where
  -- An emit on one of the two devices of a sink.
  unfoldable pub emit_keyboard : UinputSink dev → List InputEvent → Outcome dev
  emit_keyboard s es = let (d, r) = dev.emit s.keyboard es in (record s { keyboard = d }, r)

  unfoldable pub emit_pointer : UinputSink dev → List InputEvent → Outcome dev
  emit_pointer s es = let (d, r) = dev.emit s.pointer es in (record s { pointer = d }, r)

  unfoldable pub press_key : UinputSink dev → ℕ → Bool → Outcome dev
  unfolding emit_keyboard
  press_key s code pressed =
      let keys = if pressed then insert code s.pressed_keys else remove code s.pressed_keys in
      emit_keyboard (record s { pressed_keys = keys }) (key code (pos (bool_as_u8 pressed)) ∷ [])

  unfoldable pub press_button : UinputSink dev → ℕ → Bool → Outcome dev
  unfolding emit_pointer
  press_button s code pressed =
      let buttons =
        if pressed then insert code s.pressed_buttons else remove code s.pressed_buttons in
      emit_pointer (record s { pressed_buttons = buttons })
        (key code (pos (bool_as_u8 pressed)) ∷ [])

  unfoldable pub wheel : UinputSink dev → ℤ → ℤ → Outcome dev
  wheel s horizontal vertical =
      let events = wheel_events horizontal vertical in
      if is_empty events then (s, ok tt) else emit_pointer s events

  unfoldable pub move_abs : UinputSink dev → MouseMove → Outcome dev
  unfolding emit_pointer
  move_abs s m = emit_pointer s (absolute abs_x (pos m.x) ∷ absolute abs_y (pos m.y) ∷ [])

  -- The second half of `release_all`, after the keys.
  unfoldable pub release_buttons : UinputSink dev → List ℕ → Outcome dev
  release_buttons s buttons =
      if is_empty buttons then (s, ok tt) else emit_pointer s (releases buttons)

  -- The `?` between the two halves: an error on the keyboard returns before the pointer.
  unfoldable pub then_release_buttons : List ℕ → Outcome dev → Outcome dev
  then_release_buttons buttons (s, ok t) = release_buttons s buttons
  then_release_buttons buttons (s, err e) = (s, err e)

  -- Both sets are drained before anything is emitted.
  unfoldable pub release_all : UinputSink dev → Outcome dev
  release_all s =
      let drained : UinputSink dev = record s { pressed_keys = []; pressed_buttons = [] } in
      if is_empty s.pressed_keys
      then release_buttons drained s.pressed_buttons
      else then_release_buttons s.pressed_buttons (emit_keyboard drained (releases s.pressed_keys))

  module _ (code : Ev → ℕ) where
    -- The `match` on `to_evdev`: a key with no evdev code is dropped.
    unfoldable pub press_mapped : UinputSink dev → Option Ev → Bool → Outcome dev
    press_mapped s (some ev) pressed = press_key s (code ev) pressed
    press_mapped s none pressed = (s, ok tt)

    unfoldable pub handle : UinputSink dev → SinkEvent → Outcome dev
    handle s (mouse m) = move_abs s m
    handle s (control (ControlMessage.key k pressed)) = press_mapped s (to_evdev k) pressed
    handle s (control (ControlMessage.button b pressed)) =
        press_button s (code (button_to_evdev b)) pressed
    handle s (control (ControlMessage.wheel horizontal vertical)) = wheel s horizontal vertical
    handle s (control ControlMessage.release_all) = release_all s
    handle s (control (ControlMessage.hello version)) = (s, ok tt)
    handle s (control (ControlMessage.set_bitrate kbps)) = (s, ok tt)
