-- ===== src/Client/App/Held.antt =====
-- What the network has been told of the keys and buttons that are held down is what the window
-- remembers of them.
use vmscren_share.Prelude.{
  ℕ, ◌≡◌, refl, Bool, true, false, not, ◌&&◌, ◌||◌, ◌==◌, if◌then◌else◌, Option, none, some, List,
  [], ◌∷◌, ◌++◌, arith,
}
use vmscren_share.Prelude.Floats.{Floats}
use vmscren_share.Prelude.Int.{ℤ}
use vmscren_share.Prelude.Sets.{
  contains_value, contains_value-insert_value, contains_value-remove_value,
}
use vmscren_share.Prelude.Text.{Text}
use vmscren_share.Proto.KeyCode.{KeyCode, as_u16}
use vmscren_share.Proto.MouseButton.{MouseButton, as_u8}
use vmscren_share.Proto.Message.{ControlMessage, key, button, wheel}
use vmscren_share.Client.Messages.{UiCommand, control, mouse, quit}
use vmscren_share.Client.Keymap.{WinitKey, to_proto}
use vmscren_share.Client.View.{SharedView}
use vmscren_share.Client.App.{
  App, code, unidentified, is_f11, ScrollDelta, notches, start, send, send_control, release_all,
  toggle_fullscreen, press_known, handle_code, PhysicalKey, KeyEvent, handle_physical, handle_key,
  whole_notches, send_notches, toggle_in, press_mouse_button, handle_wheel,
}

-- What one command says of the keys that are held down, given those before it. A key is told from
-- others by its code on the wire.
unfoldable pub told_key : UiCommand → (KeyCode → Bool) → KeyCode → Bool
told_key (control (key c pressed)) held k = if as_u16 c == as_u16 k then pressed else held k
told_key (control ControlMessage.release_all) held k = false
told_key (control _) held k = held k
told_key (mouse m) held k = held k
told_key quit held k = held k

unfoldable pub told_button : UiCommand → (MouseButton → Bool) → MouseButton → Bool
told_button (control (button c pressed)) held k = if as_u8 c == as_u8 k then pressed else held k
told_button (control ControlMessage.release_all) held k = false
told_button (control _) held k = held k
told_button (mouse m) held k = held k
told_button quit held k = held k

-- What a sequence of commands says, from nothing being held.
unfoldable pub replayed :
    {A : Type 0} → (UiCommand → (A → Bool) → A → Bool) → (A → Bool) → List UiCommand → A → Bool
replayed told held [] = held
replayed told held (c ∷ cs) = replayed told (told c held) cs

unfoldable pub held_keys : List UiCommand → KeyCode → Bool
unfolding replayed told_key
held_keys cs = replayed told_key (λ k. false) cs

unfoldable pub held_buttons : List UiCommand → MouseButton → Bool
unfolding replayed told_button
held_buttons cs = replayed told_button (λ k. false) cs

replayed-append :
    {A : Type 0} (told : UiCommand → (A → Bool) → A → Bool) (held : A → Bool) (cs : List UiCommand)
    (c : UiCommand)
    → replayed told held (cs ++ c ∷ []) ≡ told c (replayed told held cs)
unfolding replayed
replayed-append told held [] c = refl
replayed-append told held (d ∷ cs) c = replayed-append told (told d held) cs c

held_keys-append :
    (cs : List UiCommand) (c : UiCommand) → held_keys (cs ++ c ∷ []) ≡ told_key c (held_keys cs)
unfolding held_keys
held_keys-append cs c = replayed-append told_key (λ k. false) cs c

held_buttons-append :
    (cs : List UiCommand) (c : UiCommand)
    → held_buttons (cs ++ c ∷ []) ≡ told_button c (held_buttons cs)
unfolding held_buttons
held_buttons-append cs c = replayed-append told_button (λ k. false) cs c

module _ (floats : Floats) where
  -- The window's sets are what its commands have said.
  pub record InStep (a : App floats) : Type 0 where
    pub keys : (k : KeyCode) → contains_value as_u16 k a.pressed_keys ≡ held_keys a.ui k
    pub buttons : (b : MouseButton) → contains_value as_u8 b a.pressed_buttons ≡ held_buttons a.ui b

  pub start-InStep : (view : SharedView) (s : Text) → InStep (start floats view s)
  unfolding start contains_value held_keys held_buttons
  start-InStep view s = record { keys = λ k. refl; buttons = λ b. refl }

  pub release_all-InStep : (a : App floats) → InStep (release_all floats a)
  unfolding release_all contains_value told_key told_button
  release_all-InStep a = record {
    keys = λ k. rw (held_keys-append a.ui (control ControlMessage.release_all)) refl;
    buttons = λ b. rw (held_buttons-append a.ui (control ControlMessage.release_all)) refl;
  }

  press_known-InStep :
      (a : App floats) (k : Option KeyCode) (pressed : Bool)
      → InStep a
      → InStep (press_known floats a k pressed)
  unfolding press_known told_key told_button
  press_known-InStep a none pressed i = i
  press_known-InStep a (some c) pressed i = record {
    keys = λ k.
        let e = i.keys k in
        rw (held_keys-append a.ui (control (key c pressed))) (
          ground (
            arith,
            contains_value-insert_value as_u16 c k a.pressed_keys,
            contains_value-remove_value as_u16 c k a.pressed_keys,
            e,
          ));
    buttons = λ b. rw (held_buttons-append a.ui (control (key c pressed))) (i.buttons b);
  }

  pub press_mouse_button-InStep :
      (a : App floats) (b : Option MouseButton) (pressed : Bool)
      → InStep a
      → InStep (press_mouse_button floats a b pressed)
  unfolding press_mouse_button told_key told_button
  press_mouse_button-InStep a none pressed i = i
  press_mouse_button-InStep a (some c) pressed i = record {
    keys = λ k. rw (held_keys-append a.ui (control (button c pressed))) (i.keys k);
    buttons = λ b.
        let e = i.buttons b in
        rw (held_buttons-append a.ui (control (button c pressed))) (
          ground (
            arith,
            contains_value-insert_value as_u8 c b a.pressed_buttons,
            contains_value-remove_value as_u8 c b a.pressed_buttons,
            e,
          ));
  }

  -- A command that says nothing of keys and buttons.
  pub send-InStep :
      (a : App floats) (c : UiCommand)
      → told_key c (held_keys a.ui) ≡ held_keys a.ui
      → told_button c (held_buttons a.ui) ≡ held_buttons a.ui
      → InStep a
      → InStep (send floats a c)
  unfolding send
  send-InStep a c silent_key silent_button i = record {
    keys = λ k. rw (held_keys-append a.ui c, silent_key) (i.keys k);
    buttons = λ b. rw (held_buttons-append a.ui c, silent_button) (i.buttons b);
  }

  -- A state with the same sets and the same commands.
  pub same-InStep :
      (a b : App floats)
      → InStep a
      → b.ui ≡ a.ui
      → b.pressed_keys ≡ a.pressed_keys
      → b.pressed_buttons ≡ a.pressed_buttons
      → InStep b
  same-InStep a b i u k m = record {
    keys = λ x. rw (u, k) (i.keys x);
    buttons = λ x. rw (u, m) (i.buttons x);
  }

  toggle_in-InStep :
      (size : Option (ℕ × ℕ)) (a : App floats) → InStep a → InStep (toggle_in floats size a)
  unfolding toggle_in
  toggle_in-InStep none a i = i
  toggle_in-InStep (some size) a i =
      same-InStep a (record a { fullscreen = not a.fullscreen }) i refl refl refl

  toggle_fullscreen-InStep : (a : App floats) → InStep a → InStep (toggle_fullscreen floats a)
  unfolding toggle_fullscreen
  toggle_fullscreen-InStep a i = toggle_in-InStep a.window a i

  handle_code-InStep :
      (a : App floats) (k : WinitKey) (pressed repeat : Bool)
      → InStep a
      → InStep (handle_code floats a k pressed repeat)
  unfolding handle_code
  handle_code-InStep a k pressed repeat i = by_key (is_f11 k) repeat (pressed && not repeat)
    where
      by_key :
          (f11 again toggles : Bool)
          → InStep (
              if f11
              then (if toggles then toggle_fullscreen floats a else a)
              else if again
              then a
              else press_known floats a (to_proto k) pressed)
      by_key true again true = toggle_fullscreen-InStep a i
      by_key true again false = i
      by_key false true toggles = i
      by_key false false toggles = press_known-InStep a (to_proto k) pressed i

  pub handle_key-InStep :
      (a : App floats) (e : KeyEvent) → InStep a → InStep (handle_key floats a e)
  unfolding handle_key handle_physical
  handle_key-InStep a e i = by_code e.physical_key
    where
      by_code : (k : PhysicalKey) → InStep (handle_physical floats a k e.pressed e.repeat)
      by_code (code k) = handle_code-InStep a k e.pressed e.repeat i
      by_code unidentified = i

  -- Commands that say nothing of keys and buttons.
  wheel-InStep :
      (a : App floats) (horizontal vertical : ℤ)
      → InStep a
      → InStep (send_control floats a (wheel horizontal vertical))
  unfolding send_control told_key told_button
  wheel-InStep a horizontal vertical i =
      send-InStep a (control (wheel horizontal vertical)) refl refl i

  send_notches-InStep :
      (any : Bool) (a : App floats) (acc : floats.F × floats.F)
      → InStep a
      → InStep (send_notches floats any a acc)
  unfolding send_notches
  send_notches-InStep true a acc i =
      let h = floats.trunc acc.0 in
      let v = floats.trunc acc.1 in
      let kept : App floats = record a { wheel_acc = (floats.sub acc.0 h, floats.sub acc.1 v) } in
      wheel-InStep kept (whole_notches floats h) (whole_notches floats v)
        (same-InStep a kept i refl refl refl)
  send_notches-InStep false a acc i = same-InStep a (record a { wheel_acc = acc }) i refl refl refl

  pub handle_wheel-InStep :
      (a : App floats) (delta : ScrollDelta floats)
      → InStep a
      → InStep (handle_wheel floats a delta)
  unfolding handle_wheel
  handle_wheel-InStep a delta i =
      let acc : floats.F × floats.F = (
        floats.add a.wheel_acc.0 (notches floats delta).0,
        floats.add a.wheel_acc.1 (notches floats delta).1,
      ) in
      let zero = floats.of_u32 0 in
      send_notches-InStep
        (not (floats.eq (floats.trunc acc.0) zero) || not (floats.eq (floats.trunc acc.1) zero)) a
        acc i
