-- ===== src/Client/Keymap.antt =====
-- client/src/keymap.rs: the key codes and the mouse buttons of winit, in those of the protocol.
use vmscren_share.Prelude.{ℕ, Option, none, some}
use vmscren_share.Proto.KeyCode.{KeyCode}
use vmscren_share.Proto.MouseButton.{MouseButton}

-- winit's key codes: `named` are those that the list of `with_keycodes!` names, which `to_proto`
-- maps name for name, and `unnamed` the ones that winit has beside them.
pub data WinitKey : Type 0 where
  named : KeyCode → WinitKey
  unnamed : ℕ → WinitKey

unfoldable pub to_proto : WinitKey → Option KeyCode
to_proto (named k) = some k
to_proto (unnamed n) = none

pub data WinitButton : Type 0 where
  left right middle back forward : WinitButton
  other : ℕ → WinitButton

unfoldable pub button_to_proto : WinitButton → Option MouseButton
button_to_proto left = some MouseButton.left
button_to_proto right = some MouseButton.right
button_to_proto middle = some MouseButton.middle
button_to_proto back = some MouseButton.back
button_to_proto forward = some MouseButton.forward
button_to_proto (other n) = none
