-- ===== src/Client/Messages.antt =====
-- client/src/net.rs and client/src/app.rs: the messages between the threads of the client.
use vmscren_share.Prelude.Text.{Text}
use vmscren_share.Proto.Message.{ControlMessage}
use vmscren_share.Proto.MouseMove.{MouseMove}

-- From the window to the network.
pub data UiCommand : Type 0 where
  control : ControlMessage → UiCommand
  mouse : MouseMove → UiCommand
  quit : UiCommand

-- From the network and the decoder to the window.
pub data UserEvent : Type 0 where
  frame : UserEvent
  status : Text → UserEvent
  fatal : Text → UserEvent
