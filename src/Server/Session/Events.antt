-- ===== src/Server/Session/Events.antt =====
-- server/src/session.rs: the tasks of a running session, which read the events of its connection and
-- the messages of its data channels.
pub mod Teardown
pub mod Replaced
pub mod Ended
pub mod Freed
use vmscren_share.Prelude.{
  ℕ, ◌≡◌, Bool, true, false, not, ◌&&◌, ◌||◌, ◌==◌, if◌then◌else◌, Option, none, some, List, [],
  ◌∷◌,
}
use vmscren_share.Prelude.Result.{Result, ok, err}
use vmscren_share.Prelude.Text.{Text, codes, text_eq}
use vmscren_share.Proto.Message.{ControlMessage}
use vmscren_share.Proto.Message
use vmscren_share.Proto.MouseMove
use vmscren_share.Server.Uinput.{SinkEvent, control, mouse}
use vmscren_share.Server.Shared.{Shared, install_sink}
use vmscren_share.Server.Input.{InputSink}
use vmscren_share.Server.Session.{SessionManager, clamp, release_input, disconnect}
use vmscren_share.Server.Session.Offer.{PcEvent, ConnectionState}

-- Whether the loop of a task goes on after an event.
pub data Flow : Type 0 where
  continue break : Flow

-- `DataChannelEvent`: any other event than these four is ignored, as `on_open` is.
pub data ChannelEvent : Type 0 where
  on_open on_close on_error : ChannelEvent
  on_message : List ℕ → ChannelEvent

pub data Channel : Type 0 where
  control_channel mouse_channel : Channel

-- The channel of a label; a task that has none ends at once.
unfoldable pub channel_of : Text → Option Channel
channel_of label =
    if text_eq label (codes "control")
    then some control_channel
    else if text_eq label (codes "mouse")
    then some mouse_channel
    else none

module _ (input : InputSink) where
  unfoldable pub is_active : SessionManager input → ℕ → Bool
  is_active m session_id = m.shared.active_session == session_id

  -- The connection of the active session is up: its frames, from a keyframe on, go to its sender.
  unfoldable pub connect : SessionManager input → ℕ → SessionManager input
  connect m session_id = record m {
    shared =
        record (install_sink (record m.shared { bitrate_kbps = m.config.video.bitrate_kbps })
          session_id) { force_keyframe = true; client_connected = true };
  }

  -- The arm of `PcEvent::Connection`.
  unfoldable pub on_connection :
      SessionManager input → ℕ → ConnectionState → SessionManager input × Flow
  unfolding connect is_active
  on_connection m session_id ConnectionState.connected =
      if is_active m session_id then (connect m session_id, continue) else (m, break)
  on_connection m session_id ConnectionState.disconnected = (release_input input m, continue)
  on_connection m session_id ConnectionState.failed = (m, break)
  on_connection m session_id ConnectionState.closed = (m, break)
  on_connection m session_id ConnectionState.unspecified = (m, continue)
  on_connection m session_id ConnectionState.new = (m, continue)
  on_connection m session_id ConnectionState.connecting = (m, continue)

  -- One turn of the loop of `run_session`. The task that a data channel starts is `read_messages`.
  unfoldable pub on_event : SessionManager input → ℕ → PcEvent → SessionManager input × Flow
  unfolding on_connection
  on_event m session_id (PcEvent.connection state) = on_connection m session_id state
  on_event m session_id (PcEvent.data_channel label) = (m, continue)
  on_event m session_id (PcEvent.gathering_state state) = (m, continue)

  -- The current connection is forgotten, if it is the session's.
  unfoldable pub forget : SessionManager input → ℕ → SessionManager input
  forget m session_id = record m {
    current = elim m.current [
      | some cur ↦ if cur == session_id then none else some cur
      | none ↦ none
    ];
  }

  -- After the loop: a session that a newer one has replaced leaves everything to it.
  unfoldable pub teardown : SessionManager input → ℕ → SessionManager input
  unfolding is_active disconnect forget
  teardown m session_id =
      if is_active m session_id then forget (disconnect input m) session_id else m

  -- `run_session`: the events up to the one that ends the loop, or to the end of the events.
  unfoldable pub run_session : SessionManager input → ℕ → List PcEvent → SessionManager input
  unfolding on_event teardown
  run_session m session_id [] = teardown m session_id
  run_session m session_id (e ∷ es) =
      let (m', flow) = on_event m session_id e in
      elim flow [ continue ↦ run_session m' session_id es | break ↦ teardown m' session_id ]

  -- An input event goes to the sink, whose failure is logged and dropped.
  unfoldable pub inject : SessionManager input → SinkEvent → SessionManager input
  inject m e = record m { input_state = (input.handle m.input_state e).0 }

  -- The arms for a control message.
  unfoldable pub on_control : SessionManager input → ControlMessage → SessionManager input
  unfolding inject
  on_control m (ControlMessage.hello version) = m
  on_control m (ControlMessage.set_bitrate kbps) = record m {
    shared = record m.shared { bitrate_kbps = clamp kbps 200 100000 };
  }
  on_control m (ControlMessage.key k pressed) = inject m (control (ControlMessage.key k pressed))
  on_control m (ControlMessage.button b pressed) =
      inject m (control (ControlMessage.button b pressed))
  on_control m (ControlMessage.wheel horizontal vertical) =
      inject m (control (ControlMessage.wheel horizontal vertical))
  on_control m ControlMessage.release_all = inject m (control ControlMessage.release_all)

  -- A message of the active session is decoded; one that does not decode is dropped.
  unfoldable pub read_message : SessionManager input → Channel → List ℕ → SessionManager input
  unfolding on_control
  read_message m control_channel bytes = elim (Message.decode bytes) [
    | ok msg ↦ on_control m msg
    | err e ↦ m
  ]
  read_message m mouse_channel bytes = elim (MouseMove.decode bytes) [
    | ok move ↦ inject m (mouse move)
    | err e ↦ m
  ]

  -- One turn of the loop of `read_data_channel`.
  unfoldable pub on_channel_event :
      SessionManager input → ℕ → Channel → ChannelEvent → SessionManager input × Flow
  unfolding is_active read_message
  on_channel_event m session_id channel on_open = (m, continue)
  on_channel_event m session_id channel on_close = (m, break)
  on_channel_event m session_id channel on_error = (m, break)
  on_channel_event m session_id channel (ChannelEvent.on_message bytes) =
      if is_active m session_id then (read_message m channel bytes, continue) else (m, continue)
