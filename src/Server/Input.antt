-- ===== src/Server/Input.antt =====
-- server/src/input/mod.rs: what the session layer asks of a sink, and the two sinks.
use vmscren_share.Prelude.{ℕ}
use vmscren_share.Prelude.Result.{Result, ok}
use vmscren_share.Server.Keymap.{Ev}
use vmscren_share.Server.Uinput.{SinkEvent, IoError, Device, UinputSink, handle, release_all}

-- `trait InputSink`.
pub record InputSink : Type 1 where
  pub State : Type 0
  pub handle : State → SinkEvent → State × Result IoError (Unit {0})
  pub release_all : State → State × Result IoError (Unit {0})

-- `LogInput` does nothing.
abbrev pub log_input : InputSink
log_input = record {
  State = Unit {0};
  handle = λ s event. (s, ok tt);
  release_all = λ s. (s, ok tt);
}

-- `UinputSink`, over its devices.
abbrev pub uinput_input : (dev : Device) → (Ev → ℕ) → InputSink
uinput_input dev code = record {
  State = UinputSink dev;
  handle = handle dev code;
  release_all = release_all dev;
}
