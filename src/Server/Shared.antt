-- ===== src/Server/Shared.antt =====
-- server/src/pipeline.rs: the state that the pipeline's threads share with the session layer.
use vmscren_share.Prelude.{ℕ, Bool, false, Option, none, some}

-- The sender in `sink` is named by the session that installed it.
pub record Shared : Type 0 where
  pub client_connected : Bool
  pub force_keyframe : Bool
  pub bitrate_kbps : ℕ
  pub active_session : ℕ
  pub sink : Option ℕ
  pub frames_encoded : ℕ
  pub bytes_encoded : ℕ

abbrev pub new : ℕ → Shared
new bitrate_kbps = record {
  client_connected = false;
  force_keyframe = false;
  bitrate_kbps = bitrate_kbps;
  active_session = 0;
  sink = none;
  frames_encoded = 0;
  bytes_encoded = 0;
}

abbrev pub install_sink : Shared → ℕ → Shared
install_sink s sender = record s { sink = some sender }

abbrev pub clear_sink : Shared → Shared
clear_sink s = record s { sink = none }
