-- ===== src/Server/Config.antt =====
-- server/src/config.rs: the configuration, its defaults and its validation.
pub mod Validate
use vmscren_share.Prelude.{ℕ, Bool, true, false, not, ◌&&◌, leb, if◌then◌else◌, [], ◌∷◌}
use vmscren_share.Prelude.Result.{Result, ok, err, ◌>>=◌, ◌>>◌}
use vmscren_share.Prelude.Text.{Text, codes, is_empty}

pub record Video : Type 0 where
  pub fps : ℕ
  pub bitrate_kbps : ℕ
  pub keyframe_interval : ℕ
  pub encoder_threads : ℕ

pub record Network : Type 0 where
  pub public_ip : Text
  pub metadata_url : Text
  pub udp_port_min : ℕ
  pub udp_port_max : ℕ
  pub signalling_addr : Text

pub record Capture : Type 0 where
  pub card : Text
  pub connector : Text

pub record Config : Type 0 where
  pub video : Video
  pub network : Network
  pub capture : Capture

abbrev pub default_video : Video
default_video = record {
  fps = 30;
  bitrate_kbps = 12000;
  keyframe_interval = 600;
  encoder_threads = 0;
}

abbrev pub default_network : Network
default_network = record {
  public_ip = [];
  metadata_url = codes "http://169.254.169.254/opc/v2/vnics/";
  udp_port_min = 50000;
  udp_port_max = 50100;
  signalling_addr = codes "127.0.0.1:8080";
}

abbrev pub default_capture : Capture
default_capture = record { card = []; connector = codes "Virtual-1" }

abbrev pub default : Config
default = record { video = default_video; network = default_network; capture = default_capture }

-- The message of each `ensure!`.
pub data ConfigError : Type 0 where
  bad_fps bad_bitrate bad_ports bad_connector : ConfigError

-- `anyhow::ensure!`.
abbrev pub ensure : Bool → ConfigError → Result ConfigError (Unit {0})
ensure b e = if b then ok tt else err e

unfoldable pub validate : Config → Result ConfigError (Unit {0})
validate c = do
  ensure (leb 1 c.video.fps && leb c.video.fps 120) bad_fps
  ensure (leb 100 c.video.bitrate_kbps) bad_bitrate
  ensure (leb c.network.udp_port_min c.network.udp_port_max) bad_ports
  ensure (not (is_empty c.capture.connector)) bad_connector
