-- ===== src/Server/Config/Validate.antt =====
-- What `validate` accepts.
use vmscren_share.Prelude.{◌≡◌, ◌↔◌, ◌≤◌, false, arith}
use vmscren_share.Prelude.Result.{ok}
use vmscren_share.Prelude.Text.{is_empty}
use vmscren_share.Server.Config.{Config, validate}

-- A configuration that the server can run with.
pub record IsValid (c : Config) : Type 0 where
  pub fps_low : 1 ≤ c.video.fps
  pub fps_high : c.video.fps ≤ 120
  pub bitrate_low : 100 ≤ c.video.bitrate_kbps
  pub ports : c.network.udp_port_min ≤ c.network.udp_port_max
  pub connector : is_empty c.capture.connector ≡ false

-- `validate` accepts exactly the configurations with 1 to 120 frames a second, at least 100 kbit/s,
-- a port range that is not empty, and a connector.
pub validate-IsValid_iff : (c : Config) → (validate c ≡ ok tt) ↔ IsValid c
unfolding validate
validate-IsValid_iff c = (accepted, λ v. refused v)
  where
    accepted : validate c ≡ ok tt → IsValid c
    accepted h = record {
      fps_low = ground arith;
      fps_high = ground arith;
      bitrate_low = ground arith;
      ports = ground arith;
      connector = ground arith;
    }

    refused : IsValid c → validate c ≡ ok tt
    refused v =
        let a = v.fps_low in
        let b = v.fps_high in
        let d = v.bitrate_low in let e = v.ports in let f = v.connector in ground arith
