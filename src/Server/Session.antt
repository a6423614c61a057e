-- ===== src/Server/Session.antt =====
-- server/src/session.rs: the session manager, its counters and what it does when a client is
-- replaced. A peer connection and the frame sender of a session are named by the session's id: every
-- offer that gets that far has one id and builds one connection.
pub mod Ports
pub mod Offer
pub mod Events
pub mod Frames
pub mod Steps
pub mod AsSteps
pub mod Invariant
use vmscren_share.Prelude.{
  ℕ, ◌+◌, ◌≡◌, Bool, true, false, not, ◌==◌, leb, if◌then◌else◌, Option, none, some, [], min, max,
}
use vmscren_share.Prelude.Result.{Result, ok, err}
use vmscren_share.Prelude.Text.{Text, is_empty}
use vmscren_share.Server.Config.{Config}
use vmscren_share.Server.Shared.{Shared, clear_sink}
use vmscren_share.Server.Input.{InputSink}

-- `Ord::clamp` on unsigned numbers, for a range that is not empty.
abbrev pub clamp : ℕ → ℕ → ℕ → ℕ
clamp x low high = max low (min x high)

-- The round robin of `allocate_port`: the port that is given out, and the next.
unfoldable pub next_port_after : ℕ → ℕ → ℕ → ℕ
next_port_after low high port = if leb high port then low else port + 1

-- The public address: from the configuration, from the cache, or from the metadata service, whose
-- answer is the last argument.
unfoldable pub known_ip : Text → Option Text → Result Text Text → Option Text
known_ip configured cache detected =
    if not (is_empty configured)
    then some configured
    else elim cache [ some ip ↦ some ip | none ↦ elim detected [ ok ip ↦ some ip | err e ↦ none ] ]

module _ (input : InputSink) where
  pub record SessionManager : Type 0 where
    pub config : Config
    pub shared : Shared
    pub input_state : input.State
    pub public_ip : Option Text
    pub next_port : ℕ
    pub next_session : ℕ
    pub current : Option ℕ

  unfoldable pub new : Config → Shared → input.State → Option Text → SessionManager
  new config shared input_state public_ip = record {
    config = config;
    shared = shared;
    input_state = input_state;
    public_ip = public_ip;
    next_port = config.network.udp_port_min;
    next_session = 1;
    current = none;
  }

  unfoldable pub allocate_port : SessionManager → SessionManager × ℕ
  unfolding next_port_after
  allocate_port m =
      let low = m.config.network.udp_port_min in
      let high = m.config.network.udp_port_max in
      let port = clamp m.next_port low high in
      (record m { next_port = next_port_after low high port }, port)

  -- The counter is a u64, which is taken not to overflow.
  unfoldable pub allocate_session_id : SessionManager → SessionManager × ℕ
  allocate_session_id m = (record m { next_session = m.next_session + 1 }, m.next_session)

  -- The address that `public_ip` returns, and the cache as it leaves it.
  unfoldable pub public_ip_of : SessionManager → Result Text Text → SessionManager × Option Text
  unfolding known_ip
  public_ip_of m detected =
      let configured = m.config.network.public_ip in
      let cache = if is_empty configured then known_ip [] m.public_ip detected else m.public_ip in
      (record m { public_ip = cache }, known_ip configured m.public_ip detected)

  -- A failure of the sink is logged and dropped.
  unfoldable pub release_input : SessionManager → SessionManager
  release_input m = record m { input_state = (input.release_all m.input_state).0 }

  -- The pipeline is cut off from the client, and nothing stays pressed.
  unfoldable pub disconnect : SessionManager → SessionManager
  unfolding release_input
  disconnect m =
      release_input
        (record m { shared = clear_sink (record m.shared { client_connected = false }) })

  -- A new offer takes the previous connection away, and closes it.
  unfoldable pub replace_previous : SessionManager → SessionManager
  unfolding disconnect
  replace_previous m = elim m.current [
    | some old ↦ disconnect (record m { current = none })
    | none ↦ m
  ]

  -- The connection of a session becomes the current one.
  unfoldable pub publish : SessionManager → ℕ → SessionManager
  publish m session_id = record m {
    current = some session_id;
    shared = record m.shared { active_session = session_id };
  }
