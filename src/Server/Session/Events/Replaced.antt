-- ===== src/Server/Session/Events/Replaced.antt =====
-- server/src/session.rs: a session that a newer one has replaced.
use vmscren_share.Prelude.{ℕ, ◌≡◌, refl, false, ◌==◌, List, [], ◌∷◌}
use vmscren_share.Server.Input.{InputSink}
use vmscren_share.Server.Session.{SessionManager, release_input}
use vmscren_share.Server.Session.Offer.{PcEvent, ConnectionState}
use vmscren_share.Server.Session.Events.{
  Flow, Channel, ChannelEvent, on_open, on_close, on_error, on_message, is_active, on_connection,
  on_event, teardown, run_session, on_channel_event,
}
use vmscren_share.Server.Session.Events.Teardown.{teardown-inactive}

module _ (input : InputSink) where
  -- What an event of a session does that is not the active one.
  data Replaced (m : SessionManager input) : SessionManager input × Flow → Type 0 where
    ignored : Replaced m (m, Flow.continue)
    released : Replaced m (release_input input m, Flow.continue)
    ended : Replaced m (m, Flow.break)

  on_event-Replaced :
      (m : SessionManager input) (k : ℕ) (e : PcEvent)
      → (m.shared.active_session == k) ≡ false
      → Replaced m (on_event input m k e)
  unfolding on_event on_connection is_active
  on_event-Replaced m k (PcEvent.connection ConnectionState.connected) other = rw other ended
  on_event-Replaced m k (PcEvent.connection ConnectionState.disconnected) other = released
  on_event-Replaced m k (PcEvent.connection ConnectionState.failed) other = ended
  on_event-Replaced m k (PcEvent.connection ConnectionState.closed) other = ended
  on_event-Replaced m k (PcEvent.connection ConnectionState.unspecified) other = ignored
  on_event-Replaced m k (PcEvent.connection ConnectionState.new) other = ignored
  on_event-Replaced m k (PcEvent.connection ConnectionState.connecting) other = ignored
  on_event-Replaced m k (PcEvent.data_channel label) other = ignored
  on_event-Replaced m k (PcEvent.gathering_state state) other = ignored

  -- The rest of a session after a turn of its loop.
  abbrev turned : ℕ → List PcEvent → SessionManager input × Flow → SessionManager input
  turned k es (m, Flow.continue) = run_session input m k es
  turned k es (m, Flow.break) = teardown input m k

  -- The events of a session that is not the active one, and its end, leave the state that the
  -- pipeline reads and the current connection as they are.
  pub run_session-replaced :
      (m : SessionManager input) (k : ℕ) (es : List PcEvent)
      → (m.shared.active_session == k) ≡ false
      → ((run_session input m k es).shared ≡ m.shared)
        × ((run_session input m k es).current ≡ m.current)
  unfolding run_session release_input
  run_session-replaced m k [] other = rw (teardown-inactive input m k other) (refl, refl)
  run_session-replaced m k (e ∷ es) other =
      after (λ m' h. run_session-replaced m' k es h) (on_event input m k e)
        (on_event-Replaced m k e other)
    where
      after :
          ((m' : SessionManager input)
            → (m'.shared.active_session == k) ≡ false
            → ((run_session input m' k es).shared ≡ m'.shared)
              × ((run_session input m' k es).current ≡ m'.current))
          → (r : SessionManager input × Flow) → Replaced m r
          → ((turned k es r).shared ≡ m.shared) × ((turned k es r).current ≡ m.current)
      after ih _ ignored = ih m other
      after ih _ released = ih (release_input input m) other
      after ih _ ended = rw (teardown-inactive input m k other) (refl, refl)

  -- No message of a session that is not the active one has an effect, and only the end of its channel
  -- ends the task that reads it.
  pub on_channel_event-replaced :
      (m : SessionManager input) (k : ℕ) (c : Channel) (e : ChannelEvent)
      → (m.shared.active_session == k) ≡ false
      → (on_channel_event input m k c e).0 ≡ m
  unfolding on_channel_event is_active
  on_channel_event-replaced m k c on_open other = refl
  on_channel_event-replaced m k c on_close other = refl
  on_channel_event-replaced m k c on_error other = refl
  on_channel_event-replaced m k c (on_message bytes) other = rw other refl
