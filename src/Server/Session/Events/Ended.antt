-- ===== src/Server/Session/Events/Ended.antt =====
-- server/src/session.rs: how the active session ends.
use vmscren_share.Prelude.{
  ℕ, ◌≡◌, ◌≢◌, refl, ap, ◌∙◌, true, false, ◌==◌, if◌then◌else◌, Bool-cases, Option, none, some,
  List, [], ◌∷◌, inl, inr, arith,
}
use vmscren_share.Server.Input.{InputSink}
use vmscren_share.Server.Session.{SessionManager, release_input, disconnect}
use vmscren_share.Server.Session.Offer.{PcEvent, ConnectionState}
use vmscren_share.Server.Session.Events.{
  Flow, is_active, connect, on_connection, on_event, forget, teardown, run_session,
}
use vmscren_share.Server.Session.Events.Teardown.{teardown-active}

module _ (input : InputSink) where
  -- A manager after the end of its active session: the pipeline is idle, the connection is forgotten
  -- and the last that the input sink has seen is a release of everything.
  pub record IsEnded (k : ℕ) (m : SessionManager input) : Type 0 where
    pub idle : m.shared.client_connected ≡ false
    pub no_sink : m.shared.sink ≡ none
    pub forgotten : m.current ≢ some k
    pub released : (st : input.State) × (m.input_state ≡ (input.release_all st).0)

  teardown-IsEnded :
      (m : SessionManager input) (k : ℕ)
      → (m.shared.active_session == k) ≡ true
      → IsEnded k (teardown input m k)
  unfolding forget disconnect release_input
  teardown-IsEnded m k same = rw (teardown-active input m k same) (record {
    idle = refl;
    no_sink = refl;
    forgotten = forgets m.current;
    released = (m.input_state, refl);
  })
    where
      forgets :
          (o : Option ℕ)
          → elim o [ some cur ↦ if cur == k then none else some cur | none ↦ none ] ≢ some k
      forgets o h = ground arith

  pub on_event-active :
      (m : SessionManager input) (k : ℕ) (e : PcEvent)
      → (on_event input m k e).0.shared.active_session ≡ m.shared.active_session
  unfolding on_event on_connection is_active connect release_input
  on_event-active m k (PcEvent.connection ConnectionState.connected) =
      elim (Bool-cases (m.shared.active_session == k)) [
        | inl same ↦ rw same refl
        | inr other ↦ rw other refl
      ]
  on_event-active m k (PcEvent.connection ConnectionState.disconnected) = refl
  on_event-active m k (PcEvent.connection ConnectionState.failed) = refl
  on_event-active m k (PcEvent.connection ConnectionState.closed) = refl
  on_event-active m k (PcEvent.connection ConnectionState.unspecified) = refl
  on_event-active m k (PcEvent.connection ConnectionState.new) = refl
  on_event-active m k (PcEvent.connection ConnectionState.connecting) = refl
  on_event-active m k (PcEvent.data_channel label) = refl
  on_event-active m k (PcEvent.gathering_state state) = refl

  -- Whatever events the active session sees, when it is over the pipeline has no client and no sink,
  -- its connection is not the current one, and the last that the input sink saw is a release_all.
  pub run_session-IsEnded :
      (m : SessionManager input) (k : ℕ) (es : List PcEvent)
      → (m.shared.active_session == k) ≡ true
      → IsEnded k (run_session input m k es)
  unfolding run_session
  run_session-IsEnded m k [] same = teardown-IsEnded m k same
  run_session-IsEnded m k (e ∷ es) same =
      after (λ m' h. run_session-IsEnded m' k es h) (on_event input m k e)
        (ap (λ a. a == k) (on_event-active m k e) ∙ same)
    where
      after :
          ((m' : SessionManager input)
            → (m'.shared.active_session == k) ≡ true
            → IsEnded k (run_session input m' k es))
          → (r : SessionManager input × Flow) → (r.0.shared.active_session == k) ≡ true
          → IsEnded k (elim r.1 [
            | Flow.continue ↦ run_session input r.0 k es
            | Flow.break ↦ teardown input r.0 k
          ])
      after ih (m', Flow.continue) h = ih m' h
      after ih (m', Flow.break) h = teardown-IsEnded m' k h
