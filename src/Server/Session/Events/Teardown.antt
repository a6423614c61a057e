-- ===== src/Server/Session/Events/Teardown.antt =====
-- server/src/session.rs: the teardown of a session, split on whether it is the active one.
use vmscren_share.Prelude.{ℕ, ◌≡◌, refl, true, false, ◌==◌}
use vmscren_share.Server.Input.{InputSink}
use vmscren_share.Server.Session.{SessionManager, disconnect}
use vmscren_share.Server.Session.Events.{teardown, is_active, forget}

module _ (input : InputSink) where
  -- A session that is not the active one leaves the manager alone when it ends.
  pub teardown-inactive :
      (m : SessionManager input) (j : ℕ)
      → (m.shared.active_session == j) ≡ false
      → teardown input m j ≡ m
  unfolding teardown is_active
  teardown-inactive m j other = rw other refl

  pub teardown-active :
      (m : SessionManager input) (j : ℕ)
      → (m.shared.active_session == j) ≡ true
      → teardown input m j ≡ forget input (disconnect input m) j
  unfolding teardown is_active
  teardown-active m j same = rw same refl
