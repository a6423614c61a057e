-- ===== src/Server/Session/AsSteps.antt =====
-- server/src/session.rs: the parts of an offer, of a session and of a data channel as runs of steps.
use vmscren_share.Prelude.{
  ℕ, ◌≡◌, refl, Bool, true, false, ◌==◌, if◌then◌else◌, Option, none, some, List, ◌∷◌, subst,
}
use vmscren_share.Prelude.Result.{Result, ok, err}
use vmscren_share.Prelude.Sets.{contains}
use vmscren_share.Proto.Message
use vmscren_share.Proto.Message.{ControlMessage, DecodeError}
use vmscren_share.Proto.MouseMove
use vmscren_share.Proto.MouseMove.{MouseMove}
use vmscren_share.Server.Uinput.{control, mouse}
use vmscren_share.Server.Input.{InputSink}
use vmscren_share.Server.Session.{disconnect, replace_previous, publish}
use vmscren_share.Server.Session.Offer.{Stack, prepare}
use vmscren_share.Server.Session.Events.{
  Channel, control_channel, mouse_channel, connect, forget, teardown, inject, on_control,
  read_message,
}
use vmscren_share.Server.Session.Steps.{
  System, Run, here, then_step, with_manager, with_active, take_id, take_port, cache_ip,
  clear_current, set_current, store_active, store_connected, store_keyframe, clear, install,
  store_configured, store_asked, release, injected,
}

module _ (input : InputSink) where
  disconnect-Run :
      (s : System input) → Run input s (with_manager input s (disconnect input s.manager))
  unfolding disconnect
  disconnect-Run s =
      then_step (then_step (then_step (here s) (store_connected s false)) (clear _)) (release _)

  -- A run goes on with another.
  Run-trans : {s t u : System input} → Run input s t → Run input t u → Run input s u
  Run-trans r (here t) = r
  Run-trans r (then_step q step) = then_step (Run-trans r q) step

  replace-Run :
      (s : System input) → Run input s (with_manager input s (replace_previous input s.manager))
  unfolding replace_previous
  replace-Run s = by_current s.manager.current
    where
      by_current :
          (o : Option ℕ)
          → Run input s (
              with_manager input s (elim o [
                | some old ↦ disconnect input (record s.manager { current = none })
                | none ↦ s.manager
              ]))
      by_current none = here s
      by_current (some old) =
          Run-trans (then_step (here s) (clear_current s))
            (disconnect-Run (with_manager input s (record s.manager { current = none })))

  prepare-Run :
      (stack : Stack) (s : System input)
      → Run input s (record s {
        manager = (prepare input stack s.manager).0;
        negotiating = (prepare input stack s.manager).1.0 ∷ s.negotiating;
      })
  unfolding prepare
  prepare-Run stack s =
      then_step (then_step (then_step (replace-Run s) (take_id _)) (take_port _))
        (cache_ip _ stack.detected)

  publish-Run :
      (s : System input) (k : ℕ)
      → contains k s.negotiating ≡ true
      → Run input s (record (with_active input s k) { manager = publish input s.manager k })
  unfolding publish
  publish-Run s k fresh =
      then_step (then_step (here s) (set_current s k fresh)) (store_active _ k fresh)

  connect-Run :
      (s : System input) (k : ℕ)
      → contains k s.published ≡ true
      → Run input s (with_manager input s (connect input s.manager k))
  unfolding connect
  connect-Run s k known =
      then_step
        (then_step (then_step (then_step (here s) (store_configured s)) (install _ k known))
          (store_keyframe _ true))
        (store_connected _ true)

  forget-Run :
      (s : System input) (k : ℕ) → Run input s (with_manager input s (forget input s.manager k))
  unfolding forget
  forget-Run s k = by_current s.manager.current refl
    where
      unchanged :
          (o : Option ℕ)
          → s.manager.current ≡ o
          → Run input s (with_manager input s (record s.manager { current = o }))
      unchanged o e =
          subst (λ x. Run input s (with_manager input s (record s.manager { current = x }))) e
            (here s)

      by_test :
          (cur : ℕ) (b : Bool)
          → s.manager.current ≡ some cur
          → Run input s
              (with_manager input s (record s.manager { current = if b then none else some cur }))
      by_test cur true e = then_step (here s) (clear_current s)
      by_test cur false e = unchanged (some cur) e

      by_current :
          (o : Option ℕ)
          → s.manager.current ≡ o
          → Run input s (
              with_manager input s (record s.manager {
                current = elim o [ some cur ↦ if cur == k then none else some cur | none ↦ none ];
              }))
      by_current none e = then_step (here s) (clear_current s)
      by_current (some cur) e = by_test cur (cur == k) e

  teardown-Run :
      (s : System input) (k : ℕ) → Run input s (with_manager input s (teardown input s.manager k))
  unfolding teardown
  teardown-Run s k = by_active (s.manager.shared.active_session == k)
    where
      by_active :
          (b : Bool)
          → Run input s (
              with_manager input s
                (if b then forget input (disconnect input s.manager) k else s.manager))
      by_active true =
          Run-trans (disconnect-Run s)
            (forget-Run (with_manager input s (disconnect input s.manager)) k)
      by_active false = here s

  control-Run :
      (s : System input) (msg : ControlMessage)
      → Run input s (with_manager input s (on_control input s.manager msg))
  unfolding on_control
  control-Run s (ControlMessage.hello version) = here s
  control-Run s (ControlMessage.set_bitrate kbps) = then_step (here s) (store_asked s kbps)
  control-Run s (ControlMessage.key k pressed) =
      then_step (here s) (injected s (control (ControlMessage.key k pressed)))
  control-Run s (ControlMessage.button b pressed) =
      then_step (here s) (injected s (control (ControlMessage.button b pressed)))
  control-Run s (ControlMessage.wheel horizontal vertical) =
      then_step (here s) (injected s (control (ControlMessage.wheel horizontal vertical)))
  control-Run s ControlMessage.release_all =
      then_step (here s) (injected s (control ControlMessage.release_all))

  message-Run :
      (s : System input) (c : Channel) (bytes : List ℕ)
      → Run input s (with_manager input s (read_message input s.manager c bytes))
  unfolding read_message
  message-Run s control_channel bytes = decoded (Message.decode bytes)
    where
      decoded :
          (r : Result DecodeError ControlMessage)
          → Run input s (
              with_manager input s
                (elim r [ ok msg ↦ on_control input s.manager msg | err e ↦ s.manager ]))
      decoded (ok msg) = control-Run s msg
      decoded (err e) = here s
  message-Run s mouse_channel bytes = decoded (MouseMove.decode bytes)
    where
      decoded :
          (r : Result DecodeError MouseMove)
          → Run input s (
              with_manager input s
                (elim r [ ok move ↦ inject input s.manager (mouse move) | err e ↦ s.manager ]))
      decoded (ok move) = then_step (here s) (injected s (mouse move))
      decoded (err e) = here s
