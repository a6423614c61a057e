-- ===== src/Server/Session/Events/Freed.antt =====
-- server/src/session.rs and server/src/input/uinput.rs: what the devices hold when a session is over.
use vmscren_share.Prelude.{
  ℕ, ◌≡◌, refl, sym, ap, ◌∙◌, true, ◌==◌, Bool-cases, List, [], ◌∷◌, inl, inr,
}
use vmscren_share.Prelude.Result.{ok, err}
use vmscren_share.Prelude.Sets.{contains}
use vmscren_share.Server.Keymap.{Ev}
use vmscren_share.Server.Uinput.{
  Device, UinputSink, InputEvent, release_all, release_buttons, then_release_buttons, emit_keyboard,
  emit_pointer, releases, Outcome, is_empty,
}
use vmscren_share.Server.Uinput.Held.{Tracks, Freed, release_all-Freed}
use vmscren_share.Server.Input.{InputSink, uinput_input}
use vmscren_share.Server.Session.{SessionManager, release_input, disconnect}
use vmscren_share.Server.Session.Offer.{PcEvent, ConnectionState}
use vmscren_share.Server.Session.Events.{
  Flow, is_active, connect, on_connection, on_event, forget, teardown, run_session,
}
use vmscren_share.Server.Session.Events.Teardown.{teardown-active}
use vmscren_share.Server.Session.Events.Ended.{on_event-active}

-- A property that a release keeps, and another that it gives.
module _ (input : InputSink) (P Q : input.State → Type 0)
    (keeps : (st : input.State) → P st → P (input.release_all st).0)
    (frees : (st : input.State) → P st → Q (input.release_all st).0) where
  on_event-keeps :
      (m : SessionManager input) (k : ℕ) (e : PcEvent)
      → P m.input_state
      → P (on_event input m k e).0.input_state
  unfolding on_event on_connection is_active connect release_input
  on_event-keeps m k (PcEvent.connection ConnectionState.connected) p =
      elim (Bool-cases (m.shared.active_session == k)) [
        | inl same ↦ rw same p
        | inr other ↦ rw other p
      ]
  on_event-keeps m k (PcEvent.connection ConnectionState.disconnected) p = keeps m.input_state p
  on_event-keeps m k (PcEvent.connection ConnectionState.failed) p = p
  on_event-keeps m k (PcEvent.connection ConnectionState.closed) p = p
  on_event-keeps m k (PcEvent.connection ConnectionState.unspecified) p = p
  on_event-keeps m k (PcEvent.connection ConnectionState.new) p = p
  on_event-keeps m k (PcEvent.connection ConnectionState.connecting) p = p
  on_event-keeps m k (PcEvent.data_channel label) p = p
  on_event-keeps m k (PcEvent.gathering_state state) p = p

  teardown-frees :
      (m : SessionManager input) (k : ℕ)
      → (m.shared.active_session == k) ≡ true
      → P m.input_state
      → Q (teardown input m k).input_state
  unfolding forget disconnect release_input
  teardown-frees m k same p = rw (teardown-active input m k same) (frees m.input_state p)

  run_session-frees :
      (m : SessionManager input) (k : ℕ) (es : List PcEvent)
      → (m.shared.active_session == k) ≡ true
      → P m.input_state
      → Q (run_session input m k es).input_state
  unfolding run_session
  run_session-frees m k [] same p = teardown-frees m k same p
  run_session-frees m k (e ∷ es) same p =
      after (λ m' h p'. run_session-frees m' k es h p') (on_event input m k e)
        (ap (λ a. a == k) (on_event-active input m k e) ∙ same) (on_event-keeps m k e p)
    where
      after :
          ((m' : SessionManager input)
            → (m'.shared.active_session == k) ≡ true
            → P m'.input_state
            → Q (run_session input m' k es).input_state)
          → (r : SessionManager input × Flow) → (r.0.shared.active_session == k) ≡ true
          → P r.0.input_state
          → Q
              (elim r.1 as (λ f. SessionManager input) [
                | Flow.continue ↦ run_session input r.0 k es
                | Flow.break ↦ teardown input r.0 k
              ]).input_state
      after ih (m', Flow.continue) h p' = ih m' h p'
      after ih (m', Flow.break) h p' = teardown-frees m' k h p'

-- Devices whose emits succeed.
abbrev pub IsWorking : Device → Type 0
IsWorking dev = (d : dev.State) (es : List InputEvent) → (dev.emit d es).1 ≡ ok tt

module _ (dev : Device) (code : Ev → ℕ) (works : IsWorking dev) where
  release_buttons-ok :
      (s : UinputSink dev) (buttons : List ℕ) → (release_buttons dev s buttons).1 ≡ ok tt
  unfolding release_buttons emit_pointer
  release_buttons-ok s [] = refl
  release_buttons-ok s (b ∷ bs) = works s.pointer (releases (b ∷ bs))

  then_release_buttons-ok :
      (o : Outcome dev) (buttons : List ℕ)
      → o.1 ≡ ok tt
      → (then_release_buttons dev buttons o).1 ≡ ok tt
  unfolding then_release_buttons
  then_release_buttons-ok (s, ok t) buttons h = release_buttons-ok s buttons
  then_release_buttons-ok (s, err e) buttons h = cc

  release_all-ok : (s : UinputSink dev) → (release_all dev s).1 ≡ ok tt
  unfolding release_all emit_keyboard
  release_all-ok s =
      let drained : UinputSink dev = record s { pressed_keys = []; pressed_buttons = [] } in
      elim (Bool-cases (is_empty s.pressed_keys)) [
        | inl no_keys ↦ rw no_keys (release_buttons-ok drained s.pressed_buttons)
        | inr some_keys ↦ rw some_keys (
            then_release_buttons-ok (emit_keyboard dev drained (releases s.pressed_keys))
              s.pressed_buttons (works s.keyboard (releases s.pressed_keys)))
      ]

  Freed-Tracks : (s : UinputSink dev) → Freed dev s → Tracks dev s
  unfolding contains
  Freed-Tracks s f = record {
    keys = λ c. f.keys_up c ∙ ap (contains c) (sym f.no_keys);
    buttons = λ c. f.buttons_up c ∙ ap (contains c) (sym f.no_buttons);
  }

  -- When the active session is over, whatever events it saw, neither device holds a key or a button
  -- down, and the sink remembers none: for devices whose emits succeed, and a sink that was in step
  -- with them.
  pub run_session-Freed :
      (m : SessionManager (uinput_input dev code)) (k : ℕ) (es : List PcEvent)
      → (m.shared.active_session == k) ≡ true
      → Tracks dev m.input_state
      → Freed dev (run_session (uinput_input dev code) m k es).input_state
  run_session-Freed m k es same t =
      run_session-frees (uinput_input dev code) (Tracks dev) (Freed dev)
        (λ st tr.
          Freed-Tracks (release_all dev st).0 (release_all-Freed dev st tr (release_all-ok st)))
        (λ st tr. release_all-Freed dev st tr (release_all-ok st)) m k es same t
