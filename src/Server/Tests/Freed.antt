-- ===== src/Server/Tests/Freed.antt =====
-- A session that ends while its client holds a key down.
use vmscren_share.Prelude.{ℕ, refl, Bool, false, ◌==◌, none, [], ◌∷◌, arith}
use vmscren_share.Prelude.Result.{ok}
use vmscren_share.Prelude.Sets.{contains}
use vmscren_share.Server.Keymap.{Ev}
use vmscren_share.Server.Uinput.{Device, UinputSink, replay}
use vmscren_share.Server.Uinput.Held.{Tracks, Freed}
use vmscren_share.Server.Input.{uinput_input}
use vmscren_share.Server.Config.{default}
use vmscren_share.Server.Shared
use vmscren_share.Server.Session
use vmscren_share.Server.Session.{SessionManager, publish}
use vmscren_share.Server.Session.Offer.{ConnectionState, connection}
use vmscren_share.Server.Session.Events.{run_session}
use vmscren_share.Server.Session.Events.Freed.{IsWorking, run_session-Freed}

-- A device that always works is what it holds.
abbrev steady : Device
steady = record {
  State = ℕ → Bool;
  held = λ d. d;
  emit = λ d es. (replay es d, ok tt);
  emit_replays = λ d es c h. refl;
}

abbrev code : Ev → ℕ
code Ev.key_a = 30
code e = 0

abbrev holding_a : UinputSink steady
holding_a = record {
  keyboard = λ c. c == 30;
  pointer = λ c. false;
  pressed_keys = 30 ∷ [];
  pressed_buttons = [];
}

holding_a-Tracks : Tracks steady holding_a
unfolding contains
holding_a-Tracks = record { keys = λ c. ground arith; buttons = λ c. refl }

steady-IsWorking : IsWorking steady
steady-IsWorking d es = refl

serving : SessionManager (uinput_input steady code)
unfolding publish Session.new
serving =
    publish (uinput_input steady code)
      (Session.new (uinput_input steady code) default (Shared.new 12000) holding_a none) 1

run_session-Freed_example :
    Freed steady
      (run_session
        (uinput_input steady code)
        serving
        1
        (connection ConnectionState.failed ∷ [])).input_state
unfolding serving
run_session-Freed_example =
    run_session-Freed steady code steady-IsWorking serving 1
      (connection ConnectionState.failed ∷ []) refl holding_a-Tracks
