-- ===== src/Server/Session/Steps.antt =====
-- server/src/session.rs: the tasks of offers, sessions and data channels side by side, with the threads
-- of the pipeline. They run on several threads, so a step is one access to what they share: a store, or
-- what is done under one lock. A step may come at any time at which a task could make it; the order in
-- which one task makes its own steps is not kept, so that every interleaving is among the runs.
use vmscren_share.Prelude.{ℕ, ◌+◌, ◌≡◌, Bool, true, Option, none, some, List, [], ◌∷◌}
use vmscren_share.Prelude.Result.{Result}
use vmscren_share.Prelude.Sets.{contains, remove}
use vmscren_share.Prelude.Text.{Text}
use vmscren_share.Server.Config.{Config}
use vmscren_share.Server.Shared
use vmscren_share.Server.Shared.{Shared, install_sink, clear_sink}
use vmscren_share.Server.Uinput.{SinkEvent}
use vmscren_share.Server.Input.{InputSink}
use vmscren_share.Server.Session
use vmscren_share.Server.Session.{
  SessionManager, clamp, allocate_port, allocate_session_id, public_ip_of, release_input,
}
use vmscren_share.Server.Session.Events.{inject}

module _ (input : InputSink) where
  -- The manager with the ids of the offers that are not published, and those that were published.
  pub record System : Type 0 where
    pub manager : SessionManager input
    pub negotiating : List ℕ
    pub published : List ℕ

  abbrev pub start : Config → input.State → Option Text → System
  start config input_state ip = record {
    manager = Session.new input config (Shared.new config.video.bitrate_kbps) input_state ip;
    negotiating = [];
    published = [];
  }

  abbrev pub with_manager : System → SessionManager input → System
  with_manager s m = record s { manager = m }

  abbrev pub with_shared : System → Shared → System
  with_shared s shared = record s { manager = record s.manager { shared = shared } }

  -- An offer takes an id.
  abbrev pub with_id : System → System
  with_id s =
      let (m, session_id) = allocate_session_id input s.manager in
      record s { manager = m; negotiating = session_id ∷ s.negotiating }

  -- The session of an offer becomes the active one.
  abbrev pub with_active : System → ℕ → System
  with_active s k = record {
    manager = record s.manager { shared = record s.manager.shared { active_session = k } };
    negotiating = remove k s.negotiating;
    published = k ∷ s.published;
  }

  pub data Step : System → System → Type 0 where
    take_id : (s : System) → Step s (with_id s)
    take_port : (s : System) → Step s (with_manager s (allocate_port input s.manager).0)
    cache_ip :
        (s : System) (detected : Result Text Text)
        → Step s (with_manager s (public_ip_of input s.manager detected).0)
    give_up : (s : System) (k : ℕ) → Step s (record s { negotiating = remove k s.negotiating })
    -- `current`, under its lock: taken or forgotten, or set by an offer.
    clear_current : (s : System) → Step s (with_manager s (record s.manager { current = none }))
    set_current :
        (s : System) (k : ℕ)
        → contains k s.negotiating ≡ true
        → Step s (with_manager s (record s.manager { current = some k }))
    store_active : (s : System) (k : ℕ) → contains k s.negotiating ≡ true → Step s (with_active s k)
    -- The flags and the sink.
    store_connected :
        (s : System) (b : Bool)
        → Step s (with_shared s (record s.manager.shared { client_connected = b }))
    store_keyframe :
        (s : System) (b : Bool)
        → Step s (with_shared s (record s.manager.shared { force_keyframe = b }))
    clear : (s : System) → Step s (with_shared s (clear_sink s.manager.shared))
    install :
        (s : System) (k : ℕ)
        → contains k s.published ≡ true
        → Step s (with_shared s (install_sink s.manager.shared k))
    -- The bitrate, by a session that is connected and by a client.
    store_configured :
        (s : System)
        → Step s (
            with_shared s
              (record s.manager.shared { bitrate_kbps = s.manager.config.video.bitrate_kbps }))
    store_asked :
        (s : System) (kbps : ℕ)
        → Step s (with_shared s (record s.manager.shared { bitrate_kbps = clamp kbps 200 100000 }))
    -- The input, under its lock.
    release : (s : System) → Step s (with_manager s (release_input input s.manager))
    injected : (s : System) (e : SinkEvent) → Step s (with_manager s (inject input s.manager e))
    -- The pipeline counts a frame.
    count_frame :
        (s : System)
        → Step s (
            with_shared s
              (record s.manager.shared { frames_encoded = s.manager.shared.frames_encoded + 1 }))
    count_bytes :
        (s : System) (n : ℕ)
        → Step s (
            with_shared s
              (record s.manager.shared { bytes_encoded = s.manager.shared.bytes_encoded + n }))

  -- Runs of steps.
  pub data Run : System → System → Type 0 where
    here : (s : System) → Run s s
    then_step : {s t u : System} → Run s t → Step t u → Run s u

  -- What holds at the start and is preserved by every step holds in every reachable state.
  pub Run-invariant :
      (P : System → Type 0)
      → ((s t : System) → Step s t → P s → P t)
      → {s t : System} → Run s t
      → P s
      → P t
  Run-invariant P preserved (here s) p = p
  Run-invariant P preserved (then_step r step) p =
      preserved _ _ step (Run-invariant P preserved r p)
