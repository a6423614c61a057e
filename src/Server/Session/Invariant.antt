-- ===== src/Server/Session/Invariant.antt =====
-- server/src/session.rs: what holds of the manager in every interleaving of the tasks.
use vmscren_share.Prelude.{
  ℕ, suc, ◌+◌, ◌≤◌, ◌<◌, ◌≡◌, refl, Bool, true, false, Option, none, some, arith, max, min,
}
use vmscren_share.Prelude.Sets.{contains, remove, contains-remove}
use vmscren_share.Prelude.Text.{Text}
use vmscren_share.Server.Config.{Config}
use vmscren_share.Server.Config.Validate.{IsValid}
use vmscren_share.Server.Input.{InputSink}
use vmscren_share.Server.Session.{
  allocate_port, allocate_session_id, public_ip_of, release_input, next_port_after, new,
}
use vmscren_share.Server.Session.Events.{inject}
use vmscren_share.Server.Session.Steps.{
  System, Step, Run, Run-invariant, start, with_id, with_active, take_id, take_port, cache_ip,
  give_up, clear_current, set_current, store_active, store_connected, store_keyframe, clear,
  install, store_configured, store_asked, release, injected, count_frame, count_bytes,
}

module _ (input : InputSink) (config : Config) where
  -- What holds of one id: it was given out if it is used anywhere, it is published once, and only the
  -- sink of a session that was published is installed.
  pub record Tracks (s : System input) (k : ℕ) : Type 0 where
    pub negotiating_old : contains k s.negotiating ≡ true → k < s.manager.next_session
    pub published_old : contains k s.published ≡ true → k < s.manager.next_session
    pub published_once : contains k s.negotiating ≡ true → contains k s.published ≡ false
    pub current_old : s.manager.current ≡ some k → k < s.manager.next_session
    pub active_published :
        s.manager.shared.active_session ≡ suc k → contains (suc k) s.published ≡ true
    pub sink_published : s.manager.shared.sink ≡ some k → contains k s.published ≡ true

  pub record IsSound (s : System input) : Type 0 where
    pub configured : s.manager.config ≡ config
    pub ids_from : 1 ≤ s.manager.next_session
    pub ports_low : config.network.udp_port_min ≤ s.manager.next_port
    pub ports_high : s.manager.next_port ≤ config.network.udp_port_max
    pub bitrate_low : 100 ≤ s.manager.shared.bitrate_kbps
    pub tracks : (k : ℕ) → Tracks s k

  -- A step that leaves the ids, the current connection, the active session and the sink as they are.
  other_fields-IsSound :
      (s : System input) (st : input.State) (ip : Option Text) (port : ℕ)
      (connected keyframe : Bool) (bitrate frames bytes : ℕ)
      → config.network.udp_port_min ≤ port
      → port ≤ config.network.udp_port_max
      → 100 ≤ bitrate
      → IsSound s
      → IsSound (record s {
        manager = record s.manager {
          input_state = st;
          public_ip = ip;
          next_port = port;
          shared = record s.manager.shared {
            client_connected = connected;
            force_keyframe = keyframe;
            bitrate_kbps = bitrate;
            frames_encoded = frames;
            bytes_encoded = bytes;
          };
        };
      })
  other_fields-IsSound s st ip port connected keyframe bitrate frames bytes low high rate i =
      record {
        configured = i.configured;
        ids_from = i.ids_from;
        ports_low = low;
        ports_high = high;
        bitrate_low = rate;
        tracks = λ k.
            let old = i.tracks k in
            record {
              negotiating_old = old.negotiating_old;
              published_old = old.published_old;
              published_once = old.published_once;
              current_old = old.current_old;
              active_published = old.active_published;
              sink_published = old.sink_published;
            };
      }

  take_id-IsSound : (s : System input) → IsSound s → IsSound (with_id input s)
  unfolding allocate_session_id contains
  take_id-IsSound s i = record {
    configured = i.configured;
    ids_from = omega arith;
    ports_low = i.ports_low;
    ports_high = i.ports_high;
    bitrate_low = i.bitrate_low;
    tracks = λ k.
        let old = i.tracks k in
        record {
          negotiating_old = λ h. ground arith;
          published_old = λ h. ground arith;
          published_once = λ h. ground arith;
          current_old = λ h. ground arith;
          active_published = old.active_published;
          sink_published = old.sink_published;
        };
  }

  give_up-IsSound :
      (s : System input) (j : ℕ)
      → IsSound s
      → IsSound (record s { negotiating = remove j s.negotiating })
  give_up-IsSound s j i = record {
    configured = i.configured;
    ids_from = i.ids_from;
    ports_low = i.ports_low;
    ports_high = i.ports_high;
    bitrate_low = i.bitrate_low;
    tracks = λ k.
        let old = i.tracks k in
        record {
          negotiating_old = λ h. ground (arith, contains-remove j k s.negotiating);
          published_old = old.published_old;
          published_once = λ h. ground (arith, contains-remove j k s.negotiating);
          current_old = old.current_old;
          active_published = old.active_published;
          sink_published = old.sink_published;
        };
  }

  clear_current-IsSound :
      (s : System input)
      → IsSound s
      → IsSound (record s { manager = record s.manager { current = none } })
  clear_current-IsSound s i = record {
    configured = i.configured;
    ids_from = i.ids_from;
    ports_low = i.ports_low;
    ports_high = i.ports_high;
    bitrate_low = i.bitrate_low;
    tracks = λ k.
        let old = i.tracks k in
        record {
          negotiating_old = old.negotiating_old;
          published_old = old.published_old;
          published_once = old.published_once;
          current_old = λ h. cc;
          active_published = old.active_published;
          sink_published = old.sink_published;
        };
  }

  set_current-IsSound :
      (s : System input) (j : ℕ)
      → contains j s.negotiating ≡ true
      → IsSound s
      → IsSound (record s { manager = record s.manager { current = some j } })
  set_current-IsSound s j fresh i =
      let old_j = (i.tracks j).negotiating_old fresh in
      record {
        configured = i.configured;
        ids_from = i.ids_from;
        ports_low = i.ports_low;
        ports_high = i.ports_high;
        bitrate_low = i.bitrate_low;
        tracks = λ k.
            let old = i.tracks k in
            record {
              negotiating_old = old.negotiating_old;
              published_old = old.published_old;
              published_once = old.published_once;
              current_old = λ h. ground arith;
              active_published = old.active_published;
              sink_published = old.sink_published;
            };
      }

  store_active-IsSound :
      (s : System input) (j : ℕ)
      → contains j s.negotiating ≡ true
      → IsSound s
      → IsSound (with_active input s j)
  unfolding contains
  store_active-IsSound s j fresh i =
      let old_j = (i.tracks j).negotiating_old fresh in
      record {
        configured = i.configured;
        ids_from = i.ids_from;
        ports_low = i.ports_low;
        ports_high = i.ports_high;
        bitrate_low = i.bitrate_low;
        tracks = λ k.
            let old = i.tracks k in
            record {
              negotiating_old = λ h. ground (arith, contains-remove j k s.negotiating);
              published_old = λ h. ground arith;
              published_once = λ h. ground (arith, contains-remove j k s.negotiating);
              current_old = old.current_old;
              active_published = λ h. ground arith;
              sink_published = λ h. ground arith;
            };
      }

  clear-IsSound :
      (s : System input)
      → IsSound s
      → IsSound (record s {
        manager = record s.manager { shared = record s.manager.shared { sink = none } };
      })
  clear-IsSound s i = record {
    configured = i.configured;
    ids_from = i.ids_from;
    ports_low = i.ports_low;
    ports_high = i.ports_high;
    bitrate_low = i.bitrate_low;
    tracks = λ k.
        let old = i.tracks k in
        record {
          negotiating_old = old.negotiating_old;
          published_old = old.published_old;
          published_once = old.published_once;
          current_old = old.current_old;
          active_published = old.active_published;
          sink_published = λ h. cc;
        };
  }

  install-IsSound :
      (s : System input) (j : ℕ)
      → contains j s.published ≡ true
      → IsSound s
      → IsSound (record s {
        manager = record s.manager { shared = record s.manager.shared { sink = some j } };
      })
  install-IsSound s j known i = record {
    configured = i.configured;
    ids_from = i.ids_from;
    ports_low = i.ports_low;
    ports_high = i.ports_high;
    bitrate_low = i.bitrate_low;
    tracks = λ k.
        let old = i.tracks k in
        record {
          negotiating_old = old.negotiating_old;
          published_old = old.published_old;
          published_once = old.published_once;
          current_old = old.current_old;
          active_published = old.active_published;
          sink_published = λ h. ground arith;
        };
  }

  port-IsSound :
      (s : System input)
      → IsValid config
      → IsSound s
      → IsSound (record s { manager = (allocate_port input s.manager).0 })
  unfolding allocate_port next_port_after
  port-IsSound s valid i =
      other_fields-IsSound s s.manager.input_state s.manager.public_ip
        ((allocate_port input s.manager).0.next_port) s.manager.shared.client_connected
        s.manager.shared.force_keyframe s.manager.shared.bitrate_kbps
        s.manager.shared.frames_encoded s.manager.shared.bytes_encoded low high i.bitrate_low i
    where
      low : config.network.udp_port_min ≤ (allocate_port input s.manager).0.next_port
      low = ground (arith, i.configured, valid.ports)

      high : (allocate_port input s.manager).0.next_port ≤ config.network.udp_port_max
      high = ground (arith, i.configured, valid.ports)

  Step-IsSound : IsValid config → (s t : System input) → Step input s t → IsSound s → IsSound t
  unfolding public_ip_of release_input inject
  Step-IsSound valid _ _ (take_id s) i = take_id-IsSound s i
  Step-IsSound valid _ _ (take_port s) i = port-IsSound s valid i
  Step-IsSound valid _ _ (cache_ip s detected) i =
      other_fields-IsSound s s.manager.input_state
        ((public_ip_of input s.manager detected).0.public_ip) s.manager.next_port
        s.manager.shared.client_connected s.manager.shared.force_keyframe
        s.manager.shared.bitrate_kbps s.manager.shared.frames_encoded s.manager.shared.bytes_encoded
        i.ports_low i.ports_high i.bitrate_low i
  Step-IsSound valid _ _ (give_up s k) i = give_up-IsSound s k i
  Step-IsSound valid _ _ (clear_current s) i = clear_current-IsSound s i
  Step-IsSound valid _ _ (set_current s k fresh) i = set_current-IsSound s k fresh i
  Step-IsSound valid _ _ (store_active s k fresh) i = store_active-IsSound s k fresh i
  Step-IsSound valid _ _ (store_connected s b) i =
      other_fields-IsSound s s.manager.input_state s.manager.public_ip s.manager.next_port b
        s.manager.shared.force_keyframe s.manager.shared.bitrate_kbps
        s.manager.shared.frames_encoded s.manager.shared.bytes_encoded i.ports_low i.ports_high
        i.bitrate_low i
  Step-IsSound valid _ _ (store_keyframe s b) i =
      other_fields-IsSound s s.manager.input_state s.manager.public_ip s.manager.next_port
        s.manager.shared.client_connected b s.manager.shared.bitrate_kbps
        s.manager.shared.frames_encoded s.manager.shared.bytes_encoded i.ports_low i.ports_high
        i.bitrate_low i
  Step-IsSound valid _ _ (clear s) i = clear-IsSound s i
  Step-IsSound valid _ _ (install s k known) i = install-IsSound s k known i
  Step-IsSound valid _ _ (store_configured s) i =
      other_fields-IsSound s s.manager.input_state s.manager.public_ip s.manager.next_port
        s.manager.shared.client_connected s.manager.shared.force_keyframe
        s.manager.config.video.bitrate_kbps s.manager.shared.frames_encoded
        s.manager.shared.bytes_encoded i.ports_low i.ports_high
        (ground (arith, i.configured, valid.bitrate_low)) i
  Step-IsSound valid _ _ (store_asked s kbps) i =
      other_fields-IsSound s s.manager.input_state s.manager.public_ip s.manager.next_port
        s.manager.shared.client_connected s.manager.shared.force_keyframe
        (max 200 (min kbps 100000)) s.manager.shared.frames_encoded s.manager.shared.bytes_encoded
        i.ports_low i.ports_high (omega arith) i
  Step-IsSound valid _ _ (release s) i =
      other_fields-IsSound s ((input.release_all s.manager.input_state).0) s.manager.public_ip
        s.manager.next_port s.manager.shared.client_connected s.manager.shared.force_keyframe
        s.manager.shared.bitrate_kbps s.manager.shared.frames_encoded s.manager.shared.bytes_encoded
        i.ports_low i.ports_high i.bitrate_low i
  Step-IsSound valid _ _ (injected s e) i =
      other_fields-IsSound s ((input.handle s.manager.input_state e).0) s.manager.public_ip
        s.manager.next_port s.manager.shared.client_connected s.manager.shared.force_keyframe
        s.manager.shared.bitrate_kbps s.manager.shared.frames_encoded s.manager.shared.bytes_encoded
        i.ports_low i.ports_high i.bitrate_low i
  Step-IsSound valid _ _ (count_frame s) i =
      other_fields-IsSound s s.manager.input_state s.manager.public_ip s.manager.next_port
        s.manager.shared.client_connected s.manager.shared.force_keyframe
        s.manager.shared.bitrate_kbps (s.manager.shared.frames_encoded + 1)
        s.manager.shared.bytes_encoded i.ports_low i.ports_high i.bitrate_low i
  Step-IsSound valid _ _ (count_bytes s n) i =
      other_fields-IsSound s s.manager.input_state s.manager.public_ip s.manager.next_port
        s.manager.shared.client_connected s.manager.shared.force_keyframe
        s.manager.shared.bitrate_kbps s.manager.shared.frames_encoded
        (s.manager.shared.bytes_encoded + n) i.ports_low i.ports_high i.bitrate_low i

  start-IsSound :
      (input_state : input.State) (ip : Option Text)
      → IsValid config
      → IsSound (start input config input_state ip)
  unfolding new contains
  start-IsSound input_state ip valid = record {
    configured = refl;
    ids_from = omega arith;
    ports_low = omega arith;
    ports_high = valid.ports;
    bitrate_low = valid.bitrate_low;
    tracks = λ k. record {
      negotiating_old = λ h. cc;
      published_old = λ h. cc;
      published_once = λ h. refl;
      current_old = λ h. cc;
      active_published = λ h. ground arith;
      sink_published = λ h. cc;
    };
  }

  -- With a valid configuration, whatever the tasks of offers, sessions and data channels do, and
  -- however their single accesses to the shared state interleave on several threads: no id is given
  -- out or published twice, the active session, if it is not 0, and the one whose sink is installed
  -- were published, the configuration is never changed, the next port is in its range and the bitrate
  -- is at least 100 kbit/s. The counter of the ids, a u64, does not overflow.
  pub Run-IsSound :
      (input_state : input.State) (ip : Option Text) {s : System input}
      → IsValid config
      → Run input (start input config input_state ip) s
      → IsSound s
  Run-IsSound input_state ip valid r =
      Run-invariant input IsSound (Step-IsSound valid) r (start-IsSound input_state ip valid)
