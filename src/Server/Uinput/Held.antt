-- ===== src/Server/Uinput/Held.antt =====
-- What the devices hold down is what the sink remembers, as long as no emit fails.
use vmscren_share.Prelude.{
  ℕ, ◌≡◌, refl, Bool, true, false, ◌==◌, if◌then◌else◌, inl, inr, List, [], ◌∷◌, arith, Bool-cases,
  ◌∙◌,
}
use vmscren_share.Prelude.Result.{ok, err}
use vmscren_share.Prelude.Int.{ℤ, pos}
use vmscren_share.Prelude.Sets.{contains, contains-insert, contains-remove}
use vmscren_share.Proto.MouseMove.{MouseMove}
use vmscren_share.Server.Uinput.{
  InputEvent, key, Device, UinputSink, Outcome, replay, releases, is_empty, emit_keyboard,
  emit_pointer, press_key, press_button, wheel, move_abs, release_buttons, then_release_buttons,
  release_all, wheel_events,
}

replay-releases :
    (codes : List ℕ) (held : ℕ → Bool) (c : ℕ)
    → replay (releases codes) held c ≡ (if contains c codes then false else held c)
unfolding replay releases contains
replay-releases [] held c = refl
replay-releases (k ∷ ks) held c =
    ground (arith, replay-releases ks (λ b. if k == b then false else held b) c)

replay-wheel_events :
    (horizontal vertical : ℤ) (held : ℕ → Bool) (c : ℕ)
    → replay (wheel_events horizontal vertical) held c ≡ held c
unfolding replay wheel_events
replay-wheel_events horizontal vertical held c = ground arith

empty_contains : (xs : List ℕ) (c : ℕ) → is_empty xs ≡ true → contains c xs ≡ false
unfolding contains
empty_contains [] c h = refl
empty_contains (x ∷ xs) c h = cc

module _ (dev : Device) where
  open dev use {held, emit, emit_replays}

  -- The codes held down on the keyboard are the pressed keys, and those on the pointer are the
  -- pressed buttons.
  pub record Tracks (s : UinputSink dev) : Type 0 where
    pub keys : (c : ℕ) → held s.keyboard c ≡ contains c s.pressed_keys
    pub buttons : (c : ℕ) → held s.pointer c ≡ contains c s.pressed_buttons

  pub press_key-Tracks :
      (s : UinputSink dev) (code : ℕ) (pressed : Bool)
      → Tracks s
      → (press_key dev s code pressed).1 ≡ ok tt
      → Tracks (press_key dev s code pressed).0
  unfolding press_key replay
  press_key-Tracks s code true t h = record {
    keys = λ c. ground (
      arith,
      emit_replays s.keyboard (key code (pos 1) ∷ []) c h,
      t.keys c,
      contains-insert code c s.pressed_keys,
    );
    buttons = t.buttons;
  }
  press_key-Tracks s code false t h = record {
    keys = λ c. ground (
      arith,
      emit_replays s.keyboard (key code (pos 0) ∷ []) c h,
      t.keys c,
      contains-remove code c s.pressed_keys,
    );
    buttons = t.buttons;
  }

  pub press_button-Tracks :
      (s : UinputSink dev) (code : ℕ) (pressed : Bool)
      → Tracks s
      → (press_button dev s code pressed).1 ≡ ok tt
      → Tracks (press_button dev s code pressed).0
  unfolding press_button replay
  press_button-Tracks s code true t h = record {
    keys = t.keys;
    buttons = λ c. ground (
      arith,
      emit_replays s.pointer (key code (pos 1) ∷ []) c h,
      t.buttons c,
      contains-insert code c s.pressed_buttons,
    );
  }
  press_button-Tracks s code false t h = record {
    keys = t.keys;
    buttons = λ c. ground (
      arith,
      emit_replays s.pointer (key code (pos 0) ∷ []) c h,
      t.buttons c,
      contains-remove code c s.pressed_buttons,
    );
  }

  -- An emit on the pointer that holds and releases nothing.
  emit_pointer-Tracks :
      (s : UinputSink dev) (es : List InputEvent)
      → ((h : ℕ → Bool) (c : ℕ) → replay es h c ≡ h c)
      → Tracks s
      → (emit_pointer dev s es).1 ≡ ok tt
      → Tracks (emit_pointer dev s es).0
  unfolding emit_pointer
  emit_pointer-Tracks s es quiet t h = record {
    keys = t.keys;
    buttons = λ c. emit_replays s.pointer es c h ∙ quiet (held s.pointer) c ∙ t.buttons c;
  }

  pub wheel-Tracks :
      (s : UinputSink dev) (horizontal vertical : ℤ)
      → Tracks s
      → (wheel dev s horizontal vertical).1 ≡ ok tt
      → Tracks (wheel dev s horizontal vertical).0
  unfolding wheel
  wheel-Tracks s horizontal vertical t h =
      elim (Bool-cases (is_empty (wheel_events horizontal vertical))) [
        | inl none_moved ↦ rw none_moved t
        | inr moved ↦ rw moved (
            emit_pointer-Tracks s (wheel_events horizontal vertical)
              (replay-wheel_events horizontal vertical) t (rw moved at h))
      ]

  pub move_abs-Tracks :
      (s : UinputSink dev) (m : MouseMove)
      → Tracks s
      → (move_abs dev s m).1 ≡ ok tt
      → Tracks (move_abs dev s m).0
  move_abs-Tracks s m t h =
      unfold move_abs in emit_pointer-Tracks s _ (unfold replay in λ held c. refl) t h

  -- Nothing is held down, and the sink remembers nothing.
  pub record Freed (s : UinputSink dev) : Type 0 where
    pub keys_up : (c : ℕ) → held s.keyboard c ≡ false
    pub buttons_up : (c : ℕ) → held s.pointer c ≡ false
    pub no_keys : s.pressed_keys ≡ []
    pub no_buttons : s.pressed_buttons ≡ []

  -- A device that holds exactly some codes holds nothing once these are released.
  emit_releases :
      (d : dev.State) (codes : List ℕ)
      → ((c : ℕ) → held d c ≡ contains c codes)
      → (emit d (releases codes)).1 ≡ ok tt
      → (c : ℕ) → held (emit d (releases codes)).0 c ≡ false
  emit_releases d codes exact h c =
      emit_replays d (releases codes) c h
      ∙ replay-releases codes (held d) c
      ∙ ground (arith, exact c)

  release_buttons-Freed :
      (s : UinputSink dev) (buttons : List ℕ)
      → s.pressed_keys ≡ []
      → s.pressed_buttons ≡ []
      → ((c : ℕ) → held s.keyboard c ≡ false)
      → ((c : ℕ) → held s.pointer c ≡ contains c buttons)
      → (release_buttons dev s buttons).1 ≡ ok tt
      → Freed (release_buttons dev s buttons).0
  unfolding release_buttons emit_pointer contains
  release_buttons-Freed s [] nk nb up exact h = record {
    keys_up = up;
    buttons_up = exact;
    no_keys = nk;
    no_buttons = nb;
  }
  release_buttons-Freed s (b ∷ bs) nk nb up exact h = record {
    keys_up = up;
    buttons_up = emit_releases s.pointer (b ∷ bs) exact h;
    no_keys = nk;
    no_buttons = nb;
  }

  then_release_buttons-Freed :
      (o : Outcome dev) (buttons : List ℕ)
      → o.0.pressed_keys ≡ []
      → o.0.pressed_buttons ≡ []
      → (o.1 ≡ ok tt → (c : ℕ) → held o.0.keyboard c ≡ false)
      → ((c : ℕ) → held o.0.pointer c ≡ contains c buttons)
      → (then_release_buttons dev buttons o).1 ≡ ok tt
      → Freed (then_release_buttons dev buttons o).0
  unfolding then_release_buttons
  then_release_buttons-Freed (s, ok t) buttons nk nb up exact h =
      release_buttons-Freed s buttons nk nb (up refl) exact h
  then_release_buttons-Freed (s, err e) buttons nk nb up exact h = cc

  -- After a successful `release_all` neither device holds anything down, and both sets are empty.
  pub release_all-Freed :
      (s : UinputSink dev) → Tracks s → (release_all dev s).1 ≡ ok tt → Freed (release_all dev s).0
  unfolding release_all
  release_all-Freed s t h = elim (Bool-cases (is_empty s.pressed_keys)) [
    | inl no_keys ↦ rw no_keys (
        release_buttons-Freed (record s { pressed_keys = []; pressed_buttons = [] })
          s.pressed_buttons refl refl (λ c. t.keys c ∙ empty_contains s.pressed_keys c no_keys)
          t.buttons (rw no_keys at h))
    | inr some_keys ↦ rw some_keys (
        then_release_buttons-Freed
          (emit_keyboard dev (record s { pressed_keys = []; pressed_buttons = [] })
            (releases s.pressed_keys))
          s.pressed_buttons (unfold emit_keyboard in refl) (unfold emit_keyboard in refl)
          (unfold emit_keyboard in emit_releases s.keyboard s.pressed_keys t.keys)
          (unfold emit_keyboard in t.buttons) (rw some_keys at h))
  ]
