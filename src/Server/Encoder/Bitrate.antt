-- ===== src/Server/Encoder/Bitrate.antt =====
-- server/src/encoder/openh264.rs, set_bitrate: the target and its ceiling.
use vmscren_share.Prelude.{
  ℕ, ◌≤◌, ◌≡◌, refl, sym, ap, ◌∙◌, max, Bool, true, false, ◌==◌, ltb, if◌then◌else◌, Bool-cases,
  inl, inr, List, [], ◌∷◌, All, arith,
}
use vmscren_share.Prelude.Result.{Result, ok, ok_inj, ◌>>=◌}
use vmscren_share.Server.Encoder.{
  OpenH264Encoder, BitrateOption, max_bitrate, target_bitrate, max_bps, target_bps, ceiling_first,
  option_calls, set_options, set_bitrate,
}

-- OpenH264's requirement: the ceiling is not below the target.
abbrev pub IsOrdered : OpenH264Encoder → Type 0
IsOrdered e = e.target ≤ e.ceiling

-- The options in force are those of the bitrate that the encoder remembers.
pub record InForce (e : OpenH264Encoder) : Type 0 where
  pub ceiling_set : e.ceiling ≡ max_bps e.bitrate_kbps
  pub target_set : e.target ≡ target_bps e.bitrate_kbps

-- The test, for a bitrate whose ceiling is an i32.
ceiling_first-small :
    (current kbps : ℕ)
    → current ≤ 715827
    → ceiling_first current kbps ≡ ltb (max_bps current) (max_bps kbps)
unfolding ceiling_first
ceiling_first-small current kbps small = ground arith

target_bps-max_bps : (kbps : ℕ) → target_bps kbps ≤ max_bps kbps
target_bps-max_bps kbps = ground arith

module _ (answers : BitrateOption → ℕ → Bool) where
  raised :
      (e : OpenH264Encoder) (ceiling target : ℕ)
      → e.target ≤ ceiling
      → target ≤ ceiling
      → All IsOrdered
          (set_options answers e ((max_bitrate, ceiling) ∷ (target_bitrate, target) ∷ [])).0
  unfolding set_options
  raised e ceiling target above enough = ground arith

  lowered :
      (e : OpenH264Encoder) (ceiling target : ℕ)
      → target ≤ e.ceiling
      → target ≤ ceiling
      → All IsOrdered
          (set_options answers e ((target_bitrate, target) ∷ (max_bitrate, ceiling) ∷ [])).0
  unfolding set_options
  lowered e ceiling target below enough = ground arith

  changed-IsOrdered :
      (e : OpenH264Encoder) (kbps : ℕ)
      → InForce e
      → e.bitrate_kbps ≤ 715827
      → All IsOrdered (set_options answers e (option_calls e.bitrate_kbps kbps)).0
  unfolding option_calls
  changed-IsOrdered e kbps force small =
      let old_order = target_bps-max_bps e.bitrate_kbps in
      let new_order = target_bps-max_bps kbps in
      let test = ceiling_first-small e.bitrate_kbps kbps small in
      elim (Bool-cases (ltb (max_bps e.bitrate_kbps) (max_bps kbps))) [
        | inl higher ↦
            rw (test, higher)
              (raised e (max_bps kbps) (target_bps kbps)
                (stays_below (max_bps e.bitrate_kbps) (target_bps e.bitrate_kbps) (max_bps kbps)
                  force.target_set old_order higher)
                new_order)
        | inr not_higher ↦
            rw (test, not_higher)
              (lowered e (max_bps kbps) (target_bps kbps)
                (fits_below (max_bps e.bitrate_kbps) (max_bps kbps) (target_bps kbps)
                  force.ceiling_set new_order not_higher)
                new_order)
      ]
    where
      stays_below :
          (old old_target new : ℕ)
          → e.target ≡ old_target
          → old_target ≤ old
          → ltb old new ≡ true
          → e.target ≤ new
      stays_below old old_target new same order higher = ground arith

      fits_below :
          (old new new_target : ℕ)
          → e.ceiling ≡ old
          → new_target ≤ new
          → ltb old new ≡ false
          → new_target ≤ e.ceiling
      fits_below old new new_target same order not_higher = ground arith

  -- While the bitrate is changed the target is never above the ceiling, also after a call that fails,
  -- where the options in force are those of a bitrate of up to 715 827 kbit/s.
  pub set_bitrate-IsOrdered :
      (e : OpenH264Encoder) (asked : ℕ)
      → InForce e
      → e.bitrate_kbps ≤ 715827
      → All IsOrdered (set_bitrate answers e asked).0
  unfolding set_bitrate
  set_bitrate-IsOrdered e asked force small = elim (Bool-cases (max asked 100 == e.bitrate_kbps)) [
    | inl same ↦ rw same tt
    | inr other ↦ rw other (changed-IsOrdered e (max asked 100) force small)
  ]

  both_set :
      (raises : Bool) (e e' : OpenH264Encoder) (ceiling target kbps : ℕ)
      → ((set_options answers e (
            if raises
            then (max_bitrate, ceiling) ∷ (target_bitrate, target) ∷ []
            else (target_bitrate, target) ∷ (max_bitrate, ceiling) ∷ [])).1
          >>= λ x. ok (record x { bitrate_kbps = kbps }))
        ≡ ok e'
      → (e'.ceiling ≡ ceiling) × ((e'.target ≡ target) × (e'.bitrate_kbps ≡ kbps))
  unfolding set_options
  both_set true e e' ceiling target kbps h = ground arith
  both_set false e e' ceiling target kbps h = ground arith

  -- A change that succeeds leaves the options of the new bitrate in force, which is at least
  -- 100 kbit/s.
  pub set_bitrate-InForce :
      (e e' : OpenH264Encoder) (asked : ℕ)
      → InForce e
      → (set_bitrate answers e asked).1 ≡ ok e'
      → InForce e' × (e'.bitrate_kbps ≡ max asked 100)
  unfolding set_bitrate option_calls
  set_bitrate-InForce e e' asked force h = tested (max asked 100 == e.bitrate_kbps) refl h
    where
      tested :
          (b : Bool)
          → (max asked 100 == e.bitrate_kbps) ≡ b
          → (if◌then◌else◌ {A = List OpenH264Encoder × Result BitrateOption OpenH264Encoder} b
              ([], ok e)
              (let (on_the_way, end) =
                  set_options answers e (option_calls e.bitrate_kbps (max asked 100)) in
                (on_the_way, end >>= λ x. ok (record x { bitrate_kbps = max asked 100 })))).1
            ≡ ok e'
          → InForce e' × (e'.bitrate_kbps ≡ max asked 100)
      tested true same h = let kept : e ≡ e' = ok_inj h in rw (sym kept) (force, ground arith)
      tested false other h =
          let (ceiling, (target, kbps)) =
            both_set (ceiling_first e.bitrate_kbps (max asked 100)) e e' (max_bps (max asked 100))
              (target_bps (max asked 100)) (max asked 100) h in
          (
            record {
              ceiling_set = ceiling ∙ ap max_bps (sym kbps);
              target_set = target ∙ ap target_bps (sym kbps);
            },
            kbps,
          )
