-- ===== src/Server/Session/Offer/Refused.antt =====
-- server/src/session.rs, accept_offer: what an offer leaves behind that is not accepted.
use vmscren_share.Prelude.{◌≡◌, refl, ap, ◌∙◌, none, inl, inr, ◌⊎◌}
use vmscren_share.Prelude.Result.{Result, ok, err, err_inj}
use vmscren_share.Prelude.Text.{Text}
use vmscren_share.Server.Input.{InputSink}
use vmscren_share.Server.Session.{
  SessionManager, allocate_port, allocate_session_id, public_ip_of, disconnect, release_input,
}
use vmscren_share.Server.Session.Offer.{
  Stack, SessionError, Accepted, check_offer, prepare, answer_offer, conclude, checked,
  accept_offer,
}
use vmscren_share.Server.Session.Offer.Accept.{replace_previous-cases}

module _ (input : InputSink) where
  -- After a failure there is no current client, and the active session is what it was.
  prepare_current :
      (stack : Stack) (m : SessionManager input)
      → ((prepare input stack m).0.current ≡ none)
        × ((prepare input stack m).0.shared.active_session ≡ m.shared.active_session)
  unfolding prepare allocate_session_id allocate_port public_ip_of disconnect release_input
  prepare_current stack m = elim (replace_previous-cases input m) [
    | inl (nobody, same) ↦ rw same (nobody, refl)
    | inr (o, (c, same)) ↦ rw same (refl, refl)
  ]

  -- An offer without a video section or a data channel leaves the manager as it is; any other offer
  -- that fails leaves no current connection, and the active session what it was.
  pub accept_offer-err :
      (stack : Stack) (m : SessionManager input) (offer_sdp : Text) (e : SessionError)
      → (accept_offer input stack m offer_sdp).1 ≡ err e
      → (((check_offer offer_sdp ≡ err e) × ((accept_offer input stack m offer_sdp).0 ≡ m)))
        ⊎ ((check_offer offer_sdp ≡ ok tt)
            × (((accept_offer input stack m offer_sdp).0.current ≡ none)
                × ((accept_offer input stack m offer_sdp).0.shared.active_session
                    ≡ m.shared.active_session)))
  unfolding accept_offer
  accept_offer-err stack m offer_sdp e failed = after (check_offer offer_sdp) failed
    where
      concluded :
          (r : Result SessionError Accepted)
          → (conclude input (prepare input stack m).0 r).1 ≡ err e
          → (conclude input (prepare input stack m).0 r).0 ≡ (prepare input stack m).0
      concluded (ok a) h = cc
      concluded (err _) h = refl

      after :
          (c : Result SessionError (Unit {0}))
          → (checked input stack m offer_sdp c).1 ≡ err e
          → ((c ≡ err e) × ((checked input stack m offer_sdp c).0 ≡ m))
            ⊎ ((c ≡ ok tt)
                × (((checked input stack m offer_sdp c).0.current ≡ none)
                    × ((checked input stack m offer_sdp c).0.shared.active_session
                        ≡ m.shared.active_session)))
      after (err e') h = inl (ap err (err_inj h), refl)
      after (ok tt) h =
          let same =
            concluded
              (answer_offer stack offer_sdp (prepare input stack m).1.0
                (prepare input stack m).1.1.0 (prepare input stack m).1.1.1)
              h in
          inr (
            refl,
            (
              ap (λ x. x.current) same ∙ (prepare_current stack m).0,
              ap (λ x. x.shared.active_session) same ∙ (prepare_current stack m).1,
            ),
          )
