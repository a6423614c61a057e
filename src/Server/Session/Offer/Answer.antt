-- ===== src/Server/Session/Offer/Answer.antt =====
-- server/src/session.rs, accept_offer: what an accepted offer has done, and what its answer says.
use vmscren_share.Prelude.{ℕ, ◌≡◌, refl, sym, ap, ◌∙◌, false, ◌==◌, Option, none, some, List, arith}
use vmscren_share.Prelude.Result.{Result, ok, err, from_ok, ok_inj}
use vmscren_share.Prelude.Text.{Text}
use vmscren_share.Proto.Sdp.{candidate_count, rewrite_host_candidates}
use vmscren_share.Server.Input.{InputSink}
use vmscren_share.Server.Session.{SessionManager, publish}
use vmscren_share.Server.Session.Offer.{
  Stack, SessionError, PcEvent, Accepted, check_offer, negotiate, finish_answer, prepare, checked,
  answer_offer, answered, conclude, accept_offer,
}

-- An answer is the rewritten description of the stack, which has a candidate.
pub finish_answer-ok :
    (ip : Option Text) (sdp answer : Text)
    → finish_answer ip sdp ≡ ok answer
    → ((candidate_count sdp == 0) ≡ false)
      × (answer ≡ elim ip [ some a ↦ rewrite_host_candidates sdp a | none ↦ sdp ])
unfolding finish_answer
finish_answer-ok none sdp answer h = ground arith
finish_answer-ok (some a) sdp answer h = ground arith

-- An answer comes from a description of the stack, and carries the id and the port of its offer.
pub answer_offer-ok :
    (stack : Stack) (offer_sdp : Text) (session_id port : ℕ) (ip : Option Text) (a : Accepted)
    → answer_offer stack offer_sdp session_id port ip ≡ ok a
    → (pending : List PcEvent) × ((sdp : Text) × ((negotiate stack port offer_sdp
            ≡ ok (pending, sdp))
          × ((finish_answer ip sdp ≡ ok a.answer)
              × ((a.session_id ≡ session_id) × (a.port ≡ port)))))
unfolding answer_offer
answer_offer-ok stack offer_sdp session_id port ip a h =
    let ((pending, sdp), (negotiated, rest)) =
      from_ok (negotiate stack port offer_sdp) (answered session_id port ip) a h in
    let (answer, (finished, same)) =
      from_ok (finish_answer ip sdp)
        (λ answer.
          ok (record { session_id = session_id; port = port; answer = answer; pending = pending }))
        a rest in
    let whole : record { session_id = session_id; port = port; answer = answer; pending = pending }
        ≡ a =
      ok_inj same in
    (
      pending,
      (
        sdp,
        (
          negotiated,
          (
            finished ∙ ap (λ x. ok x.answer) whole,
            (ap (λ x. x.session_id) (sym whole), ap (λ x. x.port) (sym whole)),
          ),
        ),
      ),
    )

module _ (input : InputSink) where
  -- What an accepted offer went through.
  pub record IsAccepted (stack : Stack) (m : SessionManager input) (offer_sdp : Text) (a : Accepted)
      : Type 0 where
    pub checks : check_offer offer_sdp ≡ ok tt
    pub id : a.session_id ≡ (prepare input stack m).1.0
    pub on_port : a.port ≡ (prepare input stack m).1.1.0
    pub described :
        (pending : List PcEvent) × ((sdp : Text) × ((negotiate stack a.port offer_sdp
              ≡ ok (pending, sdp))
            × (finish_answer (prepare input stack m).1.1.1 sdp ≡ ok a.answer)))
    pub published :
        (accept_offer input stack m offer_sdp).0
        ≡ publish input (prepare input stack m).0 a.session_id

  conclude-ok :
      (m : SessionManager input) (r : Result SessionError Accepted) (a : Accepted)
      → (conclude input m r).1 ≡ ok a
      → (r ≡ ok a) × ((conclude input m r).0 ≡ publish input m a.session_id)
  unfolding conclude
  conclude-ok m (ok b) a h = (h, ap (λ x. publish input m x.session_id) (ok_inj h))
  conclude-ok m (err e) a h = cc

  checked-ok :
      (stack : Stack) (m : SessionManager input) (offer_sdp : Text)
      (r : Result SessionError (Unit {0})) (a : Accepted)
      → (checked input stack m offer_sdp r).1 ≡ ok a
      → (r ≡ ok tt)
        × ((answer_offer stack offer_sdp
                (prepare input stack m).1.0
                (prepare input stack m).1.1.0
                (prepare input stack m).1.1.1
              ≡ ok a)
            × ((checked input stack m offer_sdp r).0
                ≡ publish input (prepare input stack m).0 a.session_id))
  unfolding checked
  checked-ok stack m offer_sdp (err e) a h = cc
  checked-ok stack m offer_sdp (ok tt) a h = (
    refl,
    conclude-ok (prepare input stack m).0
        (answer_offer stack offer_sdp (prepare input stack m).1.0 (prepare input stack m).1.1.0
          (prepare input stack m).1.1.1)
        a h,
  )

  pub accept_offer-IsAccepted :
      (stack : Stack) (m : SessionManager input) (offer_sdp : Text) (a : Accepted)
      → (accept_offer input stack m offer_sdp).1 ≡ ok a
      → IsAccepted stack m offer_sdp a
  unfolding accept_offer
  accept_offer-IsAccepted stack m offer_sdp a h =
      let (checks, (answers, published)) =
        checked-ok stack m offer_sdp (check_offer offer_sdp) a h in
      let (pending, (sdp, (negotiated, (finished, (id, on_port))))) =
        answer_offer-ok stack offer_sdp (prepare input stack m).1.0 (prepare input stack m).1.1.0
          (prepare input stack m).1.1.1 a answers in
      record {
        checks = checks;
        id = id;
        on_port = on_port;
        described = (pending, (sdp, (rw on_port negotiated, finished)));
        published = published;
      }
