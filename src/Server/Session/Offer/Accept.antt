-- ===== src/Server/Session/Offer/Accept.antt =====
-- server/src/session.rs, accept_offer: the client's view of an accepted offer, and the manager's.
use vmscren_share.Prelude.{
  ℕ, ◌+◌, ◌≤◌, ◌≡◌, refl, sym, ap, ◌∙◌, false, subst, Option-cases, none, some, List, inl, inr, ◌⊎◌,
  arith,
}
use vmscren_share.Prelude.Result.{ok}
use vmscren_share.Prelude.Text.{Text}
use vmscren_share.Prelude.Text.Split.{IsToken}
use vmscren_share.Proto.Sdp.{lines}
use vmscren_share.Proto.Sdp.Hosts.{HostWords, AreWords, host_line, In}
use vmscren_share.Proto.Sdp.Survive.{rewritten-address}
use vmscren_share.Proto.Sdp.Addresses.{HasOneEnding}
use vmscren_share.Server.Input.{InputSink}
use vmscren_share.Server.Session.{
  SessionManager, allocate_port, allocate_session_id, public_ip_of, replace_previous, publish,
}
use vmscren_share.Server.Session.Offer.{
  Stack, PcEvent, Accepted, negotiate, finish_answer, prepare, accept_offer,
}
use vmscren_share.Server.Session.Offer.Answer.{accept_offer-IsAccepted, finish_answer-ok}
use vmscren_share.Server.Session.{clamp, known_ip, disconnect, release_input}

-- A negotiation that succeeds ends with the stack's description.
negotiate-ok :
    (stack : Stack) (port : ℕ) (offer_sdp : Text) (pending : List PcEvent) (sdp : Text)
    → negotiate stack port offer_sdp ≡ ok (pending, sdp)
    → stack.local_description ≡ some sdp
unfolding negotiate
negotiate-ok stack port offer_sdp pending sdp h = ground arith

module _ (input : InputSink) where
  -- What an offer goes on with, when there is a client to replace and when there is none.
  pub replace_previous-cases :
      (m : SessionManager input)
      → ((m.current ≡ none) × (replace_previous input m ≡ m))
        ⊎ ((old : ℕ) × ((m.current ≡ some old)
              × (replace_previous input m ≡ disconnect input (record m { current = none }))))
  unfolding replace_previous
  replace_previous-cases m = elim (Option-cases m.current) [
    | inl nobody ↦ inl (nobody, rw nobody refl)
    | inr (old, client) ↦ inr (old, (client, rw client refl))
  ]

  -- The id, the port and the address do not depend on the previous client.
  prepare_lem :
      (stack : Stack) (m : SessionManager input)
      → ((prepare input stack m).1.0 ≡ m.next_session)
        × (((prepare input stack m).1.1.0
              ≡ clamp m.next_port m.config.network.udp_port_min m.config.network.udp_port_max)
            × ((prepare input stack m).1.1.1
                ≡ known_ip m.config.network.public_ip m.public_ip stack.detected))
  unfolding prepare allocate_session_id allocate_port public_ip_of disconnect release_input
  prepare_lem stack m = elim (replace_previous-cases m) [
    | inl (nobody, same) ↦ rw same (refl, (refl, refl))
    | inr (old, (client, same)) ↦ rw same (refl, (refl, refl))
  ]

  -- Every host candidate of the answer, as the grammar of RFC 8839 has it, carries the public address,
  -- when it is known and a word, and the stack's description ends its lines in one way.
  pub accept_offer-advertises :
      (stack : Stack) (m : SessionManager input) (offer_sdp : Text) (a : Accepted) (ip : Text)
      → (accept_offer input stack m offer_sdp).1 ≡ ok a
      → known_ip m.config.network.public_ip m.public_ip stack.detected ≡ some ip
      → IsToken ip
      → ((sdp : Text) → stack.local_description ≡ some sdp → HasOneEnding sdp)
      → (w : HostWords) → AreWords w
      → In (host_line w) (lines a.answer)
      → w.address ≡ ip
  accept_offer-advertises stack m offer_sdp a ip accepted known token ending w words there =
      let i = accept_offer-IsAccepted input stack m offer_sdp a accepted in
      let (pending, (sdp, (negotiated, finished))) = i.described in
      let public : (prepare input stack m).1.1.1 ≡ some ip = (prepare_lem stack m).1.1 ∙ known in
      let (counted, answer) =
        finish_answer-ok (some ip) sdp a.answer
          (ap (λ o. finish_answer o sdp) (sym public) ∙ finished) in
      rewritten-address sdp ip token
        (ending sdp (negotiate-ok stack a.port offer_sdp pending sdp negotiated)) w words
        (subst (λ (t : Text). In (host_line w) (lines t)) answer there)

  -- A manager that serves the session of an accepted offer.
  pub record Serves (m : SessionManager input) (a : Accepted) (m' : SessionManager input)
      : Type 0 where
    pub fresh : a.session_id ≡ m.next_session
    pub counted : m'.next_session ≡ m.next_session + 1
    pub active : m'.shared.active_session ≡ a.session_id
    pub current : m'.current ≡ some a.session_id
    pub port_low : m.config.network.udp_port_min ≤ a.port
    pub port_high : a.port ≤ m.config.network.udp_port_max
    -- The client that was there before is cut off, and what it held down is released.
    pub idle :
        (old : ℕ)
        → m.current ≡ some old
        → (m'.shared.client_connected ≡ false)
          × ((m'.shared.sink ≡ none) × (m'.input_state ≡ (input.release_all m.input_state).0))

  prepare_replaces :
      (stack : Stack) (m : SessionManager input) (old : ℕ)
      → m.current ≡ some old
      → ((prepare input stack m).0.shared.client_connected ≡ false)
        × (((prepare input stack m).0.shared.sink ≡ none)
            × ((prepare input stack m).0.input_state ≡ (input.release_all m.input_state).0))
  unfolding prepare allocate_session_id allocate_port public_ip_of disconnect release_input
  prepare_replaces stack m old client = elim (replace_previous-cases m) [
    | inl (nobody, same) ↦ cc
    | inr (o, (c, same)) ↦ rw same (refl, (refl, refl))
  ]

  prepare_counts :
      (stack : Stack) (m : SessionManager input)
      → (prepare input stack m).0.next_session ≡ m.next_session + 1
  unfolding prepare allocate_session_id allocate_port public_ip_of disconnect release_input
  prepare_counts stack m = elim (replace_previous-cases m) [
    | inl (nobody, same) ↦ rw same refl
    | inr (o, (c, same)) ↦ rw same refl
  ]

  -- An accepted offer has a fresh id and a port of the range; its session is the active one and its
  -- connection the current one; a client that was there is cut off, and its input released.
  pub accept_offer-Serves :
      (stack : Stack) (m : SessionManager input) (offer_sdp : Text) (a : Accepted)
      → m.config.network.udp_port_min ≤ m.config.network.udp_port_max
      → (accept_offer input stack m offer_sdp).1 ≡ ok a
      → Serves m a (accept_offer input stack m offer_sdp).0
  unfolding publish
  accept_offer-Serves stack m offer_sdp a range accepted =
      let i = accept_offer-IsAccepted input stack m offer_sdp a accepted in
      let (fresh, (on_port, ip)) = prepare_lem stack m in
      rw i.published (record {
        fresh = i.id ∙ fresh;
        counted = prepare_counts stack m;
        active = refl;
        current = refl;
        port_low = rw (i.on_port, on_port) (omega arith);
        port_high = rw (i.on_port, on_port) (omega arith);
        idle = prepare_replaces stack m;
      })
