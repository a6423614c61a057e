-- ===== src/Client/Net/Offer/Handshake.antt =====
-- The client's `exchange_offer` against the server's handler.
use vmscren_share.Prelude.{
  ℕ, zero, suc, ◌≡◌, ◌≢◌, refl, ap, true, false, ◌&&◌, ◌==◌, eq→==, ne→==, if◌then◌else◌, some, [],
  ◌∷◌, ◌++◌, replicate,
}
use vmscren_share.Prelude.Result.{Result, ok, err}
use vmscren_share.Prelude.Text.{Text, codes, is_empty, text_eq}
use vmscren_share.Proto.Signalling.{Serde, offer, answer, is_offer}
use vmscren_share.Server.Signalling
use vmscren_share.Server.Signalling.{
  Response, error_response, answer_response, extracted, route_offer,
}
use vmscren_share.Server.Session.Offer.{SessionError, bad_offer, internal}
use vmscren_share.Client.Net.Offer.{
  OfferError, rejected, HttpResponse, is_success, detail_of, check_kind, read_response, read_posted,
  trim_end_slashes, Post, exchange_offer,
}

-- A response as it arrives.
abbrev pub reached : Response → HttpResponse
reached r = record { status = r.status; text = some r.body }

-- What the client makes of the manager's answer.
unfoldable pub outcome : Result SessionError Text → Result OfferError Text
outcome (ok sdp) = ok sdp
outcome (err (bad_offer message)) = err (rejected 400 message)
outcome (err (internal message)) = err (rejected 500 message)

answer_read :
    (serde : Serde) (r : Result SessionError Text)
    → read_response serde (answer_response serde r).status (answer_response serde r).body
      ≡ outcome r
unfolding read_response answer_response error_response outcome is_success detail_of check_kind
    text_eq
answer_read serde (ok sdp) = rw (serde.description_back (answer sdp)) (unfold answer in refl)
answer_read serde (err (bad_offer message)) = rw (serde.error_back message) refl
answer_read serde (err (internal message)) = rw (serde.error_back message) refl

trim_slashes : (n : ℕ) → trim_end_slashes (replicate n 47) ≡ []
unfolding trim_end_slashes
trim_slashes zero = refl
trim_slashes (suc n) = rw (trim_slashes n) refl

-- The slashes at the end of an address are trimmed, and nothing else.
trim_address :
    (host : Text) (last slashes : ℕ)
    → last ≢ 47
    → trim_end_slashes ((host ++ last ∷ []) ++ replicate slashes 47) ≡ host ++ last ∷ []
unfolding trim_end_slashes
trim_address [] last slashes other =
    let differs : (last == 47) ≡ false = ne→== last 47 other in
    rw (trim_slashes slashes, differs) refl
trim_address (x ∷ host) last slashes other = rw (trim_address host last slashes other) (kept host)
  where
    kept :
        (h : Text)
        → (if is_empty (h ++ last ∷ []) && x == 47 then [] else x ∷ (h ++ last ∷ []))
          ≡ x ∷ (h ++ last ∷ [])
    kept [] = refl
    kept (y ∷ h) = refl

text_eq_refl : (t : Text) → text_eq t t ≡ true
unfolding text_eq
text_eq_refl [] = refl
text_eq_refl (x ∷ t) = rw (eq→== x x refl) (text_eq_refl t)

module _ {M : Type 0} (accept : M → Text → M × Result SessionError Text) where
  routed :
      (serde : Serde) (refusal : Response) (m : M) (sdp : Text)
      → route_offer accept serde refusal m (serde.description_to (offer sdp))
        ≡ ((accept m sdp).0, answer_response serde (accept m sdp).1)
  unfolding route_offer extracted Signalling.offer is_offer offer text_eq
  routed serde refusal m sdp =
      ap (extracted accept serde refusal m) (serde.description_back (offer sdp))

  -- A server at a base: a POST to its `/offer` goes to the handler of offers, and any other is not found.
  abbrev pub served : (base : Text) → Serde → (refusal : Response) → Post M
  served base serde refusal m url body =
      let (m', response) = route_offer accept serde refusal m body in
      if text_eq url (base ++ codes "/offer")
      then (m', some (reached response))
      else (m, some (record { status = 404; text = some [] }))

  -- The client and the server agree: over a connection that delivers, `exchange_offer` with the
  -- server's address, followed by any number of slashes, has the same effect on the session manager
  -- as one call of its handling of the client's own description, and gives the answer exactly when
  -- that is accepted, and otherwise the status and the message of its error. The address ends with
  -- another character than a slash.
  pub handshake :
      (serde : Serde) (refusal : Response) (host : Text) (last slashes : ℕ) (sdp : Text) (m : M)
      → last ≢ 47
      → exchange_offer serde
          (served (host ++ last ∷ []) serde refusal)
          ((host ++ last ∷ []) ++ replicate slashes 47)
          sdp
          m
        ≡ ((accept m sdp).0, outcome (accept m sdp).1)
  unfolding exchange_offer read_posted
  handshake serde refusal host last slashes sdp m other =
      rw
        (
          trim_address host last slashes other,
          text_eq_refl ((host ++ last ∷ []) ++ codes "/offer"),
          routed serde refusal m sdp,
        )
        (ap (λ r. ((accept m sdp).0, r)) (answer_read serde (accept m sdp).1))
