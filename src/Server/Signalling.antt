-- ===== src/Server/Signalling.antt =====
-- server/src/signalling.rs, offer: the HTTP handler of an offer. The session manager is a parameter
-- here: its state and what it does with an offer.
use vmscren_share.Prelude.{ℕ, not, if◌then◌else◌, ◌++◌, Option, none, some}
use vmscren_share.Prelude.Result.{Result, ok, err}
use vmscren_share.Prelude.Text.{Text, codes}
use vmscren_share.Proto.Signalling.{Serde, SessionDescription, answer, is_offer}
use vmscren_share.Server.Session.Offer.{SessionError, bad_offer, internal}

pub record Response : Type 0 where
  pub status : ℕ
  pub body : Text

-- `error`.
unfoldable pub error_response : Serde → ℕ → Text → Response
error_response serde status message = record { status = status; body = serde.error_to message }

-- The `match` on what the manager answers.
unfoldable pub answer_response : Serde → Result SessionError Text → Response
unfolding error_response
answer_response serde (ok sdp) = record { status = 200; body = serde.description_to (answer sdp) }
answer_response serde (err (bad_offer message)) = error_response serde 400 message
answer_response serde (err (internal message)) = error_response serde 500 message

module _ {M : Type 0} (accept : M → Text → M × Result SessionError Text) where
  -- What is no offer does not reach the manager.
  unfoldable pub offer : Serde → M → SessionDescription → M × Response
  unfolding answer_response
  offer serde m desc =
      if not (is_offer desc)
      then (
        m,
        error_response serde 400
            (codes "expected type \"offer\", got \"" ++ (desc.kind ++ codes "\"")),
      )
      else (let (m', r) = accept m desc.sdp in (m', answer_response serde r))

  -- The `Json` extractor before the handler, which is the framework's: a body that is no description
  -- is refused with a status of its own.
  unfoldable pub extracted :
      Serde → (refusal : Response) → M → Option SessionDescription → M × Response
  unfolding offer
  extracted serde refusal m none = (m, refusal)
  extracted serde refusal m (some desc) = offer serde m desc

  unfoldable pub route_offer : Serde → (refusal : Response) → M → Text → M × Response
  unfolding extracted
  route_offer serde refusal m body = extracted serde refusal m (serde.description_from body)
