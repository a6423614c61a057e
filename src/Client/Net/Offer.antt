-- ===== src/Client/Net/Offer.antt =====
-- client/src/net.rs, exchange_offer: the offer over HTTP, and the answer. The HTTP client is a
-- parameter: what a POST comes to.
pub mod Handshake
use vmscren_share.Prelude.{
  ℕ, Bool, not, ◌&&◌, leb, ltb, ◌==◌, if◌then◌else◌, Option, none, some, List, [], ◌∷◌, ◌++◌,
}
use vmscren_share.Prelude.Result.{Result, ok, err, ok_or, ◌>>=◌}
use vmscren_share.Prelude.Text.{Text, codes, text_eq, is_empty}
use vmscren_share.Proto.Signalling.{Serde, SessionDescription, offer, offer_path}

pub data OfferError : Type 0 where
  post_failed body_failed json_failed : OfferError
  rejected : (status : ℕ) (detail : Text) → OfferError
  wrong_kind : Text → OfferError

-- A response, whose body may fail to arrive.
pub record HttpResponse : Type 0 where
  pub status : ℕ
  pub text : Option Text

-- A POST of a body to a URL, which may change what is at the other end: the response, or none if the
-- POST fails.
abbrev pub Post : Type 0 → Type 0
Post M = M → Text → Text → M × Option HttpResponse

-- `trim_end_matches('/')`.
unfoldable pub trim_end_slashes : Text → Text
trim_end_slashes [] = []
trim_end_slashes (x ∷ xs) =
    let rest = trim_end_slashes xs in if is_empty rest && x == 47 then [] else x ∷ rest

-- `StatusCode::is_success`.
unfoldable pub is_success : ℕ → Bool
is_success status = leb 200 status && ltb status 300

-- The message of a rejection, or the whole body if it is none.
unfoldable pub detail_of : Option Text → Text → Text
detail_of (some e) body = e
detail_of none body = body

unfoldable pub check_kind : SessionDescription → Result OfferError Text
check_kind d = if not (text_eq d.kind (codes "answer")) then err (wrong_kind d.kind) else ok d.sdp

unfoldable pub read_response : Serde → ℕ → Text → Result OfferError Text
unfolding is_success detail_of check_kind
read_response serde status body =
    if not (is_success status)
    then err (rejected status (detail_of (serde.error_from body) body))
    else ok_or (serde.description_from body) json_failed >>= check_kind

-- What a POST came to.
unfoldable pub read_posted : Serde → Option HttpResponse → Result OfferError Text
unfolding read_response
read_posted serde posted = do
  response ← ok_or posted post_failed
  body ← ok_or response.text body_failed
  read_response serde response.status body

unfoldable pub exchange_offer :
    {M : Type 0} → Serde → Post M → (server_url offer_sdp : Text) → M → M × Result OfferError Text
unfolding trim_end_slashes read_posted
exchange_offer serde post server_url offer_sdp m =
    let url = trim_end_slashes server_url ++ offer_path in
    let (m', posted) = post m url (serde.description_to (offer offer_sdp)) in
    (m', read_posted serde posted)
