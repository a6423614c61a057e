-- ===== src/Proto/Signalling.antt =====
-- proto/src/signalling.rs: the descriptions that the client and the server exchange. Their JSON is a
-- parameter, with the round trip that a derived serialiser and its deserialiser are documented to have.
use vmscren_share.Prelude.{◌≡◌, Bool, Option, some}
use vmscren_share.Prelude.Text.{Text, codes, text_eq}

pub record SessionDescription : Type 0 where
  pub kind : Text
  pub sdp : Text

unfoldable pub offer : Text → SessionDescription
offer sdp = record { kind = codes "offer"; sdp = sdp }

unfoldable pub answer : Text → SessionDescription
answer sdp = record { kind = codes "answer"; sdp = sdp }

unfoldable pub is_offer : SessionDescription → Bool
unfolding text_eq
is_offer d = text_eq d.kind (codes "offer")

abbrev pub offer_path : Text
offer_path = codes "/offer"

-- `ErrorResponse` is its one field.
pub record Serde : Type 0 where
  pub description_to : SessionDescription → Text
  pub description_from : Text → Option SessionDescription
  pub error_to : Text → Text
  pub error_from : Text → Option Text
  pub description_back : (d : SessionDescription) → description_from (description_to d) ≡ some d
  pub error_back : (e : Text) → error_from (error_to e) ≡ some e
