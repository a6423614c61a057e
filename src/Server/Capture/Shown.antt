-- ===== src/Server/Capture/Shown.antt =====
-- What locate_display finds: the connector, its CRTC, and the plane that is captured.
use vmscren_share.Prelude.{
  ℕ, ◌≡◌, refl, sym, ap, Bool, true, false, not, ◌&&◌, ◌⊎◌, subst, ◌∙◌, if◌then◌else◌, Option, none,
  some, List, [], ◌∷◌, find?, inl, inr,
}
use vmscren_share.Prelude.Result.{ok, err, ok_or, from_ok, ok_inj}
use vmscren_share.Prelude.Text.{Text, text_eq}
use vmscren_share.Server.Capture.Locate.{
  LocateError, Connector, Mode, CrtcInfo, Answers, DisplayInfo, on_crtc, is_primary, plane_type,
  has_framebuffer, search_planes, search_connectors, no_capability, locate_plane, locate_crtc,
  locate_encoder, locate_among, no_resources, no_connector, inactive, encoder_failed, crtc_failed,
  no_planes, no_plane, check_framebuffer, locate_display,
}
use vmscren_share.Server.Capture.Chosen.{or_else, search_planes-chosen}

-- The connector of a name among those of a card, each of which must have been read.
unfoldable pub Among : Connector → List (Option Connector) → Type 0
Among c [] = ⊥
Among c (o ∷ os) = (o ≡ some c) ⊎ Among c os

-- The plane is the first primary one of the CRTC, or else the first that has a framebuffer.
pub record ShowsPlane (card : Answers) (c : Connector) (crtc : ℕ) (mode : Mode) (d : DisplayInfo)
    : Type 0 where
  pub planes : List ℕ
  pub has_planes : card.plane_handles ≡ some planes
  pub chosen :
      or_else
        (find? (λ h. on_crtc card crtc h && is_primary (plane_type card h)) planes)
        (find? (λ h. on_crtc card crtc h && has_framebuffer card h) planes)
      ≡ some d.plane
  pub is_connector : d.connector ≡ c.handle
  pub is_crtc : d.crtc ≡ crtc
  pub sized : (d.width ≡ mode.width) × ((d.height ≡ mode.height) × (d.refresh ≡ mode.refresh))

-- The CRTC has a framebuffer, and a mode, which is that of the display.
pub record ShowsCrtc (card : Answers) (c : Connector) (crtc : ℕ) (d : DisplayInfo) : Type 0 where
  pub info : CrtcInfo
  pub has_info : card.get_crtc crtc ≡ some info
  pub mode : Mode
  pub has_mode : info.mode ≡ some mode
  pub framebuffer : ℕ
  pub scanned_out : info.framebuffer ≡ some framebuffer
  pub plane : ShowsPlane card c crtc mode d

-- The connector leads to the CRTC through its encoder.
pub record ShowsConnector (card : Answers) (c : Connector) (d : DisplayInfo) : Type 0 where
  pub encoder : ℕ
  pub has_encoder : c.current_encoder ≡ some encoder
  pub crtc : ℕ
  pub has_crtc : card.get_encoder encoder ≡ some (some crtc)
  pub shows : ShowsCrtc card c crtc d

-- A display that is scanned out by a connector of the card that has the name.
pub record IsShown (card : Answers) (wanted : Text) (d : DisplayInfo) : Type 0 where
  pub handles : List (Option Connector)
  pub listed : card.connectors ≡ some handles
  pub connector : Connector
  pub among : Among connector handles
  pub named : text_eq connector.name wanted ≡ true
  pub shows : ShowsConnector card connector d

from_ok_or : {A : Type 0} (o : Option A) (e : LocateError) (a : A) → ok_or o e ≡ ok a → o ≡ some a
from_ok_or none e a h = cc
from_ok_or (some x) e a h = ap some (ok_inj h)

search_connectors-named :
    (wanted : Text) (cs : List (Option Connector)) (found : Option Connector) (c : Connector)
    → search_connectors wanted cs found ≡ ok (some c)
    → (found ≡ some c) ⊎ (Among c cs × (text_eq c.name wanted ≡ true))
unfolding search_connectors Among
search_connectors-named wanted [] found c e = inl (ok_inj e)
search_connectors-named wanted (none ∷ cs) found c e = cc
search_connectors-named wanted (some x ∷ cs) found c e =
    by_name (text_eq x.name wanted) refl
      (search_connectors-named wanted cs (if text_eq x.name wanted then some x else found) c e)
  where
    by_name :
        (b : Bool)
        → text_eq x.name wanted ≡ b
        → ((if b then some x else found) ≡ some c) ⊎ (Among c cs × (text_eq c.name wanted ≡ true))
        → (found ≡ some c)
          ⊎ (((◌≡◌ {A = Option Connector} (some x) (some c)) ⊎ Among c cs)
              × (text_eq c.name wanted ≡ true))
    by_name b t (inr (among, named)) = inr (inr among, named)
    by_name false t (inl same) = inl same
    by_name true t (inl same) =
        let is : x ≡ c = cc in
        inr (inl same, subst (λ (y : Connector). text_eq y.name wanted ≡ true) is t)

from_check : (o : Option ℕ) (u : Unit {0}) → check_framebuffer o ≡ ok u → (fb : ℕ) × (o ≡ some fb)
unfolding check_framebuffer
from_check none u e = cc
from_check (some fb) u e = (fb, refl)

locate_plane-ShowsPlane :
    (card : Answers) (c : Connector) (crtc : ℕ) (mode : Mode) (d : DisplayInfo)
    → locate_plane card c crtc mode ≡ ok d
    → ShowsPlane card c crtc mode d
unfolding locate_plane
locate_plane-ShowsPlane card c crtc mode d e =
    let (planes, (e1, r1)) = from_ok (ok_or card.plane_handles no_planes) _ d e in
    let (plane, (e2, r2)) = from_ok (ok_or (search_planes card crtc planes none) no_plane) _ d r1 in
    subst (ShowsPlane card c crtc mode) (ok_inj r2) (record {
      planes = planes;
      has_planes = from_ok_or card.plane_handles no_planes planes e1;
      chosen =
          sym (search_planes-chosen card crtc planes)
          ∙ from_ok_or (search_planes card crtc planes none) no_plane plane e2;
      is_connector = refl;
      is_crtc = refl;
      sized = (refl, (refl, refl));
    })

locate_crtc-ShowsCrtc :
    (card : Answers) (c : Connector) (crtc : ℕ) (d : DisplayInfo)
    → locate_crtc card c crtc ≡ ok d
    → ShowsCrtc card c crtc d
unfolding locate_crtc
locate_crtc-ShowsCrtc card c crtc d e =
    let (info, (e1, r1)) = from_ok (ok_or (card.get_crtc crtc) crtc_failed) _ d e in
    let (mode, (e2, r2)) = from_ok (ok_or info.mode inactive) _ d r1 in
    let (checked, (e3, r3)) = from_ok (check_framebuffer info.framebuffer) _ d r2 in
    let (fb, has_fb) = from_check info.framebuffer checked e3 in
    record {
      info = info;
      has_info = from_ok_or (card.get_crtc crtc) crtc_failed info e1;
      mode = mode;
      has_mode = from_ok_or info.mode inactive mode e2;
      framebuffer = fb;
      scanned_out = has_fb;
      plane = locate_plane-ShowsPlane card c crtc mode d r3;
    }

locate_encoder-ShowsConnector :
    (card : Answers) (c : Connector) (d : DisplayInfo)
    → locate_encoder card c ≡ ok d
    → ShowsConnector card c d
unfolding locate_encoder
locate_encoder-ShowsConnector card c d e =
    let (encoder, (e1, r1)) = from_ok (ok_or c.current_encoder inactive) _ d e in
    let (enc, (e2, r2)) = from_ok (ok_or (card.get_encoder encoder) encoder_failed) _ d r1 in
    let (crtc, (e3, r3)) = from_ok (ok_or enc inactive) _ d r2 in
    record {
      encoder = encoder;
      has_encoder = from_ok_or c.current_encoder inactive encoder e1;
      crtc = crtc;
      has_crtc =
          from_ok_or (card.get_encoder encoder) encoder_failed enc e2
          ∙ ap some (from_ok_or enc inactive crtc e3);
      shows = locate_crtc-ShowsCrtc card c crtc d r3;
    }

locate_among-IsShown :
    (card : Answers) (wanted : Text) (d : DisplayInfo)
    → locate_among card wanted ≡ ok d
    → IsShown card wanted d
unfolding locate_among
locate_among-IsShown card wanted d e =
    let (handles, (e1, r1)) = from_ok (ok_or card.connectors no_resources) _ d e in
    let (found, (e2, r2)) = from_ok (search_connectors wanted handles none) _ d r1 in
    let (conn, (e3, r3)) = from_ok (ok_or found no_connector) _ d r2 in
    let (among, named) = listed handles conn (e2 ∙ ap ok (from_ok_or found no_connector conn e3)) in
    record {
      handles = handles;
      listed = from_ok_or card.connectors no_resources handles e1;
      connector = conn;
      among = among;
      named = named;
      shows = locate_encoder-ShowsConnector card conn d r3;
    }
  where
    listed :
        (cs : List (Option Connector)) (c : Connector)
        → search_connectors wanted cs none ≡ ok (some c)
        → Among c cs × (text_eq c.name wanted ≡ true)
    listed cs c h = elim (search_connectors-named wanted cs none c h) [
      | inl n ↦ cc
      | inr found ↦ found
    ]

-- A display that locate_display finds is scanned out, by the connector that is wanted, and its plane is
-- the first primary one of its CRTC, or else the first that has a framebuffer.
pub locate_display-IsShown :
    (card : Answers) (wanted : Text) (d : DisplayInfo)
    → locate_display card wanted ≡ ok d
    → IsShown card wanted d
unfolding locate_display
locate_display-IsShown card wanted d e = by_capability card.universal_planes e
  where
    by_capability :
        (b : Bool)
        → (if not b then err no_capability else locate_among card wanted) ≡ ok d
        → IsShown card wanted d
    by_capability true h = locate_among-IsShown card wanted d h
    by_capability false h = cc
