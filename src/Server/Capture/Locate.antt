-- ===== src/Server/Capture/Locate.antt =====
-- server/src/capture.rs: the choice of the card, and of the connector, the CRTC and the plane of the
-- display.
use vmscren_share.Prelude.{
  ℕ, Bool, true, false, not, ◌==◌, leb, if◌then◌else◌, Option, none, some, List, [], ◌∷◌,
}
use vmscren_share.Prelude.Result.{Result, ok, err, ok_or, ◌>>=◌}
use vmscren_share.Prelude.Text.{Text, codes, text_eq, is_empty, any, is_some}

-- A card that can be opened, with what it answers about itself.
pub record Card : Type 0 where
  pub path : Text
  pub driver : Option Text
  pub connectors : Option (List Text)

pub data LocateError : Type 0 where
  cannot_open no_nodes no_card no_capability no_resources connector_failed no_connector inactive
        encoder_failed crtc_failed no_framebuffer no_planes no_plane :
      LocateError

unfoldable pub is_vkms : Card → Bool
unfolding text_eq
is_vkms c = elim c.driver [ none ↦ false | some d ↦ text_eq d (codes "vkms") ]

unfoldable pub has_connector : Text → Card → Bool
unfolding text_eq any
has_connector connector c = elim c.connectors [
  | none ↦ false
  | some cs ↦ any (λ n. text_eq n connector) cs
]

-- `by_connector`, with the card that the loop has come to.
unfoldable pub keep_first : Option Card → Bool → Card → Option Card
keep_first (some k) fits c = some k
keep_first none true c = some c
keep_first none false c = none

-- The loop over the nodes, of which some cannot be opened.
unfoldable pub search_cards : (connector : Text) → List (Option Card) → Option Card → Option Card
unfolding is_vkms has_connector keep_first
search_cards connector [] by_connector = by_connector
search_cards connector (none ∷ nodes) by_connector = search_cards connector nodes by_connector
search_cards connector (some c ∷ nodes) by_connector =
    let rest =
      search_cards connector nodes (keep_first by_connector (has_connector connector c) c) in
    if is_vkms c then some c else rest

-- The nodes are those of the `card` files, as they open, and `opened` is the configured one.
unfoldable pub find_card :
    (configured connector : Text)
    → (opened : Option Card) → List (Option Card)
    → Result LocateError Card
unfolding search_cards
find_card configured connector opened nodes =
    if not (is_empty configured)
    then ok_or opened cannot_open
    else if is_empty nodes
    then err no_nodes
    else ok_or (search_cards connector nodes none) no_card

pub record Connector : Type 0 where
  pub handle : ℕ
  pub name : Text
  pub current_encoder : Option ℕ

pub record Mode : Type 0 where
  pub width : ℕ
  pub height : ℕ
  pub refresh : ℕ

pub record CrtcInfo : Type 0 where
  pub mode : Option Mode
  pub framebuffer : Option ℕ

pub record PlaneInfo : Type 0 where
  pub crtc : Option ℕ
  pub framebuffer : Option ℕ

-- A property of a plane, which may have an enum's values with their names, and the raw value.
pub record Property : Type 0 where
  pub name : Text
  pub values : Option (List (ℕ × Text))
  pub raw : ℕ

-- The answers of a card: none is an error of the call.
pub record Answers : Type 0 where
  pub universal_planes : Bool
  pub connectors : Option (List (Option Connector))
  pub get_encoder : ℕ → Option (Option ℕ)
  pub get_crtc : ℕ → Option CrtcInfo
  pub plane_handles : Option (List ℕ)
  pub get_plane : ℕ → Option PlaneInfo
  pub get_properties : ℕ → Option (List (Option Property))

pub record DisplayInfo : Type 0 where
  pub connector : ℕ
  pub crtc : ℕ
  pub plane : ℕ
  pub width : ℕ
  pub height : ℕ
  pub refresh : ℕ

unfoldable pub value_name : (raw : ℕ) → List (ℕ × Text) → Option Text
value_name raw [] = none
value_name raw ((v, name) ∷ vs) =
    let rest = value_name raw vs in if v == raw then some name else rest

-- The value of a property `type`, if it is an enum.
unfoldable pub enum_name : Property → Option Text
unfolding value_name
enum_name p = elim p.values [ none ↦ none | some vs ↦ value_name p.raw vs ]

-- The loop of `plane_type`. Its caller does not tell an error from a plane without a type.
unfoldable pub type_of : List (Option Property) → Option Text
unfolding text_eq enum_name
type_of [] = none
type_of (none ∷ ps) = none
type_of (some p ∷ ps) =
    let rest = type_of ps in if not (text_eq p.name (codes "type")) then rest else enum_name p

unfoldable pub plane_type : Answers → ℕ → Option Text
unfolding type_of
plane_type card plane = elim (card.get_properties plane) [ none ↦ none | some ps ↦ type_of ps ]

unfoldable pub is_primary : Option Text → Bool
unfolding text_eq
is_primary none = false
is_primary (some t) = text_eq t (codes "Primary")

-- Whether a plane is on the CRTC, and has a framebuffer.
abbrev pub is_on : ℕ → Option ℕ → Bool
is_on crtc none = false
is_on crtc (some c) = c == crtc

unfoldable pub on_crtc : Answers → ℕ → ℕ → Bool
on_crtc card crtc handle = elim (card.get_plane handle) [
  | none ↦ false
  | some p ↦ is_on crtc p.crtc
]

unfoldable pub has_framebuffer : Answers → ℕ → Bool
has_framebuffer card handle = elim (card.get_plane handle) [
  | none ↦ false
  | some p ↦ is_some p.framebuffer
]

abbrev pub keep_plane : Option ℕ → Bool → ℕ → Option ℕ
keep_plane (some k) fits h = some k
keep_plane none true h = some h
keep_plane none false h = none

-- The loop over the planes, with the fallback so far: it ends at a primary plane of the CRTC.
unfoldable pub search_planes : Answers → (crtc : ℕ) → List ℕ → (fallback : Option ℕ) → Option ℕ
unfolding on_crtc is_primary plane_type has_framebuffer
search_planes card crtc [] fallback = fallback
search_planes card crtc (h ∷ hs) fallback =
    let passed = search_planes card crtc hs fallback in
    let noted = search_planes card crtc hs (keep_plane fallback (has_framebuffer card h) h) in
    if not (on_crtc card crtc h)
    then passed
    else if is_primary (plane_type card h)
    then some h
    else noted

-- The loop over the connectors keeps the last one of the name.
unfoldable pub search_connectors :
    (wanted : Text)
    → List (Option Connector)
    → (found : Option Connector) → Result LocateError (Option Connector)
unfolding text_eq
search_connectors wanted [] found = ok found
search_connectors wanted (none ∷ cs) found = err connector_failed
search_connectors wanted (some c ∷ cs) found =
    search_connectors wanted cs (if text_eq c.name wanted then some c else found)

unfoldable pub check_framebuffer : Option ℕ → Result LocateError (Unit {0})
check_framebuffer none = err no_framebuffer
check_framebuffer (some fb) = ok tt

-- The parts of `locate_display`, from its end: the plane and the display.
unfoldable pub locate_plane :
    Answers → Connector → (crtc : ℕ) → Mode → Result LocateError DisplayInfo
unfolding search_planes
locate_plane card conn crtc mode = do
  planes ← ok_or card.plane_handles no_planes
  plane ← ok_or (search_planes card crtc planes none) no_plane
  ok (record {
    connector = conn.handle;
    crtc = crtc;
    plane = plane;
    width = mode.width;
    height = mode.height;
    refresh = mode.refresh;
  })

unfoldable pub locate_crtc : Answers → Connector → (crtc : ℕ) → Result LocateError DisplayInfo
unfolding check_framebuffer locate_plane
locate_crtc card conn crtc = do
  crtc_info ← ok_or (card.get_crtc crtc) crtc_failed
  mode ← ok_or crtc_info.mode inactive
  checked ← check_framebuffer crtc_info.framebuffer
  locate_plane card conn crtc mode

unfoldable pub locate_encoder : Answers → Connector → Result LocateError DisplayInfo
unfolding locate_crtc
locate_encoder card conn = do
  encoder ← ok_or conn.current_encoder inactive
  enc ← ok_or (card.get_encoder encoder) encoder_failed
  crtc ← ok_or enc inactive
  locate_crtc card conn crtc

-- From the resources of the card on.
unfoldable pub locate_among : Answers → (wanted : Text) → Result LocateError DisplayInfo
unfolding search_connectors locate_encoder
locate_among card wanted = do
  handles ← ok_or card.connectors no_resources
  found ← search_connectors wanted handles none
  conn ← ok_or found no_connector
  locate_encoder card conn

unfoldable pub locate_display : Answers → (wanted : Text) → Result LocateError DisplayInfo
unfolding locate_among
locate_display card wanted =
    if not card.universal_planes then err no_capability else locate_among card wanted

-- `wait_for_display`, given the time that has gone by at each attempt: the first attempt that succeeds,
-- or the first that fails at the deadline. None is a wait that goes on.
unfoldable pub wait_for_display :
    {A : Type 0}
    → (deadline : Option ℕ) → List (ℕ × Result LocateError A)
    → Option (Result LocateError A)
wait_for_display deadline [] = none
wait_for_display deadline ((elapsed, ok a) ∷ rest) = some (ok a)
wait_for_display none ((elapsed, err e) ∷ rest) = wait_for_display none rest
wait_for_display (some d) ((elapsed, err e) ∷ rest) =
    let later = wait_for_display (some d) rest in if leb d elapsed then some (err e) else later
