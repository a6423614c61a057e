-- ===== src/Server/Capture/Chosen.antt =====
-- Which card and which plane are chosen.
use vmscren_share.Prelude.{
  ℕ, ◌≡◌, refl, ap, Bool, true, false, not, ◌&&◌, if◌then◌else◌, Option, none, some, List, [], ◌∷◌,
  find?,
}
use vmscren_share.Prelude.Result.{err, ok_or}
use vmscren_share.Prelude.Text.{Text, is_empty}
use vmscren_share.Server.Capture.Locate.{
  Card, no_card, no_nodes, is_vkms, has_connector, keep_first, search_cards, find_card, Answers,
  on_crtc, is_primary, plane_type, has_framebuffer, keep_plane, search_planes,
}

-- `Option::or`.
abbrev pub or_else {ℓ} : {A : Type ℓ} → Option A → Option A → Option A
or_else (some a) o = some a
or_else none o = o

-- The cards of the nodes that open.
abbrev pub cards : List (Option Card) → List Card
cards [] = []
cards (none ∷ nodes) = cards nodes
cards (some c ∷ nodes) = c ∷ cards nodes

search_cards-chosen :
    (connector : Text) (nodes : List (Option Card)) (kept : Option Card)
    → search_cards connector nodes kept
      ≡ or_else
          (find? is_vkms (cards nodes))
          (or_else kept (find? (has_connector connector) (cards nodes)))
unfolding search_cards keep_first
search_cards-chosen connector [] none = refl
search_cards-chosen connector [] (some c) = refl
search_cards-chosen connector (none ∷ nodes) kept = search_cards-chosen connector nodes kept
search_cards-chosen connector (some c ∷ nodes) kept =
    by_tests (is_vkms c) (has_connector connector c) kept (search_cards-chosen connector nodes)
  where
    by_tests :
        (vkms fits : Bool) (k : Option Card)
        → ((b : Option Card)
            → search_cards connector nodes b
              ≡ or_else
                  (find? is_vkms (cards nodes))
                  (or_else b (find? (has_connector connector) (cards nodes))))
        → (if vkms then some c else search_cards connector nodes (keep_first k fits c))
          ≡ or_else
              (if vkms then some c else find? is_vkms (cards nodes))
              (or_else k (if fits then some c else find? (has_connector connector) (cards nodes)))
    by_tests true fits k rest = refl
    by_tests false fits (some b) rest = rest (some b)
    by_tests false true none rest = rest (some c)
    by_tests false false none rest = rest none

-- With no card configured, the first card of those that open whose driver is vkms is taken, or else the
-- first that has the connector; with neither, or with no node at all, there is an error.
pub find_card-chosen :
    (connector : Text) (opened : Option Card) (nodes : List (Option Card))
    → find_card [] connector opened nodes ≡ (
        if is_empty nodes
        then err no_nodes
        else ok_or
            (or_else (find? is_vkms (cards nodes)) (find? (has_connector connector) (cards nodes)))
            no_card)
unfolding find_card
find_card-chosen connector opened [] = refl
find_card-chosen connector opened (c ∷ nodes) =
    ap (λ o. ok_or o no_card) (search_cards-chosen connector (c ∷ nodes) none)

search_planes-from :
    (card : Answers) (crtc : ℕ) (hs : List ℕ) (kept : Option ℕ)
    → search_planes card crtc hs kept
      ≡ or_else
          (find? (λ h. on_crtc card crtc h && is_primary (plane_type card h)) hs)
          (or_else kept (find? (λ h. on_crtc card crtc h && has_framebuffer card h) hs))
unfolding search_planes
search_planes-from card crtc [] none = refl
search_planes-from card crtc [] (some k) = refl
search_planes-from card crtc (h ∷ hs) kept =
    by_tests (on_crtc card crtc h) (is_primary (plane_type card h)) (has_framebuffer card h) kept
      (search_planes-from card crtc hs)
  where
    primaries : Option ℕ
    primaries = find? (λ x. on_crtc card crtc x && is_primary (plane_type card x)) hs

    shown : Option ℕ
    shown = find? (λ x. on_crtc card crtc x && has_framebuffer card x) hs

    by_tests :
        (on primary has_fb : Bool) (k : Option ℕ)
        → ((b : Option ℕ) → search_planes card crtc hs b ≡ or_else primaries (or_else b shown))
        → (if not on
            then search_planes card crtc hs k
            else if primary
            then some h
            else search_planes card crtc hs (keep_plane k has_fb h))
          ≡ or_else
              (if on && primary then some h else primaries)
              (or_else k (if on && has_fb then some h else shown))
    by_tests false primary has_fb k rest = rest k
    by_tests true true has_fb k rest = refl
    by_tests true false has_fb (some b) rest = rest (some b)
    by_tests true false true none rest = rest (some h)
    by_tests true false false none rest = rest none

-- The plane of a CRTC: its first primary one, or else the first that has a framebuffer.
pub search_planes-chosen :
    (card : Answers) (crtc : ℕ) (planes : List ℕ)
    → search_planes card crtc planes none
      ≡ or_else
          (find? (λ h. on_crtc card crtc h && is_primary (plane_type card h)) planes)
          (find? (λ h. on_crtc card crtc h && has_framebuffer card h) planes)
search_planes-chosen card crtc planes = search_planes-from card crtc planes none
