-- ===== src/Proto/MouseButton.antt =====
-- proto/src/message.rs: the mouse buttons of the control channel and their wire values.
use vmscren_share.Prelude.{ℕ, ◌≡◌, ◌↔◌, refl, ◌==◌, Option, some, List, [], ◌∷◌, find?, arith}

pub data MouseButton : Type 0 where
  left right middle back forward : MouseButton

-- The discriminant, `self as u8`.
unfoldable pub as_u8 : MouseButton → ℕ
as_u8 left = 0
as_u8 right = 1
as_u8 middle = 2
as_u8 back = 3
as_u8 forward = 4

-- `MouseButton::ALL`.
unfoldable pub all : List MouseButton
all = left ∷ right ∷ middle ∷ back ∷ forward ∷ []

unfoldable pub from_u8 : ℕ → Option MouseButton
unfolding all as_u8
from_u8 v = find? (λ b. as_u8 b == v) all

pub from_u8-as_u8 : (b : MouseButton) → from_u8 (as_u8 b) ≡ some b
unfolding from_u8
from_u8-as_u8 left = refl
from_u8-as_u8 _ = refl

-- A byte decodes to a button exactly when it is the discriminant of that button.
pub from_u8-as_u8_iff : (v : ℕ) (b : MouseButton) → (from_u8 v ≡ some b) ↔ (as_u8 b ≡ v)
unfolding from_u8
from_u8-as_u8_iff v b = (λ h. ground arith, λ e. ground (arith, from_u8-as_u8 b))
