-- ===== src/Prelude/Arith.antt =====
-- Products, which the arithmetic tactics take as they stand.
use Prim.Native.Nat.{ℕ, zero, suc, ◌+◌, ◌*◌, ◌≤◌, ◌<◌}
use native.Mathlib.Omega.{arith}

pub mul_mono : (a b c : ℕ) → a ≤ b → a * c ≤ b * c
mul_mono zero b c h = omega arith
mul_mono (suc a) zero c h = absurd (omega arith)
mul_mono (suc a) (suc b) c h = omega (arith, mul_mono a b c (omega arith))

-- A row ends before the next one starts.
pub row_end : (a b c : ℕ) → a < b → a * c + c ≤ b * c
row_end a b c h = omega (arith, mul_mono (suc a) b c (omega arith))
