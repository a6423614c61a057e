-- ===== src/Prelude/Bytes.antt =====
-- Fixed-width integers as bytes: `to_le_bytes` and `from_le_bytes` of u16, i16 and u32.
use Prim.Native.Nat.{ℕ, ◌+◌, ◌-◌, ◌*◌, ◌/◌, ◌%◌, ◌^◌, ◌<◌}
use mathlib.Core.Path.{◌≡◌}
use mathlib.Core.List.{List, [], ◌∷◌}
use native.Mathlib.Omega.{arith}
use vmscren_share.Prelude.Tests.{ltb, if◌then◌else◌}
use vmscren_share.Prelude.Int.{ℤ, pos, negsuc, ◌≤ℤ◌}

abbrev pub IsByte : ℕ → Type 0
IsByte b = b < 256

abbrev pub IsU16 : ℕ → Type 0
IsU16 v = v < 65536

abbrev pub IsU32 : ℕ → Type 0
IsU32 v = v < 4294967296

-- The range of an i16.
abbrev pub IsI16 : ℤ → Type 0
IsI16 z = (negsuc 32767 ≤ℤ z) × (z ≤ℤ pos 32767)

-- Byte `k` of a number, lowest first.
abbrev pub byte_at : ℕ → ℕ → ℕ
byte_at v k = v / 256 ^ k % 256

abbrev pub u16_to_le_bytes : ℕ → List ℕ
u16_to_le_bytes v = byte_at v 0 ∷ byte_at v 1 ∷ []

abbrev pub u16_from_le_bytes : ℕ → ℕ → ℕ
u16_from_le_bytes a b = a + 256 * b

abbrev pub u32_to_le_bytes : ℕ → List ℕ
u32_to_le_bytes v = byte_at v 0 ∷ byte_at v 1 ∷ byte_at v 2 ∷ byte_at v 3 ∷ []

abbrev pub u32_from_le_bytes : ℕ → ℕ → ℕ → ℕ → ℕ
u32_from_le_bytes a b c d = a + 256 * b + 65536 * c + 16777216 * d

-- An i16 as its bit pattern (two's complement) and back.
abbrev pub i16_bits : ℤ → ℕ
i16_bits (pos n) = n
i16_bits (negsuc n) = 65535 - n

abbrev pub i16_of_bits : ℕ → ℤ
i16_of_bits w = if ltb w 32768 then pos w else negsuc (65535 - w)

pub u16_le_round_trip : (v : ℕ) → IsU16 v → u16_from_le_bytes (byte_at v 0) (byte_at v 1) ≡ v
u16_le_round_trip v h = omega arith

pub u32_le_round_trip :
    (v : ℕ)
    → IsU32 v
    → u32_from_le_bytes (byte_at v 0) (byte_at v 1) (byte_at v 2) (byte_at v 3) ≡ v
u32_le_round_trip v h = omega arith

pub u16_bytes_lo : (a b : ℕ) → IsByte a → IsByte b → byte_at (u16_from_le_bytes a b) 0 ≡ a
u16_bytes_lo a b ha hb = omega arith

pub u16_bytes_hi : (a b : ℕ) → IsByte a → IsByte b → byte_at (u16_from_le_bytes a b) 1 ≡ b
u16_bytes_hi a b ha hb = omega arith

pub i16_bits_lt : (z : ℤ) → IsI16 z → IsU16 (i16_bits z)
i16_bits_lt (pos n) h = omega arith
i16_bits_lt (negsuc n) h = omega arith

pub i16_of_bits-i16_bits : (z : ℤ) → IsI16 z → i16_of_bits (i16_bits z) ≡ z
i16_of_bits-i16_bits (pos n) h = ground arith
i16_of_bits-i16_bits (negsuc n) h = ground arith

pub i16_of_bits_range : (w : ℕ) → IsU16 w → IsI16 (i16_of_bits w)
i16_of_bits_range w h = ground arith

-- The i16 read back from its two bytes.
pub i16_le_round_trip :
    (z : ℤ)
    → IsI16 z
    → i16_of_bits (u16_from_le_bytes (byte_at (i16_bits z) 0) (byte_at (i16_bits z) 1)) ≡ z
i16_le_round_trip z h =
    rw (u16_le_round_trip (i16_bits z) (i16_bits_lt z h)) (i16_of_bits-i16_bits z h)
