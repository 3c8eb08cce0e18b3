-- ===== src/Common/Int.antt =====
-- Signed integers, and the 64-bit pattern that a conversion to uint64 gives.
use Prim.Native.Nat.{ℕ, ◌-◌, ◌%◌, ◌^◌, ◌<◌}
use mathlib.Core.Path.{◌≡◌, ap}
use native.Mathlib.Omega.{arith}

-- `negsuc n` is -(n + 1).
pub data ℤ : Type 0 where
  pos : ℕ → ℤ
  negsuc : ℕ → ℤ

-- `uint64(v)`
unfoldable pub to_uint64 : ℤ → ℕ
to_uint64 (pos n) = n % 2 ^ 64
to_uint64 (negsuc n) = 2 ^ 64 - 1 - n % 2 ^ 64

-- The range of int64.
abbrev pub IsInt64 : ℤ → Type 0
IsInt64 (pos n) = n < 2 ^ 63
IsInt64 (negsuc n) = n < 2 ^ 63

pub to_uint64-injective : (a b : ℤ) → IsInt64 a → IsInt64 b → to_uint64 a ≡ to_uint64 b → a ≡ b
unfolding to_uint64
to_uint64-injective (pos m) (pos n) h k e = ap pos (omega arith)
to_uint64-injective (pos m) (negsuc n) h k e = absurd (omega arith)
to_uint64-injective (negsuc m) (pos n) h k e = absurd (omega arith)
to_uint64-injective (negsuc m) (negsuc n) h k e = ap negsuc (omega arith)

pub to_uint64_bound : (a : ℤ) → to_uint64 a < 2 ^ 64
unfolding to_uint64
to_uint64_bound (pos n) = omega arith
to_uint64_bound (negsuc n) = omega arith
