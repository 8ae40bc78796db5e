-- ===== src/Base/Bits.antt =====
-- Masking: `a & mask` is at most `mask`, whatever `a` is.
use Prim.Native.Nat.{ℕ, zero, suc, ◌/◌, ◌≤◌, min, bit_and, digits, bit_and-bitwise}
use native.Mathlib.Omega.{arith}

-- The digits that the two numbers share, as many as the fuel allows.
abbrev shared : (fuel a mask : ℕ) → ℕ
shared fuel a mask = digits (λ _. 0) min fuel a mask

shared-le : (fuel a mask : ℕ) → shared fuel a mask ≤ mask
shared-le zero a mask = omega arith
shared-le (suc fuel) zero mask = omega arith
shared-le (suc fuel) (suc a) mask = omega (arith, shared-le fuel (suc a / 2) (mask / 2))

pub bit_and-le : (a mask : ℕ) → bit_and a mask ≤ mask
bit_and-le a mask = omega (arith, bit_and-bitwise a mask, shared-le a a mask)
