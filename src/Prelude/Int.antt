-- ===== src/Prelude/Int.antt =====
-- Signed numbers over the native numbers.
use Prim.Native.Nat.{ℕ, ◌+◌, ◌-◌}
use mathlib.Core.Bool.{Bool, true, false}
use mcu_debug.Prelude.Tests.{ltb, if◌then◌else◌}
use mathlib.Core.Path.{ap}
use native.Mathlib.Decide.{ℕ_discrete}
use native.Mathlib.Omega.{arith}

-- `negsuc n` is -(n + 1).
pub data ℤ : Type 0 where
  pos : ℕ → ℤ
  negsuc : ℕ → ℤ

abbrev side : ℤ → ℕ
side (pos n) = 0
side (negsuc n) = 1

abbrev distance : ℤ → ℕ
distance (pos n) = n
distance (negsuc n) = n

unfoldable pub ℤ_discrete : Discrete ℤ
ℤ_discrete (pos m) (pos n) = elim (ℕ_discrete m n) [
  | yes e ↦ yes (ap pos e)
  | no ne ↦ no (λ e. ne (ap distance e))
]
ℤ_discrete (pos m) (negsuc n) = no (λ e. omega (arith, ap side e))
ℤ_discrete (negsuc m) (pos n) = no (λ e. omega (arith, ap side e))
ℤ_discrete (negsuc m) (negsuc n) = elim (ℕ_discrete m n) [
  | yes e ↦ yes (ap negsuc e)
  | no ne ↦ no (λ e. ne (ap distance e))
]

-- The difference of two natural numbers.
unfoldable pub minus : ℕ → ℕ → ℤ
minus m n = if ltb m n then negsuc (n - m - 1) else pos (m - n)

infixl 60 ◌+ℤ◌
unfoldable pub ◌+ℤ◌ : ℤ → ℤ → ℤ
pos m +ℤ pos n = pos (m + n)
pos m +ℤ negsuc n = minus m (n + 1)
negsuc m +ℤ pos n = minus n (m + 1)
negsuc m +ℤ negsuc n = negsuc (m + n + 1)

unfoldable pub negate : ℤ → ℤ
negate (pos n) = minus 0 n
negate (negsuc n) = pos (n + 1)

unfoldable pub less : ℤ → ℤ → Bool
less (pos m) (pos n) = ltb m n
less (pos m) (negsuc n) = false
less (negsuc m) (pos n) = true
less (negsuc m) (negsuc n) = ltb n m
