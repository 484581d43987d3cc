-- ===== src/Prelude/Bits.antt =====
-- Masks over a byte, by evaluation at each of its values.
use Prim.Native.Nat.{ℕ, zero, suc, ◌*◌, ◌/◌, ◌%◌, ◌<◌, bit_and}
use mathlib.Core.Path.{◌≡◌, refl}
use mathlib.Core.Bool.{Bool, true, ◌&&◌}
use native.Mathlib.Omega.{arith}
use mcu_debug.Prelude.Tests.{◌==◌}

-- The two functions give the same at each of the first `count` numbers.
agree : (ℕ → ℕ) → (ℕ → ℕ) → ℕ → Bool
agree f g zero = true
agree f g (suc count) = agree f g count && f count == g count

agree→eq : (f g : ℕ → ℕ) (count : ℕ) → agree f g count ≡ true → (k : ℕ) → k < count → f k ≡ g k
unfolding agree
agree→eq f g zero table k bound = absurd (omega arith)
agree→eq f g (suc count) table k bound = ground (arith, agree→eq f g count (ground arith) k)

pub bit_and-3 : (x : ℕ) → x < 256 → bit_and x 3 ≡ x % 4
unfolding agree
bit_and-3 = agree→eq (λ y. bit_and y 3) (λ y. y % 4) 256 refl

pub bit_and-4 : (x : ℕ) → x < 256 → bit_and x 4 ≡ 4 * (x / 4 % 2)
unfolding agree
bit_and-4 = agree→eq (λ y. bit_and y 4) (λ y. 4 * (y / 4 % 2)) 256 refl

pub bit_and-15 : (x : ℕ) → x < 256 → bit_and x 15 ≡ x % 16
unfolding agree
bit_and-15 = agree→eq (λ y. bit_and y 15) (λ y. y % 16) 256 refl

pub bit_and-128 : (x : ℕ) → x < 256 → bit_and x 128 ≡ 128 * (x / 128)
unfolding agree
bit_and-128 = agree→eq (λ y. bit_and y 128) (λ y. 128 * (y / 128)) 256 refl

pub bit_and-248 : (x : ℕ) → x < 256 → bit_and x 248 / 8 ≡ x / 8
unfolding agree
bit_and-248 = agree→eq (λ y. bit_and y 248 / 8) (λ y. y / 8) 256 refl
