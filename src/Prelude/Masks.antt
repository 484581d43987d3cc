-- ===== src/Prelude/Masks.antt =====
-- `&` with a mask of `k` ones keeps the low `k` bits.
use Prim.Native.Nat.{
  ℕ, zero, suc, ◌+◌, ◌*◌, ◌/◌, ◌%◌, ◌^◌, ◌≤◌, ◌<◌, min, bit_and, digits, bit_and-bitwise,
}
use mathlib.Core.Path.{◌≡◌, refl, ap}
use native.Mathlib.Nat.{pow-suc, one-le-pow, mod-add-div, div-div-eq-div-mul}
use native.Mathlib.Omega.{arith}

-- The recursion that the native operation stands for, down the digits of the first number.
abbrev met : ℕ → ℕ → ℕ → ℕ
met = digits (λ b. zero) min

met-rounds : (b : ℕ) {a : ℕ} (few many : ℕ) → a ≤ few → a ≤ many → met few a b ≡ met many a b
met-rounds b {a = zero} zero zero h k = refl
met-rounds b {a = zero} zero (suc many) h k = refl
met-rounds b {a = zero} (suc few) zero h k = refl
met-rounds b {a = zero} (suc few) (suc many) h k = refl
met-rounds b {a = suc a} zero many h k = absurd (omega arith)
met-rounds b {a = suc a} (suc few) zero h k = absurd (omega arith)
met-rounds b {a = suc a} (suc few) (suc many) h k =
    let rest = met-rounds (b / 2) {a = suc a / 2} few many (omega arith) (omega arith) in
    omega (arith, rest)

bit_and-halves : (a b : ℕ) → bit_and a b ≡ 2 * bit_and (a / 2) (b / 2) + min (a % 2) (b % 2)
bit_and-halves zero b = omega (arith, bit_and-bitwise zero b, bit_and-bitwise zero (b / 2))
bit_and-halves (suc a) b = omega (
  arith,
  bit_and-bitwise (suc a) b,
  bit_and-bitwise (suc a / 2) (b / 2),
  met-rounds (b / 2) {a = suc a / 2} a (suc a / 2) (omega arith) (omega arith),
)

bit_and-nothing : (rounds a : ℕ) → a ≤ rounds → bit_and a 0 ≡ 0
bit_and-nothing rounds zero h = refl
bit_and-nothing zero (suc a) h = absurd (omega arith)
bit_and-nothing (suc rounds) (suc a) h =
    omega (arith, bit_and-halves (suc a) 0, bit_and-nothing rounds (suc a / 2) (omega arith))

-- Of the digits of `a`, the lowest comes off first.
low_digit : (a m : ℕ) → 0 < m → a % (2 * m) ≡ 2 * (a / 2 % m) + a % 2
low_digit a m h =
    let whole = mod-add-div a (2 * m) in
    let half = mod-add-div (a / 2) m in
    let same = ap (λ (q : ℕ). m * q) (div-div-eq-div-mul a 2 m) in omega (arith, whole, half, same)

pub bit_and-ones : (k a mask : ℕ) → mask + 1 ≡ 2 ^ k → bit_and a mask ≡ a % 2 ^ k
bit_and-ones zero a mask h =
    let none_low : mask ≡ 0 = omega arith in
    rw none_low (omega (arith, bit_and-nothing a a (omega arith)))
bit_and-ones (suc k) a mask h =
    let twice : 2 ^ suc k ≡ 2 * 2 ^ k = omega (arith, pow-suc 2 k) in
    let positive = one-le-pow k 2 (omega arith) in
    let rest = bit_and-ones k (a / 2) (mask / 2) (omega (arith, twice)) in
    rw twice
      (omega (arith, twice, positive, bit_and-halves a mask, rest, low_digit a (2 ^ k) positive))

-- The fourth digit alone.
pub bit_and-8 : (a : ℕ) → bit_and a 8 ≡ 8 * (a / 8 % 2)
bit_and-8 a = omega (
  arith,
  bit_and-halves a 8,
  bit_and-halves (a / 2) 4,
  bit_and-halves (a / 2 / 2) 2,
  bit_and-ones 1 (a / 2 / 2 / 2) 1 refl,
)
