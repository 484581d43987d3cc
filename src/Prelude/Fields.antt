-- ===== src/Prelude/Fields.antt =====
-- `|` of two fields that share no bit is their sum.
use Prim.Native.Nat.{
  ℕ, zero, suc, ◌+◌, ◌*◌, ◌/◌, ◌%◌, ◌^◌, ◌≤◌, ◌<◌, max, bit_or, digits, bit_or-bitwise,
}
use mathlib.Core.Path.{◌≡◌, refl, ap}
use native.Mathlib.Nat.{pow-suc}
use native.Mathlib.Omega.{arith}

-- The recursion that the native operation stands for, down the digits of the first number.
abbrev joined : ℕ → ℕ → ℕ → ℕ
joined = digits (λ b. b) max

-- Any two numbers of rounds that reach the last digit give the same.
joined-rounds :
    (b : ℕ) {a : ℕ} (few many : ℕ) → a ≤ few → a ≤ many → joined few a b ≡ joined many a b
joined-rounds b {a = zero} zero zero h k = refl
joined-rounds b {a = zero} zero (suc many) h k = refl
joined-rounds b {a = zero} (suc few) zero h k = refl
joined-rounds b {a = zero} (suc few) (suc many) h k = refl
joined-rounds b {a = suc a} zero many h k = absurd (omega arith)
joined-rounds b {a = suc a} (suc few) zero h k = absurd (omega arith)
joined-rounds b {a = suc a} (suc few) (suc many) h k =
    let rest = joined-rounds (b / 2) {a = suc a / 2} few many (omega arith) (omega arith) in
    omega (arith, rest)

bit_or-halves : (a b : ℕ) → bit_or a b ≡ 2 * bit_or (a / 2) (b / 2) + max (a % 2) (b % 2)
bit_or-halves zero b = omega (arith, bit_or-bitwise zero b, bit_or-bitwise zero (b / 2))
bit_or-halves (suc a) b = omega (
  arith,
  bit_or-bitwise (suc a) b,
  bit_or-bitwise (suc a / 2) (b / 2),
  joined-rounds (b / 2) {a = suc a / 2} a (suc a / 2) (omega arith) (omega arith),
)

bit_or-nothing : (rounds a : ℕ) → a ≤ rounds → bit_or a 0 ≡ a
bit_or-nothing rounds zero h = refl
bit_or-nothing zero (suc a) h = absurd (omega arith)
bit_or-nothing (suc rounds) (suc a) h =
    omega (arith, bit_or-halves (suc a) 0, bit_or-nothing rounds (suc a / 2) (omega arith))

-- The high field stands `k` bits above the low one.
pub bit_or-fields : (k high low : ℕ) → low < 2 ^ k → bit_or (high * 2 ^ k) low ≡ high * 2 ^ k + low
bit_or-fields zero high low h =
    let none_low : low ≡ 0 = omega arith in
    let same : high * 2 ^ 0 ≡ high = omega arith in
    rw (none_low, same) (omega (arith, bit_or-nothing high high (omega arith)))
bit_or-fields (suc k) high low h =
    let twice : high * 2 ^ suc k ≡ 2 * (high * 2 ^ k) =
      omega (arith, ap (λ (t : ℕ). high * t) (pow-suc 2 k)) in
    let half : high * 2 ^ suc k / 2 ≡ high * 2 ^ k = omega (arith, twice) in
    let lower = bit_or-fields k high (low / 2) (omega (arith, pow-suc 2 k)) in
    omega (
      arith,
      bit_or-halves (high * 2 ^ suc k) low,
      ap (λ (t : ℕ). bit_or t (low / 2)) half,
      lower,
      twice,
    )

-- Setting the fourth digit.
pub bit_or-8 : (a : ℕ) → bit_or a 8 ≡ a / 16 * 16 + 8 + a % 8
bit_or-8 a = omega (
  arith,
  bit_or-halves a 8,
  bit_or-halves (a / 2) 4,
  bit_or-halves (a / 2 / 2) 2,
  bit_or-halves (a / 2 / 2 / 2) 1,
  bit_or-nothing (a / 2 / 2 / 2 / 2) (a / 2 / 2 / 2 / 2) (omega arith),
)
