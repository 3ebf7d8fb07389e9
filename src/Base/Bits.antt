-- ===== src/Base/Bits.antt =====
-- Low masks and Go's `&^` (and not) as arithmetic.
use Prim.Native.Nat.{
  ℕ, zero, suc, ◌+◌, ◌-◌, ◌*◌, ◌/◌, ◌%◌, ◌≤◌, min, max, bit_and, bit_or, digits, bit_and-bitwise,
  bit_or-bitwise, ◌<◌, ◌^◌,
}
use mathlib.Core.Path.{◌≡◌, refl, ap, sym, ◌∙◌}
use native.Mathlib.Omega.{arith}
use native.Mathlib.Nat.{mul_assoc, pow-suc}

-- `x &^ m`: the bits of `m` cleared.
abbrev pub and_not : ℕ → ℕ → ℕ
and_not x m = x - bit_and x m

abbrev min_digits : ℕ → ℕ → ℕ → ℕ
min_digits k a b = digits (λ b. zero) min k a b

-- Fuel beyond the number itself changes no digit.
min_digits-enough : (k j a b : ℕ) → a ≤ k → a ≤ j → min_digits k a b ≡ min_digits j a b
min_digits-enough zero zero a b p q = refl
min_digits-enough zero (suc j) zero b p q = refl
min_digits-enough zero (suc j) (suc a) b p q = absurd (omega arith)
min_digits-enough (suc k) zero zero b p q = refl
min_digits-enough (suc k) zero (suc a) b p q = absurd (omega arith)
min_digits-enough (suc k) (suc j) zero b p q = refl
min_digits-enough (suc k) (suc j) (suc a) b p q =
    omega (arith, min_digits-enough k j (suc a / 2) (b / 2) (omega arith) (omega arith))

-- The lowest bit, and the rest.
pub bit_and-halves : (a b : ℕ) → bit_and a b ≡ 2 * bit_and (a / 2) (b / 2) + min (a % 2) (b % 2)
bit_and-halves zero b = omega (arith, bit_and-bitwise 0 b, bit_and-bitwise 0 (b / 2))
bit_and-halves (suc a) b = omega (
  arith,
  bit_and-bitwise (suc a) b,
  bit_and-bitwise (suc a / 2) (b / 2),
  min_digits-enough a (suc a / 2) (suc a / 2) (b / 2) (omega arith) (omega arith),
)

bit_and-zero_below : (k a : ℕ) → a ≤ k → bit_and a 0 ≡ 0
bit_and-zero_below k zero h = refl
bit_and-zero_below zero (suc a) h = absurd (omega arith)
bit_and-zero_below (suc k) (suc a) h =
    omega (arith, bit_and-halves (suc a) 0, bit_and-zero_below k (suc a / 2) (omega arith))

pub bit_and-one : (a : ℕ) → bit_and a 1 ≡ a % 2
bit_and-one a = omega (arith, bit_and-halves a 1, bit_and-zero_below (a / 2) (a / 2) (omega arith))

pub bit_and_three : (a : ℕ) → bit_and a 3 ≡ a % 4
bit_and_three a = omega (arith, bit_and-halves a 3, bit_and-one (a / 2))

pub bit_and_seven : (a : ℕ) → bit_and a 7 ≡ a % 8
bit_and_seven a = omega (arith, bit_and-halves a 7, bit_and_three (a / 2))

pub bit_and_fifteen : (a : ℕ) → bit_and a 15 ≡ a % 16
bit_and_fifteen a = omega (arith, bit_and-halves a 15, bit_and_seven (a / 2))

bit_and_five_ones : (a : ℕ) → bit_and a 31 ≡ a % 32
bit_and_five_ones a = omega (arith, bit_and-halves a 31, bit_and_fifteen (a / 2))

bit_and_six_ones : (a : ℕ) → bit_and a 63 ≡ a % 64
bit_and_six_ones a = omega (arith, bit_and-halves a 63, bit_and_five_ones (a / 2))

bit_and_seven_ones : (a : ℕ) → bit_and a 127 ≡ a % 128
bit_and_seven_ones a = omega (arith, bit_and-halves a 127, bit_and_six_ones (a / 2))

bit_and_eight_ones : (a : ℕ) → bit_and a 255 ≡ a % 256
bit_and_eight_ones a = omega (arith, bit_and-halves a 255, bit_and_seven_ones (a / 2))

pub bit_and_nine_ones : (a : ℕ) → bit_and a 511 ≡ a % 512
bit_and_nine_ones a = omega (arith, bit_and-halves a 511, bit_and_eight_ones (a / 2))

-- As for `bit_and`, but with the greater digit.
abbrev max_digits : ℕ → ℕ → ℕ → ℕ
max_digits k a b = digits (λ b. b) max k a b

max_digits-enough : (k j a b : ℕ) → a ≤ k → a ≤ j → max_digits k a b ≡ max_digits j a b
max_digits-enough zero zero a b p q = refl
max_digits-enough zero (suc j) zero b p q = refl
max_digits-enough zero (suc j) (suc a) b p q = absurd (omega arith)
max_digits-enough (suc k) zero zero b p q = refl
max_digits-enough (suc k) zero (suc a) b p q = absurd (omega arith)
max_digits-enough (suc k) (suc j) zero b p q = refl
max_digits-enough (suc k) (suc j) (suc a) b p q =
    omega (arith, max_digits-enough k j (suc a / 2) (b / 2) (omega arith) (omega arith))

bit_or-halves : (a b : ℕ) → bit_or a b ≡ 2 * bit_or (a / 2) (b / 2) + max (a % 2) (b % 2)
bit_or-halves zero b = omega (arith, bit_or-bitwise 0 b, bit_or-bitwise 0 (b / 2))
bit_or-halves (suc a) b = omega (
  arith,
  bit_or-bitwise (suc a) b,
  bit_or-bitwise (suc a / 2) (b / 2),
  max_digits-enough a (suc a / 2) (suc a / 2) (b / 2) (omega arith) (omega arith),
)

bit_or-zero_below : (k a : ℕ) → a ≤ k → bit_or a 0 ≡ a
bit_or-zero_below k zero h = refl
bit_or-zero_below zero (suc a) h = absurd (omega arith)
bit_or-zero_below (suc k) (suc a) h =
    omega (arith, bit_or-halves (suc a) 0, bit_or-zero_below k (suc a / 2) (omega arith))

bit_or_double : (x p : ℕ) → bit_or x (p / 2) ≡ x + p / 2 → bit_or (2 * x) p ≡ 2 * x + p
bit_or_double x p h =
    let half : 2 * x / 2 ≡ x = omega arith in
    omega (arith, bit_or-halves (2 * x) p, ap (λ (y : ℕ). bit_or y (p / 2)) half)

-- Numbers with no digit in common: one has the low digits, the other those from place `k` on.
pub bit_or-shifted : (k a p : ℕ) → p < 2 ^ k → bit_or (a * 2 ^ k) p ≡ a * 2 ^ k + p
bit_or-shifted zero a p h =
    let none_left : p ≡ 0 = omega arith in
    rw none_left (omega (arith, bit_or-zero_below (a * 1) (a * 1) (omega arith)))
bit_or-shifted (suc k) a p h =
    let double : a * 2 ^ suc k ≡ 2 * (a * 2 ^ k) =
      ap (λ (n : ℕ). a * n) (pow-suc 2 k) ∙ sym (mul_assoc a (2 ^ k) 2) ∙ omega arith in
    rw double (bit_or_double (a * 2 ^ k) p (bit_or-shifted k a (p / 2) (omega arith)))
