-- ===== src/Cdvi/Xor.antt =====
-- Facts about the exclusive or of two numbers, `^` in the source, from its binary digits.
use Prim.Native.Nat.{
  ℕ, zero, suc, ◌+◌, ◌*◌, ◌/◌, ◌%◌, ◌≤◌, ◌<◌, bit_xor, digits, differ, bit_xor-bitwise,
}
use mathlib.Core.Path.{◌≡◌, refl}
use mathlib.Core.Logic.{◌⊎◌, inl, inr}
use native.Mathlib.Omega.{arith}

abbrev xor_digits : ℕ → ℕ → ℕ → ℕ
xor_digits n a b = digits (λ b. b) differ n a b

xor_digits_fuel : (n m a b : ℕ) → a ≤ n → a ≤ m → xor_digits n a b ≡ xor_digits m a b
xor_digits_fuel zero zero a b p q = refl
xor_digits_fuel zero (suc m) zero b p q = refl
xor_digits_fuel zero (suc m) (suc a) b p q = absurd (omega arith)
xor_digits_fuel (suc n) zero zero b p q = refl
xor_digits_fuel (suc n) zero (suc a) b p q = absurd (omega arith)
xor_digits_fuel (suc n) (suc m) zero b p q = refl
xor_digits_fuel (suc n) (suc m) (suc a) b p q =
    omega (arith, xor_digits_fuel n m (suc a / 2) (b / 2) (omega arith) (omega arith))

zero-bit_xor : (b : ℕ) → bit_xor 0 b ≡ b
zero-bit_xor b = bit_xor-bitwise 0 b

bit_xor_step : (a b : ℕ) → bit_xor a b ≡ bit_xor (a / 2) (b / 2) * 2 + differ (a % 2) (b % 2)
bit_xor_step zero b = omega (arith, zero-bit_xor b, zero-bit_xor (b / 2))
bit_xor_step (suc a) b = omega (
  arith,
  bit_xor-bitwise (suc a) b,
  bit_xor-bitwise (suc a / 2) (b / 2),
  xor_digits_fuel a (suc a / 2) (suc a / 2) (b / 2) (omega arith) (omega arith),
)

-- On two digits.
digit_cases : (a : ℕ) → (a % 2 ≡ 0) ⊎ (a % 2 ≡ 1)
digit_cases a = ground arith

differ_digit : (a b : ℕ) → differ (a % 2) (b % 2) < 2
differ_digit a b = elim (digit_cases a) [
  | inl p ↦ rw p (omega arith)
  | inr p ↦ elim (digit_cases b) [
    | inl q ↦ rw (p, q) (omega arith)
    | inr q ↦ rw (p, q) (omega arith)
  ]
]

differ_twice : (a b : ℕ) → differ (differ (a % 2) (b % 2)) (b % 2) ≡ a % 2
differ_twice a b = elim (digit_cases a) [
  | inl p ↦ elim (digit_cases b) [ inl q ↦ rw (p, q) refl | inr q ↦ rw (p, q) refl ]
  | inr p ↦ elim (digit_cases b) [ inl q ↦ rw (p, q) refl | inr q ↦ rw (p, q) refl ]
]

bit_xor_half : (a b : ℕ) → bit_xor a b / 2 ≡ bit_xor (a / 2) (b / 2)
bit_xor_half a b = omega (arith, bit_xor_step a b, differ_digit a b)

bit_xor_odd : (a b : ℕ) → bit_xor a b % 2 ≡ differ (a % 2) (b % 2)
bit_xor_odd a b = omega (arith, bit_xor_step a b, differ_digit a b)

bit_xor_twice_fuel : (n a b : ℕ) → a ≤ n → b ≤ n → bit_xor (bit_xor a b) b ≡ a
bit_xor_twice_fuel zero zero zero p q = refl
bit_xor_twice_fuel zero (suc a) b p q = absurd (omega arith)
bit_xor_twice_fuel zero zero (suc b) p q = absurd (omega arith)
bit_xor_twice_fuel (suc n) a b p q =
    rw (bit_xor_step (bit_xor a b) b, bit_xor_half a b, bit_xor_odd a b, differ_twice a b)
      (omega (arith, bit_xor_twice_fuel n (a / 2) (b / 2) (omega arith) (omega arith)))

-- The same number twice cancels.
pub bit_xor_twice : (a b : ℕ) → bit_xor (bit_xor a b) b ≡ a
bit_xor_twice a b = bit_xor_twice_fuel (a + b) a b (omega arith) (omega arith)

bit_xor_double : (m a b : ℕ) → bit_xor (a / 2) (b / 2) < m → bit_xor a b < 2 * m
bit_xor_double m a b h = omega (arith, bit_xor_step a b, differ_digit a b)

abbrev bound : ℕ → ℕ
bound zero = 1
bound (suc k) = 2 * bound k

bit_xor-bound : (k a b : ℕ) → a < bound k → b < bound k → bit_xor a b < bound k
bit_xor-bound zero zero zero p q = omega arith
bit_xor-bound zero (suc a) b p q = absurd (omega arith)
bit_xor-bound zero zero (suc b) p q = absurd (omega arith)
bit_xor-bound (suc k) a b p q =
    bit_xor_double (bound k) a b (bit_xor-bound k (a / 2) (b / 2) (omega arith) (omega arith))

-- A byte stays a byte.
pub bit_xor_byte : (a b : ℕ) → a < 256 → b < 256 → bit_xor a b < 256
bit_xor_byte a b p q = bit_xor-bound 8 a b p q
