-- ===== src/Common/Bits.antt =====
-- Laws of `bit_xor` at variables, from the digit recursion that the native operation stands for.
use Prim.Native.Nat.{
  ℕ, zero, suc, ◌+◌, ◌*◌, ◌/◌, ◌%◌, ◌^◌, ◌≤◌, ◌<◌, bit_xor, digits, differ, bit_xor-bitwise,
}
use mathlib.Core.Path.{◌≡◌, refl, ap}
use native.Mathlib.Nat.{le_refl, pow-suc}
use native.Mathlib.Omega.{arith}

abbrev xor_digits : ℕ → ℕ → ℕ → ℕ
xor_digits n a b = digits (λ b. b) differ n a b

xor_digits_fuel : (n m a b : ℕ) → a ≤ n → a ≤ m → xor_digits n a b ≡ xor_digits m a b
xor_digits_fuel zero zero a b p q = refl
xor_digits_fuel zero (suc m) zero b p q = refl
xor_digits_fuel zero (suc m) (suc a) b p q = absurd (omega arith)
xor_digits_fuel (suc n) zero zero b p q = refl
xor_digits_fuel (suc n) zero (suc a) b p q = absurd (omega arith)
xor_digits_fuel (suc n) (suc m) zero b p q = refl
xor_digits_fuel (suc n) (suc m) (suc a) b p q =
    omega (arith, xor_digits_fuel n m (suc a / 2) (b / 2) (omega arith) (omega arith))

-- Two digits differ, as arithmetic.
differ_digits : (x y : ℕ) → x < 2 → y < 2 → differ x y ≡ (x + y) % 2
differ_digits zero zero p q = refl
differ_digits zero (suc zero) p q = refl
differ_digits (suc zero) zero p q = refl
differ_digits (suc zero) (suc zero) p q = refl
differ_digits zero (suc (suc y)) p q = absurd (omega arith)
differ_digits (suc zero) (suc (suc y)) p q = absurd (omega arith)
differ_digits (suc (suc x)) y p q = absurd (omega arith)

pub bit_xor_step : (a b : ℕ) → bit_xor a b ≡ bit_xor (a / 2) (b / 2) * 2 + (a % 2 + b % 2) % 2
bit_xor_step zero b = omega (arith, bit_xor-bitwise 0 b, bit_xor-bitwise 0 (b / 2))
bit_xor_step (suc a) b = omega (
  arith,
  bit_xor-bitwise (suc a) b,
  bit_xor-bitwise (suc a / 2) (b / 2),
  xor_digits_fuel a (suc a / 2) (suc a / 2) (b / 2) (omega arith) (le_refl _),
  differ_digits (suc a % 2) (b % 2) (omega arith) (omega arith),
)

pub zero-bit_xor : (b : ℕ) → bit_xor 0 b ≡ b
zero-bit_xor b = bit_xor-bitwise 0 b

self_fuel : (n k : ℕ) → k ≤ n → bit_xor k k ≡ 0
self_fuel n zero h = zero-bit_xor 0
self_fuel zero (suc k) h = absurd (omega arith)
self_fuel (suc n) (suc k) h =
    omega (arith, bit_xor_step (suc k) (suc k), self_fuel n (suc k / 2) (omega arith))

half_xor : (a b : ℕ) → bit_xor a b / 2 ≡ bit_xor (a / 2) (b / 2)
half_xor a b = omega (arith, bit_xor_step a b)

twice_fuel : (n a k : ℕ) → a ≤ n → bit_xor (bit_xor a k) k ≡ a
twice_fuel n zero k h = rw zero-bit_xor (self_fuel k k (le_refl k))
twice_fuel zero (suc a) k h = absurd (omega arith)
twice_fuel (suc n) (suc a) k h = omega (
  arith,
  bit_xor_step (suc a) k,
  bit_xor_step (bit_xor (suc a) k) k,
  twice_fuel n (suc a / 2) (k / 2) (omega arith),
  ap (λ (t : ℕ). bit_xor t (k / 2)) (half_xor (suc a) k),
)

-- The key applied twice is no key.
pub bit_xor_twice : (a k : ℕ) → bit_xor (bit_xor a k) k ≡ a
bit_xor_twice a k = twice_fuel a a k (le_refl a)

below_one : (a b : ℕ) → a ≡ 0 → b ≡ 0 → bit_xor a b ≡ 0
below_one a b p q = rw (p, q) (zero-bit_xor 0)

-- Two numbers of `w` bits have an exclusive or of `w` bits.
pub bit_xor-lt : (w a b : ℕ) → a < 2 ^ w → b < 2 ^ w → bit_xor a b < 2 ^ w
bit_xor-lt zero a b p q = omega (arith, bit_xor_step a b, below_one a b (omega arith) (omega arith))
bit_xor-lt (suc w) a b p q = omega (
  arith,
  bit_xor_step a b,
  pow-suc 2 w,
  bit_xor-lt w (a / 2) (b / 2) (omega (arith, pow-suc 2 w)) (omega (arith, pow-suc 2 w)),
)
