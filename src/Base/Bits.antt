-- ===== src/Base/Bits.antt =====
-- The exclusive or of two numbers: applied twice it gives the first one back.
use Prim.Native.Nat.{
  ℕ, zero, suc, ◌+◌, ◌*◌, ◌/◌, ◌%◌, ◌≤◌, ◌<◌, bit_xor, digits, differ, bit_xor-bitwise,
}
use mathlib.Core.Path.{◌≡◌, refl, ap}
use native.Mathlib.Omega.{arith}

abbrev xor_digits : ℕ → ℕ → ℕ → ℕ
xor_digits n a b = digits (λ b. b) differ n a b

xor_digits_fuel : (n m a b : ℕ) → a ≤ n → a ≤ m → xor_digits n a b ≡ xor_digits m a b
xor_digits_fuel zero zero a b p q = refl
xor_digits_fuel zero (suc m) zero b p q = refl
xor_digits_fuel zero (suc m) (suc a) b p q = absurd (omega arith)
xor_digits_fuel (suc n) zero zero b p q = refl
xor_digits_fuel (suc n) zero (suc a) b p q = absurd (omega arith)
xor_digits_fuel (suc n) (suc m) zero b p q = refl
xor_digits_fuel (suc n) (suc m) (suc a) b p q =
    omega (arith, xor_digits_fuel n m (suc a / 2) (b / 2) (omega arith) (omega arith))

zero-bit_xor : (b : ℕ) → bit_xor 0 b ≡ b
zero-bit_xor b = bit_xor-bitwise 0 b

zero-differ : (y : ℕ) → differ 0 y ≡ y
zero-differ y = refl

bit_xor_step : (a b : ℕ) → bit_xor a b ≡ bit_xor (a / 2) (b / 2) * 2 + differ (a % 2) (b % 2)
bit_xor_step zero b = omega (arith, zero-bit_xor b, zero-bit_xor (b / 2), zero-differ (b % 2))
bit_xor_step (suc a) b = omega (
  arith,
  bit_xor-bitwise (suc a) b,
  bit_xor-bitwise (suc a / 2) (b / 2),
  xor_digits_fuel a (suc a / 2) (suc a / 2) (b / 2) (omega arith) (omega arith),
)

differ-differ : (x y : ℕ) → x < 2 → y < 2 → (differ (differ x y) y ≡ x) × (differ x y < 2)
differ-differ zero zero p q = (refl, omega arith)
differ-differ zero (suc zero) p q = (refl, omega arith)
differ-differ (suc zero) zero p q = (refl, omega arith)
differ-differ (suc zero) (suc zero) p q = (refl, omega arith)
differ-differ (suc (suc x)) y p q = absurd (omega arith)
differ-differ zero (suc (suc y)) p q = absurd (omega arith)
differ-differ (suc zero) (suc (suc y)) p q = absurd (omega arith)

halves :
    (a b d : ℕ)
    → d < 2
    → (bit_xor a b ≡ bit_xor (a / 2) (b / 2) * 2 + d)
    → (bit_xor a b / 2 ≡ bit_xor (a / 2) (b / 2)) × (bit_xor a b % 2 ≡ d)
halves a b d l e = (omega arith, omega arith)

xor_twice : (n a b : ℕ) → a ≤ n → b ≤ n → bit_xor (bit_xor a b) b ≡ a
xor_twice zero zero zero p q = refl
xor_twice zero (suc a) b p q = absurd (omega arith)
xor_twice zero zero (suc b) p q = absurd (omega arith)
xor_twice (suc n) a b p q =
    let (same, small) = differ-differ (a % 2) (b % 2) (omega arith) (omega arith) in
    let (half, last) = halves a b (differ (a % 2) (b % 2)) small (bit_xor_step a b) in
    let again = xor_twice n (a / 2) (b / 2) (omega arith) (omega arith) in
    let step = bit_xor_step (bit_xor a b) b in whole step half last again same
  where
    whole :
        bit_xor (bit_xor a b) b
          ≡ bit_xor (bit_xor a b / 2) (b / 2) * 2 + differ (bit_xor a b % 2) (b % 2)
        → bit_xor a b / 2 ≡ bit_xor (a / 2) (b / 2)
        → bit_xor a b % 2 ≡ differ (a % 2) (b % 2)
        → bit_xor (bit_xor (a / 2) (b / 2)) (b / 2) ≡ a / 2
        → differ (differ (a % 2) (b % 2)) (b % 2) ≡ a % 2
        → bit_xor (bit_xor a b) b ≡ a
    whole step half last again same = omega (
      arith,
      step,
      ap (λ x. bit_xor x (b / 2)) half,
      ap (λ x. differ x (b % 2)) last,
      again,
      same,
    )

pub bit_xor-bit_xor : (a b : ℕ) → bit_xor (bit_xor a b) b ≡ a
bit_xor-bit_xor a b = xor_twice (a + b) a b (omega arith) (omega arith)
