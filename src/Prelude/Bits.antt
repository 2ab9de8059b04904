-- ===== src/Prelude/Bits.antt =====
-- Bit operations at variables: one binary digit at a time, and against a mask of ones.
use Prim.Native.Nat.{
  ℕ, zero, suc, ◌+◌, ◌-◌, ◌*◌, ◌/◌, ◌%◌, ◌^◌, ◌≤◌, ◌<◌, min, max, bit_and, bit_or, bit_xor, digits,
  differ, bitwise, bit_and-bitwise, bit_or-bitwise, bit_xor-bitwise,
}
use mathlib.Core.Path.{◌≡◌, refl, ap}
use native.Mathlib.Nat.{pow-suc}
use native.Mathlib.Omega.{arith}

-- The count of digits to go does not matter once it is large enough.
digits_fuel :
    (z : ℕ → ℕ) (f : ℕ → ℕ → ℕ) (j k x y : ℕ) → x ≤ j → x ≤ k → digits z f j x y ≡ digits z f k x y
digits_fuel z f zero zero zero y p q = refl
digits_fuel z f (suc j) zero zero y p q = refl
digits_fuel z f zero (suc k) zero y p q = refl
digits_fuel z f (suc j) (suc k) zero y p q = refl
digits_fuel z f (suc j) (suc k) (suc x) y p q =
    omega (arith, digits_fuel z f j k (suc x / 2) (y / 2) (omega arith) (omega arith))
digits_fuel z f zero k (suc x) y p q = absurd (omega arith)
digits_fuel z f (suc j) zero (suc x) y p q = absurd (omega arith)

bitwise_step :
    (z : ℕ → ℕ) (f : ℕ → ℕ → ℕ) (x y : ℕ)
    → bitwise z f (suc x) y ≡ bitwise z f (suc x / 2) (y / 2) * 2 + f (suc x % 2) (y % 2)
bitwise_step z f x y =
    omega (arith, digits_fuel z f x (suc x / 2) (suc x / 2) (y / 2) (omega arith) (omega arith))

pub bit_and_digit : (a b : ℕ) → bit_and a b ≡ bit_and (a / 2) (b / 2) * 2 + min (a % 2) (b % 2)
bit_and_digit zero b = omega (arith, bit_and-bitwise 0 b, bit_and-bitwise 0 (b / 2))
bit_and_digit (suc a) b = omega (
  arith,
  bitwise_step (λ y. 0) min a b,
  bit_and-bitwise (suc a) b,
  bit_and-bitwise (suc a / 2) (b / 2),
)

pub bit_or_digit : (a b : ℕ) → bit_or a b ≡ bit_or (a / 2) (b / 2) * 2 + max (a % 2) (b % 2)
bit_or_digit zero b = omega (arith, bit_or-bitwise 0 b, bit_or-bitwise 0 (b / 2))
bit_or_digit (suc a) b = omega (
  arith,
  bitwise_step (λ y. y) max a b,
  bit_or-bitwise (suc a) b,
  bit_or-bitwise (suc a / 2) (b / 2),
)

differ_digits : (x y : ℕ) → x < 2 → y < 2 → differ x y ≡ (x + y) % 2
differ_digits zero y p q = omega arith
differ_digits (suc zero) zero p q = refl
differ_digits (suc zero) (suc zero) p q = refl
differ_digits (suc zero) (suc (suc y)) p q = absurd (omega arith)
differ_digits (suc (suc x)) y p q = absurd (omega arith)

pub bit_xor_digit : (a b : ℕ) → bit_xor a b ≡ bit_xor (a / 2) (b / 2) * 2 + (a % 2 + b % 2) % 2
bit_xor_digit zero b = omega (arith, bit_xor-bitwise 0 b, bit_xor-bitwise 0 (b / 2))
bit_xor_digit (suc a) b = omega (
  arith,
  bitwise_step (λ y. y) differ a b,
  bit_xor-bitwise (suc a) b,
  bit_xor-bitwise (suc a / 2) (b / 2),
  differ_digits (suc a % 2) (b % 2) (omega arith) (omega arith),
)

bit_and-zero_fuel : (fuel x : ℕ) → x ≤ fuel → bit_and x 0 ≡ 0
bit_and-zero_fuel fuel zero enough = refl
bit_and-zero_fuel zero (suc x) enough = absurd (omega arith)
bit_and-zero_fuel (suc fuel) (suc x) enough =
    omega (arith, bit_and-zero_fuel fuel (suc x / 2) (omega arith), bit_and_digit (suc x) 0)

pub bit_and-zero : (a : ℕ) → bit_and a 0 ≡ 0
bit_and-zero a = bit_and-zero_fuel a a (omega arith)

pub bit_and-one : (a : ℕ) → bit_and a 1 ≡ a % 2
bit_and-one a = omega (arith, bit_and_digit a 1, bit_and-zero (a / 2))

bit_or-zero_fuel : (n a : ℕ) → a ≤ n → bit_or a 0 ≡ a
bit_or-zero_fuel n zero h = refl
bit_or-zero_fuel zero (suc a) h = absurd (omega arith)
bit_or-zero_fuel (suc n) (suc a) h =
    omega (arith, bit_or_digit (suc a) 0, bit_or-zero_fuel n (suc a / 2) (omega arith))

bit_xor-zero_fuel : (n a b : ℕ) → a ≤ n → b ≤ n → bit_xor a b ≡ 0 → a ≡ b
bit_xor-zero_fuel zero a b p q e = omega arith
bit_xor-zero_fuel (suc n) a b p q e = omega (
  arith,
  bit_xor_digit a b,
  bit_xor-zero_fuel n (a / 2) (b / 2) (omega arith) (omega arith)
      (omega (arith, bit_xor_digit a b)),
)

bit_xor_self_fuel : (n a : ℕ) → a ≤ n → bit_xor a a ≡ 0
bit_xor_self_fuel n zero h = refl
bit_xor_self_fuel zero (suc a) h = absurd (omega arith)
bit_xor_self_fuel (suc n) (suc a) h =
    omega (arith, bit_xor_digit (suc a) (suc a), bit_xor_self_fuel n (suc a / 2) (omega arith))

pub two_pow_pos : (k : ℕ) → 0 < 2 ^ k
two_pow_pos zero = omega arith
two_pow_pos (suc k) = omega (arith, pow-suc 2 k, two_pow_pos k)

-- One digit, where the halves are known.
module _ (a b : ℕ) (a' b' x y : ℕ) (ea : a ≡ a' * 2 + x) (eb : b ≡ b' * 2 + y) (hx : x < 2)
    (hy : y < 2) where
  halves : (a / 2 ≡ a') × (b / 2 ≡ b') × (a % 2 ≡ x) × (b % 2 ≡ y)
  halves = omega arith

  bit_and_halves : bit_and a b ≡ bit_and a' b' * 2 + min x y
  bit_and_halves = rw (halves.0, halves.1, halves.2, halves.3) at (bit_and_digit a b)

  bit_or_halves : bit_or a b ≡ bit_or a' b' * 2 + max x y
  bit_or_halves = rw (halves.0, halves.1, halves.2, halves.3) at (bit_or_digit a b)

  bit_xor_halves : bit_xor a b ≡ bit_xor a' b' * 2 + (x + y) % 2
  bit_xor_halves = rw (halves.0, halves.1, halves.2, halves.3) at (bit_xor_digit a b)

module _ (k : ℕ) where
  pub mask_halves : 2 ^ suc k - 1 ≡ (2 ^ k - 1) * 2 + 1
  mask_halves = omega (arith, pow-suc 2 k, two_pow_pos k)

  pub block_halves : (q r : ℕ) → q * 2 ^ suc k + r ≡ (q * 2 ^ k + r / 2) * 2 + r % 2
  block_halves q r = omega (arith, ap (λ t. q * t) (pow-suc 2 k))

-- A mask of `k` ones picks the low digits.
pub bit_and_low : (k q r : ℕ) → r < 2 ^ k → bit_and (q * 2 ^ k + r) (2 ^ k - 1) ≡ r
bit_and_low zero q r h = omega (arith, bit_and-zero (q * 2 ^ 0 + r))
bit_and_low (suc k) q r h = omega (
  arith,
  bit_and_low k q (r / 2) (omega (arith, pow-suc 2 k)),
  bit_and_halves (q * 2 ^ suc k + r) (2 ^ suc k - 1) (q * 2 ^ k + r / 2) (2 ^ k - 1) (r % 2) 1
      (block_halves k q r) (mask_halves k) (omega arith) (omega arith),
)

-- It fills in low digits that are zero.
pub bit_or_low : (k q : ℕ) → bit_or (q * 2 ^ k) (2 ^ k - 1) ≡ q * 2 ^ k + (2 ^ k - 1)
bit_or_low zero q = omega (arith, bit_or-zero_fuel (q * 2 ^ 0) (q * 2 ^ 0) (omega arith))
bit_or_low (suc k) q = omega (
  arith,
  bit_or_low k q,
  mask_halves k,
  block_halves k q 0,
  bit_or_halves (q * 2 ^ suc k) (2 ^ suc k - 1) (q * 2 ^ k) (2 ^ k - 1) 0 1
      (omega (arith, block_halves k q 0)) (mask_halves k) (omega arith) (omega arith),
)

-- The ends of an aligned block differ in its low digits.
pub bit_xor_low : (k q : ℕ) → bit_xor (q * 2 ^ k) (q * 2 ^ k + (2 ^ k - 1)) ≡ 2 ^ k - 1
bit_xor_low zero q =
    let same : q * 2 ^ 0 + (2 ^ 0 - 1) ≡ q * 2 ^ 0 = omega arith in
    rw same (bit_xor_self_fuel (q * 2 ^ 0) (q * 2 ^ 0) (omega arith))
bit_xor_low (suc k) q = omega (
  arith,
  bit_xor_low k q,
  mask_halves k,
  block_halves k q 0,
  bit_xor_halves (q * 2 ^ suc k) (q * 2 ^ suc k + (2 ^ suc k - 1)) (q * 2 ^ k)
      (q * 2 ^ k + (2 ^ k - 1)) 0 1 (omega (arith, block_halves k q 0))
      (omega (arith, mask_halves k, block_halves k q 0)) (omega arith) (omega arith),
)

-- Conversely, numbers that differ in their `k` low digits, which the first has as zeros, are the
-- ends of an aligned block.
pub block_of_bits :
    (k a b : ℕ)
    → bit_xor a b ≡ 2 ^ k - 1
    → bit_and a (2 ^ k - 1) ≡ 0
    → (q : ℕ) × (a ≡ q * 2 ^ k) × (b ≡ q * 2 ^ k + (2 ^ k - 1))
block_of_bits zero a b e z = (
  a,
  omega arith,
  omega (arith, bit_xor-zero_fuel (a + b) a b (omega arith) (omega arith) (omega arith)),
)
block_of_bits (suc k) a b e z =
    let low =
      bit_and_halves a (2 ^ suc k - 1) (a / 2) (2 ^ k - 1) (a % 2) 1 (omega arith) (mask_halves k)
        (omega arith) (omega arith) in
    let (q, ea, eb) =
      block_of_bits k (a / 2) (b / 2)
        (omega (arith, mask_halves k, two_pow_pos k, bit_xor_digit a b)) (omega (arith, low)) in
    (
      q,
      omega (arith, block_halves k q 0, low, ea),
      omega (arith, mask_halves k, block_halves k q 0, bit_xor_digit a b, low, ea, eb),
    )

pub bit_xor-lt : (k a b : ℕ) → a < 2 ^ k → b < 2 ^ k → bit_xor a b < 2 ^ k
bit_xor-lt zero a b p q =
    let ea : a ≡ 0 = omega arith in let eb : b ≡ 0 = omega arith in rw (ea, eb) (omega arith)
bit_xor-lt (suc k) a b p q = omega (
  arith,
  pow-suc 2 k,
  bit_xor_digit a b,
  bit_xor-lt k (a / 2) (b / 2) (omega (arith, pow-suc 2 k)) (omega (arith, pow-suc 2 k)),
)
