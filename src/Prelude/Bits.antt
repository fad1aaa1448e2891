-- ===== src/Prelude/Bits.antt =====
-- The shifts and bit operations of fixed-width words, and what they are in arithmetic: a shifted
-- word put in by `|` above a smaller one is a sum, and a mask of low ones is a remainder.
use Prim.Native.Nat.{
  ℕ, zero, suc, ◌+◌, ◌*◌, ◌/◌, ◌%◌, ◌^◌, ◌≤◌, ◌<◌, min, max, digits, bit_or, bit_and,
  bit_or-bitwise, bit_and-bitwise,
}
use mathlib.Core.Path.{◌≡◌, refl, ap}
use native.Mathlib.Nat.{pow-suc, le_refl}
use native.Mathlib.Omega.{arith}

-- `x << k` on a `uint32_t`
abbrev pub shl32 : ℕ → ℕ → ℕ
shl32 x k = x * 2 ^ k % 2 ^ 32

-- `x >> k`
abbrev pub shr : ℕ → ℕ → ℕ
shr x k = x / 2 ^ k

-- The count of digits to go does not matter, as long as it covers the first number.
module _ (z : ℕ → ℕ) (f : ℕ → ℕ → ℕ) where
  digits_count : (n m a b : ℕ) → a ≤ n → a ≤ m → digits z f n a b ≡ digits z f m a b
  digits_count zero zero a b p q = refl
  digits_count zero (suc m) zero b p q = refl
  digits_count zero (suc m) (suc a) b p q = absurd (omega arith)
  digits_count (suc n) zero zero b p q = refl
  digits_count (suc n) zero (suc a) b p q = absurd (omega arith)
  digits_count (suc n) (suc m) zero b p q = refl
  digits_count (suc n) (suc m) (suc a) b p q =
      rw (digits_count n m (suc a / 2) (b / 2) (omega arith) (omega arith))

pub bit_or_digit : (a b : ℕ) → bit_or a b ≡ bit_or (a / 2) (b / 2) * 2 + max (a % 2) (b % 2)
bit_or_digit zero b = omega (arith, bit_or-bitwise 0 b, bit_or-bitwise 0 (b / 2))
bit_or_digit (suc a) b = omega (
  arith,
  bit_or-bitwise (suc a) b,
  bit_or-bitwise (suc a / 2) (b / 2),
  digits_count (λ y. y) max a (suc a / 2) (suc a / 2) (b / 2) (omega arith) (le_refl _),
)

bit_and_digit : (a b : ℕ) → bit_and a b ≡ bit_and (a / 2) (b / 2) * 2 + min (a % 2) (b % 2)
bit_and_digit zero b = omega (arith, bit_and-bitwise 0 b, bit_and-bitwise 0 (b / 2))
bit_and_digit (suc a) b = omega (
  arith,
  bit_and-bitwise (suc a) b,
  bit_and-bitwise (suc a / 2) (b / 2),
  digits_count (λ y. 0) min a (suc a / 2) (suc a / 2) (b / 2) (omega arith) (le_refl _),
)

mul-pow-suc : (b k : ℕ) → b * 2 ^ suc k ≡ b * 2 ^ k * 2
mul-pow-suc b k = omega (arith, ap (λ (t : ℕ). b * t) (pow-suc 2 k))

-- `a | (b << k)` where `a` fits below bit `k`
pub bit_or_above : (k a b : ℕ) → a < 2 ^ k → bit_or a (b * 2 ^ k) ≡ a + b * 2 ^ k
bit_or_above zero a b h = ground (arith, bit_or-bitwise 0 b)
bit_or_above (suc k) a b h = ground (
  arith,
  bit_or_digit a (b * 2 ^ suc k),
  mul-pow-suc b k,
  pow-suc 2 k,
  bit_or_above k (a / 2) b (omega (arith, pow-suc 2 k)),
)

bit_or_zero : (n b : ℕ) → b ≤ n → bit_or b 0 ≡ b
bit_or_zero n zero h = refl
bit_or_zero zero (suc b) h = absurd (omega arith)
bit_or_zero (suc n) (suc b) h =
    omega (arith, bit_or_digit (suc b) 0, bit_or_zero n (suc b / 2) (omega arith))

-- `(b << k) | a` where `a` fits below bit `k`
pub bit_or_below : (k a b : ℕ) → a < 2 ^ k → bit_or (b * 2 ^ k) a ≡ b * 2 ^ k + a
bit_or_below zero a b h = ground (arith, bit_or_zero b b (le_refl b))
bit_or_below (suc k) a b h = ground (
  arith,
  bit_or_digit (b * 2 ^ suc k) a,
  mul-pow-suc b k,
  pow-suc 2 k,
  bit_or_below k (a / 2) b (omega (arith, pow-suc 2 k)),
)

bit_and_zero : (n b : ℕ) → b ≤ n → bit_and b 0 ≡ 0
bit_and_zero n zero h = refl
bit_and_zero zero (suc b) h = absurd (omega arith)
bit_and_zero (suc n) (suc b) h =
    omega (arith, bit_and_digit (suc b) 0, bit_and_zero n (suc b / 2) (omega arith))

-- `a & (2 * m + 1)`, from the mask with one digit less
bit_and_odd : (a m : ℕ) → bit_and a (2 * m + 1) ≡ bit_and (a / 2) m * 2 + a % 2
bit_and_odd a m = ground (arith, bit_and_digit a (2 * m + 1), ap (bit_and (a / 2)) (half m))
  where
    half : (m : ℕ) → (2 * m + 1) / 2 ≡ m
    half m = omega arith

-- `a & 0x03`, `a & 0x0F` and `a & 0xFF`
pub bit_and_0x03 : (a : ℕ) → bit_and a 0x03 ≡ a % 4
bit_and_0x03 a =
    omega (arith, bit_and_odd a 1, bit_and_odd (a / 2) 0, bit_and_zero _ (a / 2 / 2) (le_refl _))

pub bit_and_0x0f : (a : ℕ) → bit_and a 0x0f ≡ a % 16
bit_and_0x0f a = omega (arith, bit_and_odd a 7, bit_and_odd (a / 2) 3, bit_and_0x03 (a / 2 / 2))

pub bit_and_0xff : (a : ℕ) → bit_and a 0xff ≡ a % 256
bit_and_0xff a = omega (
  arith,
  bit_and_odd a 127,
  bit_and_odd (a / 2) 63,
  bit_and_odd (a / 2 / 2) 31,
  bit_and_odd (a / 2 / 2 / 2) 15,
  bit_and_0x0f (a / 2 / 2 / 2 / 2),
)
