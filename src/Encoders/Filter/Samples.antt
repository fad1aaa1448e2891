-- ===== src/Encoders/Filter/Samples.antt =====
-- The byte of samples of `FilterHw`: the last samples of the two contacts, two bits each, under a bit
-- for valid data.
use Prim.Native.Nat.{bit_and, bit_or}
use open_deck.Prelude.{ℕ, ◌+◌, ◌*◌, ◌/◌, ◌%◌, ◌^◌, ◌<◌, ◌≡◌, ◌∙◌, ap, arith}
use open_deck.Prelude.Bits.{bit_or_digit, bit_and_0x0f, bit_and_0x03}

-- the byte that `is_filtered` keeps after a sample
abbrev pub sampled : ℕ → ℕ → ℕ
sampled old pair = bit_or (bit_or (old * 4 % 256) (bit_and pair 0x03)) 0x80

or_0x80 : (y : ℕ) → bit_or y 0x80 % 16 ≡ y % 16
or_0x80 y = omega (
  arith,
  bit_or_digit y 128,
  bit_or_digit (y / 2) 64,
  bit_or_digit (y / 2 / 2) 32,
  bit_or_digit (y / 2 / 2 / 2) 16,
)

or_pair : (x p : ℕ) → p < 4 → bit_or (x * 4) p % 16 ≡ (x % 4) * 4 + p
or_pair x p h = omega (
  arith,
  bit_or_digit (x * 4) p,
  bit_or_digit (x * 4 / 2) (p / 2),
  bit_or_digit (x * 4 / 2 / 2) (p / 2 / 2),
  bit_or_digit (x * 4 / 2 / 2 / 2) (p / 2 / 2 / 2),
)

or_low : (old p : ℕ) → p < 4 → bit_or (old * 4 % 256) p % 16 ≡ (old % 4) * 4 + p
or_low old p h =
    let fold : old * 4 % 256 ≡ old % 64 * 4 = omega arith in
    let low = or_pair (old % 64) p h in ap (λ t. bit_or t p % 16) fold ∙ omega (arith, low)

-- The low bits after a sample are the last two samples.
sampled_low : (old pair : ℕ) → pair < 4 → sampled old pair % 16 ≡ (old % 4) * 4 + pair
sampled_low old pair h =
    let mask : bit_and pair 3 ≡ pair = omega (arith, bit_and_0x03 pair) in
    or_0x80 (bit_or (old * 4 % 256) (bit_and pair 0x03))
    ∙ ap (λ t. bit_or (old * 4 % 256) t % 16) mask
    ∙ or_low old pair h

pub sampled_mod : (old pair : ℕ) → pair < 4 → bit_and (sampled old pair) 0x0f ≡ (old % 4) * 4 + pair
sampled_mod old pair h = bit_and_0x0f (sampled old pair) ∙ sampled_low old pair h

pub sampled_last : (old pair : ℕ) → pair < 4 → sampled old pair % 4 ≡ pair
sampled_last old pair h = let low = sampled_low old pair h in omega arith

half_or : (a b : ℕ) → bit_or a b / 2 ≡ bit_or (a / 2) (b / 2)
half_or a b = omega (arith, bit_or_digit a b)

-- The bit for valid data is set.
pub high_bit : (y : ℕ) → bit_or y 0x80 / 2 ^ 7 % 2 ≡ 1
high_bit y = omega (
  arith,
  half_or y 128,
  half_or (y / 2) 64,
  half_or (y / 2 / 2) 32,
  half_or (y / 2 / 2 / 2) 16,
  half_or (y / 2 / 2 / 2 / 2) 8,
  half_or (y / 2 / 2 / 2 / 2 / 2) 4,
  half_or (y / 2 / 2 / 2 / 2 / 2 / 2) 2,
  bit_or_digit (y / 2 / 2 / 2 / 2 / 2 / 2 / 2) 1,
)
