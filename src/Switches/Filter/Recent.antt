-- ===== src/Switches/Filter/Recent.antt =====
-- The debounce state is the number of the last eight samples, and what it decides.
use open_deck.Prelude.{
  ℕ, zero, suc, ◌+◌, ◌*◌, ◌%◌, ◌<◌, ◌≡◌, ◌⊎◌, inl, inr, refl, sym, ap, ◌∙◌, Bool, true, false, not,
  List, [], ◌∷◌, if◌then◌else◌, arith,
}
use Prim.Native.Nat.{bit_or}
use open_deck.Prelude.Bits.{bit_or_below}
use open_deck.Switches.Filter.{bit_of, shift_in, decide}

-- Whether the last samples, of the given number, have a state; before the first sample it is false.
pub all_recent : ℕ → Bool → List Bool → Bool
all_recent zero state samples = true
all_recent (suc n) state [] = not state
all_recent (suc n) true (x ∷ samples) = if x then all_recent n true samples else false
all_recent (suc n) false (x ∷ samples) = if x then false else all_recent n false samples

-- the number that the last samples are the binary digits of
unfoldable pub value : ℕ → List Bool → ℕ
value zero samples = 0
value (suc n) [] = 0
value (suc n) (x ∷ samples) = bit_of x + 2 * value n samples

power : ℕ → ℕ
power zero = 1
power (suc n) = 2 * power n

shift_in-sum : (b : ℕ) (x : Bool) → shift_in b x ≡ b * 2 % 256 + bit_of x
unfolding shift_in
shift_in-sum b true =
    ap (λ n. bit_or n 1) (omega arith) ∙ bit_or_below 1 1 (b % 128) (omega arith) ∙ omega arith
shift_in-sum b false =
    ap (λ n. bit_or n 0) (omega arith) ∙ bit_or_below 1 0 (b % 128) (omega arith) ∙ omega arith

value-bound : (n : ℕ) (samples : List Bool) → value n samples < power n
unfolding value power
value-bound zero samples = omega arith
value-bound (suc n) [] = let p = value-bound n [] in omega arith
value-bound (suc n) (true ∷ samples) = let p = value-bound n samples in omega arith
value-bound (suc n) (false ∷ samples) = let p = value-bound n samples in omega arith

value-grow :
    (n : ℕ) (samples : List Bool)
    → (value (suc n) samples ≡ value n samples)
      ⊎ (value (suc n) samples ≡ value n samples + power n)
unfolding value power
value-grow zero [] = inl refl
value-grow zero (true ∷ samples) = inr refl
value-grow zero (false ∷ samples) = inl refl
value-grow (suc n) [] = inl refl
value-grow (suc n) (x ∷ samples) = elim (value-grow n samples) [
  | inl e ↦ inl (omega arith)
  | inr e ↦ inr (omega arith)
]

pub shift_in-value :
    (x : Bool) (samples : List Bool) → shift_in (value 8 samples) x ≡ value 8 (x ∷ samples)
unfolding value power
shift_in-value x samples =
    let b = value-bound 7 samples in
    let p : power 7 ≡ 128 = refl in
    shift_in-sum (value 8 samples) x
    ∙ elim (value-grow 7 samples) [ inl e ↦ omega arith | inr e ↦ omega arith ]

all_true :
    (n : ℕ) (samples : List Bool)
    → ((all_recent n true samples ≡ true) × (value n samples + 1 ≡ power n))
      ⊎ ((all_recent n true samples ≡ false) × (value n samples + 1 < power n))
unfolding all_recent value power
all_true zero samples = inl (refl, refl)
all_true (suc n) [] = inr (refl, (let p = value-bound n [] in omega arith))
all_true (suc n) (false ∷ samples) = inr (refl, (let p = value-bound n samples in omega arith))
all_true (suc n) (true ∷ samples) = elim (all_true n samples) [
  | inl (a, e) ↦ inl (a, omega arith)
  | inr (a, e) ↦ inr (a, omega arith)
]

all_false :
    (n : ℕ) (samples : List Bool)
    → ((all_recent n false samples ≡ true) × (value n samples ≡ 0))
      ⊎ ((all_recent n false samples ≡ false) × (0 < value n samples))
unfolding all_recent value
all_false zero samples = inl (refl, refl)
all_false (suc n) (true ∷ samples) = inr (refl, omega arith)
all_false (suc n) [] = inl (refl, refl)
all_false (suc n) (false ∷ samples) = elim (all_false n samples) [
  | inl (a, e) ↦ inl (a, omega arith)
  | inr (a, e) ↦ inr (a, omega arith)
]

decide-pressed : (b : ℕ) (x : Bool) → b ≡ 255 → decide b x ≡ (true, true)
unfolding decide
decide-pressed b x e = ground arith

decide-released : (b : ℕ) (x : Bool) → b ≡ 0 → decide b x ≡ (true, false)
unfolding decide
decide-released b x e = ground arith

decide-between : (b : ℕ) (x : Bool) → 0 < b → b + 1 < 256 → decide b x ≡ (false, x)
unfolding decide
decide-between b x p q = ground arith

odd : (samples : List Bool) → 0 < value 8 (true ∷ samples)
unfolding value
odd samples = omega arith

even : (samples : List Bool) → value 8 (false ∷ samples) + 1 < 256
unfolding value power
even samples = let p = value-bound 7 samples in omega arith

pub decide-recent :
    (x : Bool) (samples : List Bool)
    → decide (value 8 (x ∷ samples)) x ≡ (all_recent 8 x (x ∷ samples), x)
unfolding power
decide-recent true samples = elim (all_true 8 (true ∷ samples)) [
  | inl (a, e) ↦
      decide-pressed (value 8 (true ∷ samples)) true (omega arith) ∙ ap (λ r. (r, true)) (sym a)
  | inr (a, q) ↦
      decide-between (value 8 (true ∷ samples)) true (odd samples) q ∙ ap (λ r. (r, true)) (sym a)
]
decide-recent false samples = elim (all_false 8 (false ∷ samples)) [
  | inl (a, e) ↦ decide-released (value 8 (false ∷ samples)) false e ∙ ap (λ r. (r, false)) (sym a)
  | inr (a, q) ↦
      decide-between (value 8 (false ∷ samples)) false q (even samples)
      ∙ ap (λ r. (r, false)) (sym a)
]
