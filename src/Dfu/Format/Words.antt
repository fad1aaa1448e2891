-- ===== src/Dfu/Format/Words.antt =====
-- `read_word` reads a little-endian word, so the bytes of a valid header are determined.
use Prim.Native.Nat.{bit_or}
use open_deck.Prelude.{
  ℕ, ◌+◌, ◌*◌, ◌/◌, ◌%◌, ◌^◌, ◌<◌, ◌≡◌, refl, ◌∙◌, ap, sym, true, [], ◌∷◌, ◌++◌, arith, ◌==◌, ltb,
  ◌&&◌,
}
use open_deck.Prelude.Bits.{shl32, bit_or_above}
use open_deck.Dfu.Format.{Header, start_command, word, header_of, payload_size, header_valid}

-- four bytes of a word, as the loops of `read_word` and `process_metadata` join them
abbrev pub joined : ℕ → ℕ → ℕ → ℕ → ℕ
joined x y z t =
    bit_or (bit_or (bit_or (bit_or 0 (shl32 x 0)) (shl32 y 8)) (shl32 z 16)) (shl32 t 24)

abbrev AreBytes : ℕ → ℕ → ℕ → ℕ → Type 0
AreBytes x y z t = (x < 256) × (y < 256) × (z < 256) × (t < 256)

shl32-eq : (x k : ℕ) → x * 2 ^ k < 2 ^ 32 → shl32 x k ≡ x * 2 ^ k
shl32-eq x k h = omega arith

joined_value :
    (x y z t : ℕ) → AreBytes x y z t → joined x y z t ≡ x + y * 256 + z * 65536 + t * 16777216
joined_value x y z t (hx, hy, hz, ht) =
    rw
      (
        shl32-eq x 0 (omega arith),
        shl32-eq y 8 (omega arith),
        shl32-eq z 16 (omega arith),
        shl32-eq t 24 (omega arith),
        bit_or_above 0 0 x (omega arith),
        bit_or_above 8 (0 + x * 2 ^ 0) y (omega arith),
        bit_or_above 16 (0 + x * 2 ^ 0 + y * 2 ^ 8) z (omega arith),
        bit_or_above 24 (0 + x * 2 ^ 0 + y * 2 ^ 8 + z * 2 ^ 16) t (omega arith),
      )
      (omega arith)

-- The bytes of a word are those of its value.
word_of_joined :
    (x y z t n : ℕ) → AreBytes x y z t → joined x y z t ≡ n → (x ∷ y ∷ z ∷ t ∷ []) ≡ word n
word_of_joined x y z t n h e =
    let v = joined_value x y z t h in
    let e0 : x ≡ n % 256 = omega (arith, v, e) in
    let e1 : y ≡ n / 256 % 256 = omega (arith, v, e) in
    let e2 : z ≡ n / 65536 % 256 = omega (arith, v, e) in
    let e3 : t ≡ n / 16777216 % 256 = omega (arith, v, e) in cc

joined-word :
    (n : ℕ)
    → n < 2 ^ 32
    → joined (n % 256) (n / 256 % 256) (n / 65536 % 256) (n / 16777216 % 256) ≡ n
joined-word n h = omega (
  arith,
  joined_value (n % 256) (n / 256 % 256) (n / 65536 % 256) (n / 16777216 % 256) (omega arith),
)

module _ (uid : ℕ) (m0 m1 m2 m3 m4 m5 m6 m7 m8 m9 m10 m11 : ℕ) where
  abbrev received : Header
  received =
      word start_command ++ (m0 ∷ m1 ∷ m2 ∷ m3 ∷ m4 ∷ m5 ∷ m6 ∷ m7 ∷ m8 ∷ m9 ∷ m10 ∷ m11 ∷ [])

  header_valid_words :
      header_valid uid received
      ≡ (joined m0 m1 m2 m3 == 1 && joined m4 m5 m6 m7 == uid && ltb 0 (joined m8 m9 m10 m11))
  unfolding header_valid
  header_valid_words = refl

  payload_size_word : payload_size received ≡ joined m8 m9 m10 m11
  unfolding payload_size
  payload_size_word = refl

  module _ (h0 : AreBytes m0 m1 m2 m3) (h1 : AreBytes m4 m5 m6 m7)
      (h2 : AreBytes m8 m9 m10 m11) where
    pub payload_size-lt : payload_size received < 2 ^ 32
    payload_size-lt = omega (arith, payload_size_word, joined_value m8 m9 m10 m11 h2)

    -- A valid header is the header of its target and size.
    pub header_of_valid :
        header_valid uid received ≡ true
        → (received ≡ header_of uid (payload_size received)) × (0 < payload_size received)
    header_of_valid v =
        let parts : (joined m0 m1 m2 m3 ≡ 1)
            × (joined m4 m5 m6 m7 ≡ uid)
            × (0 < joined m8 m9 m10 m11) =
          ground (arith, header_valid_words) in
        let w0 = word_of_joined m0 m1 m2 m3 1 h0 parts.0 in
        let w1 = word_of_joined m4 m5 m6 m7 uid h1 parts.1 in
        let w2 = word_of_joined m8 m9 m10 m11 _ h2 refl in
        (
          ap (λ l. word start_command ++ l ++ (m4 ∷ m5 ∷ m6 ∷ m7 ∷ m8 ∷ m9 ∷ m10 ∷ m11 ∷ [])) w0
              ∙ ap (λ l. word start_command ++ word 1 ++ l ++ (m8 ∷ m9 ∷ m10 ∷ m11 ∷ [])) w1
              ∙ ap (λ l. word start_command ++ word 1 ++ word uid ++ l)
                  (w2 ∙ ap word (sym payload_size_word)),
          omega (arith, payload_size_word, parts.2),
        )

-- The header of a target and a size is valid and states the size.
pub header_of-valid :
    (uid size : ℕ)
    → uid < 2 ^ 32
    → size < 2 ^ 32
    → 0 < size
    → (header_valid uid (header_of uid size) ≡ true) × (payload_size (header_of uid size) ≡ size)
unfolding header_valid
header_of-valid uid size hu hs pos =
    ground (arith, joined-word uid hu, joined-word size hs, joined-word 1 (omega arith))
