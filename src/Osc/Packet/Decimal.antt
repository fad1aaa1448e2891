-- ===== src/Osc/Packet/Decimal.antt =====
-- `add_decimal`: its recursion is deep enough, and what it appends is the decimal numeral.
use mathlib.Core.Path.{subst, fun_ext}
use open_deck.Prelude.{
  All-append, ℕ, zero, suc, ◌+◌, ◌-◌, ◌*◌, ◌/◌, ◌%◌, ◌≤◌, ◌<◌, ◌≡◌, refl, sym, ap, ◌∙◌, ◌⊎◌, inl,
  inr, Bool, true, false, List, [], ◌∷◌, ◌++◌, length, leb, lt_or_le, All, get_or,
  get_or-append_left, length-append, arith,
}
use open_deck.Osc.Packet.{Platform, digit_zero}
use open_deck.Osc.Packet.Writer.{PacketWriter, and_then, add_byte, add_decimal_loop, add_decimal}
use open_deck.Osc.Packet.Written.{written, Appends, and_then-Appends, add_byte-Appends}

-- The digits of a number, with a bound on their count.
unfoldable pub digits_from : ℕ → ℕ → List ℕ
digits_from zero n = []
digits_from (suc depth) n = elim (leb 10 n) [
  | true ↦ digits_from depth (n / 10) ++ (digit_zero + n % 10) ∷ []
  | false ↦ (digit_zero + n % 10) ∷ []
]

unfoldable pub decimal : ℕ → List ℕ
unfolding digits_from
decimal n = digits_from (suc n) n

-- The number that a numeral stands for, read from the left.
abbrev pub number_from : ℕ → List ℕ → ℕ
number_from start [] = start
number_from start (d ∷ ds) = number_from (start * 10 + (d - digit_zero)) ds

abbrev pub IsDigit : ℕ → Type 0
IsDigit d = (digit_zero ≤ d) × (d < digit_zero + 10)

-- A numeral of a number: decimal digits, the first of them not zero unless it is the only one.
pub record IsNumeral (ds : List ℕ) (n : ℕ) : Type 0 where
  pub digits : All IsDigit ds
  pub value : number_from 0 ds ≡ n
  pub leading : ((n ≡ 0) × (length ds ≡ 1)) ⊎ (digit_zero < get_or ds 0 0)
  pub nonempty : 0 < length ds

number_from-append :
    (start : ℕ) (ds es : List ℕ)
    → number_from start (ds ++ es) ≡ number_from (number_from start ds) es
number_from-append start [] es = refl
number_from-append start (d ∷ ds) es = number_from-append (start * 10 + (d - digit_zero)) ds es

snoc-IsNumeral :
    (ds : List ℕ) (n : ℕ)
    → 10 ≤ n
    → IsNumeral ds (n / 10)
    → IsNumeral (ds ++ (digit_zero + n % 10) ∷ []) n
snoc-IsNumeral ds n h i = record {
  digits =
      All-append IsDigit ds ((digit_zero + n % 10) ∷ []) i.digits ((omega arith, omega arith), tt);
  value =
      number_from-append 0 ds ((digit_zero + n % 10) ∷ [])
      ∙ ap (λ m. m * 10 + (digit_zero + n % 10 - digit_zero)) i.value
      ∙ omega arith;
  leading = elim i.leading [
    | inl (z, _) ↦ absurd (omega arith)
    | inr l ↦ inr (ap-lt (get_or-append_left ds ((digit_zero + n % 10) ∷ []) 0 0 i.nonempty) l)
  ];
  nonempty = omega (arith, length-append ds ((digit_zero + n % 10) ∷ []));
}
  where
    ap-lt : {a b : ℕ} → a ≡ b → digit_zero < b → digit_zero < a
    ap-lt e l = omega arith

digit-IsNumeral : (n : ℕ) → n < 10 → IsNumeral ((digit_zero + n % 10) ∷ []) n
digit-IsNumeral n h = record {
  digits = ((omega arith, omega arith), tt);
  value = omega arith;
  leading = elim (lt_or_le 0 n) [ inl l ↦ inr (omega arith) | inr l ↦ inl (omega arith, refl) ];
  nonempty = omega arith;
}

pub digits_from-small :
    (depth n : ℕ) → n < 10 → digits_from (suc depth) n ≡ (digit_zero + n % 10) ∷ []
unfolding digits_from
digits_from-small depth n h = ground arith

pub digits_from-large :
    (depth n : ℕ)
    → 10 ≤ n
    → digits_from (suc depth) n ≡ digits_from depth (n / 10) ++ (digit_zero + n % 10) ∷ []
unfolding digits_from
digits_from-large depth n h = ground arith

digits_from-IsNumeral : (depth n : ℕ) → n < depth → IsNumeral (digits_from depth n) n
digits_from-IsNumeral zero n h = absurd (omega arith)
digits_from-IsNumeral (suc depth) n h = elim (lt_or_le n 10) [
  | inl small ↦
      subst (λ ds. IsNumeral ds n) (sym (digits_from-small depth n small)) (digit-IsNumeral n small)
  | inr large ↦
      subst (λ ds. IsNumeral ds n) (sym (digits_from-large depth n large))
        (snoc-IsNumeral (digits_from depth (n / 10)) n large
          (digits_from-IsNumeral depth (n / 10) (omega arith)))
]

pub decimal-IsNumeral : (n : ℕ) → IsNumeral (decimal n) n
unfolding decimal
decimal-IsNumeral n = digits_from-IsNumeral (suc n) n (omega arith)

module _ (h : Platform) (base : h.decimal_base ≡ 10) where
  -- one call of the recursion in some base
  abbrev round_in : ℕ → ℕ → PacketWriter → ℕ → Bool × PacketWriter
  round_in b depth w n = elim (leb b n) [
    | true ↦
        and_then (add_decimal_loop h depth w (n / b)) (λ w. add_byte w ((digit_zero + n % b) % 256))
    | false ↦ add_byte w ((digit_zero + n % b) % 256)
  ]

  loop-round :
      (depth : ℕ) (w : PacketWriter) (n : ℕ)
      → add_decimal_loop h (suc depth) w n ≡ round_in 10 depth w n
  unfolding add_decimal_loop
  loop-round depth w n = ap (λ b. round_in b depth w n) base

  loop-small :
      (depth : ℕ) (w : PacketWriter) (n : ℕ)
      → n < 10
      → add_decimal_loop h (suc depth) w n ≡ add_byte w (digit_zero + n % 10)
  loop-small depth w n l =
      loop-round depth w n
      ∙ (let e : round_in 10 depth w n ≡ add_byte w ((digit_zero + n % 10) % 256) = ground arith in
          e)
      ∙ ap (add_byte w) (omega arith)

  loop-large :
      (depth : ℕ) (w : PacketWriter) (n : ℕ)
      → 10 ≤ n
      → add_decimal_loop h (suc depth) w n
        ≡ and_then (add_decimal_loop h depth w (n / 10)) (λ w. add_byte w (digit_zero + n % 10))
  loop-large depth w n l =
      loop-round depth w n
      ∙ (let e : round_in 10 depth w n
              ≡ and_then (add_decimal_loop h depth w (n / 10))
                  (λ w. add_byte w ((digit_zero + n % 10) % 256)) =
            ground arith in
          e)
      ∙ ap (λ x. and_then (add_decimal_loop h depth w (n / 10)) (λ w. add_byte w x)) (omega arith)

  loop-Appends :
      (depth n : ℕ)
      → n < depth
      → Appends (λ w. add_decimal_loop h depth w n) (λ m. digits_from depth n)
  loop-Appends zero n l = absurd (omega arith)
  loop-Appends (suc depth) n l = elim (lt_or_le n 10) [
    | inl small ↦
        subst₂-Appends (λ w. sym (loop-small depth w n small))
          (sym (digits_from-small depth n small)) (add_byte-Appends (digit_zero + n % 10))
    | inr large ↦
        subst₂-Appends (λ w. sym (loop-large depth w n large))
          (sym (digits_from-large depth n large))
          (and_then-Appends (λ w. add_decimal_loop h depth w (n / 10))
            (λ w. add_byte w (digit_zero + n % 10)) (λ m. digits_from depth (n / 10))
            (λ m. (digit_zero + n % 10) ∷ []) (loop-Appends depth (n / 10) (omega arith))
            (add_byte-Appends (digit_zero + n % 10)))
  ]
    where
      subst₂-Appends :
          {f g : PacketWriter → Bool × PacketWriter} {xs ys : List ℕ}
          → ((w : PacketWriter) → f w ≡ g w)
          → xs ≡ ys
          → Appends f (λ m. xs)
          → Appends g (λ m. ys)
      subst₂-Appends {f = f} {g = g} {xs = xs} {ys = ys} e e' a =
          subst (λ k. Appends k (λ m. ys)) (fun_ext e) (subst (λ zs. Appends f (λ m. zs)) e' a)

  pub add_decimal-Appends : (n : ℕ) → Appends (λ w. add_decimal h w n) (λ m. decimal n)
  unfolding add_decimal decimal
  add_decimal-Appends n = loop-Appends (suc n) n (omega arith)

  -- When the decimal base is 10 and the room left in a zeroed buffer is no less than the number
  -- of decimal digits, `add_decimal` returns true and appends a decimal numeral of the number:
  -- digits only, with that value and without a leading zero.
  pub add_decimal-IsNumeral :
      (xs : List ℕ) (k n : ℕ)
      → length (decimal n) ≤ k
      → (ds : List ℕ) × IsNumeral ds n
        × (add_decimal h (written xs k) n ≡ (true, written (xs ++ ds) (k - length ds)))
  add_decimal-IsNumeral xs k n l =
      (decimal n, decimal-IsNumeral n, (add_decimal-Appends n).fits xs k l)
