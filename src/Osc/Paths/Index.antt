-- ===== src/Osc/Paths/Index.antt =====
-- `parse_indexed` takes back the index of an indexed address, and nothing but a numeral.
use mathlib.Core.Path.{subst}
use native.Mathlib.Nat.{mod-eq_of_lt}
use open_deck.Prelude.{
  ℕ, zero, suc, ◌+◌, ◌-◌, ◌*◌, ◌%◌, ◌^◌, ◌≤◌, ◌<◌, ◌≡◌, refl, sym, ap, ◌∙◌, true, not, ◌&&◌, ◌||◌,
  none, some, List, [], ◌∷◌, ◌++◌, length, get_or, take, drop, ltb, leb, ◌==◌, if◌then◌else◌, All,
  arith, length-append, take-append, drop-append, snoc_assoc, Bool-cases, ==_iff, inl, inr,
  take-append-drop, length-drop,
}
use open_deck.Osc.Packet.{slash, indexed}
use open_deck.Osc.Packet.Decimal.{IsDigit, number_from, decimal, decimal-IsNumeral}
use open_deck.Osc.Packet.Scan.{get_or-here}
use open_deck.Osc.Packet.Encode.{address_text}
use open_deck.Osc.Paths.{same_text, parse_digits, parse_indexed}

number_from-grows : (start : ℕ) (ds : List ℕ) → start ≤ number_from start ds
number_from-grows start [] = omega arith
number_from-grows start (d ∷ ds) = omega (arith, number_from-grows (start * 10 + (d - b'0')) ds)

parse_digits-numeral :
    (bits start : ℕ) (ds : List ℕ)
    → All IsDigit ds
    → number_from start ds < 2 ^ bits
    → parse_digits bits 10 start ds ≡ some (number_from start ds)
unfolding parse_digits
parse_digits-numeral bits start [] d l = refl
parse_digits-numeral bits start (c ∷ ds) (d, e) l =
    let next = start * 10 + (c - b'0') in
    let small : next % 2 ^ bits ≡ next = mod-eq_of_lt (omega (arith, number_from-grows next ds)) in
    let rest = ap (λ n. parse_digits bits 10 n ds) small ∙ parse_digits-numeral bits next ds e l in
    ground (arith, rest)

same_text_refl : (s : List ℕ) → same_text s s ≡ true
same_text_refl [] = refl
same_text_refl (c ∷ s) = ground (arith, same_text_refl s)

drop-slash : (prefix ds : List ℕ) → drop (length prefix + 1) (prefix ++ slash ∷ ds) ≡ ds
drop-slash prefix ds =
    let n : length prefix + 1 ≡ length (prefix ++ (slash ∷ [])) =
      omega (arith, length-append prefix (slash ∷ [])) in
    ap (drop (length prefix + 1)) (snoc_assoc prefix ds slash)
    ∙ ap (λ k. drop k ((prefix ++ (slash ∷ [])) ++ ds)) n
    ∙ drop-append (prefix ++ (slash ∷ [])) ds

parse_indexed-digits :
    (bits base : ℕ) (prefix ds : List ℕ)
    → 0 < length ds
    → parse_indexed bits base (prefix ++ slash ∷ ds) prefix ≡ parse_digits bits base 0 ds
unfolding parse_indexed
parse_indexed-digits bits base prefix ds l =
    let same : same_text (take (length prefix) (prefix ++ slash ∷ ds)) prefix ≡ true =
      ap (λ t. same_text t prefix) (take-append prefix (slash ∷ ds)) ∙ same_text_refl prefix in
    ground (
      arith,
      length-append prefix (slash ∷ ds),
      same,
      get_or-here prefix ds slash,
      drop-slash prefix ds,
    )

-- In the decimal base 10, an index that fits a `size_t` is what `parse_indexed` returns on the
-- address that `add_address` writes for it, when it is asked for the same prefix.
pub parse_indexed-address_text :
    (bits : ℕ) (prefix : List ℕ) (index : ℕ)
    → index < 2 ^ bits
    → parse_indexed bits 10 (address_text (indexed prefix index)) prefix ≡ some index
parse_indexed-address_text bits prefix index l =
    let i = decimal-IsNumeral index in
    ap (λ a. parse_indexed bits 10 a prefix) (sym (snoc_assoc prefix (decimal index) slash))
    ∙ parse_indexed-digits bits 10 prefix (decimal index) i.nonempty
    ∙ parse_digits-numeral bits 0 (decimal index) i.digits
        (subst (λ n. n < 2 ^ bits) (sym i.value) l)
    ∙ ap some i.value

same_text-eq : (s t : List ℕ) → same_text s t ≡ true → s ≡ t
same_text-eq [] [] e = refl
same_text-eq [] (d ∷ t) e = absurd (ground arith)
same_text-eq (c ∷ s) [] e = absurd (ground arith)
same_text-eq (c ∷ s) (d ∷ t) e = elim (Bool-cases (c == d)) [
  | inl p ↦
      let q : c ≡ d = (==_iff c d).0 p in
      let r : s ≡ t = same_text-eq s t (ap (λ b. b && same_text s t) (sym p) ∙ e) in
      ap (λ x. x ∷ s) q ∙ ap (λ u. d ∷ u) r
  | inr p ↦ absurd (let f = ap (λ b. b && same_text s t) (sym p) ∙ e in ground arith)
]

parse_digits-digits :
    (bits base start : ℕ) (ds : List ℕ) (i : ℕ)
    → parse_digits bits base start ds ≡ some i
    → All IsDigit ds
unfolding parse_digits
parse_digits-digits bits base start [] i e = tt
parse_digits-digits bits base start (c ∷ ds) i e =
    let next = (start * base + (c - b'0')) % 2 ^ bits in
    elim (Bool-cases (ltb c b'0' || ltb b'9' c)) [
      | inl bad ↦ absurd (
          let f = ap (λ b. if b then none else parse_digits bits base next ds) (sym bad) ∙ e in
          ground arith)
      | inr good ↦
          let e' = ap (λ b. if b then none else parse_digits bits base next ds) (sym good) ∙ e in
          ((ground arith, ground arith), parse_digits-digits bits base next ds i e')
    ]

drop-one : (n : ℕ) (xs : List ℕ) → n < length xs → drop n xs ≡ get_or xs n 0 ∷ drop (n + 1) xs
drop-one n [] l = absurd (omega arith)
drop-one zero (x ∷ xs) l = refl
drop-one (suc n) (x ∷ xs) l =
    let e : suc (n + 1) ≡ suc n + 1 = omega arith in
    drop-one n xs (omega arith) ∙ ap (λ k. get_or xs n 0 ∷ drop k (x ∷ xs)) e

-- An address from which `parse_indexed` takes an index is the prefix, a slash and at least one
-- character, and all that follow the slash are decimal digits.
pub parse_indexed-digits_only :
    (bits base : ℕ) (address prefix : List ℕ) (i : ℕ)
    → parse_indexed bits base address prefix ≡ some i
    → (ds : List ℕ) × (address ≡ prefix ++ slash ∷ ds) × (0 < length ds) × All IsDigit ds
unfolding parse_indexed
parse_indexed-digits_only bits base address prefix i e =
    let n = length prefix in
    let ds = drop (n + 1) address in
    let short = leb (length address) (n + 1) in
    let other = not (same_text (take n address) prefix) in
    let unslashed = not (get_or address n 0 == slash) in
    elim (Bool-cases (short || other || unslashed)) [
      | inl bad ↦ absurd (
          let f = ap (λ b. if b then none else parse_digits bits base 0 ds) (sym bad) ∙ e in
          ground arith)
      | inr good ↦
          let e' = ap (λ b. if b then none else parse_digits bits base 0 ds) (sym good) ∙ e in
          let long : n + 1 < length address = ground arith in
          let same : same_text (take n address) prefix ≡ true = ground arith in
          let at : get_or address n 0 ≡ slash = ground arith in
          (
            ds,
            sym (take-append-drop n address)
                ∙ ap (λ t. t ++ drop n address) (same_text-eq (take n address) prefix same)
                ∙ ap (λ t. prefix ++ t) (drop-one n address (omega arith) ∙ ap (λ c. c ∷ ds) at),
            omega (arith, length-drop (n + 1) address),
            parse_digits-digits bits base 0 ds i e',
          )
    ]
