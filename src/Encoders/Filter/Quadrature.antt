-- ===== src/Encoders/Filter/Quadrature.antt =====
-- The quadrature decoder: a full cycle of the two contacts is one step.
use mathlib.Core.Path.{ap₂}
use Prim.Native.Nat.{bit_and}
use open_deck.Prelude.{
  ℕ, zero, suc, ◌+◌, ◌*◌, ◌/◌, ◌%◌, ◌^◌, ◌<◌, ◌≡◌, refl, ◌∙◌, ap, Bool, true, false, List, [], ◌∷◌,
  Option, none, some, ◌==◌, arith, get_or, not, leb, if◌then◌else◌, ◌≢◌,
}
use open_deck.Encoders.Filter.Samples.{sampled, sampled_mod, sampled_last, high_bit}
use open_deck.Prelude.Integers.{ℤ, pos, negsuc, ◌+ℤ◌, to_int8, abs, is_positive}
use open_deck.Encoders.Filter.{
  Filter, Position, stopped, ccw, cw, is_filtered, debounce, encoder_look_up_table,
}

-- `bit_read` gives a bit.
abbrev pub Reads : (ℕ → ℕ → Bool) → Type 0
Reads bit_read = (x k : ℕ) → bit_read x k ≡ (x / 2 ^ k % 2 == 1)

-- The next position of the two contacts, turning in a direction.
abbrev pub successor : Position → ℕ → ℕ
successor stopped p = p
successor ccw p = get_or (1 ∷ 3 ∷ 0 ∷ 2 ∷ []) p 0
successor cw p = get_or (2 ∷ 0 ∷ 3 ∷ 1 ∷ []) p 0

-- the pulses after a number of transitions in a direction
abbrev pulses : Position → ℕ → ℤ
pulses stopped k = pos 0
pulses ccw k = pos k
pulses cw zero = pos 0
pulses cw (suc k) = negsuc k

-- the value of the table for a transition in a direction
abbrev unit : Position → ℤ
unit stopped = pos 0
unit ccw = pos 1
unit cw = negsuc 0

table-unit :
    (d : Position) (pair : ℕ)
    → pair < 4
    → d ≢ stopped
    → get_or encoder_look_up_table (pair * 4 + successor d pair) (pos 0) ≡ unit d
table-unit stopped pair h ne = absurd (ne refl)
table-unit ccw zero h ne = refl
table-unit ccw (suc zero) h ne = refl
table-unit ccw (suc (suc zero)) h ne = refl
table-unit ccw (suc (suc (suc zero))) h ne = refl
table-unit ccw (suc (suc (suc (suc n)))) h ne = absurd (omega arith)
table-unit cw zero h ne = refl
table-unit cw (suc zero) h ne = refl
table-unit cw (suc (suc zero)) h ne = refl
table-unit cw (suc (suc (suc zero))) h ne = refl
table-unit cw (suc (suc (suc (suc n)))) h ne = absurd (omega arith)

pulses-unit :
    (d : Position) (k : ℕ) → k < 4 → d ≢ stopped → to_int8 (pulses d k +ℤ unit d) ≡ pulses d (suc k)
pulses-unit stopped k h ne = absurd (ne refl)
pulses-unit ccw zero h ne = refl
pulses-unit ccw (suc zero) h ne = refl
pulses-unit ccw (suc (suc zero)) h ne = refl
pulses-unit ccw (suc (suc (suc zero))) h ne = refl
pulses-unit ccw (suc (suc (suc (suc n)))) h ne = absurd (omega arith)
pulses-unit cw zero h ne = refl
pulses-unit cw (suc zero) h ne = refl
pulses-unit cw (suc (suc zero)) h ne = refl
pulses-unit cw (suc (suc (suc zero))) h ne = refl
pulses-unit cw (suc (suc (suc (suc n)))) h ne = absurd (omega arith)

successor-lt : (d : Position) (pair : ℕ) → pair < 4 → successor d pair < 4
successor-lt stopped pair h = h
successor-lt ccw zero h = omega arith
successor-lt ccw (suc zero) h = omega arith
successor-lt ccw (suc (suc zero)) h = omega arith
successor-lt ccw (suc (suc (suc zero))) h = omega arith
successor-lt ccw (suc (suc (suc (suc n)))) h = absurd (omega arith)
successor-lt cw zero h = omega arith
successor-lt cw (suc zero) h = omega arith
successor-lt cw (suc (suc zero)) h = omega arith
successor-lt cw (suc (suc (suc zero))) h = omega arith
successor-lt cw (suc (suc (suc (suc n)))) h = absurd (omega arith)

module _ (bit_read : ℕ → ℕ → Bool) where
  -- The results and positions for a series of samples.
  pub outputs : Filter → Option ℕ → List ℕ → List (Bool × Position)
  outputs f elapsed [] = []
  outputs f elapsed (pair ∷ pairs) =
      let (filtered, position, f') = is_filtered bit_read f pair stopped elapsed in
      (filtered, position) ∷ outputs f' elapsed pairs

  -- What `is_filtered` does with the pulses, once it has a sample to compare.
  abbrev judged : Filter → Option ℕ → ℕ → Bool → ℤ → Bool × Position × Filter
  judged f elapsed pair_data process z =
      let f₁ = record f { encoder_data = pair_data } in
      let (reported, f₃) =
        debounce (record f₁ { encoder_pulses = pos 0 }) (if is_positive z then ccw else cw)
          elapsed in
      if not process
      then (false, stopped, f₁)
      else if leb 4 (abs z)
      then (true, reported, f₃)
      else (false, stopped, record f₁ { encoder_pulses = z })

  -- A transition in a direction, after `k` of them.
  transition :
      (f : Filter) (d : Position) (k pair : ℕ) (elapsed : Option ℕ)
      → Reads bit_read
      → f.encoder_data / 2 ^ 7 % 2 ≡ 1
      → f.encoder_data % 4 ≡ pair
      → k < 4
      → f.encoder_pulses ≡ pulses d k
      → d ≢ stopped
      → is_filtered bit_read f (successor d pair) stopped elapsed
        ≡ judged f elapsed (sampled f.encoder_data (successor d pair)) true (pulses d (suc k))
  unfolding is_filtered
  transition f d k pair elapsed reads valid last few e moving =
      let small : pair < 4 = omega arith in
      let process : bit_read f.encoder_data 7 ≡ true =
        reads f.encoder_data 7 ∙ ap (λ n. n == 1) valid in
      let index : bit_and (sampled f.encoder_data (successor d pair)) 0x0f
          ≡ pair * 4 + successor d pair =
        sampled_mod f.encoder_data (successor d pair) (successor-lt d pair small)
        ∙ ap (λ n. n * 4 + successor d pair) last in
      let counted =
        ap₂ (λ z i. to_int8 (z +ℤ get_or encoder_look_up_table i (pos 0))) e index
        ∙ ap (λ u. to_int8 (pulses d k +ℤ u)) (table-unit d pair small moving)
        ∙ pulses-unit d k few moving in
      ap₂ (judged f elapsed (sampled f.encoder_data (successor d pair))) process counted

  outputs-cons :
      (f : Filter) (elapsed : Option ℕ) (pair : ℕ) (pairs : List ℕ) (filtered : Bool)
      (position : Position) (f' : Filter)
      → is_filtered bit_read f pair stopped elapsed ≡ (filtered, position, f')
      → outputs f elapsed (pair ∷ pairs) ≡ (filtered, position) ∷ outputs f' elapsed pairs
  unfolding outputs
  outputs-cons f elapsed pair pairs filtered position f' e =
      ap {A = Bool × Position × Filter} (λ r. (r.0, r.1) ∷ outputs r.2 elapsed pairs) e

-- The four samples of a full turn that starts after `pair`.
abbrev pub full_turn : Position → ℕ → List ℕ
full_turn d pair =
    let p₁ = successor d pair in
    let p₂ = successor d p₁ in let p₃ = successor d p₂ in p₁ ∷ p₂ ∷ p₃ ∷ successor d p₃ ∷ []

-- What is reported depends on the direction history only.
debounce-kept :
    (f : Filter) (n : ℕ) (z : ℤ) (d : Position) (elapsed : Option ℕ)
    → (debounce (record f { encoder_data = n; encoder_pulses = z }) d elapsed).0
      ≡ (debounce f d elapsed).0
unfolding debounce
debounce-kept f n z d none = ground arith
debounce-kept f n z d (some t) = ground arith

module _ (bit_read : ℕ → ℕ → Bool) (reads : Reads bit_read) where
  -- One sample of a turn, which does not complete it.
  turn_on :
      (f : Filter) (d : Position) (k pair : ℕ) (elapsed : Option ℕ) (pairs : List ℕ)
      → f.encoder_data / 2 ^ 7 % 2 ≡ 1
      → f.encoder_data % 4 ≡ pair
      → k < 3
      → f.encoder_pulses ≡ pulses d k
      → d ≢ stopped
      → outputs bit_read f elapsed (successor d pair ∷ pairs)
        ≡ (false, stopped)
          ∷ outputs bit_read
              (record f {
                encoder_data = sampled f.encoder_data (successor d pair);
                encoder_pulses = pulses d (suc k);
              })
              elapsed
              pairs
  turn_on f d k pair elapsed pairs valid last few e moving =
      outputs-cons bit_read f elapsed (successor d pair) pairs false stopped _ (
        transition bit_read f d k pair elapsed reads valid last (omega arith) e moving
        ∙ unfinished f d k elapsed (sampled f.encoder_data (successor d pair)) few moving)
    where
      unfinished :
          (f : Filter) (d : Position) (k : ℕ) (elapsed : Option ℕ) (n : ℕ)
          → k < 3
          → d ≢ stopped
          → judged bit_read f elapsed n true (pulses d (suc k))
            ≡ (false, stopped, record f { encoder_data = n; encoder_pulses = pulses d (suc k) })
      unfinished f stopped k elapsed n few moving = absurd (moving refl)
      unfinished f ccw k elapsed n few moving = ground arith
      unfinished f cw k elapsed n few moving = ground arith

  -- The last sample of a turn.
  turn_end :
      (f : Filter) (d : Position) (pair : ℕ) (elapsed : Option ℕ)
      → f.encoder_data / 2 ^ 7 % 2 ≡ 1
      → f.encoder_data % 4 ≡ pair
      → f.encoder_pulses ≡ pulses d 3
      → d ≢ stopped
      → outputs bit_read f elapsed (successor d pair ∷ []) ≡ (true, (debounce f d elapsed).0) ∷ []
  unfolding outputs
  turn_end f d pair elapsed valid last e moving =
      outputs-cons bit_read f elapsed (successor d pair) [] true _ _ (
        transition bit_read f d 3 pair elapsed reads valid last (omega arith) e moving
        ∙ finished f d elapsed (sampled f.encoder_data (successor d pair)) moving)
      ∙ ap (λ p. (true, p) ∷ [])
          (debounce-kept f (sampled f.encoder_data (successor d pair)) (pos 0) d elapsed)
    where
      finished :
          (f : Filter) (d : Position) (elapsed : Option ℕ) (n : ℕ)
          → d ≢ stopped
          → judged bit_read f elapsed n true (pulses d 4) ≡ (
            true,
            (debounce (record f { encoder_data = n; encoder_pulses = pos 0 }) d elapsed).0,
            (debounce (record f { encoder_data = n; encoder_pulses = pos 0 }) d elapsed).1,
          )
      finished f stopped elapsed n moving = absurd (moving refl)
      finished f ccw elapsed n moving = refl
      finished f cw elapsed n moving = refl

  -- A full turn of the two contacts, in either direction and from any of their four positions, is
  -- one step: a seeded filter with no pulses counted reports nothing for the first three samples,
  -- and on the fourth the position that the debouncing gives for a step in that direction
  -- (where `bit_read` reads a bit).
  pub outputs-full_turn :
      (f : Filter) (d : Position) (elapsed : Option ℕ)
      → f.encoder_data / 2 ^ 7 % 2 ≡ 1
      → f.encoder_pulses ≡ pos 0
      → d ≢ stopped
      → outputs bit_read f elapsed (full_turn d (f.encoder_data % 4))
        ≡ (false, stopped)
          ∷ (false, stopped)
          ∷ (false, stopped)
          ∷ (true, (debounce f d elapsed).0)
          ∷ []
  outputs-full_turn f d elapsed valid e moving =
      turn_on f d 0 p₀ elapsed _ valid refl (omega arith) (e ∙ none_yet d) moving
      ∙ ap (λ l. (false, stopped) ∷ l)
          (turn_on (after f p₁ 1) d 1 p₁ elapsed _ (high_bit _) (sampled_last f.encoder_data p₁ b₁)
              (omega arith) refl moving
            ∙ ap (λ l. (false, stopped) ∷ l)
                (turn_on (after (after f p₁ 1) p₂ 2) d 2 p₂ elapsed _ (high_bit _)
                    (sampled_last (after f p₁ 1).encoder_data p₂ b₂) (omega arith) refl moving
                  ∙ ap (λ l. (false, stopped) ∷ l)
                      (turn_end (after (after (after f p₁ 1) p₂ 2) p₃ 3) d p₃ elapsed (high_bit _)
                          (sampled_last (after (after f p₁ 1) p₂ 2).encoder_data p₃ b₃) refl moving
                        ∙ ap (λ p. (true, p) ∷ []) (debounce-kept f _ _ d elapsed))))
    where
      after : Filter → ℕ → ℕ → Filter
      after g p k = record g {
        encoder_data = sampled g.encoder_data p;
        encoder_pulses = pulses d k;
      }

      none_yet : (d : Position) → pos 0 ≡ pulses d 0
      none_yet stopped = refl
      none_yet ccw = refl
      none_yet cw = refl

      p₀ : ℕ
      p₀ = f.encoder_data % 4

      p₁ : ℕ
      p₁ = successor d p₀

      p₂ : ℕ
      p₂ = successor d p₁

      p₃ : ℕ
      p₃ = successor d p₂

      b₁ : p₁ < 4
      b₁ = successor-lt d p₀ (omega arith)

      b₂ : p₂ < 4
      b₂ = successor-lt d p₁ b₁

      b₃ : p₃ < 4
      b₃ = successor-lt d p₂ b₂
