-- ===== src/Switches/Filter/Debounce.antt =====
-- The filter reports a sample when the last eight samples of its input agree.
use open_deck.Prelude.{
  ℕ, ◌<◌, ◌≡◌, ◌⊎◌, inl, inr, refl, sym, ap, ◌∙◌, Bool, List, [], ◌∷◌, if◌then◌else◌, get_or, set,
  length, arith, get_or-set_self, get_or-set_ne, ◌==◌, Bool-cases, ◌≢◌, leb, get_or-replicate,
  length-set, length-replicate,
}
use open_deck.Switches.Filter.{shift_in, decide, is_filtered, initial}
use open_deck.Switches.Filter.Recent.{all_recent, value, shift_in-value, decide-recent}

-- The states of the filter after samples, each with its input, the last one first.
pub sampled : ℕ → List (ℕ × Bool) → List ℕ
unfolding is_filtered
sampled count [] = initial count
sampled count ((index, state) ∷ samples) = (is_filtered (sampled count samples) index state).1

pub sampled-next :
    (count index : ℕ) (samples : List (ℕ × Bool)) (state : Bool)
    → sampled count ((index, state) ∷ samples) ≡ (is_filtered (sampled count samples) index state).1
unfolding sampled
sampled-next count index samples state = refl

-- the samples of one input
pub of_input : ℕ → List (ℕ × Bool) → List Bool
of_input index [] = []
of_input index ((k, state) ∷ samples) =
    let rest = of_input index samples in if k == index then state ∷ rest else rest

is_filtered-inside :
    (states : List ℕ) (index : ℕ) (x : Bool)
    → index < length states
    → is_filtered states index x ≡ (
      decide (shift_in (get_or states index 0) x) x,
      set states index (shift_in (get_or states index 0) x),
    )
unfolding is_filtered
is_filtered-inside states index x p = ground arith

is_filtered-length :
    (states : List ℕ) (index : ℕ) (x : Bool) → length (is_filtered states index x).1 ≡ length states
unfolding is_filtered
is_filtered-length states index x = elim (Bool-cases (leb (length states) index)) [
  | inl over ↦ rw (is_filtered, over)
  | inr inside ↦
      (rw (is_filtered, inside)) ∙ length-set states index (shift_in (get_or states index 0) x)
]

is_filtered-other :
    (states : List ℕ) (k index : ℕ) (x : Bool)
    → k ≢ index
    → get_or (is_filtered states k x).1 index 0 ≡ get_or states index 0
unfolding is_filtered
is_filtered-other states k index x ne = elim (Bool-cases (leb (length states) k)) [
  | inl over ↦ rw (is_filtered, over)
  | inr inside ↦
      (rw (is_filtered, inside))
      ∙ get_or-set_ne states k index (shift_in (get_or states k 0) x) 0 ne
]

equal_or_not : (a b : ℕ) → (a ≡ b) ⊎ (a ≢ b)
equal_or_not a b = elim (Bool-cases (a == b)) [
  | inl e ↦ inl (ground arith)
  | inr e ↦ inr (ground arith)
]

of_input-own :
    (k index : ℕ) (x : Bool) (samples : List (ℕ × Bool))
    → k ≡ index
    → of_input index ((k, x) ∷ samples) ≡ x ∷ of_input index samples
unfolding of_input
of_input-own k index x samples e = ground arith

of_input-other :
    (k index : ℕ) (x : Bool) (samples : List (ℕ × Bool))
    → k ≢ index
    → of_input index ((k, x) ∷ samples) ≡ of_input index samples
unfolding of_input
of_input-other k index x samples e = ground arith

sampled-length : (count : ℕ) (samples : List (ℕ × Bool)) → length (sampled count samples) ≡ count
unfolding sampled
sampled-length count [] = length-replicate count 0
sampled-length count ((k, x) ∷ samples) =
    is_filtered-length (sampled count samples) k x ∙ sampled-length count samples

sampled-value :
    (count index : ℕ) (samples : List (ℕ × Bool))
    → index < count
    → get_or (sampled count samples) index 0 ≡ value 8 (of_input index samples)
unfolding sampled of_input value
sampled-value count index [] p = get_or-replicate count index 0 0 p
sampled-value count index ((k, x) ∷ samples) p =
    let states = sampled count samples in
    let len = sampled-length count samples in
    let same = sampled-value count index samples p in
    elim (equal_or_not k index) [
      | inl own ↦
          (λ i. get_or (is_filtered states (own i) x).1 index 0)
          ∙ ap (λ r. get_or r.1 index 0) (is_filtered-inside states index x (omega arith))
          ∙ get_or-set_self states index (shift_in (get_or states index 0) x) 0 (omega arith)
          ∙ ap (λ b. shift_in b x) same
          ∙ shift_in-value x (of_input index samples)
          ∙ ap (value 8) (sym (of_input-own k index x samples own))
      | inr other ↦
          is_filtered-other states k index x other
          ∙ same
          ∙ ap (value 8) (sym (of_input-other k index x samples other))
    ]

-- The filter reports a sample of an input exactly when the last eight samples of that input, this
-- one included, are equal, where the input counts as released before its first sample and samples of
-- other inputs do not matter; the state that it reports is then that of the sample.
pub is_filtered-recent :
    (count index : ℕ) (samples : List (ℕ × Bool)) (state : Bool)
    → index < count
    → (is_filtered (sampled count samples) index state).0
      ≡ (all_recent 8 state (state ∷ of_input index samples), state)
is_filtered-recent count index samples state p =
    let len = sampled-length count samples in
    let same = sampled-value count index samples p in
    let states = sampled count samples in
    let own = of_input index samples in
    ap (λ r. r.0) (is_filtered-inside states index state (omega arith))
    ∙ ap (λ b. decide b state) (ap (λ b. shift_in b state) same ∙ shift_in-value state own)
    ∙ decide-recent state own
