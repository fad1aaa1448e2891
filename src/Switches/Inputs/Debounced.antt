-- ===== src/Switches/Inputs/Debounced.antt =====
-- A digital input counts when it is debounced.
use open_deck.Prelude.{
  ℕ, ◌<◌, ◌≡◌, refl, sym, ap, ◌∙◌, Bool, true, false, not, List, ◌∷◌, if◌then◌else◌,
}
use open_deck.Switches.Settings.{Config}
use open_deck.Switches.Filter.{is_filtered}
use open_deck.Switches.Filter.Recent.{all_recent}
use open_deck.Switches.Filter.Debounce.{sampled, sampled-next, of_input, is_filtered-recent}
use open_deck.Switches.Inputs.{Switches, process_switch, process_reading}

module _ (max_value_7bit : ℕ) (config : Config) (sizes : List ℕ) (is_frozen : Bool) where
  abbrev after_filter : Switches → ℕ → (Bool × Bool) × List ℕ → Switches
  after_filter s index ((filtered, filtered_state), states) =
      let s' = record s { debounce_states = states } in
      if not filtered
      then s'
      else process_switch max_value_7bit config sizes is_frozen s' index filtered_state

  process_reading-filtered :
      (s : Switches) (index : ℕ) (state : Bool)
      → process_reading max_value_7bit config sizes is_frozen s index state
        ≡ after_filter s index (is_filtered s.debounce_states index state)
  unfolding process_reading
  process_reading-filtered s index state = refl

  if-not : (b : Bool) (s t : Switches) → (if not b then s else t) ≡ (if b then t else s)
  if-not true s t = refl
  if-not false s t = refl

  -- A sample of a digital input becomes a reading of its switch exactly when the last eight samples
  -- of that input, this one included, are equal, and changes nothing but the filter otherwise. The
  -- filter has seen the given samples of its inputs, in any order; an input counts as released before
  -- its first sample.
  pub process_reading-debounced :
      (s : Switches) (count index : ℕ) (samples : List (ℕ × Bool)) (state : Bool)
      → index < count
      → s.debounce_states ≡ sampled count samples
      → let s' = record s { debounce_states = sampled count ((index, state) ∷ samples) } in
        process_reading max_value_7bit config sizes is_frozen s index state ≡ (
          if all_recent 8 state (state ∷ of_input index samples)
          then process_switch max_value_7bit config sizes is_frozen s' index state
          else s')
  process_reading-debounced s count index samples state p seen =
      let s' = record s { debounce_states = sampled count ((index, state) ∷ samples) } in
      let recent = all_recent 8 state (state ∷ of_input index samples) in
      let step = is_filtered-recent count index samples state p in
      process_reading-filtered s index state
      ∙ ap (λ l. after_filter s index (is_filtered l index state)) seen
      ∙ (λ i. after_filter s index (step i, (is_filtered (sampled count samples) index state).1))
      ∙ ap (λ l. after_filter s index ((recent, state), l))
          (sym (sampled-next count index samples state))
      ∙ if-not recent s' (process_switch max_value_7bit config sizes is_frozen s' index state)
