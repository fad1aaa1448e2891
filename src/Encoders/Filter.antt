-- ===== src/Encoders/Filter.antt =====
-- `FilterHw`: app/firmware/src/io/digital/encoders/filter/hw/filter_hw.h, with `Position` of
-- shared/common.h. Every call reads and writes the entries of its arrays at one index only; a
-- `Filter` is those entries.
pub mod Steps
pub mod Samples
pub mod Quadrature
use Prim.Native.Nat.{bit_and, bit_or}
use open_deck.Prelude.{
  ℕ, ◌+◌, ◌*◌, ◌%◌, Bool, true, false, not, ◌||◌, List, [], ◌∷◌, Option, none, some, ltb, leb, ◌==◌,
  if◌then◌else◌, get_or,
}
use open_deck.Prelude.Integers.{ℤ, pos, negsuc, ◌+ℤ◌, abs, is_positive, to_int8}

pub data Position : Type 0 where
  stopped ccw cw : Position

-- `==` on positions
abbrev pub same : Position → Position → Bool
same stopped stopped = true
same ccw ccw = true
same cw cw = true
same _ _ = false

pub record Filter : Type 0 where
  pub last_direction : Position
  pub debounce_direction : Position
  pub debounce_counter : ℕ
  pub encoder_data : ℕ
  pub encoder_pulses : ℤ

abbrev pub initial : Filter
initial = record {
  last_direction = stopped;
  debounce_direction = stopped;
  debounce_counter = 0;
  encoder_data = 0;
  encoder_pulses = pos 0;
}

abbrev pub pulses_per_step : ℕ
pulses_per_step = 4

abbrev pub encoders_debounce_reset_time_ms : ℕ
encoders_debounce_reset_time_ms = 50

abbrev pub encoders_debounce_count : ℕ
encoders_debounce_count = 4

abbrev pub encoder_look_up_table : List ℤ
encoder_look_up_table =
    pos 0
    ∷ pos 1
    ∷ negsuc 0
    ∷ pos 0
    ∷ negsuc 0
    ∷ pos 0
    ∷ pos 0
    ∷ pos 1
    ∷ pos 1
    ∷ pos 0
    ∷ pos 0
    ∷ negsuc 0
    ∷ pos 0
    ∷ negsuc 0
    ∷ pos 1
    ∷ pos 0
    ∷ []

unfoldable pub reset_direction_debounce : Filter → Filter
reset_direction_debounce f = record f {
  last_direction = stopped;
  debounce_counter = 0;
  debounce_direction = stopped;
}

-- the count of consecutive steps: the test against `ENCODERS_DEBOUNCE_COUNT` and what it guards
unfoldable pub count_step : Filter → Position → Filter
count_step f position =
    let counter = if not (same position f.last_direction) then 0 else f.debounce_counter in
    let counter' = (counter + 1) % 256 in
    if f.debounce_counter == encoders_debounce_count
    then f
    else if counter' == encoders_debounce_count
    then record f { debounce_counter = 0; debounce_direction = position }
    else record f { debounce_counter = counter' }

-- The part of `is_filtered` for a complete step: the position that it reports, and the filter.
unfoldable pub debounce : Filter → Position → Option ℕ → Position × Filter
unfolding reset_direction_debounce count_step
debounce f position movement_elapsed_time =
    let idle : Bool = elim movement_elapsed_time [
      | none ↦ true
      | some t ↦ ltb encoders_debounce_reset_time_ms t
    ] in
    let f₁ = count_step (if idle then reset_direction_debounce f else f) position in
    let f₂ = record f₁ { last_direction = position } in
    (if not (same f₂.debounce_direction stopped) then f₂.debounce_direction else position, f₂)

-- `zlibs::utils::misc::bit_read`, of a library.
module _ (bit_read : ℕ → ℕ → Bool) where
  -- The result, the filtered position and the filter; the position is the caller's variable, which a
  -- call that only seeds the decoder leaves alone.
  unfoldable pub is_filtered : Filter → ℕ → Position → Option ℕ → Bool × Position × Filter
  unfolding debounce
  is_filtered f pair_state filtered_position movement_elapsed_time =
      let pair_state' = bit_and pair_state 0x03 in
      let process = bit_read f.encoder_data 7 in
      let pair_data = bit_or (bit_or (f.encoder_data * 4 % 256) pair_state') 0x80 in
      let f₁ = record f { encoder_data = pair_data } in
      let pulses =
        to_int8
          (f.encoder_pulses +ℤ get_or encoder_look_up_table (bit_and pair_data 0x0f) (pos 0)) in
      let f₂ = record f₁ { encoder_pulses = pulses } in
      let position = if is_positive pulses then ccw else cw in
      let (reported, f₃) =
        debounce (record f₂ { encoder_pulses = pos 0 }) position movement_elapsed_time in
      if not process
      then (false, filtered_position, f₁)
      else if leb pulses_per_step (abs pulses)
      then (true, reported, f₃)
      else (false, stopped, f₂)

unfoldable pub reset : Filter → Filter
unfolding reset_direction_debounce
reset f = record (reset_direction_debounce f) { encoder_data = 0; encoder_pulses = pos 0 }
