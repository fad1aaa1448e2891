-- ===== src/Switches/Inputs.antt =====
-- `Switches`: app/firmware/src/io/digital/switches/instance/impl/switches.{h,cpp}, with
-- `BaseCollection` of app/firmware/src/io/shared/common.h, whose groups are the list of their sizes:
-- digital inputs, analog inputs and touchscreen components. What is published is kept in order.
pub mod Configuration
pub mod Debounced
use open_deck.Prelude.{
  ℕ, zero, suc, ◌+◌, ◌-◌, Bool, true, false, not, ◌&&◌, List, [], ◌∷◌, ◌++◌, Option, none, some,
  ltb, leb, ◌==◌, if◌then◌else◌, get_or, min,
}
use open_deck.Signaling.{
  Published, MidiIoSignal, osc_io, midi_io, system_event, analog_switch, touchscreen_switch,
}
use open_deck.Switches.Settings.{Config}
use open_deck.Switches.Filter.{is_filtered}
use open_deck.Switches.Mapper
use open_deck.Switches.State.{Mapper, Result}
use open_deck.Switches.Mapper.{result, refresh_result}

-- `Collection::size()`
unfoldable pub total : List ℕ → ℕ
total [] = 0
total (n ∷ sizes) = n + total sizes

-- `Collection::size(group)`
abbrev pub group_size : List ℕ → ℕ → ℕ
group_size sizes group = get_or sizes group 0

-- `Collection::start_index(group)`
unfoldable pub start_index : List ℕ → ℕ → ℕ
start_index sizes zero = 0
start_index [] (suc group) = 0
start_index (n ∷ sizes) (suc group) = n + start_index sizes group

-- `GroupDigitalInputs`, `GroupAnalogInputs` and `GroupTouchscreenComponents`
abbrev pub group_digital_inputs : ℕ
group_digital_inputs = 0

abbrev pub group_analog_inputs : ℕ
group_analog_inputs = 1

abbrev pub group_touchscreen_components : ℕ
group_touchscreen_components = 2

pub record Switches : Type 0 where
  pub debounce_states : List ℕ
  pub mapper : Mapper
  pub published : List Published

abbrev published_of : {A : Type 0} → (A → Published) → Option A → List Published
published_of f none = []
published_of f (some a) = f a ∷ []

unfoldable pub publish_result : Bool → Switches → Result → Bool → Switches
publish_result is_frozen s r ignore_freeze =
    let signals =
      published_of osc_io r.osc
      ++ published_of midi_io r.midi
      ++ published_of system_event r.system in
    if is_frozen && not ignore_freeze then s else record s { published = s.published ++ signals }

-- publishes a result where there is one
unfoldable pub publish_some : Bool → Bool → Switches → Option Result → Switches
unfolding publish_result
publish_some is_frozen ignore_freeze s none = s
publish_some is_frozen ignore_freeze s (some r) = publish_result is_frozen s r ignore_freeze

-- The loop over the groups of the layout provider, from a group on whose first index is `start`.
unfoldable pub init_in_groups : List ℕ → ℕ → ℕ → Option ℕ
init_in_groups [] start index = none
init_in_groups (n ∷ sizes) start index =
    let rest = init_in_groups sizes (start + n) index in
    if leb start index && ltb index (start + n) then some (index - start) else rest

-- the provider of initial MIDI indexes that the constructor registers
unfoldable pub layout_init : List ℕ → ℕ → Option ℕ
unfolding init_in_groups
layout_init sizes index = init_in_groups sizes 0 index

module _ (max_value_7bit : ℕ) (config : Config) (sizes : List ℕ) (is_frozen : Bool) where
  unfoldable pub process_switch : Switches → ℕ → Bool → Switches
  unfolding result publish_some total
  process_switch s index reading =
      let (r, m) = result max_value_7bit config (total sizes) s.mapper index reading in
      publish_some is_frozen false (record s { mapper = m }) r

  -- what the constructor subscribes to MIDI signals
  unfoldable pub handle_midi : Switches → MidiIoSignal → Switches
  unfolding process_switch start_index
  handle_midi s event =
      let reading = not (event.value == 0) in
      if is_frozen then s else elim event.source [
        | analog_switch ↦
            process_switch s (event.component_index + start_index sizes group_analog_inputs) reading
        | touchscreen_switch ↦
            process_switch s
              (event.component_index + start_index sizes group_touchscreen_components) reading
        | _ ↦ s
      ]

  -- The end of the body of the loop of `process_state_changes`, for a state that was read.
  unfoldable pub process_reading : Switches → ℕ → Bool → Switches
  unfolding is_filtered process_switch
  process_reading s index current_state =
      let ((filtered, filtered_state), states) =
        is_filtered s.debounce_states index current_state in
      let s' = record s { debounce_states = states } in
      if not filtered then s' else process_switch s' index filtered_state

  unfoldable pub process_read : Switches → ℕ → Option Bool → Switches
  unfolding process_reading
  process_read s index none = s
  process_read s index (some current_state) = process_reading s index current_state

  -- The loop of `process_state_changes`, from an index on, with the inputs left; `state` gives what
  -- `Switches::state` reads.
  unfoldable pub process_from : (ℕ → Option Bool) → ℕ → ℕ → Switches → Switches
  unfolding process_read
  process_from state index zero s = s
  process_from state index (suc left) s =
      process_from state (index + 1) left (process_read s index (state index))

  unfoldable pub process_state_changes : (ℕ → Option Bool) → Switches → Switches
  unfolding process_from
  process_state_changes state s =
      if is_frozen then s else process_from state 0 (group_size sizes group_digital_inputs) s

  -- the loop of `force_refresh`, with the switches left
  unfoldable pub refresh_from : Switches → ℕ → ℕ → Switches
  unfolding refresh_result publish_some total
  refresh_from s index zero = s
  refresh_from s index (suc left) =
      let (r, m) = refresh_result max_value_7bit config (total sizes) s.mapper index in
      refresh_from (publish_some is_frozen true (record s { mapper = m }) r) (index + 1) left

  unfoldable pub force_refresh : Switches → ℕ → ℕ → Switches
  unfolding refresh_from
  force_refresh s first count =
      let size = group_size sizes group_digital_inputs in
      if leb size first then s else refresh_from s first (min (first + count) size - first)

-- `Switches::state`, by the database read of `Encoder::Enable`, `switch_to_encoder_index` and `state`
-- of the hardware interface
unfoldable pub state : (ℕ → ℕ) → (ℕ → ℕ) → (ℕ → Option Bool) → ℕ → Option Bool
state encoder_enable switch_to_encoder_index hwa_state index =
    if encoder_enable (switch_to_encoder_index index) == 0 then hwa_state index else none

abbrev pub refreshable_components : List ℕ → ℕ
refreshable_components sizes = group_size sizes group_digital_inputs

unfoldable pub reset : List ℕ → Switches → ℕ → Switches
unfolding Mapper.reset total
reset sizes s index = record s { mapper = Mapper.reset (total sizes) s.mapper index }

-- the loop of `init`, with the switches left
unfoldable pub reset_from : List ℕ → Switches → ℕ → ℕ → Switches
unfolding reset
reset_from sizes s index zero = s
reset_from sizes s index (suc left) = reset_from sizes (reset sizes s index) (index + 1) left

-- `init`, by the result of the hardware interface
unfoldable pub init : List ℕ → Bool → Switches → Bool × Switches
unfolding reset_from total
init sizes hwa_ready s =
    if not hwa_ready then (false, s) else (true, reset_from sizes s 0 (total sizes))
