-- ===== src/Switches/Tests.antt =====
-- The theorems on switches on three of them: a momentary note, a latching note and a counter.
use open_deck.Prelude.{
  ℕ, ◌≡◌, refl, Bool, true, false, List, [], ◌∷◌, some, arith, get_or, ◌==◌, if◌then◌else◌,
}
use open_deck.Global.Bpm.{bpm_default}
use open_deck.Global.MidiProgram
use open_deck.Signaling.{OscIoSignal}
use open_deck.Switches.Settings.{
  Config, type_section, message_type_section, midi_id, value, channel, to_type, to_message_type,
}
use open_deck.Switches.Inputs.{Switches, process_reading, process_switch}
use open_deck.Switches.Inputs.Debounced.{process_reading-debounced}
use open_deck.Switches.Filter.Recent.{all_recent}
use open_deck.Switches.Filter.Debounce.{sampled, of_input}
use open_deck.Switches.State.{
  Mapper, fill_osc_signal, read_database_info, midi_type, message_to_type,
}
use open_deck.Switches.Messages.{send_midi, send_on}
use open_deck.Switches.Mapper.{result, refresh_result, build_result, latched, osc_of, unless_empty}
use open_deck.Switches.Mapper.Changes.{osc_part, refresh_result-repeats}
use open_deck.Switches.Mapper.Presses.{read_all, read_all-turned, presses, turned}
use open_deck.Switches.Mapper.Counters.{
  IsBounded, run_all, run_all-IsBounded, read_of, refresh_of, reset_of,
}

abbrev config : Config
config type_section index = if index == 1 then 1 else 0
config message_type_section index = if index == 2 then 18 else 0
config midi_id index = index
config value index = 100
config channel index = 1

abbrev idle : Mapper
idle = record {
  pressed_state = false ∷ false ∷ false ∷ [];
  inc_dec_value = 0 ∷ 0 ∷ 0 ∷ [];
  osc_latching_state = false ∷ false ∷ false ∷ [];
  midi_latching_state = false ∷ false ∷ false ∷ [];
  programs = MidiProgram.initial;
  bpm = record { bpm = bpm_default; published = [] };
}

-- seven samples of a pressed input after a released one, between samples of another input
abbrev seen : List (ℕ × Bool)
seen =
    (0, true)
    ∷ (0, true)
    ∷ (0, true)
    ∷ (0, true)
    ∷ (1, false)
    ∷ (0, true)
    ∷ (0, true)
    ∷ (0, true)
    ∷ (1, true)
    ∷ (0, false)
    ∷ []

abbrev inputs : Switches
inputs = record { debounce_states = sampled 2 seen; mapper = idle; published = [] }

process_reading-debounced_example :
    let s' = record inputs { debounce_states = sampled 2 ((0, true) ∷ seen) } in
    process_reading 127 config (2 ∷ 1 ∷ 0 ∷ []) false inputs 0 true ≡ (
      if all_recent 8 true (true ∷ of_input 0 seen)
      then process_switch 127 config (2 ∷ 1 ∷ 0 ∷ []) false s' 0 true
      else s')
process_reading-debounced_example =
    process_reading-debounced 127 config (2 ∷ 1 ∷ 0 ∷ []) false inputs 2 0 seen true (omega arith)
      refl

abbrev latched_on : OscIoSignal
latched_on = fill_osc_signal 1 true

refresh_result-repeats_example :
    let m' = (result 127 config 3 idle 1 true).1 in
    (osc_part (refresh_result 127 config 3 m' 1).0 ≡ some latched_on)
    × ((refresh_result 127 config 3 m' 1).1 ≡ m')
unfolding result build_result read_database_info latched osc_of send_midi unless_empty send_on
    midi_type message_to_type to_type to_message_type fill_osc_signal
refresh_result-repeats_example =
    refresh_result-repeats 127 config 3 idle 1 true latched_on (omega arith) refl

read_all-turned_example :
    get_or
      (read_all 127 config 3 idle 1 (true ∷ false ∷ true ∷ true ∷ [])).osc_latching_state
      1
      false
    ≡ turned (presses false (true ∷ false ∷ true ∷ true ∷ [])) false
read_all-turned_example =
    read_all-turned 127 config 3 idle 1 (true ∷ false ∷ true ∷ true ∷ []) refl refl
      (record { pressed = omega arith; latched = omega arith })

run_all-IsBounded_example : IsBounded 127 (
    run_all 127 config 3 idle
      (read_of 2 true ∷ read_of 2 false ∷ read_of 2 true ∷ reset_of 1 ∷ refresh_of 2 ∷ []))
run_all-IsBounded_example =
    run_all-IsBounded 127 config 3 idle
      (read_of 2 true ∷ read_of 2 false ∷ read_of 2 true ∷ reset_of 1 ∷ refresh_of 2 ∷ [])
      (omega arith)
