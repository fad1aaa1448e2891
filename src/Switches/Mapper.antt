-- ===== src/Switches/Mapper.antt =====
-- `Mapper`: app/firmware/src/io/digital/switches/instance/impl/mapper.{h,cpp}. `size` is
-- `Collection::size()`.
pub mod Refresh
pub mod Latches
pub mod Changes
pub mod Counters
pub mod Presses
use Prim.Native.Nat.{bit_and}
use open_deck.Prelude.{
  ℕ, ◌+◌, ◌%◌, ◌^◌, Bool, true, false, not, ◌&&◌, List, Option, none, some, leb, ◌==◌,
  if◌then◌else◌, get_or, set,
}
use open_deck.Util.IncDec.{Overrun, increment, edge, overflow}
use open_deck.Global.Bpm
use open_deck.Global.Bpm.{Bpm}
use open_deck.Global.MidiProgram.{
  MidiProgram, increment_program, decrement_program, program, increment_offset, decrement_offset,
}
use open_deck.Signaling
use open_deck.Signaling.{
  OscIoSignal, MidiIoSignal, MessageType, SystemEvent, switch, outward, preset_change_direct_req,
}
use open_deck.Switches.Settings.{
  Section, Config, SwitchType, momentary, latching, Action, to_type, to_message_type, note,
  program_change, control_change, control_change_reset, mmc_stop, mmc_play, mmc_record, mmc_pause,
  real_time_clock, real_time_start, real_time_continue, real_time_stop, real_time_active_sensing,
  real_time_system_reset, program_change_inc, program_change_dec, no_message, preset_change,
  multi_val_inc_reset_note, multi_val_inc_dec_note, multi_val_inc_reset_cc, multi_val_inc_dec_cc,
  note_off_only, control_change_0_only, reserved, program_change_offset_inc,
  program_change_offset_dec, bpm_inc, bpm_dec, mmc_play_stop, message_count,
}
use open_deck.Switches.State.{
  midi_type, message_to_type, DatabaseInfo, Mapper, Result, read_database_info, fill_midi_signal,
  fill_osc_signal,
}
use open_deck.Switches.Messages.{
  Outcome, outcome, send_program, send_bpm, send_multi_value, send_on, send_off, send_midi,
}

abbrev pub is_latching : SwitchType → Bool
is_latching latching = true
is_latching _ = false

-- The state to send, where one is sent, and the latching states that are left: what `build_result`
-- does with `_osc_latching_state` and again with `_midi_latching_state`.
unfoldable pub latched : SwitchType → Bool → Bool → Bool → List Bool → ℕ → Option Bool × List Bool
latched type reading mutate refresh states index =
    let turned = if mutate then set states index (not (get_or states index false)) else states in
    if not (is_latching type)
    then (some reading, states)
    else if refresh
    then (some (get_or states index false), states)
    else if reading
    then (some (get_or turned index false), turned)
    else (none, states)

-- `_pressed_state[index] == reading`
abbrev pub same_state : Bool → Bool → Bool
same_state a b = if a then b else not b

abbrev pub when_sent : Bool → MidiIoSignal → Option MidiIoSignal
when_sent true signal = some signal
when_sent false signal = none

-- the OSC half of `build_result`, by the state to send
unfoldable pub osc_of : ℕ → Option Bool → Option OscIoSignal
unfolding fill_osc_signal
osc_of index none = none
osc_of index (some state) = some (fill_osc_signal index state)

-- the result, unless it has no signal at all
unfoldable pub unless_empty :
    Option OscIoSignal → Option MidiIoSignal → Option SystemEvent → Option Result
unless_empty none none none = none
unless_empty osc midi system = some (record { osc = osc; midi = midi; system = system })

-- the uses of `latched` in `build_result`, and the mapper that they leave
abbrev pub osc_latch : Mapper → ℕ → Bool → DatabaseInfo → Bool → Bool → Option Bool × List Bool
osc_latch m index reading info mutate refresh =
    latched info.type reading mutate refresh m.osc_latching_state index

abbrev pub midi_latch : Mapper → ℕ → Bool → DatabaseInfo → Bool → Bool → Option Bool × List Bool
midi_latch m index reading info mutate refresh =
    latched (message_to_type info.message_type info.type) reading mutate refresh
      m.midi_latching_state index

abbrev pub with_states : Mapper → List Bool → List Bool → Mapper
with_states m osc midi = record m { osc_latching_state = osc; midi_latching_state = midi }

module _ (max_value_7bit : ℕ) where
  unfoldable pub build_result :
      ℕ → Mapper → ℕ → Bool → DatabaseInfo → Bool → Bool → Option Result × Mapper
  unfolding latched message_to_type send_midi unless_empty osc_of
  build_result size m index reading info mutate refresh =
      let (osc_state, osc_states) = osc_latch m index reading info mutate refresh in
      let (midi_state, midi_states) = midi_latch m index reading info mutate refresh in
      let o =
        send_midi max_value_7bit (with_states m osc_states midi_states) index info mutate
          midi_state in
      if leb size index
      then (none, m)
      else (unless_empty (osc_of index osc_state) (when_sent o.send o.signal) o.system, o.mapper)

  unfoldable pub result : Config → ℕ → Mapper → ℕ → Bool → Option Result × Mapper
  unfolding build_result read_database_info
  result config size m index reading =
      let m' = record m { pressed_state = set m.pressed_state index reading } in
      if leb size index
      then (none, m)
      else if same_state (get_or m.pressed_state index false) reading
      then (none, m)
      else build_result size m' index reading (read_database_info config index) true false

  unfoldable pub refresh_result : Config → ℕ → Mapper → ℕ → Option Result × Mapper
  unfolding build_result read_database_info
  refresh_result config size m index =
      if leb size index
      then (none, m)
      else build_result size m index (get_or m.pressed_state index false)
          (read_database_info config index) false true

unfoldable pub reset : ℕ → Mapper → ℕ → Mapper
reset size m index = if leb size index then m else record m {
  pressed_state = set m.pressed_state index false;
  osc_latching_state = set m.osc_latching_state index false;
  midi_latching_state = set m.midi_latching_state index false;
  inc_dec_value = set m.inc_dec_value index 0;
}
