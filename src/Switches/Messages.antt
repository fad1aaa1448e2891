-- ===== src/Switches/Messages.antt =====
-- The messages of `Mapper::build_result`, one for each message type of a switch:
-- app/firmware/src/io/digital/switches/instance/impl/mapper.cpp. The greatest value of seven bits of
-- the zlibs library is a parameter.
use Prim.Native.Nat.{bit_and}
use open_deck.Prelude.{
  ℕ, ◌+◌, ◌%◌, ◌^◌, Bool, true, false, ◌&&◌, Option, none, some, ◌==◌, if◌then◌else◌, get_or, set,
}
use open_deck.Util.IncDec.{Overrun, increment, edge, overflow}
use open_deck.Global.Bpm
use open_deck.Global.Bpm.{Bpm}
use open_deck.Global.MidiProgram.{
  MidiProgram, increment_program, decrement_program, program, increment_offset, decrement_offset,
}
use open_deck.Signaling
use open_deck.Signaling.{
  OscIoSignal, MidiIoSignal, MessageType, SystemEvent, switch, outward, preset_change_direct_req,
}
use open_deck.Switches.Settings.{
  Action, note, program_change, control_change, control_change_reset, mmc_stop, mmc_play,
  mmc_record, mmc_pause, real_time_clock, real_time_start, real_time_continue, real_time_stop,
  real_time_active_sensing, real_time_system_reset, program_change_inc, program_change_dec,
  no_message, preset_change, multi_val_inc_reset_note, multi_val_inc_dec_note,
  multi_val_inc_reset_cc, multi_val_inc_dec_cc, note_off_only, control_change_0_only, reserved,
  program_change_offset_inc, program_change_offset_dec, bpm_inc, bpm_dec, mmc_play_stop,
  message_count,
}
use open_deck.Switches.State.{DatabaseInfo, Mapper, fill_midi_signal}

-- How the switch over the message type ends: whether the signal is sent, the signal, the system
-- event, and the mapper.
pub record Outcome : Type 0 where
  pub send : Bool
  pub signal : MidiIoSignal
  pub system : Option SystemEvent
  pub mapper : Mapper

abbrev pub outcome : Bool → MidiIoSignal → Mapper → Outcome
outcome send signal m = record { send = send; signal = signal; system = none; mapper = m }

-- the cases `ProgramChangeInc` and `ProgramChangeDec`, by what the call on the programs returns
unfoldable pub send_program : Mapper → MidiIoSignal → Bool × MidiProgram → Outcome
unfolding program
send_program m signal (changed, programs) =
    outcome changed (record signal { value = 0; index = program programs signal.channel })
      (record m { programs = programs })

-- the cases `BpmInc` and `BpmDec`, by what the call on the tempo returns
unfoldable pub send_bpm : Mapper → MidiIoSignal → Bool × Bpm → Outcome
send_bpm m signal (changed, bpm) =
    outcome changed (record signal { value = 0; index = bpm.bpm }) (record m { bpm = bpm })

abbrev note_message : Bool → ℕ → MessageType → MessageType
note_message is_note value message =
    if is_note then (if value == 0 then Signaling.note_off else Signaling.note_on) else message

-- the switch of `build_result` for a state that is off
unfoldable pub send_off : Action → MidiIoSignal → Bool × MidiIoSignal
send_off note signal = (true, record signal { value = 0; message = Signaling.note_off })
send_off control_change_reset signal = (true, record signal { value = 0 })
send_off mmc_record signal = (true, record signal { message = Signaling.mmc_record_stop })
send_off mmc_play_stop signal = (true, record signal { message = Signaling.mmc_stop })
send_off _ signal = (false, signal)

module _ (max_value_7bit : ℕ) where
  -- the four cases `MultiVal…`
  unfoldable pub send_multi_value : Mapper → ℕ → MidiIoSignal → Bool → Bool → Overrun → Outcome
  unfolding increment
  send_multi_value m index signal mutate is_note overrun =
      let current_value = get_or m.inc_dec_value index 0 in
      let stepped = increment max_value_7bit current_value (signal.value % 256) overrun in
      let new_value = if mutate then stepped else current_value in
      let signal' = record signal {
        message = note_message is_note new_value signal.message;
        value = new_value;
      } in
      if mutate && (new_value == current_value)
      then outcome false signal m
      else outcome true signal'
          (if mutate then record m { inc_dec_value = set m.inc_dec_value index new_value } else m)

  -- the switch of `build_result` for a state that is on
  unfoldable pub send_on : Mapper → ℕ → Action → MidiIoSignal → Bool → Outcome
  unfolding send_program send_bpm send_multi_value increment_program decrement_program
      increment_offset decrement_offset Bpm.increment Bpm.decrement
  send_on m index note signal mutate = outcome true signal m
  send_on m index control_change signal mutate = outcome true signal m
  send_on m index control_change_reset signal mutate = outcome true signal m
  send_on m index real_time_clock signal mutate = outcome true signal m
  send_on m index real_time_start signal mutate = outcome true signal m
  send_on m index real_time_continue signal mutate = outcome true signal m
  send_on m index real_time_stop signal mutate = outcome true signal m
  send_on m index real_time_active_sensing signal mutate = outcome true signal m
  send_on m index real_time_system_reset signal mutate = outcome true signal m
  send_on m index mmc_play signal mutate = outcome true signal m
  send_on m index mmc_stop signal mutate = outcome true signal m
  send_on m index mmc_pause signal mutate = outcome true signal m
  send_on m index mmc_record signal mutate = outcome true signal m
  send_on m index mmc_play_stop signal mutate = outcome true signal m
  send_on m index program_change signal mutate =
      let shifted = (signal.index + m.programs.offset) % 2 ^ 16 in
      outcome true (record signal { value = 0; index = bit_and shifted max_value_7bit }) m
  send_on m index program_change_inc signal mutate =
      send_program m signal
        (if mutate then increment_program m.programs signal.channel 1 else (true, m.programs))
  send_on m index program_change_dec signal mutate =
      send_program m signal
        (if mutate then decrement_program m.programs signal.channel 1 else (true, m.programs))
  send_on m index multi_val_inc_reset_note signal mutate =
      send_multi_value m index signal mutate true overflow
  send_on m index multi_val_inc_dec_note signal mutate =
      send_multi_value m index signal mutate true edge
  send_on m index multi_val_inc_reset_cc signal mutate =
      send_multi_value m index signal mutate false overflow
  send_on m index multi_val_inc_dec_cc signal mutate =
      send_multi_value m index signal mutate false edge
  send_on m index note_off_only signal mutate =
      outcome true (record signal { value = 0; message = Signaling.note_off }) m
  send_on m index control_change_0_only signal mutate = outcome true (record signal { value = 0 }) m
  send_on m index program_change_offset_inc signal mutate =
      let (_, programs) = increment_offset m.programs (signal.value % 256) in
      outcome true signal (if mutate then record m { programs = programs } else m)
  send_on m index program_change_offset_dec signal mutate =
      let (_, programs) = decrement_offset m.programs (signal.value % 256) in
      outcome true signal (if mutate then record m { programs = programs } else m)
  send_on m index preset_change signal mutate = record {
    send = false;
    signal = signal;
    system = if mutate then some (preset_change_direct_req signal.index) else none;
    mapper = m;
  }
  send_on m index bpm_inc signal mutate =
      send_bpm m signal (if mutate then Bpm.increment m.bpm 1 else (true, m.bpm))
  send_on m index bpm_dec signal mutate =
      send_bpm m signal (if mutate then Bpm.decrement m.bpm 1 else (true, m.bpm))
  send_on m index no_message signal mutate = outcome false signal m
  send_on m index reserved signal mutate = outcome false signal m
  send_on m index message_count signal mutate = outcome false signal m

  -- the MIDI half of `build_result`, by the state to send
  unfoldable pub send_midi : Mapper → ℕ → DatabaseInfo → Bool → Option Bool → Outcome
  unfolding fill_midi_signal send_on send_off
  send_midi m index info mutate none = outcome false (fill_midi_signal info) m
  send_midi m index info mutate (some true) =
      send_on m index info.message_type (fill_midi_signal info) mutate
  send_midi m index info mutate (some false) =
      let (send, signal) = send_off info.message_type (fill_midi_signal info) in
      outcome send signal m
