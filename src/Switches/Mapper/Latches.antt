-- ===== src/Switches/Mapper/Latches.antt =====
-- No message changes which switches are pressed or latched.
use open_deck.Prelude.{
  ℕ, ◌%◌, ◌≡◌, refl, Bool, true, false, Option, none, some, if◌then◌else◌, arith,
}
use open_deck.Signaling.{MidiIoSignal}
use open_deck.Switches.Settings.{
  Action, note, program_change, control_change, control_change_reset, mmc_stop, mmc_play,
  mmc_record, mmc_pause, real_time_clock, real_time_start, real_time_continue, real_time_stop,
  real_time_active_sensing, real_time_system_reset, program_change_inc, program_change_dec,
  no_message, preset_change, multi_val_inc_reset_note, multi_val_inc_dec_note,
  multi_val_inc_reset_cc, multi_val_inc_dec_cc, note_off_only, control_change_0_only, reserved,
  program_change_offset_inc, program_change_offset_dec, bpm_inc, bpm_dec, mmc_play_stop,
  message_count,
}
use open_deck.Switches.State.{Mapper, DatabaseInfo, fill_midi_signal}
use open_deck.Switches.Messages.{
  send_on, send_off, send_midi, send_program, send_bpm, send_multi_value,
}
use open_deck.Util.IncDec.{Overrun, edge, overflow}
use open_deck.Global.MidiProgram.{increment_offset, decrement_offset}

-- The switches that are pressed and latched in two mappers are the same.
pub record Same (m m' : Mapper) : Type 0 where
  pub pressed : m'.pressed_state ≡ m.pressed_state
  pub osc : m'.osc_latching_state ≡ m.osc_latching_state
  pub midi : m'.midi_latching_state ≡ m.midi_latching_state

Same-if : (m m' : Mapper) (mutate : Bool) → Same m m' → Same m (if mutate then m' else m)
Same-if m m' true s = s
Same-if m m' false s = record { pressed = refl; osc = refl; midi = refl }

module _ (max_value_7bit : ℕ) where
  send_multi_value-Same :
      (m : Mapper) (index : ℕ) (signal : MidiIoSignal) (mutate is_note : Bool) (overrun : Overrun)
      → Same m (send_multi_value max_value_7bit m index signal mutate is_note overrun).mapper
  unfolding send_multi_value
  send_multi_value-Same m index signal mutate is_note overrun = record {
    pressed = ground arith;
    osc = ground arith;
    midi = ground arith;
  }

  send_on-Same :
      (m : Mapper) (index : ℕ) (type : Action) (signal : MidiIoSignal) (mutate : Bool)
      → Same m (send_on max_value_7bit m index type signal mutate).mapper
  unfolding send_on send_program send_bpm
  send_on-Same m index note signal mutate = record { pressed = refl; osc = refl; midi = refl }
  send_on-Same m index program_change signal mutate = record {
    pressed = refl;
    osc = refl;
    midi = refl;
  }
  send_on-Same m index control_change signal mutate = record {
    pressed = refl;
    osc = refl;
    midi = refl;
  }
  send_on-Same m index control_change_reset signal mutate = record {
    pressed = refl;
    osc = refl;
    midi = refl;
  }
  send_on-Same m index mmc_stop signal mutate = record { pressed = refl; osc = refl; midi = refl }
  send_on-Same m index mmc_play signal mutate = record { pressed = refl; osc = refl; midi = refl }
  send_on-Same m index mmc_record signal mutate = record { pressed = refl; osc = refl; midi = refl }
  send_on-Same m index mmc_pause signal mutate = record { pressed = refl; osc = refl; midi = refl }
  send_on-Same m index real_time_clock signal mutate = record {
    pressed = refl;
    osc = refl;
    midi = refl;
  }
  send_on-Same m index real_time_start signal mutate = record {
    pressed = refl;
    osc = refl;
    midi = refl;
  }
  send_on-Same m index real_time_continue signal mutate = record {
    pressed = refl;
    osc = refl;
    midi = refl;
  }
  send_on-Same m index real_time_stop signal mutate = record {
    pressed = refl;
    osc = refl;
    midi = refl;
  }
  send_on-Same m index real_time_active_sensing signal mutate = record {
    pressed = refl;
    osc = refl;
    midi = refl;
  }
  send_on-Same m index real_time_system_reset signal mutate = record {
    pressed = refl;
    osc = refl;
    midi = refl;
  }
  send_on-Same m index program_change_inc signal mutate = record {
    pressed = refl;
    osc = refl;
    midi = refl;
  }
  send_on-Same m index program_change_dec signal mutate = record {
    pressed = refl;
    osc = refl;
    midi = refl;
  }
  send_on-Same m index no_message signal mutate = record { pressed = refl; osc = refl; midi = refl }
  send_on-Same m index preset_change signal mutate = record {
    pressed = refl;
    osc = refl;
    midi = refl;
  }
  send_on-Same m index multi_val_inc_reset_note signal mutate =
      send_multi_value-Same m index signal mutate true overflow
  send_on-Same m index multi_val_inc_dec_note signal mutate =
      send_multi_value-Same m index signal mutate true edge
  send_on-Same m index multi_val_inc_reset_cc signal mutate =
      send_multi_value-Same m index signal mutate false overflow
  send_on-Same m index multi_val_inc_dec_cc signal mutate =
      send_multi_value-Same m index signal mutate false edge
  send_on-Same m index note_off_only signal mutate = record {
    pressed = refl;
    osc = refl;
    midi = refl;
  }
  send_on-Same m index control_change_0_only signal mutate = record {
    pressed = refl;
    osc = refl;
    midi = refl;
  }
  send_on-Same m index reserved signal mutate = record { pressed = refl; osc = refl; midi = refl }
  send_on-Same m index program_change_offset_inc signal mutate =
      Same-if m (record m { programs = (increment_offset m.programs (signal.value % 256)).1 })
        mutate (record { pressed = refl; osc = refl; midi = refl })
  send_on-Same m index program_change_offset_dec signal mutate =
      Same-if m (record m { programs = (decrement_offset m.programs (signal.value % 256)).1 })
        mutate (record { pressed = refl; osc = refl; midi = refl })
  send_on-Same m index bpm_inc signal mutate = record { pressed = refl; osc = refl; midi = refl }
  send_on-Same m index bpm_dec signal mutate = record { pressed = refl; osc = refl; midi = refl }
  send_on-Same m index mmc_play_stop signal mutate = record {
    pressed = refl;
    osc = refl;
    midi = refl;
  }
  send_on-Same m index message_count signal mutate = record {
    pressed = refl;
    osc = refl;
    midi = refl;
  }

  pub send_midi-Same :
      (m : Mapper) (index : ℕ) (info : DatabaseInfo) (mutate : Bool) (state : Option Bool)
      → Same m (send_midi max_value_7bit m index info mutate state).mapper
  unfolding send_midi send_off
  send_midi-Same m index info mutate none = record { pressed = refl; osc = refl; midi = refl }
  send_midi-Same m index info mutate (some true) =
      send_on-Same m index info.message_type (fill_midi_signal info) mutate
  send_midi-Same m index info mutate (some false) = record {
    pressed = refl;
    osc = refl;
    midi = refl;
  }
