-- ===== src/Switches/Mapper/Counters.antt =====
-- The counters of the multi-value messages stay in their range.
use mathlib.Core.Path.{subst}
use open_deck.Prelude.{
  ℕ, ◌%◌, ◌≤◌, inl, inr, sym, Bool, true, false, List, [], ◌∷◌, Option, none, some, leb,
  if◌then◌else◌, get_or, arith, Bool-cases, All, All-set,
}
use open_deck.Signaling.{MidiIoSignal}
use open_deck.Util.IncDec.{Overrun, edge, overflow, increment}
use open_deck.Global.MidiProgram.{increment_offset, decrement_offset}
use open_deck.Switches.Settings.{
  Config, Action, note, program_change, control_change, control_change_reset, mmc_stop, mmc_play,
  mmc_record, mmc_pause, real_time_clock, real_time_start, real_time_continue, real_time_stop,
  real_time_active_sensing, real_time_system_reset, program_change_inc, program_change_dec,
  no_message, preset_change, multi_val_inc_reset_note, multi_val_inc_dec_note,
  multi_val_inc_reset_cc, multi_val_inc_dec_cc, note_off_only, control_change_0_only, reserved,
  program_change_offset_inc, program_change_offset_dec, bpm_inc, bpm_dec, mmc_play_stop,
  message_count,
}
use open_deck.Switches.State.{Mapper, DatabaseInfo, fill_midi_signal, read_database_info}
use open_deck.Switches.Messages.{
  outcome, send_multi_value, send_on, send_program, send_bpm, send_midi,
}
use open_deck.Switches.Mapper.{
  build_result, result, refresh_result, reset, osc_latch, midi_latch, with_states, same_state,
}
use open_deck.Switches.Mapper.Refresh.{
  build_result-inside, build_result-outside, refresh_result-mapper,
}
use open_deck.Switches.Mapper.Changes.{pressed, result-unchanged, result-outside, result-built}

-- a call of one of the member functions of `Mapper`
pub data Call : Type 0 where
  read_of : ℕ → Bool → Call
  refresh_of reset_of : ℕ → Call

increment-bounded :
    (max_value value steps : ℕ) (overrun : Overrun)
    → increment max_value value steps overrun ≤ max_value
unfolding increment
increment-bounded max_value value steps edge = ground arith
increment-bounded max_value value steps overflow = ground arith

module _ (max_value_7bit : ℕ) where
  -- The counters are at most the greatest value of seven bits.
  abbrev pub IsBounded : Mapper → Type 0
  IsBounded m = All (λ x. x ≤ max_value_7bit) m.inc_dec_value

  IsBounded-if :
      (m m' : Mapper) (mutate : Bool)
      → IsBounded m
      → IsBounded m'
      → IsBounded (if mutate then m' else m)
  IsBounded-if m m' true b b' = b'
  IsBounded-if m m' false b b' = b

  IsBounded-outcome :
      (unchanged : Bool) (signal signal' : MidiIoSignal) (m m' : Mapper)
      → IsBounded m
      → IsBounded m'
      → IsBounded (if unchanged then outcome false signal m else outcome true signal' m').mapper
  IsBounded-outcome true signal signal' m m' b b' = b
  IsBounded-outcome false signal signal' m m' b b' = b'

  send_multi_value-IsBounded :
      (m : Mapper) (index : ℕ) (signal : MidiIoSignal) (mutate is_note : Bool) (overrun : Overrun)
      → IsBounded m
      → IsBounded (send_multi_value max_value_7bit m index signal mutate is_note overrun).mapper
  unfolding send_multi_value
  send_multi_value-IsBounded m index signal false is_note overrun b = b
  send_multi_value-IsBounded m index signal true is_note overrun b =
      IsBounded-outcome _ signal _ m _ b (
        All-set (λ x. x ≤ max_value_7bit) m.inc_dec_value index _
          (increment-bounded max_value_7bit (get_or m.inc_dec_value index 0) (signal.value % 256)
            overrun)
          b)

  send_on-IsBounded :
      (m : Mapper) (index : ℕ) (type : Action) (signal : MidiIoSignal) (mutate : Bool)
      → IsBounded m
      → IsBounded (send_on max_value_7bit m index type signal mutate).mapper
  unfolding send_on send_program send_bpm
  send_on-IsBounded m index note signal mutate b = b
  send_on-IsBounded m index program_change signal mutate b = b
  send_on-IsBounded m index control_change signal mutate b = b
  send_on-IsBounded m index control_change_reset signal mutate b = b
  send_on-IsBounded m index mmc_stop signal mutate b = b
  send_on-IsBounded m index mmc_play signal mutate b = b
  send_on-IsBounded m index mmc_record signal mutate b = b
  send_on-IsBounded m index mmc_pause signal mutate b = b
  send_on-IsBounded m index real_time_clock signal mutate b = b
  send_on-IsBounded m index real_time_start signal mutate b = b
  send_on-IsBounded m index real_time_continue signal mutate b = b
  send_on-IsBounded m index real_time_stop signal mutate b = b
  send_on-IsBounded m index real_time_active_sensing signal mutate b = b
  send_on-IsBounded m index real_time_system_reset signal mutate b = b
  send_on-IsBounded m index program_change_inc signal mutate b = b
  send_on-IsBounded m index program_change_dec signal mutate b = b
  send_on-IsBounded m index no_message signal mutate b = b
  send_on-IsBounded m index preset_change signal mutate b = b
  send_on-IsBounded m index multi_val_inc_reset_note signal mutate b =
      send_multi_value-IsBounded m index signal mutate true overflow b
  send_on-IsBounded m index multi_val_inc_dec_note signal mutate b =
      send_multi_value-IsBounded m index signal mutate true edge b
  send_on-IsBounded m index multi_val_inc_reset_cc signal mutate b =
      send_multi_value-IsBounded m index signal mutate false overflow b
  send_on-IsBounded m index multi_val_inc_dec_cc signal mutate b =
      send_multi_value-IsBounded m index signal mutate false edge b
  send_on-IsBounded m index note_off_only signal mutate b = b
  send_on-IsBounded m index control_change_0_only signal mutate b = b
  send_on-IsBounded m index reserved signal mutate b = b
  send_on-IsBounded m index program_change_offset_inc signal mutate b =
      IsBounded-if m (record m { programs = (increment_offset m.programs (signal.value % 256)).1 })
        mutate b b
  send_on-IsBounded m index program_change_offset_dec signal mutate b =
      IsBounded-if m (record m { programs = (decrement_offset m.programs (signal.value % 256)).1 })
        mutate b b
  send_on-IsBounded m index bpm_inc signal mutate b = b
  send_on-IsBounded m index bpm_dec signal mutate b = b
  send_on-IsBounded m index mmc_play_stop signal mutate b = b
  send_on-IsBounded m index message_count signal mutate b = b

  send_midi-IsBounded :
      (m : Mapper) (index : ℕ) (info : DatabaseInfo) (mutate : Bool) (state : Option Bool)
      → IsBounded m
      → IsBounded (send_midi max_value_7bit m index info mutate state).mapper
  unfolding send_midi
  send_midi-IsBounded m index info mutate none b = b
  send_midi-IsBounded m index info mutate (some true) b =
      send_on-IsBounded m index info.message_type (fill_midi_signal info) mutate b
  send_midi-IsBounded m index info mutate (some false) b = b

  build_result-IsBounded :
      (size : ℕ) (m : Mapper) (index : ℕ) (reading : Bool) (info : DatabaseInfo)
      (mutate refresh : Bool)
      → IsBounded m
      → IsBounded (build_result max_value_7bit size m index reading info mutate refresh).1
  build_result-IsBounded size m index reading info mutate refresh b =
      elim (Bool-cases (leb size index)) [
        | inl over ↦
            subst (λ r. IsBounded r.1)
              (sym
                (build_result-outside max_value_7bit size m index reading info mutate refresh over))
              b
        | inr inside ↦
            let osc = osc_latch m index reading info mutate refresh in
            let midi = midi_latch m index reading info mutate refresh in
            subst (λ r. IsBounded r.1)
              (sym (
                build_result-inside max_value_7bit size m index reading info mutate refresh inside))
              (send_midi-IsBounded (with_states m osc.1 midi.1) index info mutate midi.0 b)
      ]

  module _ (config : Config) (size : ℕ) where
    pub run : Mapper → Call → Mapper
    run m (read_of index reading) = (result max_value_7bit config size m index reading).1
    run m (refresh_of index) = (refresh_result max_value_7bit config size m index).1
    run m (reset_of index) = reset size m index

    pub run_all : Mapper → List Call → Mapper
    run_all m [] = m
    run_all m (c ∷ calls) = run_all (run m c) calls

    result-IsBounded :
        (m : Mapper) (index : ℕ) (reading : Bool)
        → IsBounded m
        → IsBounded (result max_value_7bit config size m index reading).1
    result-IsBounded m index reading b = elim (Bool-cases (leb size index)) [
      | inl over ↦
          subst (λ r. IsBounded r.1)
            (sym (result-outside max_value_7bit config size m index reading over)) b
      | inr inside ↦ elim (Bool-cases (same_state (get_or m.pressed_state index false) reading)) [
        | inl same ↦
            subst (λ r. IsBounded r.1)
              (sym (result-unchanged max_value_7bit config size m index reading same)) b
        | inr differs ↦
            subst (λ r. IsBounded r.1)
              (sym (result-built max_value_7bit config size m index reading inside differs))
              (build_result-IsBounded size (pressed m index reading) index reading
                (read_database_info config index) true false b)
      ]
    ]

    reset-IsBounded : (m : Mapper) (index : ℕ) → IsBounded m → IsBounded (reset size m index)
    unfolding reset
    reset-IsBounded m index b =
        IsBounded-if _ m (leb size index)
          (All-set (λ x. x ≤ max_value_7bit) m.inc_dec_value index 0 (omega arith) b) b

    run-IsBounded : (m : Mapper) (c : Call) → IsBounded m → IsBounded (run m c)
    unfolding run
    run-IsBounded m (read_of index reading) b = result-IsBounded m index reading b
    run-IsBounded m (refresh_of index) b =
        subst IsBounded (sym (refresh_result-mapper max_value_7bit config size m index)) b
    run-IsBounded m (reset_of index) b = reset-IsBounded m index b

    -- Whatever the calls of `result`, `refresh_result` and `reset` and their order, the counters of
    -- the multi-value messages stay at most the greatest value of seven bits, once they are.
    pub run_all-IsBounded :
        (m : Mapper) (calls : List Call) → IsBounded m → IsBounded (run_all m calls)
    unfolding run_all
    run_all-IsBounded m [] b = b
    run_all-IsBounded m (c ∷ calls) b = run_all-IsBounded (run m c) calls (run-IsBounded m c b)
