-- ===== src/Switches/Mapper/Refresh.antt =====
-- What `refresh_result` gives and leaves.
use open_deck.Prelude.{
  ℕ, ◌≡◌, inl, inr, refl, ap, ◌∙◌, Bool, true, false, List, Option, none, some, leb, if◌then◌else◌,
  get_or, Bool-cases,
}
use open_deck.Signaling.{MidiIoSignal}
use open_deck.Switches.Settings.{
  Config, SwitchType, momentary, latching, type_count, Action, note, program_change, control_change,
  control_change_reset, mmc_stop, mmc_play, mmc_record, mmc_pause, real_time_clock, real_time_start,
  real_time_continue, real_time_stop, real_time_active_sensing, real_time_system_reset,
  program_change_inc, program_change_dec, no_message, preset_change, multi_val_inc_reset_note,
  multi_val_inc_dec_note, multi_val_inc_reset_cc, multi_val_inc_dec_cc, note_off_only,
  control_change_0_only, reserved, program_change_offset_inc, program_change_offset_dec, bpm_inc,
  bpm_dec, mmc_play_stop, message_count,
}
use open_deck.Switches.State.{
  Mapper, DatabaseInfo, fill_midi_signal, read_database_info, message_to_type,
}
use open_deck.Switches.Messages.{
  send_on, send_off, send_midi, send_program, send_bpm, send_multi_value,
}
use open_deck.Switches.Mapper.{
  latched, is_latching, build_result, refresh_result, osc_latch, midi_latch, with_states, osc_of,
  unless_empty, when_sent,
}

latched-refresh :
    (type : SwitchType) (reading mutate : Bool) (states : List Bool) (index : ℕ)
    → latched type reading mutate true states index
      ≡ (some (if is_latching type then get_or states index false else reading), states)
unfolding latched
latched-refresh momentary reading mutate states index = refl
latched-refresh latching reading mutate states index = refl
latched-refresh type_count reading mutate states index = refl

module _ (max_value_7bit : ℕ) where
  send_on-mapper :
      (m : Mapper) (index : ℕ) (type : Action) (signal : MidiIoSignal)
      → (send_on max_value_7bit m index type signal false).mapper ≡ m
  unfolding send_on send_program send_bpm send_multi_value
  send_on-mapper m index note signal = refl
  send_on-mapper m index program_change signal = refl
  send_on-mapper m index control_change signal = refl
  send_on-mapper m index control_change_reset signal = refl
  send_on-mapper m index mmc_stop signal = refl
  send_on-mapper m index mmc_play signal = refl
  send_on-mapper m index mmc_record signal = refl
  send_on-mapper m index mmc_pause signal = refl
  send_on-mapper m index real_time_clock signal = refl
  send_on-mapper m index real_time_start signal = refl
  send_on-mapper m index real_time_continue signal = refl
  send_on-mapper m index real_time_stop signal = refl
  send_on-mapper m index real_time_active_sensing signal = refl
  send_on-mapper m index real_time_system_reset signal = refl
  send_on-mapper m index program_change_inc signal = refl
  send_on-mapper m index program_change_dec signal = refl
  send_on-mapper m index no_message signal = refl
  send_on-mapper m index preset_change signal = refl
  send_on-mapper m index multi_val_inc_reset_note signal = refl
  send_on-mapper m index multi_val_inc_dec_note signal = refl
  send_on-mapper m index multi_val_inc_reset_cc signal = refl
  send_on-mapper m index multi_val_inc_dec_cc signal = refl
  send_on-mapper m index note_off_only signal = refl
  send_on-mapper m index control_change_0_only signal = refl
  send_on-mapper m index reserved signal = refl
  send_on-mapper m index program_change_offset_inc signal = refl
  send_on-mapper m index program_change_offset_dec signal = refl
  send_on-mapper m index bpm_inc signal = refl
  send_on-mapper m index bpm_dec signal = refl
  send_on-mapper m index mmc_play_stop signal = refl
  send_on-mapper m index message_count signal = refl

  send_midi-mapper :
      (m : Mapper) (index : ℕ) (info : DatabaseInfo) (state : Option Bool)
      → (send_midi max_value_7bit m index info false state).mapper ≡ m
  unfolding send_midi send_off
  send_midi-mapper m index info none = refl
  send_midi-mapper m index info (some true) =
      send_on-mapper m index info.message_type (fill_midi_signal info)
  send_midi-mapper m index info (some false) = refl

  -- `build_result` on an index in range.
  pub build_result-inside :
      (size : ℕ) (m : Mapper) (index : ℕ) (reading : Bool) (info : DatabaseInfo)
      (mutate refresh : Bool)
      → leb size index ≡ false
      → let osc = osc_latch m index reading info mutate refresh in
        let midi = midi_latch m index reading info mutate refresh in
        let o = send_midi max_value_7bit (with_states m osc.1 midi.1) index info mutate midi.0 in
        build_result max_value_7bit size m index reading info mutate refresh
        ≡ (unless_empty (osc_of index osc.0) (when_sent o.send o.signal) o.system, o.mapper)
  unfolding build_result
  build_result-inside size m index reading info mutate refresh e = rw (build_result, e)

  pub build_result-outside :
      (size : ℕ) (m : Mapper) (index : ℕ) (reading : Bool) (info : DatabaseInfo)
      (mutate refresh : Bool)
      → leb size index ≡ true
      → build_result max_value_7bit size m index reading info mutate refresh ≡ (none, m)
  unfolding build_result
  build_result-outside size m index reading info mutate refresh e = rw (build_result, e)

  -- Built without mutation, the result leaves the mapper.
  build_result-mapper :
      (size : ℕ) (m : Mapper) (index : ℕ) (reading : Bool) (info : DatabaseInfo)
      → (build_result max_value_7bit size m index reading info false true).1 ≡ m
  build_result-mapper size m index reading info = elim (Bool-cases (leb size index)) [
    | inl over ↦ ap (λ r. r.1) (build_result-outside size m index reading info false true over)
    | inr inside ↦
        let osc = osc_latch m index reading info false true in
        let midi = midi_latch m index reading info false true in
        let e = latched-refresh info.type reading false m.osc_latching_state index in
        let f =
          latched-refresh (message_to_type info.message_type info.type) reading false
            m.midi_latching_state index in
        ap (λ r. r.1) (build_result-inside size m index reading info false true inside)
        ∙ send_midi-mapper (with_states m osc.1 midi.1) index info midi.0
        ∙ (λ i. with_states m (e i).1 (f i).1)
  ]

  pub refresh_result-inside :
      (config : Config) (size : ℕ) (m : Mapper) (index : ℕ)
      → leb size index ≡ false
      → refresh_result max_value_7bit config size m index
        ≡ build_result max_value_7bit size m index
            (get_or m.pressed_state index false)
            (read_database_info config index)
            false
            true
  unfolding refresh_result
  refresh_result-inside config size m index e = rw (refresh_result, e)

  pub refresh_result-mapper :
      (config : Config) (size : ℕ) (m : Mapper) (index : ℕ)
      → (refresh_result max_value_7bit config size m index).1 ≡ m
  unfolding refresh_result
  refresh_result-mapper config size m index = elim (Bool-cases (leb size index)) [
    | inl over ↦ rw (refresh_result, over)
    | inr inside ↦
        ap (λ r. r.1) (refresh_result-inside config size m index inside)
        ∙ build_result-mapper size m index (get_or m.pressed_state index false)
            (read_database_info config index)
  ]
