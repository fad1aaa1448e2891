-- ===== src/Switches/State.antt =====
-- The state of `Mapper`, what it reads of the database and the signals that it fills:
-- app/firmware/src/io/digital/switches/instance/impl/mapper.{h,cpp}. The arrays are lists with an
-- entry for each switch. The global tempo and programs that a call changes are part of the state.
use open_deck.Prelude.{ℕ, ◌%◌, ◌^◌, Bool, List, Option, some, if◌then◌else◌}
use open_deck.Global.Bpm.{Bpm}
use open_deck.Global.MidiProgram.{MidiProgram}
use open_deck.Signaling
use open_deck.Signaling.{
  OscIoSignal, MidiIoSignal, MessageType, SystemEvent, switch, outward, preset_change_direct_req,
}
use open_deck.Switches.Settings.{
  Section, Config, SwitchType, momentary, latching, Action, to_type, to_message_type, note,
  program_change, control_change, control_change_reset, mmc_stop, mmc_play, mmc_record, mmc_pause,
  real_time_clock, real_time_start, real_time_continue, real_time_stop, real_time_active_sensing,
  real_time_system_reset, program_change_inc, program_change_dec, no_message, preset_change,
  multi_val_inc_reset_note, multi_val_inc_dec_note, multi_val_inc_reset_cc, multi_val_inc_dec_cc,
  note_off_only, control_change_0_only, reserved, program_change_offset_inc,
  program_change_offset_dec, bpm_inc, bpm_dec, mmc_play_stop, message_count,
}

-- `INTERNAL_MSG_TO_MIDI_TYPE`
unfoldable pub midi_type : Action → MessageType
midi_type note = Signaling.note_on
midi_type program_change = Signaling.program_change
midi_type control_change = Signaling.control_change
midi_type control_change_reset = Signaling.control_change
midi_type mmc_stop = Signaling.mmc_stop
midi_type mmc_play = Signaling.mmc_play
midi_type mmc_record = Signaling.mmc_record_start
midi_type mmc_pause = Signaling.mmc_pause
midi_type real_time_clock = Signaling.sys_real_time_clock
midi_type real_time_start = Signaling.sys_real_time_start
midi_type real_time_continue = Signaling.sys_real_time_continue
midi_type real_time_stop = Signaling.sys_real_time_stop
midi_type real_time_active_sensing = Signaling.sys_real_time_active_sensing
midi_type real_time_system_reset = Signaling.sys_real_time_system_reset
midi_type program_change_inc = Signaling.program_change
midi_type program_change_dec = Signaling.program_change
midi_type no_message = Signaling.invalid_message
midi_type preset_change = Signaling.invalid_message
midi_type multi_val_inc_reset_note = Signaling.note_on
midi_type multi_val_inc_dec_note = Signaling.note_on
midi_type multi_val_inc_reset_cc = Signaling.control_change
midi_type multi_val_inc_dec_cc = Signaling.control_change
midi_type note_off_only = Signaling.note_on
midi_type control_change_0_only = Signaling.control_change
midi_type reserved = Signaling.invalid_message
midi_type program_change_offset_inc = Signaling.invalid_message
midi_type program_change_offset_dec = Signaling.invalid_message
midi_type bpm_inc = Signaling.invalid_message
midi_type bpm_dec = Signaling.invalid_message
midi_type mmc_play_stop = Signaling.mmc_play
midi_type message_count = Signaling.invalid_message

-- `Mapper::message_to_type`
unfoldable pub message_to_type : Action → SwitchType → SwitchType
message_to_type mmc_record configured_type = latching
message_to_type mmc_play_stop configured_type = latching
message_to_type note configured_type = configured_type
message_to_type control_change_reset configured_type = configured_type
message_to_type no_message configured_type = configured_type
message_to_type reserved configured_type = configured_type
message_to_type message_count configured_type = configured_type
message_to_type _ configured_type = momentary

pub record DatabaseInfo : Type 0 where
  pub type : SwitchType
  pub message_type : Action
  pub component_index : ℕ
  pub channel : ℕ
  pub midi_index : ℕ
  pub midi_value : ℕ
  pub midi_message : MessageType

pub record Mapper : Type 0 where
  pub pressed_state : List Bool
  pub inc_dec_value : List ℕ
  pub osc_latching_state : List Bool
  pub midi_latching_state : List Bool
  pub programs : MidiProgram
  pub bpm : Bpm

-- `Mapper::Result`
pub record Result : Type 0 where
  pub osc : Option OscIoSignal
  pub midi : Option MidiIoSignal
  pub system : Option SystemEvent

unfoldable pub read_database_info : Config → ℕ → DatabaseInfo
unfolding to_type to_message_type midi_type
read_database_info config index =
    let message_type = to_message_type (config Section.message_type_section index) in
    record {
      type = to_type (config Section.type_section index);
      message_type = message_type;
      component_index = index;
      channel = config Section.channel index % 256;
      midi_index = config Section.midi_id index % 2 ^ 16;
      midi_value = config Section.value index % 2 ^ 16;
      midi_message = midi_type message_type;
    }

unfoldable pub fill_midi_signal : DatabaseInfo → MidiIoSignal
fill_midi_signal info = record {
  source = switch;
  component_index = info.component_index;
  channel = info.channel;
  index = info.midi_index;
  value = info.midi_value;
  message = info.midi_message;
}

-- 0x3f800000 is the pattern of 1.0F.
unfoldable pub fill_osc_signal : ℕ → Bool → OscIoSignal
fill_osc_signal index state = record {
  source = switch;
  component_index = index;
  int32_value = some (if state then 1 else 0);
  float_value = some (if state then 0x3f800000 else 0);
  direction = outward;
}
