-- ===== src/Switches/Settings.antt =====
-- What switches read of their configuration (app/firmware/src/database/shared/config.h), and the
-- types of app/firmware/src/io/digital/switches/shared/common.h that it is cast to.
use open_deck.Prelude.{ℕ, ◌%◌, List, [], ◌∷◌, get_or}

-- `database::Config::Section::Switch`
pub data Section : Type 0 where
  type_section message_type_section midi_id value channel : Section

-- `Database::read` for one section and index
abbrev pub Config : Type 0
Config = Section → ℕ → ℕ

-- `Type`; `type_count` stands for every byte from `Type::Count` on.
pub data SwitchType : Type 0 where
  momentary latching type_count : SwitchType

-- `MessageType`; `message_count` stands for every byte from `MessageType::Count` on.
pub data Action : Type 0 where
  note program_change control_change control_change_reset : Action
  mmc_stop mmc_play mmc_record mmc_pause : Action
  real_time_clock real_time_start real_time_continue real_time_stop : Action
  real_time_active_sensing real_time_system_reset : Action
  program_change_inc program_change_dec no_message preset_change : Action
  multi_val_inc_reset_note multi_val_inc_dec_note : Action
  multi_val_inc_reset_cc multi_val_inc_dec_cc : Action
  note_off_only control_change_0_only reserved : Action
  program_change_offset_inc program_change_offset_dec : Action
  bpm_inc bpm_dec mmc_play_stop message_count : Action

-- `static_cast<Type>`
unfoldable pub to_type : ℕ → SwitchType
to_type n = get_or (momentary ∷ latching ∷ []) (n % 256) type_count

-- `static_cast<MessageType>`
abbrev pub actions : List Action
actions =
    note ∷ program_change ∷ control_change ∷ control_change_reset ∷ mmc_stop ∷ mmc_play ∷ mmc_record
    ∷ mmc_pause ∷ real_time_clock ∷ real_time_start ∷ real_time_continue ∷ real_time_stop
    ∷ real_time_active_sensing ∷ real_time_system_reset ∷ program_change_inc ∷ program_change_dec
    ∷ no_message ∷ preset_change ∷ multi_val_inc_reset_note ∷ multi_val_inc_dec_note
    ∷ multi_val_inc_reset_cc ∷ multi_val_inc_dec_cc ∷ note_off_only ∷ control_change_0_only
    ∷ reserved ∷ program_change_offset_inc ∷ program_change_offset_dec ∷ bpm_inc ∷ bpm_dec
    ∷ mmc_play_stop ∷ []

unfoldable pub to_message_type : ℕ → Action
to_message_type n = get_or actions (n % 256) message_count
