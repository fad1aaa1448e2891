-- ===== src/Encoders/Configuration.antt =====
-- The SysEx configuration of encoders: `sys_config_get` and `sys_config_set` of
-- app/firmware/src/io/digital/encoders/instance/impl/encoders.cpp, and `sys_2_db_section` of
-- app/firmware/src/util/conversion/conversion.h. The two calls of the database are parameters: a
-- read that may fail, and an update that returns its result beside the configuration it leaves.
use open_deck.Prelude.{ℕ, ◌%◌, ◌^◌, Bool, true, false, Option, none, some, if◌then◌else◌}
use open_deck.Encoders.Signals.{
  Section, Config, enable, invert, mode, midi_id_1, channel, acceleration, remote_sync, lower_limit,
  upper_limit, repeated_value, midi_id_2,
}
use open_deck.Encoders.Inputs.{Encoders, reset}

-- `sys::Config::Section::Encoder`
pub data SysSection : Type 0 where
  enable_section invert_section mode_section midi_id_1_section channel_section : SysSection
  reserved_2 acceleration_section reserved_1 remote_sync_section : SysSection
  lower_limit_section upper_limit_section repeated_value_section midi_id_2_section : SysSection

pub data Status : Type 0 where
  ack error_read error_write error_not_supported : Status

-- `none` is `database::Config::Section::Encoder::Count`.
unfoldable pub sys_2_db_section : SysSection → Option Section
sys_2_db_section enable_section = some enable
sys_2_db_section invert_section = some invert
sys_2_db_section mode_section = some mode
sys_2_db_section midi_id_1_section = some midi_id_1
sys_2_db_section channel_section = some channel
sys_2_db_section reserved_2 = none
sys_2_db_section acceleration_section = some acceleration
sys_2_db_section reserved_1 = some midi_id_1
sys_2_db_section remote_sync_section = some remote_sync
sys_2_db_section lower_limit_section = some lower_limit
sys_2_db_section upper_limit_section = some upper_limit
sys_2_db_section repeated_value_section = some repeated_value
sys_2_db_section midi_id_2_section = some midi_id_2

abbrev is_reserved_1 : SysSection → Bool
is_reserved_1 reserved_1 = true
is_reserved_1 _ = false

-- The status beside the value that the caller's variable is left with.
unfoldable pub sys_config_get : (Option Section → ℕ → Option ℕ) → SysSection → ℕ → ℕ → Status × ℕ
unfolding sys_2_db_section
sys_config_get read section index value = elim (read (sys_2_db_section section) index) [
  | none ↦ (error_read, 0)
  | some read_value ↦
      if is_reserved_1 section then (error_not_supported, value) else (ack, read_value % 2 ^ 16)
]

unfoldable pub sys_config_set :
    (Config → Option Section → ℕ → ℕ → Bool × Config)
    → ℕ
    → Config
    → Encoders
    → SysSection
    → ℕ
    → ℕ
    → Status × Config × Encoders
unfolding sys_2_db_section reset
sys_config_set update size config e section index value =
    let (updated, config') = update config (sys_2_db_section section) index value in
    if is_reserved_1 section
    then (error_not_supported, config, e)
    else if updated
    then (ack, config', reset config' size e index)
    else (error_write, config', e)
