-- ===== src/Switches/Inputs/Configuration.antt =====
-- The SysEx configuration of switches: `sys_config_get` and `sys_config_set` of
-- app/firmware/src/io/digital/switches/instance/impl/switches.cpp, and `sys_2_db_section` of
-- app/firmware/src/util/conversion/conversion.h. The two calls of the database are parameters: a read
-- gives its result beside the value that it leaves, an update its result beside the configuration.
use open_deck.Prelude.{ℕ, ◌%◌, ◌^◌, Bool, true, false, not, List, if◌then◌else◌}
use open_deck.Encoders.Configuration.{Status, ack, error_read, error_write}
use open_deck.Switches.Settings.{
  Section, Config, type_section, message_type_section, midi_id, value, channel,
}
use open_deck.Switches.Inputs.{Switches, reset}

-- `sys::Config::Section::Switch`
pub data SysSection : Type 0 where
  switch_type switch_message_type switch_midi_id switch_value switch_channel : SysSection

unfoldable pub sys_2_db_section : SysSection → Section
sys_2_db_section switch_type = type_section
sys_2_db_section switch_message_type = message_type_section
sys_2_db_section switch_midi_id = midi_id
sys_2_db_section switch_value = value
sys_2_db_section switch_channel = channel

-- The status beside the value that the caller's variable is left with.
unfoldable pub sys_config_get : (Section → ℕ → Bool × ℕ) → SysSection → ℕ → Status × ℕ
unfolding sys_2_db_section
sys_config_get read section index =
    let (ok, read_value) = read (sys_2_db_section section) index in
    (if ok then ack else error_read, read_value % 2 ^ 16)

abbrev resets : SysSection → Bool
resets switch_type = true
resets switch_message_type = true
resets _ = false

unfoldable pub sys_config_set :
    (Config → Section → ℕ → ℕ → Bool × Config)
    → List ℕ
    → Config
    → Switches
    → SysSection
    → ℕ
    → ℕ
    → Status × Config × Switches
unfolding sys_2_db_section reset
sys_config_set update sizes config s section index new_value =
    let (updated, config') = update config (sys_2_db_section section) index new_value in
    if not updated
    then (error_write, config', s)
    else (ack, config', if resets section then reset sizes s index else s)
