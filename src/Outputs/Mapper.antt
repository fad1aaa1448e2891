-- ===== src/Outputs/Mapper.antt =====
-- `Mapper`: app/firmware/src/io/outputs/instance/impl/mapper.{h,cpp}, with the types of
-- app/firmware/src/io/outputs/shared/common.h. Nothing but the database and the global programs is
-- read, so there is no state; what the zlibs library gives is a parameter.
pub mod Levels
use Prim.Native.Nat.{bit_and}
use open_deck.Prelude.{
  ℕ, zero, suc, ◌+◌, ◌/◌, ◌%◌, Bool, true, false, not, ◌&&◌, List, [], ◌∷◌, Option, none, some, ltb,
  leb, ◌==◌, if◌then◌else◌, get_or,
}
use open_deck.Prelude.Integers.{ℤ, pos, negsuc}
use open_deck.Global.MidiProgram.{MidiProgram}
use open_deck.Signaling.{
  MessageType, SignalDirection, inward, outward, note_on, note_off, control_change, program_change,
  invalid_message,
}
use open_deck.Encoders.Remote.{Message, GlobalChannel, omni_channel}

abbrev pub output_level_min : ℕ
output_level_min = 0

abbrev pub output_level_max : ℕ
output_level_max = 100

abbrev pub midi_value_group_size : ℕ
midi_value_group_size = 16

-- `ControlType`; `control_count` stands for every byte from `ControlType::Count` on.
pub data ControlType : Type 0 where
  midi_in_note_single_val local_note_single_val midi_in_cc_single_val local_cc_single_val :
      ControlType
  pc_single_val preset midi_in_note_multi_val local_note_multi_val : ControlType
  midi_in_cc_multi_val local_cc_multi_val static control_count : ControlType

pub data PulseSpeed : Type 0 where
  ms_1000 ms_500 ms_250 no_pulse : PulseSpeed

pub data LevelCommand : Type 0 where
  no_command set_level write_level : LevelCommand

-- `Mapper::Action`
pub record Action : Type 0 where
  pub level_command : LevelCommand
  pub level : ℕ
  pub pulse_speed : Option PulseSpeed

-- the sections of `database::Config::Section::Outputs` that are read for each output
pub data Section : Type 0 where
  activation_id control_type activation_value channel : Section

-- what the database gives: the sections, `Setting::UseMidiProgramOffset` and the global channel
pub record Config : Type 0 where
  pub read : Section → ℕ → ℕ
  pub use_midi_program_offset : Bool
  pub global_channel : GlobalChannel

-- `MIDI_DATA_BYTE_MASK`, `MAX_VALUE_7BIT` and `map_range` of the zlibs library
pub record Zlibs : Type 0 where
  pub midi_data_byte_mask : ℕ
  pub max_value_7bit : ℕ
  pub map_range : ℕ → ℕ → ℕ → ℕ → ℕ → ℕ

-- `static_cast<ControlType>`
abbrev pub control_types : List ControlType
control_types =
    midi_in_note_single_val ∷ local_note_single_val ∷ midi_in_cc_single_val ∷ local_cc_single_val
    ∷ pc_single_val ∷ preset ∷ midi_in_note_multi_val ∷ local_note_multi_val ∷ midi_in_cc_multi_val
    ∷ local_cc_multi_val ∷ static ∷ []

unfoldable pub to_control_type : ℕ → ControlType
to_control_type n = get_or control_types (n % 256) control_count

-- `CONTROL_TYPE_TO_MIDI_MESSAGE`
unfoldable pub midi_message_of : ControlType → MessageType
midi_message_of midi_in_note_single_val = note_on
midi_message_of local_note_single_val = note_on
midi_message_of midi_in_cc_single_val = control_change
midi_message_of local_cc_single_val = control_change
midi_message_of pc_single_val = program_change
midi_message_of preset = program_change
midi_message_of midi_in_note_multi_val = note_on
midi_message_of local_note_multi_val = note_on
midi_message_of midi_in_cc_multi_val = control_change
midi_message_of local_cc_multi_val = control_change
midi_message_of static = invalid_message
midi_message_of control_count = invalid_message

-- `==` with one of the message types of the table
unfoldable pub is_message : MessageType → MessageType → Bool
is_message note_on note_on = true
is_message control_change control_change = true
is_message program_change program_change = true
is_message invalid_message invalid_message = true
is_message _ _ = false

-- a note that ends is taken as one that starts
unfoldable pub without_note_off : MessageType → MessageType
without_note_off note_off = note_on
without_note_off type = type

-- `set_state`, `set_pulse` and `check_channel`
pub record Selection : Type 0 where
  pub set_state : Bool
  pub set_pulse : Bool
  pub check_channel : Bool

abbrev single : Bool → Selection
single on = record { set_state = on; set_pulse = false; check_channel = true }

abbrev multi : Bool → Selection
multi on = record { set_state = on; set_pulse = on; check_channel = true }

-- the two switches of `midi_result`
unfoldable pub select_local : ControlType → MessageType → Selection
unfolding is_message
select_local local_note_single_val type = single (is_message type note_on)
select_local local_cc_single_val type = single (is_message type control_change)
select_local pc_single_val type = single (is_message type program_change)
select_local preset type = record { set_state = false; set_pulse = false; check_channel = false }
select_local local_note_multi_val type = multi (is_message type note_on)
select_local local_cc_multi_val type = multi (is_message type control_change)
select_local _ type = single false

unfoldable pub select_in : ControlType → MessageType → Selection
unfolding is_message
select_in midi_in_note_single_val type = single (is_message type note_on)
select_in midi_in_cc_single_val type = single (is_message type control_change)
select_in pc_single_val type = single (is_message type program_change)
select_in midi_in_note_multi_val type = multi (is_message type note_on)
select_in midi_in_cc_multi_val type = multi (is_message type control_change)
select_in _ type = single false

unfoldable pub select : SignalDirection → ControlType → MessageType → Selection
unfolding select_local select_in
select inward control type = select_in control type
select outward control type = select_local control type

-- an entry of the result that nothing has set
abbrev pub untouched : Action
untouched = record { level_command = no_command; level = output_level_min; pulse_speed = none }

abbrev pub set_to : ℕ → Option PulseSpeed → Action
set_to level pulse_speed = record {
  level_command = set_level;
  level = level;
  pulse_speed = pulse_speed;
}

-- `static_cast<PulseSpeed>`
unfoldable pub midi_value_to_pulse_speed : ℕ → PulseSpeed
midi_value_to_pulse_speed value =
    if ltb value midi_value_group_size
    then no_pulse
    else get_or (ms_1000 ∷ ms_500 ∷ ms_250 ∷ no_pulse ∷ []) (value % midi_value_group_size / 4)
        no_pulse

unfoldable pub osc_result : ℤ → Action
osc_result (negsuc n) = set_to output_level_min none
osc_result (pos n) =
    if leb n output_level_min
    then set_to output_level_min none
    else if leb output_level_max n
    then set_to output_level_max none
    else set_to n none

-- the list of what is found for each output from an index on, with the outputs left
unfoldable pub for_each : (ℕ → Action) → ℕ → ℕ → List Action
for_each f index zero = []
for_each f index (suc left) = f index ∷ for_each f (index + 1) left

module _ (z : Zlibs) (c : Config) (programs : MidiProgram) where
  unfoldable pub midi_value_to_level : ℕ → ℕ
  midi_value_to_level value =
      z.map_range value 0 z.max_value_7bit output_level_min output_level_max % 256

  -- the activation identifier moved by the program offset
  unfoldable pub shifted_id : ℕ → ℕ
  shifted_id index =
      let id = c.read activation_id index % 256 in
      if c.use_midi_program_offset
      then bit_and ((id + programs.offset) % 256) z.midi_data_byte_mask
      else id

  -- the channel test of `midi_result`
  unfoldable pub other_channel : Message → ℕ → Bool
  other_channel message index =
      let value =
        if c.global_channel.is_used then c.global_channel.channel else c.read channel index in
      not (value == omni_channel) && not (value == message.channel)

  -- the level of an output whose activation identifier is met
  unfoldable pub matched_level : Message → MessageType → Bool → ℕ → ℕ
  unfolding midi_value_to_level is_message
  matched_level message type set_pulse index =
      if is_message type program_change
      then output_level_max
      else if set_pulse
      then midi_value_to_level message.data2
      else if c.read activation_value index == message.data2
      then output_level_max
      else output_level_min

  -- the end of the body of the loop of `midi_result`
  unfoldable pub act : Message → MessageType → Selection → ℕ → Action
  unfolding shifted_id matched_level midi_value_to_pulse_speed is_message
  act message type s index =
      let id =
        if is_message type program_change
        then shifted_id index
        else c.read activation_id index % 256 in
      let matches = id == message.data1 in
      let pulse : Option PulseSpeed =
        if s.set_pulse && matches then some (midi_value_to_pulse_speed message.data2) else none in
      if s.set_state
      then (if matches
          then set_to (matched_level message type s.set_pulse index) pulse
          else if is_message type program_change
          then set_to output_level_min pulse
          else record untouched { pulse_speed = pulse })
      else if s.set_pulse && matches
      then record { level_command = write_level; level = output_level_min; pulse_speed = pulse }
      else untouched

  -- the body of the loop of `midi_result`, with its guards
  unfoldable pub visit : Message → SignalDirection → ℕ → Action
  unfolding act select other_channel without_note_off midi_message_of to_control_type is_message
  visit message direction index =
      let type = without_note_off message.type in
      let control = to_control_type (c.read control_type index) in
      let s = select direction control type in
      if not (is_message type (midi_message_of control))
      then untouched
      else if s.check_channel && other_channel message index
      then untouched
      else if not s.set_state && not s.set_pulse
      then untouched
      else act message type s index

  -- `size` is `Collection::size()`.
  unfoldable pub midi_result : ℕ → Message → SignalDirection → List Action
  unfolding visit for_each
  midi_result size message direction = for_each (visit message direction) 0 size

  -- the body of the loop of `preset_result`
  unfoldable pub visit_preset : ℕ → ℕ → Action
  unfolding shifted_id to_control_type
  visit_preset value index =
      let level = if shifted_id index == value then output_level_max else output_level_min in
      elim (to_control_type (c.read control_type index)) [
        | preset ↦ set_to level none
        | _ ↦ untouched
      ]

  unfoldable pub preset_result : ℕ → ℕ → List Action
  unfolding visit_preset for_each
  preset_result size value = for_each (visit_preset value) 0 size
