-- ===== src/Encoders/Mapper.antt =====
-- `Mapper`: app/firmware/src/io/digital/encoders/instance/impl/mapper.{h,cpp}, with `Type` of
-- shared/common.h. The array `_value` of `int16_t` is kept as the 16-bit patterns of its entries:
-- the source casts them to unsigned types wherever it reads them. The global tempo and programs that
-- a call changes are part of the state.
pub mod Values
use open_deck.Prelude.{
  ℕ, ◌+◌, ◌*◌, ◌%◌, ◌^◌, Bool, true, false, not, ◌&&◌, ◌||◌, List, [], ◌∷◌, Option, none, some, ltb,
  leb, ◌==◌, if◌then◌else◌, get_or, set,
}
use open_deck.Util.IncDec.{increment, decrement, edge}
use open_deck.Global.Bpm
use open_deck.Global.Bpm.{Bpm}
use open_deck.Global.MidiProgram.{MidiProgram, increment_program, decrement_program, program}
use open_deck.Encoders.Filter.{Position, stopped, ccw, cw, same}
use open_deck.Signaling
use open_deck.Signaling.{
  IoEventSource, SignalDirection, OscIoSignal, MidiIoSignal, MessageType, SystemEvent, Published,
  encoder, outward, osc_io, midi_io, system_event, preset_change_inc_req, preset_change_dec_req,
}
use open_deck.Encoders.Signals.{Section, Config, Zlibs}

-- `Type`; `count` stands for every byte from `Type::Count` on.
pub data Action : Type 0 where
  control_change_7fh01h control_change_3fh41h program_change control_change preset_change : Action
  pitch_bend nrpn_7_bit nrpn_14_bit control_change_14_bit control_change_41h01h : Action
  bpm_change single_note_variable_val single_note_fixed_val_both_dir : Action
  single_note_fixed_val_one_dir_0_other_dir two_note_fixed_val_both_dir count : Action

-- `static_cast<Type>`
abbrev pub actions : List Action
actions =
    control_change_7fh01h ∷ control_change_3fh41h ∷ program_change ∷ control_change ∷ preset_change
    ∷ pitch_bend ∷ nrpn_7_bit ∷ nrpn_14_bit ∷ control_change_14_bit ∷ control_change_41h01h
    ∷ bpm_change ∷ single_note_variable_val ∷ single_note_fixed_val_both_dir
    ∷ single_note_fixed_val_one_dir_0_other_dir ∷ two_note_fixed_val_both_dir ∷ []

unfoldable pub to_action : ℕ → Action
to_action n = get_or actions (n % 256) count

-- `INTERNAL_MSG_TO_MIDI_TYPE`
unfoldable pub midi_type : Action → MessageType
midi_type control_change_7fh01h = Signaling.control_change
midi_type control_change_3fh41h = Signaling.control_change
midi_type program_change = Signaling.program_change
midi_type control_change = Signaling.control_change
midi_type preset_change = Signaling.invalid_message
midi_type pitch_bend = Signaling.pitch_bend
midi_type nrpn_7_bit = Signaling.nrpn_7_bit
midi_type nrpn_14_bit = Signaling.nrpn_14_bit
midi_type control_change_14_bit = Signaling.control_change_14_bit
midi_type control_change_41h01h = Signaling.control_change
midi_type bpm_change = Signaling.invalid_message
midi_type single_note_variable_val = Signaling.note_on
midi_type single_note_fixed_val_both_dir = Signaling.note_on
midi_type single_note_fixed_val_one_dir_0_other_dir = Signaling.note_on
midi_type two_note_fixed_val_both_dir = Signaling.note_on
midi_type count = Signaling.invalid_message

-- `CONTROL_CHANGE_14BIT_MAX_INDEX` and `MIDI_PITCH_BEND_CENTER`
abbrev pub control_change_14bit_max_index : ℕ
control_change_14bit_max_index = 96

abbrev pub midi_pitch_bend_center : ℕ
midi_pitch_bend_center = 8192

-- one of the tables `VAL_CONTROL_CHANGE_…`, by position
abbrev by_position : ℕ → ℕ → Position → ℕ
by_position at_ccw at_cw position = elim position [ stopped ↦ 0 | ccw ↦ at_ccw | cw ↦ at_cw ]

pub record DatabaseInfo : Type 0 where
  pub type : Action
  pub inverted : Bool
  pub component_index : ℕ
  pub channel : ℕ
  pub midi_index : ℕ
  pub repeated_value : ℕ
  pub lower_limit : ℕ
  pub upper_limit : ℕ
  pub midi_message : MessageType

pub record Mapper : Type 0 where
  pub values : List ℕ
  pub programs : MidiProgram
  pub bpm : Bpm

-- `Mapper::Result`
pub record Result : Type 0 where
  pub osc : Option OscIoSignal
  pub midi : Option MidiIoSignal
  pub system : Option SystemEvent

abbrev inverted_position : Position → Position
inverted_position stopped = stopped
inverted_position ccw = cw
inverted_position cw = ccw

-- The position may be turned around; it is the second result.
unfoldable pub read_database_info : Config → ℕ → Position → DatabaseInfo × Position
unfolding to_action midi_type
read_database_info config index position =
    let type = to_action (config Section.mode index) in
    let inverted = not (config Section.invert index == 0) in
    let turned = if inverted then inverted_position position else position in
    let first = config Section.midi_id_1 index % 2 ^ 16 in
    let second = config Section.midi_id_2 index % 2 ^ 16 in
    (
      record {
        type = type;
        inverted = inverted;
        component_index = index;
        channel = config Section.channel index % 256;
        midi_index = elim type [
          | two_note_fixed_val_both_dir ↦ if same turned ccw then second else first
          | _ ↦ first
        ];
        repeated_value = config Section.repeated_value index % 2 ^ 16;
        lower_limit = config Section.lower_limit index % 2 ^ 16;
        upper_limit = config Section.upper_limit index % 2 ^ 16;
        midi_message = midi_type type;
      },
      turned,
    )

unfoldable pub fill_midi_signal : DatabaseInfo → ℕ → MidiIoSignal
fill_midi_signal info value = record {
  source = encoder;
  component_index = info.component_index;
  channel = info.channel;
  index = info.midi_index;
  value = value;
  message = info.midi_message;
}

unfoldable pub fill_osc_signal : DatabaseInfo → ℕ → OscIoSignal
fill_osc_signal info value = record {
  source = encoder;
  component_index = info.component_index;
  int32_value = some value;
  float_value = none;
  direction = outward;
}

-- a result with both signals
unfoldable pub signals : DatabaseInfo → ℕ → Result
unfolding fill_osc_signal fill_midi_signal
signals info value = record {
  osc = some (fill_osc_signal info value);
  midi = some (fill_midi_signal info value);
  system = none;
}

unfoldable pub has_refresh_value : Action → Bool
has_refresh_value program_change = true
has_refresh_value control_change = true
has_refresh_value pitch_bend = true
has_refresh_value nrpn_7_bit = true
has_refresh_value nrpn_14_bit = true
has_refresh_value control_change_14_bit = true
has_refresh_value single_note_variable_val = true
has_refresh_value _ = false

abbrev pub is_14bit : Action → Bool
is_14bit pitch_bend = true
is_14bit nrpn_14_bit = true
is_14bit control_change_14_bit = true
is_14bit _ = false

abbrev is_control_change_14_bit : Action → Bool
is_control_change_14_bit control_change_14_bit = true
is_control_change_14_bit _ = false

module _ (z : Zlibs) where
  -- the value of `_value[index]` after a step, before it is constrained
  unfoldable pub stepped : Action → Position → ℕ → ℕ → ℕ
  unfolding increment decrement
  stepped type position value steps =
      let wide = is_14bit type in
      let effective_steps = if wide && ltb 1 steps then steps * 4 % 2 ^ 16 else steps in
      if same position ccw
      then if wide
        then decrement 0 z.max_value_14bit value effective_steps edge
        else decrement 0 z.max_value_7bit (value % 256) (effective_steps % 256) edge
      else if wide
      then increment z.max_value_14bit value effective_steps edge
      else increment z.max_value_7bit (value % 256) (effective_steps % 256) edge

  -- the case of `result` for the types that keep a value
  unfoldable pub step_value : Mapper → DatabaseInfo → Position → ℕ → Option Result × Mapper
  unfolding stepped signals
  step_value m info position steps =
      let index = info.component_index in
      let value =
        z.constrain (stepped info.type position (get_or m.values index 0) steps) info.lower_limit
          info.upper_limit in
      let m' = record m { values = set m.values index value } in
      if is_control_change_14_bit info.type && leb control_change_14bit_max_index info.midi_index
      then (none, m')
      else (some (signals info value), m')

  -- the case `Type::ProgramChange`
  unfoldable pub step_program : Mapper → DatabaseInfo → Position → Option Result × Mapper
  unfolding signals increment_program decrement_program program
  step_program m info position =
      let (changed, programs) =
        if same position ccw
        then increment_program m.programs info.channel 1
        else decrement_program m.programs info.channel 1 in
      let value = program programs info.channel in
      if not changed then (none, record m { programs = programs }) else (
        some (signals info value),
        record m { programs = programs; values = set m.values info.component_index value },
      )

  -- the case `Type::BpmChange`
  unfoldable pub step_bpm : Mapper → Position → Mapper
  unfolding Bpm.increment Bpm.decrement
  step_bpm m position =
      let (_, bpm) = if same position ccw then Bpm.increment m.bpm 1 else Bpm.decrement m.bpm 1 in
      record m { bpm = bpm }

  -- the switch of `result`
  unfoldable pub dispatch : Mapper → DatabaseInfo → Position → ℕ → Option Result × Mapper
  unfolding signals step_value step_program step_bpm
  dispatch m info position steps = elim info.type [
    | control_change_7fh01h ↦ (some (signals info (by_position 127 1 position)), m)
    | control_change_3fh41h ↦ (some (signals info (by_position 63 65 position)), m)
    | control_change_41h01h ↦ (some (signals info (by_position 65 1 position)), m)
    | program_change ↦ step_program m info position
    | control_change ↦ step_value m info position steps
    | pitch_bend ↦ step_value m info position steps
    | nrpn_7_bit ↦ step_value m info position steps
    | nrpn_14_bit ↦ step_value m info position steps
    | control_change_14_bit ↦ step_value m info position steps
    | single_note_variable_val ↦ step_value m info position steps
    | single_note_fixed_val_both_dir ↦ (some (signals info info.repeated_value), m)
    | single_note_fixed_val_one_dir_0_other_dir ↦
        (some (signals info (if same position ccw then 0 else info.repeated_value)), m)
    | two_note_fixed_val_both_dir ↦ (some (signals info info.repeated_value), m)
    | preset_change ↦ (
      some (record {
        osc = none;
        midi = none;
        system = some (if same position cw then preset_change_inc_req else preset_change_dec_req);
      }),
      m,
    )
    | bpm_change ↦ (none, step_bpm m position)
    | count ↦ (none, m)
  ]

  -- `size` is `Collection::size()`.
  unfoldable pub result : Config → ℕ → Mapper → ℕ → Position → ℕ → Option Result × Mapper
  unfolding read_database_info dispatch
  result config size m index position steps =
      let (info, turned) = read_database_info config index position in
      if leb size index || same position stopped then (none, m) else dispatch m info turned steps

unfoldable pub last_result : Config → ℕ → Mapper → ℕ → Option Result
unfolding read_database_info has_refresh_value signals program
last_result config size m index =
    let (info, _) = read_database_info config index stopped in
    let value : ℕ = elim info.type [
      | program_change ↦ program m.programs info.channel
      | _ ↦ get_or m.values index 0
    ] in
    if leb size index
    then none
    else if not (has_refresh_value info.type)
    then none
    else if is_control_change_14_bit info.type && leb control_change_14bit_max_index info.midi_index
    then none
    else some (signals info value)

unfoldable pub reset : Config → ℕ → Mapper → ℕ → Mapper
reset config size m index =
    let value = if config Section.mode index == 5 then midi_pitch_bend_center else 0 in
    if leb size index then m else record m { values = set m.values index value }

unfoldable pub set_value : ℕ → Mapper → ℕ → ℕ → Mapper
set_value size m index value =
    if leb size index then m else record m { values = set m.values index value }
