-- ===== src/Global/MidiProgram.antt =====
-- `MidiProgram`: app/firmware/src/global/midi_program.h. The offsets published as
-- `MidiProgramOffsetChange` are kept in order.
pub mod Range
use open_deck.Prelude.{
  ℕ, ◌+◌, ◌%◌, Bool, true, false, not, List, [], ◌∷◌, ◌++◌, ltb, ◌==◌, if◌then◌else◌, get_or, set,
  replicate,
}
use open_deck.Util.IncDec.{increment, decrement, edge}

abbrev pub midi_program_channel_count : ℕ
midi_program_channel_count = 16

abbrev pub midi_program_max_value : ℕ
midi_program_max_value = 127

-- `programs` is the array `_program`, with an entry for each channel number up to 16.
pub record MidiProgram : Type 0 where
  pub programs : List ℕ
  pub offset : ℕ
  pub published : List ℕ

abbrev pub initial : MidiProgram
initial = record {
  programs = replicate (midi_program_channel_count + 1) 0;
  offset = 0;
  published = [];
}

-- the end of `increment_program` and of `decrement_program`
unfoldable pub store_program : MidiProgram → ℕ → ℕ → Bool × MidiProgram
store_program m channel new_program =
    if not (new_program == get_or m.programs channel 0)
    then (true, record m { programs = set m.programs channel new_program })
    else (false, m)

-- The steps are a `uint8_t` parameter, so their sum with the offset wraps.
unfoldable pub increment_program : MidiProgram → ℕ → ℕ → Bool × MidiProgram
unfolding store_program increment
increment_program m channel steps =
    if ltb midi_program_channel_count channel
    then (false, m)
    else store_program m channel (
        increment midi_program_max_value (get_or m.programs channel 0) ((steps + m.offset) % 256)
          edge)

unfoldable pub decrement_program : MidiProgram → ℕ → ℕ → Bool × MidiProgram
unfolding store_program decrement
decrement_program m channel steps =
    if ltb midi_program_channel_count channel
    then (false, m)
    else store_program m channel (
        decrement 0 midi_program_max_value (get_or m.programs channel 0) ((steps + m.offset) % 256)
          edge)

unfoldable pub program : MidiProgram → ℕ → ℕ
program m channel =
    if ltb midi_program_channel_count channel then 0 else get_or m.programs channel 0

unfoldable pub set_program : MidiProgram → ℕ → ℕ → Bool × MidiProgram
set_program m channel new_program =
    let shifted = (new_program + m.offset) % 256 in
    if ltb midi_program_channel_count channel
    then (false, m)
    else if ltb midi_program_max_value shifted
    then (false, m)
    else (true, record m { programs = set m.programs channel shifted })

unfoldable pub set_offset : MidiProgram → ℕ → MidiProgram
set_offset m offset = record m { offset = offset; published = m.published ++ (offset ∷ []) }

-- the end of `increment_offset` and of `decrement_offset`
unfoldable pub store_offset : MidiProgram → ℕ → Bool × MidiProgram
unfolding set_offset
store_offset m new_offset =
    if not (new_offset == m.offset) then (true, set_offset m new_offset) else (false, m)

unfoldable pub increment_offset : MidiProgram → ℕ → Bool × MidiProgram
unfolding store_offset increment
increment_offset m steps = store_offset m (increment midi_program_max_value m.offset steps edge)

unfoldable pub decrement_offset : MidiProgram → ℕ → Bool × MidiProgram
unfolding store_offset decrement
decrement_offset m steps = store_offset m (decrement 0 midi_program_max_value m.offset steps edge)
