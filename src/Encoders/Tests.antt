-- ===== src/Encoders/Tests.antt =====
-- The encoder theorems at concrete inputs.
use open_deck.Prelude.{
  ℕ, Option, List, ◌/◌, ◌%◌, ◌^◌, ◌==◌, ◌≡◌, refl, true, false, [], ◌∷◌, some, arith, min, max,
  get_or,
}
use open_deck.Prelude.Integers.{pos}
use open_deck.Global.MidiProgram
use open_deck.Encoders.Filter.{initial, debounce, Position, stopped, Filter, ccw, cw}
use open_deck.Encoders.Filter.Steps.{
  is_on, unsettled, reports, expected, settled, next, paused, reports-expected,
}
use open_deck.Encoders.Filter.Quadrature.{outputs, full_turn, outputs-full_turn}
use open_deck.Signaling
use open_deck.Signaling.{MessageType}
use open_deck.Encoders.Signals.{Zlibs, Config, Section}
use open_deck.Encoders.Mapper
use open_deck.Encoders.Mapper.{Mapper, DatabaseInfo, step_value}
use open_deck.Encoders.Mapper.Values.{step_value-moved}
use open_deck.Encoders.Remote.{receive, is_synced}
use open_deck.Encoders.Remote.Sync.{receive-values}
use open_deck.Encoders.Inputs.{next_speed}
use open_deck.Encoders.Inputs.Speed.{next_speed-min}

abbrev zlibs : Zlibs
zlibs = record {
  bit_read = λ x k. x / 2 ^ k % 2 == 1;
  constrain = λ value lower upper. max lower (min value upper);
  max_value_7bit = 127;
  max_value_14bit = 16383;
}

-- settled on the clockwise direction
abbrev turning : Filter
turning = record {
  last_direction = cw;
  debounce_direction = cw;
  debounce_counter = 1;
  encoder_data = 0x80;
  encoder_pulses = pos 0;
}

-- three steps against the direction, 20 milliseconds apart, a fourth after a pause, and four more
abbrev series : List (Position × Option ℕ)
series =
    (ccw, some 20)
    ∷ (ccw, some 20)
    ∷ (ccw, some 50)
    ∷ (ccw, some 51)
    ∷ (cw, some 3)
    ∷ (cw, some 3)
    ∷ (cw, some 3)
    ∷ (cw, some 3)
    ∷ (ccw, some 3)
    ∷ []

reports-expected_example : reports turning series ≡ expected (settled cw 0) series
reports-expected_example = reports-expected turning (settled cw 0) series refl refl

-- A new filter has no direction yet.
new_filter : is_on initial (unsettled stopped 0) ≡ true
new_filter = refl

-- what that series gives
series_reported : expected (settled cw 0) series ≡ cw ∷ cw ∷ cw ∷ ccw ∷ cw ∷ cw ∷ cw ∷ cw ∷ cw ∷ []
unfolding expected next paused
series_reported = refl

abbrev mapper : Mapper
mapper = record {
  values = 3 ∷ 120 ∷ [];
  programs = MidiProgram.initial;
  bpm = record { bpm = 120; published = [] };
}

abbrev info : DatabaseInfo
info = record {
  type = Mapper.nrpn_7_bit;
  inverted = false;
  component_index = 1;
  channel = 1;
  midi_index = 7;
  repeated_value = 0;
  lower_limit = 10;
  upper_limit = 125;
  midi_message = Signaling.nrpn_7_bit;
}

step_value-moved_example : get_or (step_value zlibs mapper info cw 9).1.values 1 0 ≡ 125
step_value-moved_example =
    step_value-moved zlibs mapper info cw 9 (λ v l u h. refl) (omega arith) (omega arith)
      (omega arith) (omega arith) (omega arith)

next_speed-min_example : next_speed zlibs 2 9 (some 20) ≡ 10
next_speed-min_example =
    next_speed-min zlibs 2 9 (some 20) (λ v l u h. refl) (omega arith) (omega arith) (omega arith)

-- seeded with the contacts in the position 2
abbrev seeded : Filter
seeded = record turning { encoder_data = 0x82 }

outputs-full_turn_example :
    outputs zlibs.bit_read seeded (some 30) (full_turn ccw 2)
    ≡ (false, stopped)
      ∷ (false, stopped)
      ∷ (false, stopped)
      ∷ (true, (debounce seeded ccw (some 30)).0)
      ∷ []
outputs-full_turn_example =
    outputs-full_turn zlibs.bit_read (λ x k. refl) seeded ccw (some 30) refl refl (λ e. cc e)

-- Encoder 1 is synchronised, on all channels, to controller 7.
abbrev config : Config
config section index = elim section [
  | Section.remote_sync ↦ index
  | Section.mode ↦ 3
  | Section.channel ↦ 17
  | Section.midi_id_1 ↦ 7
  | _ ↦ 0
]

receive-values_example :
    get_or
      (receive config
        (record { channel = 1; is_used = false })
        2
        false
        Signaling.inward
        (record { type = Signaling.control_change; channel = 4; data1 = 7; data2 = 99 })
        mapper).values
      1
      0
    ≡ 99
unfolding is_synced
receive-values_example =
    receive-values config (record { channel = 1; is_used = false }) 2 false Signaling.inward
      (record { type = Signaling.control_change; channel = 4; data1 = 7; data2 = 99 }) mapper 1 refl
      (omega arith)
