-- ===== src/Outputs/Mapper/Levels.antt =====
-- The levels that the mapper gives.
use open_deck.Prelude.{
  not, ◌&&◌, ℕ, zero, suc, ◌+◌, ◌≤◌, Bool, true, false, arith, All, if◌then◌else◌,
}
use open_deck.Global.MidiProgram.{MidiProgram}
use open_deck.Signaling.{MessageType, SignalDirection}
use open_deck.Encoders.Remote.{Message}
use open_deck.Outputs.Mapper.{
  without_note_off, to_control_type, select, other_channel, is_message, midi_message_of,
  control_type, Action, Config, Zlibs, Selection, output_level_max, for_each, midi_value_to_level,
  matched_level, act, visit, midi_result, untouched,
}

-- The level of an action is in the range of outputs.
abbrev pub InRange : Action → Type 0
InRange a = a.level ≤ output_level_max

for_each-InRange :
    (f : ℕ → Action) (index left : ℕ)
    → ((i : ℕ) → InRange (f i))
    → All InRange (for_each f index left)
unfolding for_each
for_each-InRange f index zero h = omega arith
for_each-InRange f index (suc left) h = (h index, for_each-InRange f (index + 1) left h)

InRange-guarded : (b : Bool) (a : Action) → InRange a → InRange (if b then untouched else a)
InRange-guarded true a h = omega arith
InRange-guarded false a h = h

module _ (z : Zlibs) (c : Config) (programs : MidiProgram)
    (maps : (v a b x y : ℕ) → x ≤ y → z.map_range v a b x y ≤ y) where
  matched_level-below :
      (message : Message) (type : MessageType) (set_pulse : Bool) (index : ℕ)
      → matched_level z c programs message type set_pulse index ≤ output_level_max
  unfolding matched_level midi_value_to_level
  matched_level-below message type set_pulse index =
      let p = maps message.data2 0 z.max_value_7bit 0 100 (omega arith) in ground arith

  act-InRange :
      (message : Message) (type : MessageType) (s : Selection) (index : ℕ)
      → InRange (act z c programs message type s index)
  unfolding act
  act-InRange message type s index =
      let p = matched_level-below message type s.set_pulse index in ground arith

  visit-InRange :
      (message : Message) (direction : SignalDirection) (index : ℕ)
      → InRange (visit z c programs message direction index)
  unfolding visit
  visit-InRange message direction index =
      let type = without_note_off message.type in
      let control = to_control_type (c.read control_type index) in
      let s = select direction control type in
      let a = act z c programs message type s index in
      let b = if not s.set_state && not s.set_pulse then untouched else a in
      let d =
        if s.check_channel && other_channel z c programs message index then untouched else b in
      InRange-guarded (not (is_message type (midi_message_of control))) d
        (InRange-guarded _ b (InRange-guarded _ a (act-InRange message type s index)))

  -- No output is set above the greatest level, whatever the message; the scaling of the zlibs library
  -- stays below the upper end of its target range.
  pub midi_result-InRange :
      (size : ℕ) (message : Message) (direction : SignalDirection)
      → All InRange (midi_result z c programs size message direction)
  unfolding midi_result
  midi_result-InRange size message direction =
      for_each-InRange (visit z c programs message direction) 0 size
        (visit-InRange message direction)
