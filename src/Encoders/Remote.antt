-- ===== src/Encoders/Remote.antt =====
-- The remote synchronisation of encoders: the handler of incoming messages that the constructor of
-- `Encoders` subscribes (app/firmware/src/io/digital/encoders/instance/impl/encoders.cpp), with
-- `Message` of app/firmware/src/protocol/midi/shared/common.h. The message is taken as
-- `decode_message` gives it.
pub mod Sync
use open_deck.Prelude.{
  ℕ, zero, suc, ◌+◌, ◌%◌, ◌^◌, Bool, true, false, not, ◌&&◌, ◌||◌, ◌==◌, if◌then◌else◌,
}
use open_deck.Signaling.{MessageType, control_change, pitch_bend, SignalDirection, inward, outward}
use open_deck.Encoders.Signals.{Section, Config}
use open_deck.Encoders.Mapper.{Mapper, set_value}

abbrev pub omni_channel : ℕ
omni_channel = 17

pub record Message : Type 0 where
  pub type : MessageType
  pub channel : ℕ
  pub data1 : ℕ
  pub data2 : ℕ

-- `GlobalChannel` and `UseGlobalChannel` of the global MIDI settings
pub record GlobalChannel : Type 0 where
  pub channel : ℕ
  pub is_used : Bool

-- whether `sync_value` passes all its tests for an encoder; `type` is the byte of a `Type`
unfoldable pub is_synced : Config → GlobalChannel → Message → ℕ → Bool → ℕ → Bool
is_synced config global message type match_midi_id index =
    let sync_channel =
      if global.is_used then global.channel % 256 else config Section.channel index % 256 in
    if config Section.remote_sync index == 0
    then false
    else if not (config Section.mode index == type)
    then false
    else if not (sync_channel == omni_channel) && not (sync_channel == message.channel)
    then false
    else if match_midi_id && not (config Section.midi_id_1 index == message.data1)
    then false
    else true

-- the loop of `sync_value`, from `index` on, with the encoders left
unfoldable pub sync_from : Config → GlobalChannel → ℕ → Message → ℕ → Bool → ℕ → ℕ → Mapper → Mapper
unfolding is_synced set_value
sync_from config global size message type match_midi_id index zero m = m
sync_from config global size message type match_midi_id index (suc left) m =
    sync_from config global size message type match_midi_id (index + 1) left (
      if is_synced config global message type match_midi_id index
      then set_value size m index message.data2
      else m)

abbrev pub is_incoming : SignalDirection → Bool
is_incoming inward = true
is_incoming outward = false

-- the handler: 3 and 5 are the bytes of `Type::ControlChange` and `Type::PitchBend`
unfoldable pub receive :
    Config → GlobalChannel → ℕ → Bool → SignalDirection → Message → Mapper → Mapper
unfolding sync_from
receive config global size is_frozen direction message m =
    if is_frozen then m else if not (is_incoming direction) then m else elim message.type [
      | control_change ↦ sync_from config global size message 3 true 0 size m
      | pitch_bend ↦ sync_from config global size message 5 false 0 size m
      | _ ↦ m
    ]
