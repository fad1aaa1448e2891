-- ===== src/Encoders/Remote/Sync.antt =====
-- Which encoders an incoming message sets, and to what.
use open_deck.Prelude.{
  ℕ, zero, suc, ◌+◌, ◌<◌, ◌≡◌, refl, ◌∙◌, Bool, true, false, not, ◌&&◌, ◌||◌, ◌%◌, leb, ◌==◌,
  if◌then◌else◌, arith, length, length-set, get_or, get_or-set_self, get_or-set_ne,
}
use open_deck.Signaling.{SignalDirection, control_change, pitch_bend, inward, outward}
use open_deck.Encoders.Signals.{Config, Section}
use open_deck.Encoders.Mapper.{Mapper, set_value}
use open_deck.Encoders.Remote.{GlobalChannel, Message, is_synced, is_incoming, sync_from, receive}

module _ (config : Config) (global : GlobalChannel) (size : ℕ) (message : Message) (type : ℕ)
    (match : Bool) where
  -- one round of the loop
  abbrev step : ℕ → Mapper → Mapper
  step i m =
      if is_synced config global message type match i then set_value size m i message.data2 else m

  step-values :
      (i j : ℕ) (m : Mapper)
      → length m.values ≡ size
      → j < size
      → i < size
      → get_or (step i m).values j 0 ≡ (
          if i == j && is_synced config global message type match j
          then message.data2
          else get_or m.values j 0)
  unfolding set_value
  step-values i j m long inside below = ground (
    arith,
    get_or-set_self m.values i message.data2 0,
    get_or-set_ne m.values i j message.data2 0,
  )

  length-step : (i : ℕ) (m : Mapper) → length (step i m).values ≡ length m.values
  unfolding set_value
  length-step i m = ground (arith, length-set m.values i message.data2)

  sync_from-values :
      (index left j : ℕ) (m : Mapper)
      → length m.values ≡ size
      → j < size
      → index + left ≡ size
      → get_or (sync_from config global size message type match index left m).values j 0 ≡ (
          if leb index j && is_synced config global message type match j
          then message.data2
          else get_or m.values j 0)
  unfolding sync_from
  sync_from-values index zero j m long inside whole = ground arith
  sync_from-values index (suc left) j m long inside whole =
      let rest =
        sync_from-values (index + 1) left j (step index m) (length-step index m ∙ long) inside
          (omega arith) in
      let one = step-values index j m long inside (omega arith) in ground (arith, rest, one)

-- The channel that an encoder listens to: the global one where that is used, or its own; 17 stands
-- for all channels.
abbrev hears : Config → GlobalChannel → Message → ℕ → Bool
hears config global message j =
    let own = (if global.is_used then global.channel else config Section.channel j) % 256 in
    own == 17 || own == message.channel

-- the `Type` of the encoders that a message is for, and whether it must be their controller
abbrev addressed : Config → Message → ℕ → Bool
addressed config message j = elim message.type [
  | control_change ↦ config Section.mode j == 3 && config Section.midi_id_1 j == message.data1
  | pitch_bend ↦ config Section.mode j == 5
  | _ ↦ false
]

-- whether an encoder follows a message
abbrev pub follows : Config → GlobalChannel → Message → ℕ → Bool
follows config global message j =
    not (config Section.remote_sync j == 0)
    && hears config global message j
    && addressed config message j

is_synced-tests :
    (config : Config) (global : GlobalChannel) (message : Message) (type : ℕ) (match : Bool) (j : ℕ)
    → is_synced config global message type match j ≡ (
        not (config Section.remote_sync j == 0)
        && hears config global message j
        && config Section.mode j == type
        && (not match || config Section.midi_id_1 j == message.data1))
unfolding is_synced
is_synced-tests config global message type match j = ground arith

-- An incoming message, while the encoders are not frozen, sets the value of exactly the encoders that
-- follow it: those with remote synchronisation, of the type of the message, on its channel (the
-- global one where that is used) or on all channels, and for a control change of its controller.
-- Each of them takes the value of the message, and all others keep theirs, when the table has a
-- value for each encoder.
pub receive-values :
    (config : Config) (global : GlobalChannel) (size : ℕ) (is_frozen : Bool)
    (direction : SignalDirection) (message : Message) (m : Mapper) (j : ℕ)
    → length m.values ≡ size
    → j < size
    → get_or (receive config global size is_frozen direction message m).values j 0 ≡ (
        if not is_frozen && is_incoming direction && follows config global message j
        then message.data2
        else get_or m.values j 0)
unfolding receive
receive-values config global size true direction message m j long inside = refl
receive-values config global size false outward message m j long inside = refl
receive-values config global size false inward message m j long inside =
    let cc_case =
      sync_from-values config global size message 3 true 0 size j m long inside (omega arith) in
    let pb_case =
      sync_from-values config global size message 5 false 0 size j m long inside (omega arith) in
    ground (
      arith,
      cc_case,
      pb_case,
      is_synced-tests config global message 3 true j,
      is_synced-tests config global message 5 false j,
    )
