-- ===== src/Encoders/Inputs.antt =====
-- `Encoders`: app/firmware/src/io/digital/encoders/instance/impl/encoders.{h,cpp}. The arrays are
-- lists with an entry for each of the `size` encoders; what is published is kept in order.
pub mod Speed
use open_deck.Prelude.{
  ℕ, zero, suc, ◌+◌, ◌-◌, ◌%◌, ◌^◌, Bool, true, false, not, ◌&&◌, List, [], ◌∷◌, ◌++◌, Option, none,
  some, ltb, leb, ◌==◌, if◌then◌else◌, get_or, set, min,
}
use open_deck.Encoders.Filter
use open_deck.Encoders.Filter.{Filter, Position, stopped, same, is_filtered}
use open_deck.Signaling.{
  Published, OscIoSignal, MidiIoSignal, SystemEvent, osc_io, midi_io, system_event,
}
use open_deck.Encoders.Signals.{Section, Config, Zlibs}
use open_deck.Encoders.Mapper
use open_deck.Encoders.Mapper.{Mapper, Result, result, last_result, set_value}

abbrev pub encoders_speed_timeout_ms : ℕ
encoders_speed_timeout_ms = 140

-- `ENCODER_SPEED_CHANGE` and `ENCODER_ACCELERATION_STEP_INC`, by acceleration profile
abbrev pub encoder_speed_change : List ℕ
encoder_speed_change = 0 ∷ 1 ∷ 2 ∷ 3 ∷ []

abbrev pub encoder_acceleration_step_inc : List ℕ
encoder_acceleration_step_inc = 0 ∷ 5 ∷ 10 ∷ 100 ∷ []

pub record Encoders : Type 0 where
  pub filters : List Filter
  pub mapper : Mapper
  pub encoder_speed : List ℕ
  pub last_movement_time : List (Option ℕ)
  pub published : List Published

abbrev published_of : {A : Type 0} → (A → Published) → Option A → List Published
published_of f none = []
published_of f (some a) = f a ∷ []

-- what is published of a result, in the order of the source
unfoldable pub signals_of : Option Result → List Published
signals_of none = []
signals_of (some r) =
    published_of osc_io r.osc ++ published_of midi_io r.midi ++ published_of system_event r.system

abbrev pub publish : Encoders → Option Result → Encoders
publish e r = record e { published = e.published ++ signals_of r }

-- `sample_time - _last_movement_time[index].value()`, on `uint32_t`
unfoldable pub elapsed : Option ℕ → ℕ → Option ℕ
elapsed none sample_time = none
elapsed (some last) sample_time = some ((sample_time + 2 ^ 32 - last) % 2 ^ 32)

module _ (z : Zlibs) where
  -- the speed of the encoder after a movement
  unfoldable pub next_speed : ℕ → ℕ → Option ℕ → ℕ
  next_speed enc_acceleration speed movement_elapsed_time =
      let fast : Bool = elim movement_elapsed_time [
        | none ↦ false
        | some t ↦ ltb t encoders_speed_timeout_ms
      ] in
      let faster = (speed + get_or encoder_speed_change enc_acceleration 0) % 256 in
      if enc_acceleration == 0
      then 0
      else if fast
      then z.constrain faster 0 (get_or encoder_acceleration_step_inc enc_acceleration 0)
      else 0

  -- `process_reading`, from a filtered position on
  unfoldable pub process_movement : Config → ℕ → Encoders → ℕ → Position → Option ℕ → ℕ → Encoders
  unfolding next_speed result signals_of
  process_movement config size e index position movement_elapsed_time sample_time =
      let enc_acceleration = config Section.acceleration index % 256 in
      let speed =
        next_speed enc_acceleration (get_or e.encoder_speed index 0) movement_elapsed_time in
      let steps = if ltb 0 speed then speed else 1 in
      let (r, mapper) = result z config size e.mapper index position steps in
      let e' = record e {
        encoder_speed = set e.encoder_speed index speed;
        last_movement_time = set e.last_movement_time index (some sample_time);
        mapper = mapper;
      } in
      if same position stopped then e else publish e' r

  unfoldable pub process_reading : Config → ℕ → Encoders → ℕ → ℕ → ℕ → Encoders
  unfolding elapsed is_filtered process_movement
  process_reading config size e index pair_value sample_time =
      let movement_elapsed_time = elapsed (get_or e.last_movement_time index none) sample_time in
      let (filtered, position, filter) =
        is_filtered z.bit_read (get_or e.filters index Filter.initial) pair_value stopped
          movement_elapsed_time in
      let e' = record e { filters = set e.filters index filter } in
      if filtered
      then process_movement config size e' index position movement_elapsed_time sample_time
      else e'

  -- The loop of `process_state_changes`, from the encoder `index` on, with the encoders left; the
  -- samples are those of `_hwa.state` and `k_uptime_get_32`.
  unfoldable pub process_encoders :
      Config → ℕ → (ℕ → Option ℕ) → (ℕ → ℕ) → ℕ → ℕ → Encoders → Encoders
  unfolding process_reading
  process_encoders config size state uptime index zero e = e
  process_encoders config size state uptime index (suc left) e =
      let e' : Encoders = elim (state index) [
        | none ↦ e
        | some pair_value ↦ process_reading config size e index pair_value (uptime index)
      ] in
      process_encoders config size state uptime (index + 1) left
        (if config Section.enable index == 0 then e else e')

  unfoldable pub process_state_changes :
      Config → ℕ → Bool → (ℕ → Option ℕ) → (ℕ → ℕ) → Encoders → Encoders
  unfolding process_encoders
  process_state_changes config size is_frozen state uptime e =
      if is_frozen then e else process_encoders config size state uptime 0 size e

unfoldable pub reset : Config → ℕ → Encoders → ℕ → Encoders
unfolding Filter.reset Mapper.reset
reset config size e index = record e {
  mapper = Mapper.reset config size e.mapper index;
  filters = set e.filters index (Filter.reset (get_or e.filters index Filter.initial));
  encoder_speed = set e.encoder_speed index 0;
  last_movement_time = set e.last_movement_time index none;
}

-- the loop of `init`
unfoldable pub reset_from : Config → ℕ → Encoders → ℕ → ℕ → Encoders
unfolding reset
reset_from config size e index zero = e
reset_from config size e index (suc left) =
    reset_from config size (reset config size e index) (index + 1) left

unfoldable pub init : Config → ℕ → Encoders → Encoders
unfolding reset_from
init config size e = reset_from config size e 0 size

-- the loop of `force_refresh`, with the encoders left
unfoldable pub refresh_from : Config → ℕ → Encoders → ℕ → ℕ → Encoders
unfolding last_result signals_of
refresh_from config size e index zero = e
refresh_from config size e index (suc left) =
    let r = last_result config size e.mapper index in
    refresh_from config size (if config Section.enable index == 0 then e else publish e r)
      (index + 1) left

unfoldable pub force_refresh : Config → ℕ → Encoders → ℕ → ℕ → Encoders
unfolding refresh_from
force_refresh config size e start_index count =
    if leb size start_index
    then e
    else refresh_from config size e start_index (min count (size - start_index))
