-- ===== src/Signaling.antt =====
-- The signals that the components publish to each other, those of them that are modelled:
-- app/firmware/src/signaling/signaling.h.
use open_deck.Prelude.{ℕ, Option, List}

pub data IoEventSource : Type 0 where
  switch analog analog_switch encoder touchscreen_switch output : IoEventSource

pub data SignalDirection : Type 0 where
  inward outward : SignalDirection

-- an int32 and a float are their patterns of 32 bits
pub record OscIoSignal : Type 0 where
  pub source : IoEventSource
  pub component_index : ℕ
  pub int32_value : Option ℕ
  pub float_value : Option ℕ
  pub direction : SignalDirection

-- the message types that an encoder or a switch can send
pub data MessageType : Type 0 where
  invalid_message note_on note_off control_change program_change pitch_bend : MessageType
  mmc_play mmc_stop mmc_pause mmc_record_start mmc_record_stop : MessageType
  sys_real_time_clock sys_real_time_start sys_real_time_continue : MessageType
  sys_real_time_stop sys_real_time_active_sensing sys_real_time_system_reset : MessageType
  nrpn_7_bit nrpn_14_bit control_change_14_bit : MessageType

pub record MidiIoSignal : Type 0 where
  pub source : IoEventSource
  pub component_index : ℕ
  pub channel : ℕ
  pub index : ℕ
  pub value : ℕ
  pub message : MessageType

-- the system events that an encoder or a switch requests, with the value of the signal where it is
-- not its default of zero
pub data SystemEvent : Type 0 where
  preset_change_inc_req preset_change_dec_req : SystemEvent
  preset_change_direct_req : ℕ → SystemEvent

pub data Published : Type 0 where
  osc_io : OscIoSignal → Published
  midi_io : MidiIoSignal → Published
  system_event : SystemEvent → Published

pub data Gesture : Type 0 where
  no_gesture gesture_up gesture_down gesture_left gesture_right : Gesture

-- `OscSensorSignalPayload`: one constructor for each alternative of the variant, with the fields of
-- its struct in their order; the distances of a row are the eight of its array
pub data SensorPayload : Type 0 where
  apds9960_proximity : ℕ → SensorPayload
  apds9960_ambient_light : ℕ → SensorPayload
  vl53l4cx_distance : ℕ → SensorPayload
  vl53l4cx_distance_norm : ℕ → SensorPayload
  cap1188_touch : ℕ → ℕ → SensorPayload
  apds9960_rgb : ℕ → ℕ → ℕ → SensorPayload
  apds9960_gesture : Gesture → SensorPayload
  bno085_quaternion : ℕ → ℕ → ℕ → ℕ → SensorPayload
  bno085_euler : ℕ → ℕ → ℕ → SensorPayload
  bno085_gyroscope : ℕ → ℕ → ℕ → SensorPayload
  bno085_linear_acceleration : ℕ → ℕ → ℕ → SensorPayload
  bno085_gravity : ℕ → ℕ → ℕ → SensorPayload
  vl53l5cx_row : ℕ → ℕ → List ℕ → SensorPayload
  vl53l5cx_nearest : ℕ → ℕ → ℕ → ℕ → SensorPayload
  vl53l5cx_centroid : ℕ → ℕ → ℕ → ℕ → SensorPayload
  vl53l5cx_presence : ℕ → ℕ → ℕ → ℕ → SensorPayload

pub record OscSensorSignal : Type 0 where
  pub payload : SensorPayload
  pub direction : SignalDirection
