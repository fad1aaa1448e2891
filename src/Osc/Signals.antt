-- ===== src/Osc/Signals.antt =====
-- The packets of the signals: the two `make_packet` of app/firmware/src/protocol/osc/packet/packet.h
-- that take a signal. A packet buffer is handed on unchanged where nothing is made.
pub mod Made
pub mod Sources
pub mod Documented
pub mod Received
use open_deck.Prelude.{
  ℕ, Bool, true, false, not, Option, none, some, List, [], ◌∷◌, ◌==◌, if◌then◌else◌, get_or,
}
use open_deck.Signaling.{
  IoEventSource, switch, analog, analog_switch, encoder, touchscreen_switch, output, OscIoSignal,
  Gesture, no_gesture, gesture_up, gesture_down, gesture_left, gesture_right, SensorPayload,
  apds9960_proximity, apds9960_ambient_light, vl53l4cx_distance, vl53l4cx_distance_norm,
  cap1188_touch, apds9960_rgb, apds9960_gesture, bno085_quaternion, bno085_euler, bno085_gyroscope,
  bno085_linear_acceleration, bno085_gravity, vl53l5cx_row, vl53l5cx_nearest, vl53l5cx_centroid,
  vl53l5cx_presence,
}
use open_deck.Osc.Packet.{
  Platform, Argument, osc_int32, osc_string, osc_float32, Address, plain, indexed,
}
use open_deck.Osc.Packet.Writer.{make_packet}
use open_deck.Osc.Paths.{
  characters, switch_path, encoder_path, analog_path, proximity_path, ambient_light_path, rgb_path,
  gesture_path, quaternion_path, euler_path, gyroscope_path, linear_accel_path, gravity_path,
  touch_path, distance_path, distance_norm_path, row_path, nearest_path, centroid_path,
  presence_path,
}

-- `value_or(0)`
abbrev value_or_zero : Option ℕ → ℕ
value_or_zero none = 0
value_or_zero (some v) = v

abbrev pub zero_or_one : ℕ → ℕ
zero_or_one v = if v == 0 then 0 else 1

-- What is sent for an IO signal, if its source is mapped: the path, then the argument.
abbrev analog_argument : Option ℕ → ℕ → Argument
analog_argument (some f) value = osc_float32 f
analog_argument none value = osc_int32 value

unfoldable pub io_message : OscIoSignal → Option (List ℕ × Argument)
io_message s =
    let value = value_or_zero s.int32_value in
    elim s.source [
      | switch ↦ some (switch_path, osc_int32 (zero_or_one value))
      | touchscreen_switch ↦ some (switch_path, osc_int32 (zero_or_one value))
      | encoder ↦ some (encoder_path, osc_int32 value)
      | analog ↦ some (analog_path, analog_argument s.float_value value)
      | analog_switch ↦ none
      | output ↦ none
    ]

gesture_text : Gesture → Option (List ℕ)
gesture_text no_gesture = none
gesture_text gesture_up = some (characters "up")
gesture_text gesture_down = some (characters "down")
gesture_text gesture_left = some (characters "left")
gesture_text gesture_right = some (characters "right")

-- the distances of a row, four or eight of them
abbrev zones : ℕ → List ℕ → List Argument
zones width d =
    let zone : ℕ → Argument = λ i. osc_int32 (get_or d i 0) in
    if width == 4
    then zone 0 ∷ zone 1 ∷ zone 2 ∷ zone 3 ∷ []
    else zone 0 ∷ zone 1 ∷ zone 2 ∷ zone 3 ∷ zone 4 ∷ zone 5 ∷ zone 6 ∷ zone 7 ∷ []

abbrev floats : List ℕ → List Argument
floats [] = []
floats (f ∷ rest) = osc_float32 f ∷ floats rest

abbrev gesture_message : Option (List ℕ) → Option (Address × List Argument)
gesture_message none = none
gesture_message (some t) = some (plain gesture_path, osc_string t ∷ [])

-- What is sent for a sensor signal, the visitor of its payload.
unfoldable pub sensor_message : SensorPayload → Option (Address × List Argument)
unfolding gesture_text
sensor_message (apds9960_proximity v) = some (plain proximity_path, osc_int32 v ∷ [])
sensor_message (apds9960_ambient_light v) = some (plain ambient_light_path, osc_float32 v ∷ [])
sensor_message (vl53l4cx_distance v) = some (plain distance_path, osc_int32 v ∷ [])
sensor_message (vl53l4cx_distance_norm v) = some (plain distance_norm_path, osc_float32 v ∷ [])
sensor_message (cap1188_touch i v) = some (indexed touch_path i, osc_int32 (zero_or_one v) ∷ [])
sensor_message (apds9960_rgb r g b) = some (plain rgb_path, floats (r ∷ g ∷ b ∷ []))
sensor_message (apds9960_gesture g) = gesture_message (gesture_text g)
sensor_message (bno085_quaternion r i j k) =
    some (plain quaternion_path, floats (r ∷ i ∷ j ∷ k ∷ []))
sensor_message (bno085_euler y p r) = some (plain euler_path, floats (y ∷ p ∷ r ∷ []))
sensor_message (bno085_gyroscope x y z) = some (plain gyroscope_path, floats (x ∷ y ∷ z ∷ []))
sensor_message (bno085_linear_acceleration x y z) =
    some (plain linear_accel_path, floats (x ∷ y ∷ z ∷ []))
sensor_message (bno085_gravity x y z) = some (plain gravity_path, floats (x ∷ y ∷ z ∷ []))
sensor_message (vl53l5cx_row r width d) = some (indexed row_path r, zones width d)
sensor_message (vl53l5cx_nearest d zone x y) =
    some (plain nearest_path, osc_int32 d ∷ osc_int32 zone ∷ osc_int32 x ∷ osc_int32 y ∷ [])
sensor_message (vl53l5cx_centroid x y d active) =
    some
      (plain centroid_path, osc_float32 x ∷ osc_float32 y ∷ osc_float32 d ∷ osc_int32 active ∷ [])
sensor_message (vl53l5cx_presence present active nearest energy) = some (
  plain presence_path,
  osc_int32 present ∷ osc_int32 active ∷ osc_int32 nearest ∷ osc_float32 energy ∷ [],
)

module _ (h : Platform) where
  unfoldable pub make_io_packet : List ℕ → OscIoSignal → Option ℕ × List ℕ
  unfolding io_message make_packet
  make_io_packet packet s = elim (io_message s) [
    | none ↦ (none, packet)
    | some (path, a) ↦ make_packet h (indexed path s.component_index) (a ∷ [])
  ]

  unfoldable pub make_sensor_packet : List ℕ → SensorPayload → Option ℕ × List ℕ
  unfolding sensor_message make_packet
  make_sensor_packet packet payload = elim (sensor_message payload) [
    | none ↦ (none, packet)
    | some (address, args) ↦ make_packet h address args
  ]
