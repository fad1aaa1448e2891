-- ===== src/Osc/Signals/Documented.antt =====
-- The messages of sensor signals as they are documented to receivers: the addresses and the types of
-- the arguments as the comments of the sketches under examples/osc/processing list them, and the
-- fields of app/firmware/src/signaling/signaling.h in their order. They are written without the
-- paths and the functions of `make_packet`.
use open_deck.Prelude.{
  ℕ, ◌≡◌, refl, Bool, true, false, Option, none, some, List, [], ◌∷◌, ◌==◌, if◌then◌else◌, get_or,
  map,
}
use mathlib.Core.Path.{subst}
use open_deck.Signaling.{
  Gesture, no_gesture, gesture_up, gesture_down, gesture_left, gesture_right, SensorPayload,
  apds9960_proximity, apds9960_ambient_light, vl53l4cx_distance, vl53l4cx_distance_norm,
  cap1188_touch, apds9960_rgb, apds9960_gesture, bno085_quaternion, bno085_euler, bno085_gyroscope,
  bno085_linear_acceleration, bno085_gravity, vl53l5cx_row, vl53l5cx_nearest, vl53l5cx_centroid,
  vl53l5cx_presence,
}
use open_deck.Osc.Packet.{
  Argument, osc_int32, osc_string, osc_float32, Address, plain, indexed, comma,
}
use open_deck.Osc.Packet.Writer.{tags_of}
use open_deck.Osc.Paths.{characters, row_path}
use open_deck.Osc.Signals.{sensor_message}

-- a row of four or of eight distances
abbrev row_types : Bool → List ℕ
row_types four = if four then characters "iiii" else characters "iiiiiiii"

abbrev distances : List ℕ → List ℕ
distances d = map (λ i. get_or d i 0) (0 ∷ 1 ∷ 2 ∷ 3 ∷ 4 ∷ 5 ∷ 6 ∷ 7 ∷ [])

-- the types of the arguments of a sensor signal: i, f and s for an integer, a float and a text
unfoldable pub types : SensorPayload → List ℕ
types (apds9960_proximity v) = characters "i"
types (apds9960_ambient_light v) = characters "f"
types (vl53l4cx_distance v) = characters "i"
types (vl53l4cx_distance_norm v) = characters "f"
types (cap1188_touch i v) = characters "i"
types (apds9960_rgb r g b) = characters "fff"
types (apds9960_gesture g) = characters "s"
types (bno085_quaternion r i j k) = characters "ffff"
types (bno085_euler y p r) = characters "fff"
types (bno085_gyroscope x y z) = characters "fff"
types (bno085_linear_acceleration x y z) = characters "fff"
types (bno085_gravity x y z) = characters "fff"
types (vl53l5cx_row r width d) = row_types (width == 4)
types (vl53l5cx_nearest d zone x y) = characters "iiii"
types (vl53l5cx_centroid x y d active) = characters "fffi"
types (vl53l5cx_presence present active nearest energy) = characters "iiif"

-- the arguments of some types, for the numbers of their values
unfoldable pub arguments : List ℕ → List ℕ → List Argument
arguments [] fields = []
arguments (t ∷ rest) [] = []
arguments (t ∷ rest) (v ∷ fields) =
    (if t == b'f' then osc_float32 v else osc_int32 v) ∷ arguments rest fields

abbrev sensor : List ℕ → SensorPayload → List ℕ → Option (Address × List Argument)
sensor path p fields = some (plain path, arguments (types p) fields)

abbrev numbered : List ℕ → ℕ → SensorPayload → List ℕ → Option (Address × List Argument)
numbered path i p fields = some (indexed path i, arguments (types p) fields)

abbrev gesture : List ℕ → Option (Address × List Argument)
gesture text = some (plain (characters "/opendeck/sensors/apds9960/gesture"), osc_string text ∷ [])

unfoldable gesture_sent : Gesture → Option (Address × List Argument)
gesture_sent no_gesture = none
gesture_sent gesture_up = gesture (characters "up")
gesture_sent gesture_down = gesture (characters "down")
gesture_sent gesture_left = gesture (characters "left")
gesture_sent gesture_right = gesture (characters "right")

-- The address and the arguments of a sensor signal. A touch is sent as 1 or 0, under the number of
-- the sensor's key; a row of distances under its number; no gesture is not sent.
unfoldable pub documented : SensorPayload → Option (Address × List Argument)
unfolding gesture_sent
documented (apds9960_proximity v) =
    sensor (characters "/opendeck/sensors/apds9960/proximity") (apds9960_proximity v) (v ∷ [])
documented (apds9960_ambient_light v) =
    sensor (characters "/opendeck/sensors/apds9960/ambient_light") (apds9960_ambient_light v)
      (v ∷ [])
documented (vl53l4cx_distance v) =
    sensor (characters "/opendeck/sensors/vl53l4cx/distance") (vl53l4cx_distance v) (v ∷ [])
documented (vl53l4cx_distance_norm v) =
    sensor (characters "/opendeck/sensors/vl53l4cx/distance_norm") (vl53l4cx_distance_norm v)
      (v ∷ [])
documented (cap1188_touch i v) =
    numbered (characters "/opendeck/sensors/cap1188/touch") i (cap1188_touch i v)
      ((if v == 0 then 0 else 1) ∷ [])
documented (apds9960_rgb r g b) =
    sensor (characters "/opendeck/sensors/apds9960/rgb") (apds9960_rgb r g b) (r ∷ g ∷ b ∷ [])
documented (apds9960_gesture g) = gesture_sent g
documented (bno085_quaternion r i j k) =
    sensor (characters "/opendeck/sensors/bno085/quaternion") (bno085_quaternion r i j k)
      (r ∷ i ∷ j ∷ k ∷ [])
documented (bno085_euler y p r) =
    sensor (characters "/opendeck/sensors/bno085/euler") (bno085_euler y p r) (y ∷ p ∷ r ∷ [])
documented (bno085_gyroscope x y z) =
    sensor (characters "/opendeck/sensors/bno085/gyro") (bno085_gyroscope x y z) (x ∷ y ∷ z ∷ [])
documented (bno085_linear_acceleration x y z) =
    sensor (characters "/opendeck/sensors/bno085/linear_accel") (bno085_linear_acceleration x y z)
      (x ∷ y ∷ z ∷ [])
documented (bno085_gravity x y z) =
    sensor (characters "/opendeck/sensors/bno085/gravity") (bno085_gravity x y z) (x ∷ y ∷ z ∷ [])
documented (vl53l5cx_row r width d) =
    numbered (characters "/opendeck/sensors/vl53l5cx/row") r (vl53l5cx_row r width d) (distances d)
documented (vl53l5cx_nearest d zone x y) =
    sensor (characters "/opendeck/sensors/vl53l5cx/nearest") (vl53l5cx_nearest d zone x y)
      (d ∷ zone ∷ x ∷ y ∷ [])
documented (vl53l5cx_centroid x y d active) =
    sensor (characters "/opendeck/sensors/vl53l5cx/centroid") (vl53l5cx_centroid x y d active)
      (x ∷ y ∷ d ∷ active ∷ [])
documented (vl53l5cx_presence present active nearest energy) =
    sensor (characters "/opendeck/sensors/vl53l5cx/presence")
      (vl53l5cx_presence present active nearest energy) (present ∷ active ∷ nearest ∷ energy ∷ [])

row-documented :
    (four : Bool) (r : ℕ) (d : List ℕ)
    → let zone : ℕ → Argument = λ i. osc_int32 (get_or d i 0) in
      ◌≡◌ {A = Option (Address × List Argument)}
        (some (
          indexed row_path r,
          if four
              then zone 0 ∷ zone 1 ∷ zone 2 ∷ zone 3 ∷ []
              else zone 0 ∷ zone 1 ∷ zone 2 ∷ zone 3 ∷ zone 4 ∷ zone 5 ∷ zone 6 ∷ zone 7 ∷ [],
        ))
        (some (
          indexed (characters "/opendeck/sensors/vl53l5cx/row") r,
          arguments (row_types four) (distances d),
        ))
unfolding arguments
row-documented true r d = refl
row-documented false r d = refl

row-types :
    (four : Bool) (d : List ℕ)
    → tags_of (arguments (row_types four) (distances d)) ≡ comma ∷ row_types four
unfolding arguments
row-types true d = refl
row-types false d = refl

pub sensor_message-documented : (p : SensorPayload) → sensor_message p ≡ documented p
unfolding sensor_message documented types arguments gesture_sent
sensor_message-documented (apds9960_proximity v) = refl
sensor_message-documented (apds9960_ambient_light v) = refl
sensor_message-documented (vl53l4cx_distance v) = refl
sensor_message-documented (vl53l4cx_distance_norm v) = refl
sensor_message-documented (cap1188_touch i v) = refl
sensor_message-documented (apds9960_rgb r g b) = refl
sensor_message-documented (bno085_quaternion r i j k) = refl
sensor_message-documented (bno085_euler y p r) = refl
sensor_message-documented (bno085_gyroscope x y z) = refl
sensor_message-documented (bno085_linear_acceleration x y z) = refl
sensor_message-documented (bno085_gravity x y z) = refl
sensor_message-documented (vl53l5cx_nearest d zone x y) = refl
sensor_message-documented (vl53l5cx_centroid x y d active) = refl
sensor_message-documented (vl53l5cx_presence present active nearest energy) = refl
sensor_message-documented (apds9960_gesture no_gesture) = refl
sensor_message-documented (apds9960_gesture gesture_up) = refl
sensor_message-documented (apds9960_gesture gesture_down) = refl
sensor_message-documented (apds9960_gesture gesture_left) = refl
sensor_message-documented (apds9960_gesture gesture_right) = refl
sensor_message-documented (vl53l5cx_row r width d) = row-documented (width == 4) r d

Tagged : Option (Address × List Argument) → List ℕ → Type 0
Tagged none t = Unit
Tagged (some (address, args)) t = tags_of args ≡ comma ∷ t

documented-Tagged : (p : SensorPayload) → Tagged (documented p) (types p)
unfolding documented types arguments gesture_sent Tagged
documented-Tagged (apds9960_proximity v) = refl
documented-Tagged (apds9960_ambient_light v) = refl
documented-Tagged (vl53l4cx_distance v) = refl
documented-Tagged (vl53l4cx_distance_norm v) = refl
documented-Tagged (cap1188_touch i v) = refl
documented-Tagged (apds9960_rgb r g b) = refl
documented-Tagged (bno085_quaternion r i j k) = refl
documented-Tagged (bno085_euler y p r) = refl
documented-Tagged (bno085_gyroscope x y z) = refl
documented-Tagged (bno085_linear_acceleration x y z) = refl
documented-Tagged (bno085_gravity x y z) = refl
documented-Tagged (vl53l5cx_nearest d zone x y) = refl
documented-Tagged (vl53l5cx_centroid x y d active) = refl
documented-Tagged (vl53l5cx_presence present active nearest energy) = refl
documented-Tagged (apds9960_gesture no_gesture) = tt
documented-Tagged (apds9960_gesture gesture_up) = refl
documented-Tagged (apds9960_gesture gesture_down) = refl
documented-Tagged (apds9960_gesture gesture_left) = refl
documented-Tagged (apds9960_gesture gesture_right) = refl
documented-Tagged (vl53l5cx_row r width d) = row-types (width == 4) d

-- The arguments have the documented types.
pub documented-types :
    (p : SensorPayload) (address : Address) (args : List Argument)
    → documented p ≡ some (address, args)
    → tags_of args ≡ comma ∷ types p
unfolding Tagged
documented-types p address args e = subst (λ m. Tagged m (types p)) e (documented-Tagged p)
