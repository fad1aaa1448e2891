-- ===== src/Osc/Paths.antt =====
-- OSC addresses: app/firmware/src/protocol/osc/shared/paths.h. `StringLiteral` and `string_join` of
-- zlibs make the paths of literals at compile time: a path is the list of its characters.
pub mod Index
use Prim.Native.Char.{code}
use Prim.Native.String.{String, [] as nil, ◌∷◌ as ◌::◌}
use open_deck.Prelude.{
  ℕ, ◌+◌, ◌-◌, ◌*◌, ◌%◌, ◌^◌, Bool, true, false, not, ◌&&◌, ◌||◌, Option, none, some, List, [], ◌∷◌,
  ◌++◌, ltb, leb, ◌==◌, if◌then◌else◌, length, get_or, take, drop,
}
use open_deck.Osc.Packet.{slash}

abbrev pub characters : String → List ℕ
characters nil = []
characters (c :: s) = code c ∷ characters s

abbrev pub root : List ℕ
root = characters "/opendeck"

abbrev pub sensors : List ℕ
sensors = root ++ characters "/sensors"

abbrev pub switch_path : List ℕ
switch_path = root ++ characters "/switch"

abbrev pub encoder_path : List ℕ
encoder_path = root ++ characters "/encoder"

abbrev pub analog_path : List ℕ
analog_path = root ++ characters "/analog"

abbrev pub output_path : List ℕ
output_path = root ++ characters "/output"

abbrev pub refresh_path : List ℕ
refresh_path = root ++ characters "/refresh"

abbrev pub discovery_path : List ℕ
discovery_path = root ++ characters "/discover"

abbrev pub device_path : List ℕ
device_path = root ++ characters "/device"

abbrev apds9960 : List ℕ
apds9960 = sensors ++ characters "/apds9960"

abbrev bno085 : List ℕ
bno085 = sensors ++ characters "/bno085"

abbrev vl53l4cx : List ℕ
vl53l4cx = sensors ++ characters "/vl53l4cx"

abbrev vl53l5cx : List ℕ
vl53l5cx = sensors ++ characters "/vl53l5cx"

abbrev pub proximity_path : List ℕ
proximity_path = apds9960 ++ characters "/proximity"

abbrev pub ambient_light_path : List ℕ
ambient_light_path = apds9960 ++ characters "/ambient_light"

abbrev pub rgb_path : List ℕ
rgb_path = apds9960 ++ characters "/rgb"

abbrev pub gesture_path : List ℕ
gesture_path = apds9960 ++ characters "/gesture"

abbrev pub quaternion_path : List ℕ
quaternion_path = bno085 ++ characters "/quaternion"

abbrev pub euler_path : List ℕ
euler_path = bno085 ++ characters "/euler"

abbrev pub gyroscope_path : List ℕ
gyroscope_path = bno085 ++ characters "/gyro"

abbrev pub linear_accel_path : List ℕ
linear_accel_path = bno085 ++ characters "/linear_accel"

abbrev pub gravity_path : List ℕ
gravity_path = bno085 ++ characters "/gravity"

abbrev pub touch_path : List ℕ
touch_path = (sensors ++ characters "/cap1188") ++ characters "/touch"

abbrev pub distance_path : List ℕ
distance_path = vl53l4cx ++ characters "/distance"

abbrev pub distance_norm_path : List ℕ
distance_norm_path = vl53l4cx ++ characters "/distance_norm"

abbrev pub row_path : List ℕ
row_path = vl53l5cx ++ characters "/row"

abbrev pub nearest_path : List ℕ
nearest_path = vl53l5cx ++ characters "/nearest"

abbrev pub centroid_path : List ℕ
centroid_path = vl53l5cx ++ characters "/centroid"

abbrev pub presence_path : List ℕ
presence_path = vl53l5cx ++ characters "/presence"

-- `==` of two string views
abbrev pub same_text : List ℕ → List ℕ → Bool
same_text [] [] = true
same_text [] (d ∷ t) = false
same_text (c ∷ s) [] = false
same_text (c ∷ s) (d ∷ t) = c == d && same_text s t

-- `parse_indexed`, with the width of `size_t` and the `DECIMAL_BASE` of zlibs
module _ (size_bits base : ℕ) where
  -- its loop over the characters that are left
  unfoldable pub parse_digits : ℕ → List ℕ → Option ℕ
  parse_digits index [] = some index
  parse_digits index (c ∷ rest) =
      let next = parse_digits ((index * base + (c - b'0')) % 2 ^ size_bits) rest in
      if ltb c b'0' || ltb b'9' c then none else next

  unfoldable pub parse_indexed : List ℕ → List ℕ → Option ℕ
  unfolding parse_digits
  parse_indexed address prefix =
      if leb (length address) (length prefix + 1)
        || not (same_text (take (length prefix) address) prefix)
        || not (get_or address (length prefix) 0 == slash)
      then none
      else parse_digits 0 (drop (length prefix + 1) address)
