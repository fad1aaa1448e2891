-- ===== src/Osc/Signals/Made.antt =====
-- Every mapped signal makes a packet that fits the buffer, and a receiver reads it back.
use native.Mathlib.Nat.{pow-suc}
use open_deck.Prelude.{
  ℕ, zero, suc, ◌+◌, ◌/◌, ◌%◌, ◌^◌, ◌≤◌, ◌<◌, ◌≡◌, refl, ap, Bool, true, Option, none, some, List,
  [], ◌∷◌, ◌++◌, length, All, All-append, ltb, leb, ◌&&◌, arith, length-append, length-map,
  lt_or_le, inl, inr, ◌==◌, if-both,
}
use open_deck.Signaling.{
  SignalDirection, IoEventSource, switch, analog, analog_switch, encoder, touchscreen_switch,
  output, no_gesture, gesture_up, gesture_down, gesture_left, gesture_right, SensorPayload,
  apds9960_proximity, apds9960_ambient_light, vl53l4cx_distance, vl53l4cx_distance_norm,
  cap1188_touch, apds9960_rgb, apds9960_gesture, bno085_quaternion, bno085_euler, bno085_gyroscope,
  bno085_linear_acceleration, bno085_gravity, vl53l5cx_row, vl53l5cx_nearest, vl53l5cx_centroid,
  vl53l5cx_presence,
}
use open_deck.Osc.Packet.{
  packet_buffer_size, max_argument_count, Argument, osc_int32, osc_string, osc_float32, kind_of,
  type_tag, Address, plain, indexed, slash,
}
use open_deck.Osc.Packet.Writer.{tags_of}
use open_deck.Osc.Packet.Written.{string_bytes, length-string_bytes}
use open_deck.Osc.Packet.Decimal.{
  digits_from, decimal, digits_from-small, digits_from-large, decimal-IsNumeral, IsDigit,
}
use open_deck.Osc.Packet.Encode.{address_text, argument_bytes, arguments_bytes, message_bytes}
use open_deck.Osc.Packet.Scan.{IsText}
use open_deck.Osc.Signals.{io_message, sensor_message}
use open_deck.Osc.Paths.{row_path}

length-digits_from :
    (depth k n : ℕ) → n < 10 ^ suc k → n < depth → length (digits_from depth n) ≤ suc k
length-digits_from zero k n l d = absurd (omega arith)
length-digits_from (suc depth) zero n l d =
    omega (arith, ap length (digits_from-small depth n (omega (arith, pow-suc 10 0))))
length-digits_from (suc depth) (suc k) n l d = elim (lt_or_le n 10) [
  | inl small ↦ omega (arith, ap length (digits_from-small depth n small))
  | inr large ↦ omega (
    arith,
    ap length (digits_from-large depth n large),
    length-append (digits_from depth (n / 10)) ((b'0' + n % 10) ∷ []),
    length-digits_from depth k (n / 10) (omega (arith, pow-suc 10 (suc k))) (omega arith),
  )
]

-- An index of 64 bits has at most 20 digits.
length-decimal : (n : ℕ) → n < 2 ^ 64 → length (decimal n) ≤ 20
unfolding decimal
length-decimal n l = length-digits_from (suc n) 19 n (omega arith) (omega arith)

-- the longest that an argument can be
abbrev pub weight : Argument → ℕ
weight (osc_int32 v) = 4
weight (osc_string s) = length s + 4
weight (osc_float32 v) = 4

abbrev pub weights : List Argument → ℕ
weights [] = 0
weights (a ∷ rest) = weight a + weights rest

length-argument_bytes : (a : Argument) (n : ℕ) → length (argument_bytes a n) ≤ weight a
length-argument_bytes (osc_int32 v) n = omega arith
length-argument_bytes (osc_string s) n = omega (arith, length-string_bytes s n)
length-argument_bytes (osc_float32 v) n = omega arith

length-arguments_bytes :
    (args : List Argument) (n : ℕ) → length (arguments_bytes args n) ≤ weights args
length-arguments_bytes [] n = omega arith
length-arguments_bytes (a ∷ rest) n =
    let m = n + length (argument_bytes a n) in
    omega (
      arith,
      length-append (argument_bytes a n) (arguments_bytes rest m),
      length-argument_bytes a n,
      length-arguments_bytes rest m,
    )

pub length-message_bytes :
    (address : Address) (args : List Argument)
    → length (message_bytes address args)
      ≤ length (address_text address) + length args + 9 + weights args
length-message_bytes address args =
    let text = address_text address in
    let a = string_bytes text 0 in
    let b = string_bytes (tags_of args) (0 + length a) in
    let n = 0 + length (a ++ b) in
    omega (
      arith,
      length-append (a ++ b) (arguments_bytes args n),
      length-append a b,
      length-string_bytes text 0,
      length-string_bytes (tags_of args) (0 + length a),
      length-map args (λ a. type_tag (kind_of a)),
      length-arguments_bytes args n,
    )

-- A message that fits the buffer and that the parser accepts.
pub record CanSend (address : Address) (args : List Argument) : Type 0 where
  pub fits : length (address_text address) + length args + 9 + weights args ≤ packet_buffer_size
  pub few : length args ≤ max_argument_count
  pub text : IsText (address_text address)

abbrev pub Sendable : Option (Address × List Argument) → Type 0
Sendable none = Unit
Sendable (some (address, args)) = CanSend address args

-- The index of a signal fits a `size_t` of at most 64 bits.
abbrev pub IndexFits : SensorPayload → Type 0
IndexFits (cap1188_touch i v) = i < 2 ^ 64
IndexFits (vl53l5cx_row r width d) = r < 2 ^ 64
IndexFits other = Unit

abbrev pub is_text : List ℕ → Bool
is_text [] = true
is_text (c ∷ s) = ltb 0 c && is_text s

pub text_of : (s : List ℕ) → is_text s ≡ true → IsText s
text_of [] e = tt
text_of (c ∷ s) e = (ground arith, text_of s (ground arith))

pub digits_text : (ds : List ℕ) → All IsDigit ds → IsText ds
digits_text [] d = tt
digits_text (c ∷ ds) (d, e) = (omega arith, digits_text ds e)

-- the checks of a path and its arguments, with the room that an index takes
abbrev is_small : ℕ → List ℕ → List Argument → Bool
is_small room path args =
    is_text path
    && leb (length path + length args + 9 + room + weights args) packet_buffer_size
    && leb (length args) max_argument_count

indexed-CanSend :
    {path : List ℕ} {args : List Argument} (i : ℕ)
    → i < 2 ^ 64
    → is_small 21 path args ≡ true
    → CanSend (indexed path i) args
indexed-CanSend {path = path} {args = args} i l e =
    let head = path ++ slash ∷ [] in
    let t : is_text path ≡ true = ground arith in
    record {
      fits = omega (
        arith,
        small-le 21 path args e,
        length-append head (decimal i),
        length-append path (slash ∷ []),
        length-decimal i l,
      );
      few = ground arith;
      text =
          All-append (λ c. 0 < c) head (decimal i)
            (All-append (λ c. 0 < c) path (slash ∷ []) (text_of path t) (omega arith, tt))
            (digits_text (decimal i) (decimal-IsNumeral i).digits);
    }
  where
    small-le :
        (room : ℕ) (path : List ℕ) (args : List Argument)
        → is_small room path args ≡ true
        → length path + length args + 9 + room + weights args ≤ packet_buffer_size
    small-le room path args e = ground arith

plain-CanSend :
    {path : List ℕ} {args : List Argument} → is_small 0 path args ≡ true → CanSend (plain path) args
plain-CanSend {path = path} {args = args} e =
    let t : is_text path ≡ true = ground arith in
    record { fits = ground arith; few = ground arith; text = text_of path t }

pub sensor_message-Sendable : (p : SensorPayload) → IndexFits p → Sendable (sensor_message p)
unfolding sensor_message
sensor_message-Sendable (apds9960_proximity v) f = plain-CanSend refl
sensor_message-Sendable (apds9960_ambient_light v) f = plain-CanSend refl
sensor_message-Sendable (vl53l4cx_distance v) f = plain-CanSend refl
sensor_message-Sendable (vl53l4cx_distance_norm v) f = plain-CanSend refl
sensor_message-Sendable (cap1188_touch i v) f = indexed-CanSend i f refl
sensor_message-Sendable (apds9960_rgb r g b) f = plain-CanSend refl
sensor_message-Sendable (apds9960_gesture no_gesture) f = tt
sensor_message-Sendable (apds9960_gesture gesture_up) f = plain-CanSend refl
sensor_message-Sendable (apds9960_gesture gesture_down) f = plain-CanSend refl
sensor_message-Sendable (apds9960_gesture gesture_left) f = plain-CanSend refl
sensor_message-Sendable (apds9960_gesture gesture_right) f = plain-CanSend refl
sensor_message-Sendable (bno085_quaternion r i j k) f = plain-CanSend refl
sensor_message-Sendable (bno085_euler y p r) f = plain-CanSend refl
sensor_message-Sendable (bno085_gyroscope x y z) f = plain-CanSend refl
sensor_message-Sendable (bno085_linear_acceleration x y z) f = plain-CanSend refl
sensor_message-Sendable (bno085_gravity x y z) f = plain-CanSend refl
sensor_message-Sendable (vl53l5cx_row r width d) f =
    if-both (λ args. Sendable (some (indexed row_path r, args))) (width == 4) _ _
      (indexed-CanSend r f refl) (indexed-CanSend r f refl)
sensor_message-Sendable (vl53l5cx_nearest d zone x y) f = plain-CanSend refl
sensor_message-Sendable (vl53l5cx_centroid x y d active) f = plain-CanSend refl
sensor_message-Sendable (vl53l5cx_presence p a n e) f = plain-CanSend refl

abbrev pub as_message : Option (List ℕ × Argument) → ℕ → Option (Address × List Argument)
as_message none i = none
as_message (some (path, a)) i = some (indexed path i, a ∷ [])

pub io_message-Sendable :
    (source : IoEventSource) (i : ℕ) (v f : Option ℕ) (d : SignalDirection)
    → i < 2 ^ 64
    → Sendable (
        as_message
          (io_message (record {
            source = source;
            component_index = i;
            int32_value = v;
            float_value = f;
            direction = d;
          }))
          i)
unfolding io_message
io_message-Sendable switch i v f d l = indexed-CanSend i l refl
io_message-Sendable touchscreen_switch i v f d l = indexed-CanSend i l refl
io_message-Sendable encoder i v f d l = indexed-CanSend i l refl
io_message-Sendable analog i v none d l = indexed-CanSend i l refl
io_message-Sendable analog i v (some f) d l = indexed-CanSend i l refl
io_message-Sendable analog_switch i v f d l = tt
io_message-Sendable output i v f d l = tt
