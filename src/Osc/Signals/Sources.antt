-- ===== src/Osc/Signals/Sources.antt =====
-- The messages of IO signals as they are documented to receivers: the addresses as the comments of
-- the sketches under examples/osc/processing list them, and the fields of `OscIoSignal` in
-- app/firmware/src/signaling/signaling.h. They are written without the paths and the functions of
-- `make_packet`.
use open_deck.Prelude.{
  ℕ, ◌≡◌, Bool, true, false, Option, none, some, List, ◌==◌, if◌then◌else◌, arith,
}
use open_deck.Signaling.{
  IoEventSource, SignalDirection, switch, analog, analog_switch, encoder, touchscreen_switch,
  output, OscIoSignal,
}
use open_deck.Osc.Packet.{Argument, osc_int32, osc_float32}
use open_deck.Osc.Paths.{characters}
use open_deck.Osc.Signals.{io_message}

-- whether a switch, of any sort, sends the signal
abbrev is_switch : IoEventSource → Bool
is_switch switch = true
is_switch touchscreen_switch = true
is_switch _ = false

-- the path of a source, in front of the index; the other sources send nothing
unfoldable pub io_path : IoEventSource → Option (List ℕ)
io_path switch = some (characters "/opendeck/switch")
io_path touchscreen_switch = some (characters "/opendeck/switch")
io_path encoder = some (characters "/opendeck/encoder")
io_path analog = some (characters "/opendeck/analog")
io_path analog_switch = none
io_path output = none

-- A reading that is missing counts as 0.
abbrev reading : OscIoSignal → ℕ
reading s = elim s.int32_value [ none ↦ 0 | some v ↦ v ]

-- The value sent: 1 or 0 for a switch, the float of an analog input where there is one, and the
-- reading otherwise.
abbrev analog_value : Option ℕ → ℕ → Argument
analog_value (some f) v = osc_float32 f
analog_value none v = osc_int32 v

unfoldable pub io_value : OscIoSignal → Argument
io_value s =
    if is_switch s.source then osc_int32 (if reading s == 0 then 0 else 1) else elim s.source [
      | analog ↦ analog_value s.float_value (reading s)
      | _ ↦ osc_int32 (reading s)
    ]

some-path :
    (p path : List ℕ) (a : Argument)
    → some p ≡ some path
    → ◌≡◌ {A = Option (List ℕ × Argument)} (some (p, a)) (some (path, a))
some-path p path a e = ground arith

io_fields-message :
    (source : IoEventSource) (i : ℕ) (v f : Option ℕ) (d : SignalDirection) (path : List ℕ)
    → io_path source ≡ some path
    → let s : OscIoSignal = record {
      source = source;
      component_index = i;
      int32_value = v;
      float_value = f;
      direction = d;
    } in
      io_message s ≡ some (path, io_value s)
unfolding io_message io_path io_value
io_fields-message switch i none f d path e = some-path _ path _ e
io_fields-message switch i (some v) f d path e = some-path _ path _ e
io_fields-message touchscreen_switch i none f d path e = some-path _ path _ e
io_fields-message touchscreen_switch i (some v) f d path e = some-path _ path _ e
io_fields-message encoder i none f d path e = some-path _ path _ e
io_fields-message encoder i (some v) f d path e = some-path _ path _ e
io_fields-message analog i none none d path e = some-path _ path _ e
io_fields-message analog i (some v) none d path e = some-path _ path _ e
io_fields-message analog i v (some f) d path e = some-path _ path _ e
io_fields-message analog_switch i v f d path e = absurd (cc e)
io_fields-message output i v f d path e = absurd (cc e)

pub io_message-io_value :
    (s : OscIoSignal) (path : List ℕ)
    → io_path s.source ≡ some path
    → io_message s ≡ some (path, io_value s)
io_message-io_value s path e =
    io_fields-message s.source s.component_index s.int32_value s.float_value s.direction path e
