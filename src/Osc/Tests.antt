-- ===== src/Osc/Tests.antt =====
-- The packet theorems at concrete inputs, on a big-endian machine.
use open_deck.Prelude.{
  ℕ, ◌+◌, ◌-◌, ◌*◌, ◌≤◌, ◌≡◌, refl, true, Option, none, some, List, [], ◌∷◌, ◌++◌, arith, get_or,
  length, take, replicate, leb, leb→le,
}
use open_deck.Signaling.{OscIoSignal, SensorPayload, cap1188_touch, encoder, outward}
use open_deck.Osc.Packet.{
  Platform, IsDocumented, big_endian, Argument, osc_int32, osc_string, osc_float32, ArgumentKind,
  int32_kind, string_kind, Address, indexed, packet_buffer_size, max_argument_count,
}
use open_deck.Osc.Packet.Writer.{make_packet, add_decimal}
use open_deck.Osc.Packet.Reader.{OscMessageView, parse_message, arg, message_view}
use open_deck.Osc.Packet.Written.{written}
use open_deck.Osc.Packet.Decimal.{decimal, digits_from, IsNumeral, add_decimal-IsNumeral}
use open_deck.Osc.Packet.Encode.{address_text, message_bytes, make_packet-fits}
use open_deck.Osc.Packet.RoundTrip.{typed, parse_message-make_packet}
use open_deck.Osc.Packet.Safety.{parse_message-arg}
use open_deck.Osc.Paths.{characters, output_path, parse_indexed}
use open_deck.Osc.Signals.{make_io_packet}
use open_deck.Osc.Signals.Sources.{io_path, io_value}
use open_deck.Osc.Signals.Made.{is_text, text_of}
use open_deck.Osc.Signals.Received.{Received, make_io_packet-Received}

abbrev pub machine : Platform
machine = record {
  cpu_to_be32 = λ n. n;
  be32_to_cpu = λ n. n;
  decimal_base = 10;
  to_memory = big_endian;
  from_memory =
      λ b. get_or b 0 0 * 16777216 + get_or b 1 0 * 65536 + get_or b 2 0 * 256 + get_or b 3 0;
}

pub machine-IsDocumented : IsDocumented machine
machine-IsDocumented = (refl, λ n l. refl, λ n l. omega arith)

abbrev text : List ℕ
text = characters "hi"

abbrev args : List Argument
args = osc_int32 4294967295 ∷ osc_string text ∷ osc_float32 1065353216 ∷ []

abbrev place : Address
place = indexed output_path 12

add_decimal-IsNumeral_example :
    (ds : List ℕ) × IsNumeral ds 305
    × (add_decimal machine (written [] 8) 305 ≡ (true, written ([] ++ ds) (8 - length ds)))
unfolding decimal digits_from
add_decimal-IsNumeral_example = add_decimal-IsNumeral machine refl [] 8 305 (omega arith)

-- what `make_packet` makes of the message: 40 bytes
abbrev made : Option ℕ × List ℕ
made = make_packet machine place args

bytes_fit : leb (length (message_bytes place args)) packet_buffer_size ≡ true
unfolding decimal digits_from
bytes_fit = refl

make_packet-fits_example : make_packet machine place args ≡ (
  some (length (message_bytes place args)),
  message_bytes place args ++ replicate (packet_buffer_size - length (message_bytes place args)) 0,
)
make_packet-fits_example =
    make_packet-fits machine machine-IsDocumented place args (omega arith, (tt, (omega arith, tt)))
      (leb→le (length (message_bytes place args)) packet_buffer_size bytes_fit)

place_text : is_text (address_text place) ≡ true
unfolding decimal digits_from
place_text = refl

made_size : make_packet machine place args ≡ (some 40, made.1)
unfolding make_packet
made_size = refl

parse_message-make_packet_example :
    (view : OscMessageView) × (parse_message machine (take 40 made.1) ≡ some view)
    × (view.address ≡ address_text place)
    × (view.type_tags ≡ characters ",isf")
    × (view.arg_count ≡ 3)
    × (arg machine view 1 string_kind ≡ typed args 1 string_kind)
parse_message-make_packet_example =
    parse_message-make_packet machine machine-IsDocumented place args 40 made.1 1 string_kind
      (text_of (address_text place) place_text)
      (omega arith, (text_of text refl, (omega arith, tt))) (omega arith) made_size

-- a message of one integer, as it comes from a network
abbrev received : List ℕ
received = characters "/a" ++ 0 ∷ 0 ∷ characters ",i" ++ 0 ∷ 0 ∷ 1 ∷ 2 ∷ 3 ∷ 4 ∷ []

abbrev received_view : OscMessageView
received_view = record {
  packet = received;
  address = characters "/a";
  type_tags = characters ",i";
  arg_offsets = 8 ∷ replicate 7 0;
  arg_count = 1;
}

parsed : parse_message machine received ≡ some received_view
unfolding parse_message message_view
parsed = refl

parse_message-arg_example :
    (received_view.arg_count ≤ max_argument_count)
    × (kind : ArgumentKind) × (a : Argument) × (arg machine received_view 0 kind ≡ some a)
parse_message-arg_example = parse_message-arg machine received received_view 0 parsed (omega arith)

-- a tag that is not known, and an argument that is cut short
rejected :
    (parse_message machine (characters "/a" ++ 0 ∷ 0 ∷ characters ",b" ++ 0 ∷ 0 ∷ []) ≡ none)
    × (parse_message machine (take 11 received) ≡ none)
unfolding parse_message
rejected = (refl, refl)

-- On a 32-bit `size_t` an index wraps around.
index_wraps : parse_indexed 32 10 (output_path ++ characters "/4294967296") output_path ≡ some 0
unfolding parse_indexed
index_wraps = refl

abbrev touch : SensorPayload
touch = cap1188_touch 5 9

abbrev touch_address : Address
touch_address = indexed (characters "/opendeck/sensors/cap1188/touch") 5

abbrev turned : OscIoSignal
turned = record {
  source = encoder;
  component_index = 7;
  int32_value = some 127;
  float_value = none;
  direction = outward;
}

make_io_packet-Received_example :
    (size : ℕ) × (view : OscMessageView) × ((make_io_packet machine [] turned).0 ≡ some size)
    × (size ≤ packet_buffer_size)
    × (parse_message machine (take size (make_io_packet machine [] turned).1) ≡ some view)
    × (parse_indexed 32 10 view.address (characters "/opendeck/encoder") ≡ some 7)
    × (arg machine view 0 int32_kind ≡ some (osc_int32 127))
unfolding io_path io_value
make_io_packet-Received_example =
    make_io_packet-Received machine machine-IsDocumented 32 [] turned
      (characters "/opendeck/encoder") (omega arith) (omega arith) refl (omega arith)
