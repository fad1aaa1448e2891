-- ===== src/Osc/Packet.antt =====
-- OSC packets: app/firmware/src/protocol/osc/shared/packet.h, and what packet/packet.cpp takes from
-- outside the repository: the byte order functions of Zephyr and the decimal base of zlibs. A byte
-- and a character are numbers below 256, a string view is the list of its characters, and an int32
-- or a float is its pattern of 32 bits, a number below 2 ^ 32.
pub mod Writer
pub mod Reader
pub mod Written
pub mod Decimal
pub mod Encode
pub mod Scan
pub mod Parse
pub mod RoundTrip
pub mod Safety
use open_deck.Prelude.{
  ℕ, zero, suc, ◌+◌, ◌-◌, ◌*◌, ◌/◌, ◌%◌, ◌^◌, ◌<◌, ◌≡◌, List, [], ◌∷◌, length, get_or, set,
  AreBytes,
}

abbrev pub packet_buffer_size : ℕ
packet_buffer_size = 192

abbrev pub max_argument_count : ℕ
max_argument_count = 8

-- `OscInt32`, `OscString` and `OscFloat32`
pub data Argument : Type 0 where
  osc_int32 : ℕ → Argument
  osc_string : List ℕ → Argument
  osc_float32 : ℕ → Argument

pub data ArgumentKind : Type 0 where
  int32_kind string_kind float32_kind : ArgumentKind

abbrev pub kind_of : Argument → ArgumentKind
kind_of (osc_int32 v) = int32_kind
kind_of (osc_string s) = string_kind
kind_of (osc_float32 v) = float32_kind

-- `TYPE_TAG`: the characters `i`, `s` and `f`
abbrev pub type_tag : ArgumentKind → ℕ
type_tag int32_kind = 105
type_tag string_kind = 115
type_tag float32_kind = 102

-- the characters `,`, `/` and `0`
abbrev pub comma : ℕ
comma = 44

abbrev pub slash : ℕ
slash = 47

abbrev pub digit_zero : ℕ
digit_zero = 48

-- `std::string_view` and `OscIndexedAddress`, the two that `add_address` takes
pub data Address : Type 0 where
  plain : List ℕ → Address
  indexed : List ℕ → ℕ → Address

-- the alignment of strings and payload fields
abbrev pub alignment : ℕ
alignment = 4

-- `sizeof(uint32_t)`
abbrev pub word_size : ℕ
word_size = 4

-- What the packets take from Zephyr, from zlibs and from the machine: `sys_cpu_to_be32` and
-- `sys_be32_to_cpu` of zephyr/sys/byteorder.h, `DECIMAL_BASE` of zlibs/utils/misc/numeric.h, and how
-- a `uint32_t` lies in memory, which `memcpy` copies to and from a packet.
pub record Platform : Type 0 where
  pub cpu_to_be32 : ℕ → ℕ
  pub be32_to_cpu : ℕ → ℕ
  pub decimal_base : ℕ
  pub to_memory : ℕ → List ℕ
  pub from_memory : List ℕ → ℕ

-- The big-endian bytes of a word.
abbrev pub big_endian : ℕ → List ℕ
big_endian n = n / 16777216 % 256 ∷ n / 65536 % 256 ∷ n / 256 % 256 ∷ n % 256 ∷ []

-- What is documented: the base, and that a converted word lies in memory in big-endian order.
abbrev pub IsDocumented : Platform → Type 0
IsDocumented h =
    (h.decimal_base ≡ 10)
    × ((n : ℕ) → n < 2 ^ 32 → h.to_memory (h.cpu_to_be32 n) ≡ big_endian n)
    × ((n : ℕ) → n < 2 ^ 32 → h.be32_to_cpu (h.from_memory (big_endian n)) ≡ n)

-- `memcpy` to an offset of a buffer
abbrev pub copy_to : List ℕ → ℕ → List ℕ → List ℕ
copy_to buffer offset [] = buffer
copy_to buffer offset (x ∷ xs) = copy_to (set buffer offset x) (suc offset) xs
