-- ===== src/Dfu/Format.antt =====
-- The dfu.bin stream format: app/common/src/dfu/dfu_stream_parser/shared/common.h and the static
-- functions of dfu_stream_parser.cpp. The magic numbers are those of
-- app/common/src/metadata/CMakeLists.txt; the target UID is made by the build, a parameter.
pub mod Words
use Prim.Native.Nat.{bit_and, bit_or}
use open_deck.Prelude.{
  ℕ, zero, suc, ◌+◌, ◌*◌, Bool, ◌&&◌, List, ltb, ◌==◌, get_or, [], ◌∷◌, ◌++◌, length, ◌/◌, ◌%◌,
}
use open_deck.Prelude.Bits.{shl32, shr}

abbrev pub start_command : ℕ
start_command = 0x5546444F

abbrev pub end_command : ℕ
end_command = 0x4546444F

abbrev pub format_version : ℕ
format_version = 1

abbrev pub word_bytes : ℕ
word_bytes = 4

abbrev pub metadata_payload_bytes : ℕ
metadata_payload_bytes = 12

-- `std::array<uint8_t, HEADER_SIZE>`, 16 bytes
abbrev pub Header : Type 0
Header = List ℕ

-- `Header{}` and `_header.fill(0)`
abbrev pub zero_header : Header
zero_header = 0 ∷ 0 ∷ 0 ∷ 0 ∷ 0 ∷ 0 ∷ 0 ∷ 0 ∷ 0 ∷ 0 ∷ 0 ∷ 0 ∷ 0 ∷ 0 ∷ 0 ∷ 0 ∷ []

pub data StreamStatus : Type 0 where
  complete incomplete invalid : StreamStatus

unfoldable pub expected_byte : ℕ → ℕ → ℕ
expected_byte value byte_index = bit_and (shr value (byte_index * 8)) 0xff

-- the loop of `read_word`, with the rounds left, `i` and `value`
unfoldable pub read_bytes : Header → ℕ → ℕ → ℕ → ℕ → ℕ
read_bytes header offset zero i value = value
read_bytes header offset (suc rounds) i value =
    read_bytes header offset rounds (i + 1)
      (bit_or value (shl32 (get_or header (offset + i) 0) (i * 8)))

unfoldable pub read_word : Header → ℕ → ℕ
unfolding read_bytes
read_word header word_index = read_bytes header (word_index * word_bytes) word_bytes 0 0

unfoldable pub payload_size : Header → ℕ
unfolding read_word
payload_size header = read_word header 3

unfoldable pub header_valid : ℕ → Header → Bool
unfolding read_word payload_size
header_valid target_uid header =
    read_word header 0 == start_command
    && read_word header 1 == format_version
    && read_word header 2 == target_uid
    && ltb 0 (payload_size header)

-- A description of the format: little-endian words, and the whole stream of a payload.
abbrev pub word : ℕ → List ℕ
word n = n % 256 ∷ n / 256 % 256 ∷ n / 65536 % 256 ∷ n / 16777216 % 256 ∷ []

abbrev pub header_of : ℕ → ℕ → Header
header_of target_uid size =
    word start_command ++ word format_version ++ word target_uid ++ word size

abbrev pub stream : ℕ → List ℕ → List ℕ
stream target_uid payload = header_of target_uid (length payload) ++ payload ++ word end_command
