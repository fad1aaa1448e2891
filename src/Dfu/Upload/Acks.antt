-- ===== src/Dfu/Upload/Acks.antt =====
-- The encoding of acknowledgements, and what `Upload::handle` answers to a bad frame.
use Prim.Native.Nat.{bit_and}
use open_deck.Prelude.{ℕ, ◌%◌, ◌^◌, ◌<◌, ◌≤◌, ◌≡◌, ◌⊎◌, refl, List, [], ◌∷◌, some, arith, AreBytes}
use open_deck.Prelude.Bits.{shr, bit_and_0xff}
use open_deck.Dfu.Upload.{
  other, unknown, ByteOrder, IsLittleEndian, Command, Status, Ack, to_command, from_command,
  to_status, from_status, ack_to_bytes, ack_from_bytes,
}

-- The byte of an enumerator is cast back to it, and every byte is the byte of what it is cast to.
to_command-from_command : (x : ℕ) → from_command (to_command x) ≡ x
unfolding to_command from_command
to_command-from_command x = ground arith

to_status-from_status : (x : ℕ) → from_status (to_status x) ≡ x
unfolding to_status from_status
to_status-from_status x = ground arith

-- the four bytes of a counter, read back
le32_bytes :
    (o : ByteOrder) (n : ℕ)
    → IsLittleEndian o
    → n < 2 ^ 32
    → o.get_le32
        (bit_and (shr n 0) 255)
        (bit_and (shr n 8) 255)
        (bit_and (shr n 16) 255)
        (bit_and (shr n 24) 255)
      ≡ n
le32_bytes o n le h =
    rw
      (
        bit_and_0xff (shr n 0),
        bit_and_0xff (shr n 8),
        bit_and_0xff (shr n 16),
        bit_and_0xff (shr n 24),
      )
      (omega (
        arith,
        le.le32 (shr n 0 % 256) (shr n 8 % 256) (shr n 16 % 256) (shr n 24 % 256) (omega arith)
            (omega arith) (omega arith) (omega arith),
      ))

-- an enumerator, or a byte that is none: the enumerators are the bytes from 1 to 4
abbrev pub IsCommand : Command → Type 0
IsCommand (other x) = (x ≡ 0) ⊎ (5 ≤ x)
IsCommand _ = Unit

-- the same for a status, with the bytes from 0 to 3
abbrev pub IsStatus : Status → Type 0
IsStatus (unknown x) = 4 ≤ x
IsStatus _ = Unit

from_command-to_command : (c : Command) → IsCommand c → to_command (from_command c) ≡ c
unfolding to_command from_command
from_command-to_command Command.begin h = refl
from_command-to_command Command.chunk h = refl
from_command-to_command Command.finish h = refl
from_command-to_command Command.abort h = refl
from_command-to_command (other x) h = ground arith

from_status-to_status : (s : Status) → IsStatus s → to_status (from_status s) ≡ s
unfolding to_status from_status
from_status-to_status Status.ok h = refl
from_status-to_status Status.failed h = refl
from_status-to_status Status.unsupported h = refl
from_status-to_status Status.bad_request h = refl
from_status-to_status (unknown x) h = ground arith

-- Decoding an encoded acknowledgement gives it back, for a counter of 32 bits, any enumerator or a
-- byte that is none as its command, and the same as its status (where the reads are little-endian).
pub ack_from_bytes-ack_to_bytes :
    (o : ByteOrder) (ack : Ack)
    → IsLittleEndian o
    → IsCommand ack.command
    → IsStatus ack.status
    → ack.bytes_written < 2 ^ 32
    → ack_from_bytes o (ack_to_bytes ack) ≡ some ack
unfolding ack_from_bytes ack_to_bytes
ack_from_bytes-ack_to_bytes o ack le c s h = λ i. some (record {
  response = ack.response;
  command = from_command-to_command ack.command c i;
  status = from_status-to_status ack.status s i;
  bytes_written = le32_bytes o ack.bytes_written le h i;
})

-- Bytes that decode to an acknowledgement are its encoding (where the reads are little-endian).
pub ack_to_bytes-ack_from_bytes :
    (o : ByteOrder) (bytes : List ℕ) {ack : Ack}
    → IsLittleEndian o
    → AreBytes bytes
    → ack_from_bytes o bytes ≡ some ack
    → ack_to_bytes ack ≡ bytes
unfolding ack_from_bytes ack_to_bytes
ack_to_bytes-ack_from_bytes o (a ∷ b ∷ c ∷ d ∷ e ∷ f ∷ g ∷ []) {ack} le are h = ground (
  arith,
  to_command-from_command b,
  to_status-from_status c,
  le.le32 d e f g,
  bit_and_0xff (shr ack.bytes_written 0),
  bit_and_0xff (shr ack.bytes_written 8),
  bit_and_0xff (shr ack.bytes_written 16),
  bit_and_0xff (shr ack.bytes_written 24),
)
ack_to_bytes-ack_from_bytes o l le are h = ground arith
