-- ===== src/Dfu/Upload.antt =====
-- The command frames of a firmware upload: app/common/src/dfu/upload/shared/common.h and
-- app/common/src/dfu/upload/instance/impl/upload.{h,cpp}. A `std::span` is the list of its bytes.
pub mod Session
pub mod Frames
pub mod Acks
mod Tests
use Prim.Native.Nat.{bit_and}
use open_deck.Prelude.{
  ℕ, zero, suc, ◌+◌, ◌*◌, ◌<◌, ◌≡◌, Bool, true, false, not, ◌||◌, List, [], ◌∷◌, Option, none, some,
  length, ltb, leb, ◌==◌, if◌then◌else◌, get_or, take, drop,
}
use open_deck.Prelude.Bits.{shr}
use open_deck.Dfu.Format.{StreamStatus}
use open_deck.Dfu.Backend.{Backend}
use open_deck.Dfu.Parser
use open_deck.Dfu.Parser.{Parser}

-- `sys_get_le16` and `sys_get_le32` of Zephyr, on the bytes that they read.
pub record ByteOrder : Type 0 where
  pub get_le16 : ℕ → ℕ → ℕ
  pub get_le32 : ℕ → ℕ → ℕ → ℕ → ℕ

-- Zephyr documents both as reading the least significant byte first.
pub record IsLittleEndian (o : ByteOrder) : Type 0 where
  pub le16 : (x y : ℕ) → x < 256 → y < 256 → o.get_le16 x y ≡ x + y * 256
  pub le32 :
      (x y z t : ℕ)
      → x < 256
      → y < 256
      → z < 256
      → t < 256
      → o.get_le32 x y z t ≡ x + y * 256 + z * 65536 + t * 16777216

abbrev pub command_frame_size : ℕ
command_frame_size = 1

-- `CHUNK_SIZE`, which is `staged_update::HEADER_STORAGE_SIZE`
abbrev pub chunk_size : ℕ
chunk_size = 2048

abbrev pub chunk_frame_overhead : ℕ
chunk_frame_overhead = 3

-- `enum class Command : uint8_t`; `other` is a byte that is none of its enumerators.
pub data Command : Type 0 where
  begin chunk finish abort : Command
  other : ℕ → Command

-- `static_cast<Command>`
unfoldable pub to_command : ℕ → Command
to_command x =
    if x == 0x01
    then begin
    else if x == 0x02
    then chunk
    else if x == 0x03
    then finish
    else if x == 0x04
    then abort
    else other x

unfoldable pub from_command : Command → ℕ
from_command begin = 0x01
from_command chunk = 0x02
from_command finish = 0x03
from_command abort = 0x04
from_command (other x) = x

-- `enum class Status : uint8_t`
pub data Status : Type 0 where
  ok failed unsupported bad_request : Status
  unknown : ℕ → Status

unfoldable pub to_status : ℕ → Status
to_status x =
    if x == 0x00
    then ok
    else if x == 0x01
    then failed
    else if x == 0x02
    then unsupported
    else if x == 0x03
    then bad_request
    else unknown x

unfoldable pub from_status : Status → ℕ
from_status ok = 0x00
from_status failed = 0x01
from_status unsupported = 0x02
from_status bad_request = 0x03
from_status (unknown x) = x

-- `Response::Ack`
abbrev pub response_ack : ℕ
response_ack = 0x81

-- `response` is the byte of a `Response`.
pub record Ack : Type 0 where
  pub response : ℕ
  pub command : Command
  pub status : Status
  pub bytes_written : ℕ

pub record CommandResult : Type 0 where
  pub response : Ack
  pub finished : Bool

pub record Frame : Type 0 where
  pub command : Command
  pub payload : List ℕ
  pub size : ℕ
  pub is_complete : Bool

unfoldable pub make_ack : Command → Status → ℕ → Ack
make_ack command status bytes_written = record {
  response = response_ack;
  command = command;
  status = status;
  bytes_written = bytes_written;
}

unfoldable pub ack_to_bytes : Ack → List ℕ
unfolding from_command from_status
ack_to_bytes ack =
    ack.response
    ∷ from_command ack.command
    ∷ from_status ack.status
    ∷ bit_and (shr ack.bytes_written (0 * 8)) 0xff
    ∷ bit_and (shr ack.bytes_written (1 * 8)) 0xff
    ∷ bit_and (shr ack.bytes_written (2 * 8)) 0xff
    ∷ bit_and (shr ack.bytes_written (3 * 8)) 0xff
    ∷ []

-- `sizeof(Ack)` is 7, by the static assertion.
unfoldable pub ack_from_bytes : ByteOrder → List ℕ → Option Ack
unfolding to_command to_status
ack_from_bytes o bytes =
    if not (length bytes == 7)
    then none
    else some (record {
      response = get_or bytes 0 0;
      command = to_command (get_or bytes 1 0);
      status = to_status (get_or bytes 2 0);
      bytes_written =
          o.get_le32 (get_or bytes 3 0) (get_or bytes 4 0) (get_or bytes 5 0) (get_or bytes 6 0);
    })

abbrev pub chunk_frame_size : ℕ → ℕ
chunk_frame_size payload_size = chunk_frame_overhead + payload_size

-- the case `Command::Chunk` of `frame_info`
unfoldable pub chunk_info : ByteOrder → List ℕ → Option Frame
chunk_info o bytes =
    let payload_size = o.get_le16 (get_or bytes 1 0) (get_or bytes 2 0) in
    let total_size = chunk_frame_size payload_size in
    let whole = leb total_size (length bytes) in
    if ltb (length bytes) chunk_frame_overhead
    then some
        (record { command = chunk; payload = []; size = chunk_frame_overhead; is_complete = false })
    else if ltb chunk_size payload_size
    then none
    else some (record {
      command = chunk;
      payload = if whole then take payload_size (drop chunk_frame_overhead bytes) else [];
      size = total_size;
      is_complete = whole;
    })

unfoldable pub frame_info : ByteOrder → List ℕ → Option Frame
unfolding to_command chunk_info
frame_info o [] = none
frame_info o (c ∷ rest) = elim (to_command c) [
  | chunk ↦ chunk_info o (c ∷ rest)
  | other _ ↦ none
  | command ↦
      some
        (record { command = command; payload = []; size = command_frame_size; is_complete = true })
]

-- `Upload` has one member, its stream parser.
module _ (b : Backend) (uid : ℕ) where
  open b use {State}

  abbrev pub Upload : Type 0
  Upload = Parser State

  unfoldable pub result : Upload → Command → Status → Bool → CommandResult
  unfolding make_ack
  result u command status finished = record {
    response = make_ack command status u.bytes_written;
    finished = finished;
  }

  unfoldable pub handle_begin : Upload → CommandResult × Upload
  unfolding result
  handle_begin u =
      let u' = Parser.abort b u in
      if not (Parser.supported b u)
      then (result u begin unsupported false, u)
      else (result u' begin ok false, u')

  unfoldable pub handle_chunk : Upload → Frame → CommandResult × Upload
  unfolding result
  handle_chunk u frame =
      let (status, u') = Parser.feed_span b uid u frame.payload in
      elim frame.payload [
        | [] ↦ (result u chunk bad_request false, u)
        | _ ∷ _ ↦
            (result u' chunk (elim status [ StreamStatus.invalid ↦ failed | _ ↦ ok ]) false, u')
      ]

  unfoldable pub handle_finish : Upload → CommandResult × Upload
  unfolding result
  handle_finish u = elim u.status [
    | StreamStatus.complete ↦ (result u finish ok true, u)
    | _ ↦ (result u finish failed false, Parser.abort b u)
  ]

  unfoldable pub handle_abort : Upload → CommandResult × Upload
  unfolding result
  handle_abort u = let u' = Parser.abort b u in (result u' abort ok false, u')

  abbrev answered : CommandResult × Upload → Option CommandResult × Upload
  answered (r, u) = (some r, u)

  -- the switch of `handle`, on `size` bytes
  unfoldable pub handle_frame : Upload → ℕ → Frame → Option CommandResult × Upload
  unfolding result handle_begin handle_chunk handle_finish handle_abort
  handle_frame u size frame =
      let bad = not frame.is_complete || not (frame.size == size) in
      let refused : Command → Option CommandResult × Upload =
        λ c. (some (result u c bad_request false), u) in
      elim frame.command [
        | begin ↦ if bad then refused begin else answered (handle_begin u)
        | chunk ↦ if bad then refused chunk else answered (handle_chunk u frame)
        | finish ↦ if bad then refused finish else answered (handle_finish u)
        | abort ↦ if bad then refused abort else answered (handle_abort u)
        | other _ ↦ (none, u)
      ]

  unfoldable pub handle : ByteOrder → Upload → List ℕ → Option CommandResult × Upload
  unfolding frame_info handle_frame
  handle o u bytes = elim (frame_info o bytes) [
    | none ↦ (none, u)
    | some frame ↦ handle_frame u (length bytes) frame
  ]
