-- ===== src/Dfu/Parser.antt =====
-- `DfuStreamParser`: app/common/src/dfu/dfu_stream_parser/instance/impl/dfu_stream_parser.{h,cpp}.
-- A member function takes the parser, and returns its result beside the parser that it leaves; the
-- writer behind the reference is the field `writer`. A byte is a number below 256.
pub mod Runs
pub mod Payload
pub mod Stream
pub mod Prefix
pub mod Errors
pub mod Chunks
mod Tests
use Prim.Native.Nat.{bit_or}
use open_deck.Prelude.{
  ℕ, ◌+◌, ◌-◌, ◌*◌, ◌%◌, ◌^◌, Bool, true, false, not, List, [], ◌∷◌, ltb, ◌==◌, if◌then◌else◌, set,
}
use open_deck.Prelude.Bits.{shl32}
use open_deck.Dfu.Format.{
  Header, zero_header, StreamStatus, complete, incomplete, invalid, start_command, end_command,
  word_bytes, metadata_payload_bytes, expected_byte, header_valid,
}
use open_deck.Dfu.Backend.{Backend}

pub data ReceiveStage : Type 0 where
  start metadata payload end done count : ReceiveStage

pub record Parser (W : Type 0) : Type 0 where
  pub writer : W
  pub stage : ReceiveStage
  pub status : StreamStatus
  pub stage_bytes_received : ℕ
  pub received_format_version : ℕ
  pub received_uid : ℕ
  pub expected_size : ℕ
  pub bytes_written : ℕ
  pub header : Header
  pub writer_active : Bool

-- the initialisers of the members, which are also what `reset` writes
abbrev pub initial : {W : Type 0} → W → Parser W
initial w = record {
  writer = w;
  stage = start;
  status = incomplete;
  stage_bytes_received = 0;
  received_format_version = 0;
  received_uid = 0;
  expected_size = 0;
  bytes_written = 0;
  header = zero_header;
  writer_active = false;
}

pub reset : {W : Type 0} → Parser W → Parser W
reset p = record p {
  stage = start;
  status = incomplete;
  stage_bytes_received = 0;
  received_format_version = 0;
  received_uid = 0;
  expected_size = 0;
  bytes_written = 0;
  header = zero_header;
  writer_active = false;
}

-- `static_cast<ReceiveStage>(static_cast<uint8_t>(stage) + 1U)`; `advance_stage` never sees the
-- last two.
next_stage : ReceiveStage → ReceiveStage
next_stage start = metadata
next_stage metadata = payload
next_stage payload = end
next_stage end = done
next_stage done = count
next_stage count = count

module _ {W : Type 0} where
  -- `++_stage_bytes_received`, a `uint8_t`
  abbrev count_byte : Parser W → Parser W
  count_byte p = record p { stage_bytes_received = (p.stage_bytes_received + 1) % 256 }

  unfoldable pub process_start : Parser W → ℕ → StreamStatus × Parser W
  process_start p byte =
      let p₁ = record p { header = set p.header p.stage_bytes_received byte } in
      let p₂ = count_byte p₁ in
      if not (expected_byte start_command p.stage_bytes_received == byte)
      then (invalid, p₁)
      else (if p₂.stage_bytes_received == word_bytes then complete else incomplete, p₂)

  -- the three branches of `process_metadata` that gather a word
  pub gather_word : Parser W → ℕ → Parser W
  gather_word p byte =
      let n = p.stage_bytes_received in
      if ltb n word_bytes
      then record p {
        received_format_version = bit_or p.received_format_version (shl32 byte (8 * n));
      }
      else if ltb n (word_bytes * 2)
      then record p { received_uid = bit_or p.received_uid (shl32 byte (8 * (n - word_bytes))) }
      else record p {
        expected_size = bit_or p.expected_size (shl32 byte (8 * (n - word_bytes * 2)));
      }

  pub advance_stage : Parser W → StreamStatus × Parser W
  unfolding next_stage
  advance_stage p = elim p.stage [
    | end ↦ (complete, record p { stage = done; writer_active = false })
    | other ↦ (incomplete, record p { stage_bytes_received = 0; stage = next_stage other })
  ]

module _ (b : Backend) where
  open b use {State, begin, write, finish}

  unfoldable pub process_metadata : ℕ → Parser State → ℕ → StreamStatus × Parser State
  unfolding gather_word
  process_metadata target_uid p byte =
      let p₁ = record p { header = set p.header (word_bytes + p.stage_bytes_received) byte } in
      let p₂ = count_byte (gather_word p₁ byte) in
      if not (p₂.stage_bytes_received == metadata_payload_bytes)
      then (incomplete, p₂)
      else if not (header_valid target_uid p₂.header)
      then (invalid, p₂)
      else let (ok, w) = begin p₂.writer p₂.header p₂.expected_size in
        if ok
        then (complete, record p₂ { writer = w; writer_active = true })
        else (invalid, record p₂ { writer = w })

  unfoldable pub process_payload : Parser State → ℕ → StreamStatus × Parser State
  process_payload p byte =
      let (ok, w) = write p.writer (byte ∷ []) in
      let p₁ = record p { writer = w } in
      let p₂ = record p₁ { bytes_written = (p.bytes_written + 1) % 2 ^ 32 } in
      if not ok
      then (invalid, p₁)
      else (if p₂.bytes_written == p₂.expected_size then complete else incomplete, p₂)

  unfoldable pub process_end : Parser State → ℕ → StreamStatus × Parser State
  process_end p byte =
      let p₁ = count_byte p in
      let (ok, w) = finish p.writer in
      if not (expected_byte end_command p.stage_bytes_received == byte)
      then (invalid, p)
      else if p₁.stage_bytes_received == word_bytes
      then (if ok then complete else invalid, record p₁ { writer = w })
      else (incomplete, p₁)

  unfoldable pub process_current_stage : ℕ → Parser State → ℕ → StreamStatus × Parser State
  process_current_stage target_uid p byte = elim p.stage [
    | start ↦ process_start p byte
    | metadata ↦ process_metadata target_uid p byte
    | payload ↦ process_payload p byte
    | end ↦ process_end p byte
    | done ↦ (invalid, p)
    | count ↦ (invalid, p)
  ]

  pub reject : Parser State → Parser State
  unfolding reset
  reject p =
      let p₁ = if p.writer_active then record p { writer = b.abort p.writer } else p in
      record (reset p₁) { status = invalid }

  pub abort : Parser State → Parser State
  unfolding reset
  abort p = reset (record p { writer = b.abort p.writer })

  unfoldable pub supported : Parser State → Bool
  supported p = b.supported p.writer

  -- What `feed` does with the status of the stage.
  conclude : StreamStatus × Parser State → StreamStatus × Parser State
  unfolding advance_stage reject
  conclude (complete, p) =
      let (status, p') = advance_stage p in (status, record p' { status = status })
  conclude (incomplete, p) = (incomplete, record p { status = incomplete })
  conclude (invalid, p) = (invalid, reject p)

  -- `feed(uint8_t)`
  unfoldable pub feed : ℕ → Parser State → ℕ → StreamStatus × Parser State
  unfolding conclude process_current_stage reject
  feed target_uid p byte = elim p.status [
    | invalid ↦ (invalid, p)
    | _ ↦ elim p.stage [
      | done ↦ (invalid, reject p)
      | _ ↦ conclude (process_current_stage target_uid p byte)
    ]
  ]

  -- the loop of `feed(std::span)`, with its variable `status`
  unfoldable pub feed_loop : ℕ → StreamStatus → Parser State → List ℕ → StreamStatus × Parser State
  feed_loop target_uid status p [] = (status, p)
  feed_loop target_uid status p (byte ∷ bytes) =
      let (status', p') = feed target_uid p byte in
      elim status' [ invalid ↦ (invalid, p') | other ↦ feed_loop target_uid other p' bytes ]

  unfoldable pub feed_span : ℕ → Parser State → List ℕ → StreamStatus × Parser State
  unfolding feed_loop
  feed_span target_uid p bytes = feed_loop target_uid p.status p bytes
