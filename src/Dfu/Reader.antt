-- ===== src/Dfu/Reader.antt =====
-- `StagedUpdateReader`:
-- app/bootloader/src/dfu/staged_update_reader/instance/impl/staged_update_reader.cpp. The staged area
-- is a flash area with a call that clears the marker; the writer is any `DfuWriter`. A call returns
-- its result beside the area and the writer that it leaves.
pub mod Cases
pub mod Applied
mod Tests
use open_deck.Prelude.{
  ℕ, zero, suc, ◌+◌, ◌-◌, ◌%◌, ◌^◌, Bool, true, false, not, Option, none, some, List, ltb,
  if◌then◌else◌, min,
}
use open_deck.Dfu.Format.{Header, header_valid, payload_size}
use open_deck.Dfu.Backend.{Backend}
use open_deck.Dfu.Flash.{Hwa}
use open_deck.Dfu.Writer.{header_storage_size}

-- `BUFFER_SIZE`
abbrev pub buffer_size : ℕ
buffer_size = 256

-- `HEADER_SIZE`, the length of a `Header`
abbrev pub header_size : ℕ
header_size = 16

-- The offset of a piece in the staged area, on `uint32_t`.
abbrev pub piece_start : ℕ → ℕ
piece_start offset = (header_storage_size + offset) % 2 ^ 32

-- How the loop over the payload ends.
pub data Copied : Type 0 where
  copied unread rejected : Copied

module _ (r : Hwa) (clear_pending : r.Flash → Bool × r.Flash) (b : Backend) (uid : ℕ) where
  open r use {Flash}
  open b use {State}

  -- the loop, with the rounds left; a round copies at least one byte
  unfoldable pub copy_payload : ℕ → ℕ → ℕ → Flash → State → Copied × State
  copy_payload zero size offset area w = (copied, w)
  copy_payload (suc rounds) size offset area w = elim (ltb offset size) [
    | false ↦ (copied, w)
    | true ↦ elim (r.read area (piece_start offset) (min buffer_size (size - offset))) [
      | none ↦ (unread, w)
      | some bytes ↦
          let (written, w') = b.write w bytes in
          elim written [
            | true ↦ copy_payload rounds size (offset + min buffer_size (size - offset)) area w'
            | false ↦ (rejected, w')
          ]
    ]
  ]

  -- what follows the loop
  unfoldable pub conclude_copy : Flash → Copied × State → Bool × Flash × State
  conclude_copy area (unread, w) = let (_, area') = clear_pending area in (true, area', w)
  conclude_copy area (rejected, w) =
      let (_, area') = clear_pending area in (false, area', b.abort w)
  conclude_copy area (copied, w) =
      let (finished, w') = b.finish w in
      let (cleared, area') = clear_pending area in
      if finished then (cleared, area', w') else (false, area', b.abort w')

  -- what follows a valid header
  unfoldable pub apply_update : Flash → State → Header → Bool × Flash × State
  unfolding copy_payload conclude_copy
  apply_update area w header =
      let size = payload_size header in
      let (begun, w') = b.begin w header size in
      if begun
      then conclude_copy area (copy_payload size size 0 area w')
      else (let (_, area') = clear_pending area in (false, area', w'))

  -- what follows `read_header`
  unfoldable pub consume_header : Flash → State → Option Header → Bool × Flash × State
  unfolding apply_update
  consume_header area w none = (false, area, w)
  consume_header area w (some header) =
      if header_valid uid header then apply_update area w header else (false, area, w)

  unfoldable pub consume : Flash → State → Bool × Flash × State
  unfolding consume_header
  consume area w =
      let (opened, area') = r.open_area area in
      if opened then consume_header area' w (r.read area' 0 header_size) else (false, area', w)
