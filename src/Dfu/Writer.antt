-- ===== src/Dfu/Writer.antt =====
-- `DfuWriter` and the classes derived from it:
-- app/common/src/dfu/writer/instance/impl/dfu_writer.{h,cpp},
-- app/firmware/src/dfu/staged_update_writer/instance/impl/staged_update_writer.cpp and
-- app/bootloader/src/dfu/direct_update_writer/instance/impl/direct_update_writer.cpp.
-- The class of a writer is its field `kind`, by which the virtual functions choose. A member
-- function takes the writer and returns its result beside the writer that it leaves. Log lines are
-- left out; the published signals are kept in the order of publication.
pub mod Sectors
pub mod Frontier
pub mod Bytes
pub mod Blocks
pub mod Begin
pub mod Stored
pub mod Chunks
pub mod Finish
pub mod Update
pub mod Sample
mod Tests
use open_deck.Prelude.{
  ℕ, zero, suc, ◌+◌, ◌-◌, ◌%◌, ◌^◌, Bool, true, false, not, ◌&&◌, ◌||◌, List, [], ◌∷◌, ◌++◌, Option,
  none, some, length, ltb, leb, ◌==◌, if◌then◌else◌, set, take, drop, replicate,
}
use open_deck.Dfu.Format.{Header, zero_header}
use open_deck.Dfu.Backend.{Backend}
use open_deck.Dfu.Flash.{Hwa, Sector, erased_byte}

abbrev pub max_flash_write_block_size : ℕ
max_flash_write_block_size = 2048

-- `staged_update::HEADER_STORAGE_SIZE`
abbrev pub header_storage_size : ℕ
header_storage_size = 2048

pub data Kind : Type 0 where
  base staged direct : Kind

pub data Signal : Type 0 where
  header_accepted update_started payload_received update_complete : Signal
  firmware_update_started : Signal

pub record Writer (F : Type 0) : Type 0 where
  pub kind : Kind
  pub flash : F
  pub header : Header
  pub erased_sector : Option ℕ
  pub write_block_size : ℕ
  pub expected_size : ℕ
  pub bytes_written : ℕ
  pub next_offset : ℕ
  pub block_offset : ℕ
  pub block_size : ℕ
  pub block_dirty : Bool
  pub active : Bool
  pub initialized : Bool
  pub block_buffer : List ℕ
  pub published : List Signal
  -- calls of `apply()` of the bootloader's update hardware
  pub applied : ℕ

-- `payload_offset()`, which `StagedUpdateWriter` overrides
unfoldable pub payload_offset : Kind → ℕ
payload_offset staged = header_storage_size
payload_offset base = 0
payload_offset direct = 0

unfoldable pub reset : {F : Type 0} → Writer F → Writer F
reset w = record w {
  header = zero_header;
  erased_sector = none;
  write_block_size = 0;
  expected_size = 0;
  bytes_written = 0;
  next_offset = 0;
  block_offset = 0;
  block_size = 0;
  block_dirty = false;
  active = false;
}

abbrev pub publish : {F : Type 0} → Writer F → Signal → Writer F
publish w s = record w { published = w.published ++ (s ∷ []) }

module _ (h : Hwa) where
  open h use {Flash}

  abbrev block_size_bad : ℕ → Bool
  block_size_bad n = n == 0 || ltb max_flash_write_block_size n

  unfoldable pub init : Writer Flash → Bool × Writer Flash
  init w =
      let (ok, flash) = h.open_area w.flash in
      let w' = record w { flash = flash; initialized = ok } in
      if w.initialized
      then (true, w)
      else if not ok
      then (false, w')
      else (not (block_size_bad (h.write_block_size flash)), w')

  -- the loop over the sectors in `prepare`: its `sector_compatible`
  unfoldable pub compatible : ℕ → List Sector → Bool
  compatible candidate [] = true
  compatible candidate (s ∷ sectors) =
      let rest = compatible candidate sectors in
      if not (s.size % candidate == 0) then false else rest

  -- whether the loops of `prepare` take a candidate; `found_sector` is true from the first sector on
  abbrev pub fits_candidate : ℕ → ℕ → List Sector → ℕ → Bool
  fits_candidate native offset sectors candidate =
      candidate % native == 0
      && offset % candidate == 0
      && ltb 0 (length sectors)
      && compatible candidate sectors

  -- the loop over the candidates, downwards from `candidate` to `native`
  unfoldable pub find_candidate : ℕ → ℕ → List Sector → ℕ → Option ℕ
  find_candidate native offset sectors zero = none
  find_candidate native offset sectors (suc c) =
      let rest = find_candidate native offset sectors c in
      if ltb (suc c) native
      then none
      else if fits_candidate native offset sectors (suc c)
      then some (suc c)
      else rest

  -- the two ends of `prepare`, with the candidate that its loops find
  unfoldable pub take_candidate : Writer Flash → Option ℕ → Bool × Writer Flash
  take_candidate w none = (false, w)
  take_candidate w (some candidate) = (true, record w { write_block_size = candidate })

  unfoldable pub prepare : Writer Flash → Bool × Writer Flash
  unfolding find_candidate compatible payload_offset take_candidate
  prepare w =
      let native = h.write_block_size w.flash in
      let found =
        find_candidate native (payload_offset w.kind) (h.sectors w.flash)
          max_flash_write_block_size in
      if block_size_bad native then (false, w) else take_candidate w found

  unfoldable pub capacity : Writer Flash → ℕ
  unfolding payload_offset
  capacity w =
      let size = h.size w.flash in
      let offset = payload_offset w.kind in if leb size offset then 0 else size - offset

  -- the end of `DfuWriter::begin`, after its guards
  abbrev pub start_stream : Writer Flash → Header → ℕ → Writer Flash
  start_stream w header expected_size =
      let w' = record w {
        header = header;
        expected_size = expected_size;
        erased_sector = none;
        next_offset = payload_offset w.kind;
        block_offset = 0;
        block_size = 0;
        block_dirty = false;
        active = true;
      } in
      publish (publish (publish w' header_accepted) firmware_update_started) update_started

  -- `DfuWriter::begin`
  unfoldable pub base_begin : Writer Flash → Header → ℕ → Bool × Writer Flash
  unfolding reset init prepare capacity payload_offset
  base_begin w header expected_size =
      let w₀ = reset w in
      let (opened, w₁) = init w₀ in
      let (prepared, w₂) = prepare w₁ in
      if expected_size == 0
      then (false, w₀)
      else if not opened
      then (false, w₁)
      else if not prepared
      then (false, w₂)
      else if ltb (capacity w₂) expected_size
      then (false, w₂)
      else (true, start_stream w₂ header expected_size)

  -- The loop of `StagedUpdateWriter::erase_header_sector` over the sectors left, with `erased_size`.
  unfoldable pub erase_header_sectors : Flash → List Sector → ℕ → Bool × Flash
  erase_header_sectors flash [] erased_size = (leb header_storage_size erased_size, flash)
  erase_header_sectors flash (s ∷ sectors) erased_size =
      let (ok, flash') = h.erase flash s.offset s.size in
      let rest = erase_header_sectors flash' sectors ((s.offset + s.size) % 2 ^ 32) in
      if leb header_storage_size erased_size
      then (true, flash)
      else if not ok
      then (false, flash')
      else rest

  unfoldable pub erase_header_sector : Writer Flash → Bool × Writer Flash
  unfolding erase_header_sectors
  erase_header_sector w =
      let (ok, flash) = erase_header_sectors w.flash (h.sectors w.flash) 0 in
      (ok, record w { flash = flash })

  -- `cancel()`, which `StagedUpdateWriter` overrides
  unfoldable pub cancel : Writer Flash → Writer Flash
  unfolding erase_header_sector
  cancel w = elim w.kind [ staged ↦ (erase_header_sector w).1 | _ ↦ w ]

  unfoldable pub abort : Writer Flash → Writer Flash
  unfolding reset cancel
  abort w = let w' = reset w in if w.active then cancel w' else w'

  -- `begin`, with the override of `StagedUpdateWriter`
  unfoldable pub begin : Writer Flash → Header → ℕ → Bool × Writer Flash
  unfolding base_begin erase_header_sector abort
  begin w header expected_size =
      let (begun, w₁) = base_begin w header expected_size in
      let (erased, w₂) = erase_header_sector w₁ in
      elim w.kind [
        | staged ↦
            if not begun then (false, w₁) else if not erased then (false, abort w₂) else (true, w₂)
        | _ ↦ (begun, w₁)
      ]

  unfoldable pub write_header : Writer Flash → Header → Bool × Writer Flash
  write_header w header =
      let native = h.write_block_size w.flash in
      let bytes = header ++ drop (length header) (replicate header_storage_size erased_byte) in
      let (ok, flash) = h.write w.flash 0 bytes in
      if native == 0 || not (header_storage_size % native == 0)
      then (false, w)
      else (ok, record w { flash = flash })

  -- `DfuWriter::commit`
  unfoldable pub base_commit : Writer Flash → Writer Flash
  unfolding reset
  base_commit w = reset (publish w payload_received)

  -- `commit`, with the overrides of `StagedUpdateWriter` and `DirectUpdateWriter`
  unfoldable pub commit : Writer Flash → Header → Bool × Writer Flash
  unfolding base_commit write_header
  commit w header =
      let (written, w₁) = write_header w header in
      let w₂ = base_commit w in
      elim w.kind [
        | base ↦ (true, w₂)
        | staged ↦ if not written then (false, w₁) else (true, base_commit w₁)
        | direct ↦ (true, record (publish w₂ update_complete) { applied = w₂.applied + 1 })
      ]

  -- What the loop of `erase_range` does at one sector: whether an erase failed, whether the sector
  -- backs the range, and the writer.
  unfoldable pub visit_sector : Writer Flash → ℕ → ℕ → ℕ → Sector → Bool × Bool × Writer Flash
  visit_sector w offset end index s =
      let sector_end = (s.offset + s.size) % 2 ^ 32 in
      let (ok, flash) = h.erase w.flash s.offset s.size in
      let w' = record w { flash = flash } in
      if leb sector_end offset || leb end s.offset
      then (false, false, w)
      else if elim w.erased_sector [ some k ↦ k == index | none ↦ false ]
      then (false, true, w)
      else if not ok
      then (true, true, w')
      else (false, true, record w' { erased_sector = some index })

  -- the loop of `erase_range`, with `index` and `found_sector`
  unfoldable pub erase_sectors : Writer Flash → ℕ → ℕ → List Sector → ℕ → Bool → Bool × Writer Flash
  unfolding visit_sector
  erase_sectors w offset end [] index found = (found, w)
  erase_sectors w offset end (s ∷ sectors) index found =
      let (bad, backs, w') = visit_sector w offset end index s in
      elim bad [
        | true ↦ (false, w')
        | false ↦ erase_sectors w' offset end sectors (index + 1) (found || backs)
      ]

  unfoldable pub erase_range : Writer Flash → ℕ → ℕ → Bool × Writer Flash
  unfolding erase_sectors
  erase_range w offset size =
      if size == 0
      then (true, w)
      else erase_sectors w offset ((offset + size) % 2 ^ 32) (h.sectors w.flash) 0 false

  unfoldable pub write_block : Writer Flash → ℕ → List ℕ → Bool × Writer Flash
  unfolding erase_range
  write_block w offset bytes =
      let size = h.size w.flash in
      let (erased, w₁) = erase_range w offset (length bytes) in
      let (ok, flash) = h.write w₁.flash offset bytes in
      if w.write_block_size == 0
        || not (length bytes % w.write_block_size == 0)
        || not (offset % w.write_block_size == 0)
      then (false, w)
      else if ltb size offset || ltb (size - offset) (length bytes)
      then (false, w)
      else if not erased
      then (false, w₁)
      else (ok, record w₁ { flash = flash })

  -- the block that is not written yet is over
  abbrev clear_block : Writer Flash → Writer Flash
  clear_block w = record w { block_offset = 0; block_size = 0; block_dirty = false }

  -- the second half of `write_byte`, from the test for a full block on
  unfoldable pub buffer_byte : Writer Flash → ℕ → Bool × Writer Flash
  unfolding write_block
  buffer_byte w byte =
      let w₁ = record w {
        block_buffer = set w.block_buffer w.block_size byte;
        block_size = w.block_size + 1;
        next_offset = (w.next_offset + 1) % 2 ^ 32;
      } in
      let (ok, w₂) = write_block w₁ w₁.block_offset (take w₁.write_block_size w₁.block_buffer) in
      if leb w.write_block_size w.block_size
      then (false, w)
      else if w₁.block_size == w₁.write_block_size
      then (if ok then (true, clear_block w₂) else (false, w₂))
      else (true, w₁)

  unfoldable pub write_byte : Writer Flash → ℕ → Bool × Writer Flash
  unfolding buffer_byte
  write_byte w byte =
      let w₁ = record w { block_offset = w.next_offset; block_size = 0; block_dirty = true } in
      if w.write_block_size == 0
      then (false, w)
      else buffer_byte (if not w.block_dirty then w₁ else w) byte

  -- the loop of `write`
  unfoldable pub write_bytes : Writer Flash → List ℕ → Bool × Writer Flash
  unfolding write_byte
  write_bytes w [] = (true, w)
  write_bytes w (byte ∷ bytes) =
      let (ok, w') = write_byte w byte in
      elim ok [ true ↦ write_bytes w' bytes | false ↦ (false, w') ]

  unfoldable pub write : Writer Flash → List ℕ → Bool × Writer Flash
  unfolding write_bytes abort
  write w bytes =
      let (ok, w') = write_bytes w bytes in
      if not w.active
      then (false, w)
      else if ltb ((w.expected_size + 2 ^ 32 - w.bytes_written) % 2 ^ 32) (length bytes)
      then (false, abort w)
      else if not ok
      then (false, abort w')
      else (true, record w' { bytes_written = (w'.bytes_written + length bytes) % 2 ^ 32 })

  -- the end of `finish`: commit, and abort where that fails
  unfoldable pub commit_or_abort : Writer Flash → Bool × Writer Flash
  unfolding commit abort
  commit_or_abort w =
      let (ok, w') = commit w w.header in if ok then (true, w') else (false, abort w')

  unfoldable pub finish : Writer Flash → Bool × Writer Flash
  unfolding commit_or_abort abort write_block
  finish w =
      let padding = replicate (w.write_block_size - w.block_size) erased_byte in
      let buffer =
        take w.block_size w.block_buffer ++ padding ++ drop w.write_block_size w.block_buffer in
      let w₁ = record w { block_buffer = buffer } in
      let (ok, w₂) = write_block w₁ w₁.block_offset (take w₁.write_block_size buffer) in
      if not w.active
      then (false, w)
      else if not (w.bytes_written == w.expected_size)
      then (false, abort w)
      else if not w.block_dirty
      then commit_or_abort w
      else if not ok
      then (false, abort w₂)
      else commit_or_abort (clear_block w₂)

  -- the public interface of a writer; `supported()` is always true
  abbrev pub writer_backend : Backend
  writer_backend = record {
    State = Writer Flash;
    begin = begin;
    write = write;
    finish = finish;
    abort = abort;
    supported = λ w. true;
  }
