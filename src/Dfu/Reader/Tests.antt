-- ===== src/Dfu/Reader/Tests.antt =====
-- The reader theorems on the sample area, read and written.
use open_deck.Prelude.{
  arith, ℕ, ◌-◌, ◌≡◌, ◌⊎◌, refl, true, Bool, List, [], ◌∷◌, get_or, ltb, if◌then◌else◌, take, some,
}
use open_deck.Dfu.Format.{stream, header_valid, payload_size}
use open_deck.Dfu.Flash.Cells.{cells_from}
use open_deck.Dfu.Writer.{
  Writer, payload_offset, writer_backend, header_storage_size, begin, write, finish,
}
use open_deck.Dfu.Writer.Sample.{area, area_cells, idle, wiped}
use open_deck.Dfu.Reader.{header_size, consume}
use open_deck.Dfu.Reader.Applied.{HasReads, Unread, consume-Applied}

abbrev uid : ℕ
uid = 0x1234abcd

abbrev payload : List ℕ
payload = 10 ∷ 20 ∷ 255 ∷ []

-- a staged update: its header at the start, its payload after the header's storage
abbrev staged_update : ℕ → ℕ
staged_update i =
    if ltb i header_storage_size
    then get_or (take header_size (stream uid payload)) i 255
    else get_or payload (i - header_storage_size) 255

reads_cells :
    (f : ℕ → ℕ) (x n : ℕ) (bytes : List ℕ) → area.read f x n ≡ some bytes → bytes ≡ cells_from f x n
reads_cells f x n bytes e = cc e

abbrev area_reads : HasReads area
area_reads = record { cell = λ f i. f i; reads = reads_cells }

abbrev erase_marker : (ℕ → ℕ) → Bool × (ℕ → ℕ)
erase_marker f = (true, wiped f 0 64)

abbrev consumed : Bool × (ℕ → ℕ) × Writer (ℕ → ℕ)
unfolding consume begin write finish payload_offset header_valid payload_size
consumed = consume area erase_marker (writer_backend area) uid staged_update idle

consume-Applied_example :
    let header = cells_from staged_update 0 header_size in
    let size = payload_size header in
    (header_valid uid header ≡ true)
    × (Unread area staged_update size
        ⊎ (cells_from (area_cells.cell consumed.2.flash) (payload_offset idle.kind) size
            ≡ cells_from staged_update header_storage_size size))
unfolding consume begin write finish payload_offset header_valid payload_size
consume-Applied_example =
    consume-Applied area area_reads erase_marker area area_cells uid staged_update consumed.1 idle
      consumed.2 refl (omega arith) refl
