-- ===== src/Dfu/Flash/Cells.antt =====
-- What the flash driver is documented to do, as a view of the cells of a flash area: an erase gives
-- erased cells, a write into erased cells stores its bytes, and neither touches other cells or the
-- layout of the area.
use mathlib.Core.Path.{ap₂}
use open_deck.Prelude.{
  ℕ, zero, suc, [], ◌∷◌, refl, ap, ◌∙◌, arith, ◌+◌, ◌-◌, ◌^◌, ◌≤◌, ◌<◌, ◌≡◌, ◌⊎◌, true, List,
  length, get_or,
}
use open_deck.Dfu.Flash.{Hwa, erased_byte}
use open_deck.Dfu.Flash.Tiles.{Tiles, tiles_end}

pub record HasCells (h : Hwa) : Type 0 where
  pub cell : h.Flash → ℕ → ℕ
  pub write_inside :
      (f : h.Flash) (offset : ℕ) (bytes : List ℕ) {f' : h.Flash}
      → h.write f offset bytes ≡ (true, f')
      → ((i : ℕ) → offset ≤ i → i < offset + length bytes → cell f i ≡ erased_byte)
      → (i : ℕ) → offset ≤ i
      → i < offset + length bytes
      → cell f' i ≡ get_or bytes (i - offset) 0
  pub write_outside :
      (f : h.Flash) (offset : ℕ) (bytes : List ℕ) {f' : h.Flash}
      → h.write f offset bytes ≡ (true, f')
      → (i : ℕ) → (i < offset) ⊎ (offset + length bytes ≤ i)
      → cell f' i ≡ cell f i
  pub write_layout :
      (f : h.Flash) (offset : ℕ) (bytes : List ℕ) {f' : h.Flash}
      → h.write f offset bytes ≡ (true, f')
      → (h.sectors f' ≡ h.sectors f)
        × (h.size f' ≡ h.size f)
        × (h.write_block_size f' ≡ h.write_block_size f)
  pub erase_inside :
      (f : h.Flash) (offset size : ℕ) {f' : h.Flash}
      → h.erase f offset size ≡ (true, f')
      → (i : ℕ) → offset ≤ i
      → i < offset + size
      → cell f' i ≡ erased_byte
  pub erase_outside :
      (f : h.Flash) (offset size : ℕ) {f' : h.Flash}
      → h.erase f offset size ≡ (true, f')
      → (i : ℕ) → (i < offset) ⊎ (offset + size ≤ i)
      → cell f' i ≡ cell f i
  pub erase_layout :
      (f : h.Flash) (offset size : ℕ) {f' : h.Flash}
      → h.erase f offset size ≡ (true, f')
      → (h.sectors f' ≡ h.sectors f)
        × (h.size f' ≡ h.size f)
        × (h.write_block_size f' ≡ h.write_block_size f)
  -- The sectors tile the area from its start on, and all offsets fit in 32 bits.
  pub tiled : (f : h.Flash) → Tiles 0 (h.sectors f)
  pub fits : (f : h.Flash) → tiles_end 0 (h.sectors f) < 2 ^ 32
  pub size_fits : (f : h.Flash) → h.size f < 2 ^ 32

-- the cells from an offset on
abbrev pub cells_from : (ℕ → ℕ) → ℕ → ℕ → List ℕ
cells_from cell x zero = []
cells_from cell x (suc n) = cell x ∷ cells_from cell (x + 1) n

pub cells_from-payload :
    (cell : ℕ → ℕ) (x : ℕ) (payload : List ℕ)
    → ((i : ℕ) → i < length payload → cell (x + i) ≡ get_or payload i 0)
    → cells_from cell x (length payload) ≡ payload
cells_from-payload cell x [] same = refl
cells_from-payload cell x (b ∷ payload) same =
    ap₂ (λ c cs. c ∷ cs) (ap cell (omega arith) ∙ same 0 (omega arith))
      (cells_from-payload cell (x + 1) payload
        (λ i p. ap cell (omega arith) ∙ same (suc i) (omega arith)))
