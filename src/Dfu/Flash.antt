-- ===== src/Dfu/Flash.antt =====
-- The flash area behind the writers: `Sector` and the interface `Hwa` of
-- app/common/src/dfu/flash_area/shared/{common.h,deps.h}. What implements it calls the flash
-- driver, so it is a parameter; a call that writes returns its result beside the area it leaves.
pub mod Cells
pub mod Tiles
use open_deck.Prelude.{ℕ, Bool, List, Option}

pub record Sector : Type 0 where
  pub offset : ℕ
  pub size : ℕ

-- `sectors` are the sectors that `sector(0)`, `sector(1)`, … give before the first `std::nullopt`;
-- the loops over `sector(index)` run through them. `read` gives the bytes that a successful call
-- puts into its span.
pub record Hwa : Type 1 where
  pub Flash : Type 0
  pub open_area : Flash → Bool × Flash
  pub size : Flash → ℕ
  pub write_block_size : Flash → ℕ
  pub sectors : Flash → List Sector
  pub read : Flash → ℕ → ℕ → Option (List ℕ)
  pub write : Flash → ℕ → List ℕ → Bool × Flash
  pub erase : Flash → ℕ → ℕ → Bool × Flash

abbrev pub erased_byte : ℕ
erased_byte = 0xff
