-- ===== src/Dfu/Writer/Sample.antt =====
-- A flash area of 64 sectors of 64 bytes that takes every call, and an idle writer on it, for the
-- tests.
use open_deck.Prelude.{
  ℕ, zero, suc, ◌+◌, ◌-◌, ◌≤◌, ◌<◌, ◌≡◌, refl, sym, ap, ◌∙◌, ◌&&◌, true, false, List, [], ◌∷◌, none,
  some, arith, length, get_or, ltb, leb, if◌then◌else◌, replicate,
}
use open_deck.Dfu.Format.{zero_header}
use open_deck.Dfu.Flash.{Hwa, Sector, erased_byte}
use open_deck.Dfu.Flash.Cells.{HasCells, cells_from}
use open_deck.Dfu.Writer.{Writer, staged}

abbrev sectors_from : ℕ → ℕ → List Sector
sectors_from x zero = []
sectors_from x (suc n) = record { offset = x; size = 64 } ∷ sectors_from (x + 64) n

abbrev patched : (ℕ → ℕ) → ℕ → List ℕ → ℕ → ℕ
patched f x bytes i = if leb x i && ltb i (x + length bytes) then get_or bytes (i - x) 0 else f i

abbrev pub wiped : (ℕ → ℕ) → ℕ → ℕ → ℕ → ℕ
wiped f x size i = if leb x i && ltb i (x + size) then erased_byte else f i

abbrev pub area : Hwa
area = record {
  Flash = ℕ → ℕ;
  open_area = λ f. (true, f);
  size = λ f. 4096;
  write_block_size = λ f. 16;
  sectors = λ f. sectors_from 0 64;
  read = λ f x n. some (cells_from f x n);
  write = λ f x bytes. (true, patched f x bytes);
  erase = λ f x size. (true, wiped f x size);
}

patched-inside :
    (f : ℕ → ℕ) (x : ℕ) (bytes : List ℕ) (i : ℕ)
    → x ≤ i
    → i < x + length bytes
    → patched f x bytes i ≡ get_or bytes (i - x) 0
patched-inside f x bytes i p q = ground arith

pub area_cells : HasCells area
area_cells = record {
  cell = λ f i. f i;
  write_inside =
      λ f x bytes e blank i p q. ap (λ r. r.1 i) (sym e) ∙ patched-inside f x bytes i p q;
  write_outside = λ f x bytes e i p. ap (λ r. r.1 i) (sym e) ∙ ground arith;
  write_layout = λ f x bytes e. (refl, refl, refl);
  erase_inside = λ f x size e i p q. ap (λ r. r.1 i) (sym e) ∙ ground arith;
  erase_outside = λ f x size e i p. ap (λ r. r.1 i) (sym e) ∙ ground arith;
  erase_layout = λ f x size e. (refl, refl, refl);
  tiled = λ f. omega arith;
  fits = λ f. omega arith;
  size_fits = λ f. omega arith;
}

abbrev pub idle : Writer (ℕ → ℕ)
idle = record {
  kind = staged;
  flash = λ i. 0;
  header = zero_header;
  erased_sector = none;
  write_block_size = 0;
  expected_size = 0;
  bytes_written = 0;
  next_offset = 0;
  block_offset = 0;
  block_size = 0;
  block_dirty = false;
  active = false;
  initialized = false;
  block_buffer = replicate 2048 0;
  published = [];
  applied = 0;
}
