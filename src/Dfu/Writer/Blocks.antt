-- ===== src/Dfu/Writer/Blocks.antt =====
-- The write block that `prepare` selects fits the sectors and the payload's place, and what a
-- writer is that has begun.
use mathlib.Core.Path.{subst}
use open_deck.Prelude.{
  ℕ, zero, suc, ◌/◌, ◌%◌, ◌≤◌, ◌<◌, ◌≡◌, inl, inr, refl, true, List, [], ◌∷◌, Option, none, some,
  ltb, arith, All, Bool-cases, guard_passed,
}
use open_deck.Dfu.Flash.{Hwa, Sector}
use open_deck.Dfu.Flash.Cells.{HasCells}
use open_deck.Dfu.Flash.Tiles.{Multiple}
use open_deck.Dfu.Writer.{
  Writer, compatible, find_candidate, take_candidate, prepare, max_flash_write_block_size,
  payload_offset, fits_candidate, block_size_bad,
}
use open_deck.Dfu.Writer.Sectors.{HasBlocks}

Multiple-of_mod : (c n : ℕ) → 0 < c → n % c ≡ 0 → Multiple c n
Multiple-of_mod c n pos e = (n / c, grind arith)

module _ (h : Hwa) where
  open h use {Flash}

  compatible-Multiple :
      (c : ℕ) (ss : List Sector)
      → 0 < c
      → compatible h c ss ≡ true
      → All (λ s. Multiple c s.size) ss
  unfolding compatible
  compatible-Multiple c [] pos e = tt
  compatible-Multiple c (s ∷ ss) pos e =
      (Multiple-of_mod c s.size pos (ground arith), compatible-Multiple c ss pos (ground arith))

  -- the largest candidate that fits, not above `n`
  record IsCandidate (offset c n : ℕ) (ss : List Sector) : Type 0 where
    positive : 0 < c
    bounded : c ≤ n
    aligned : Multiple c offset
    multiples : All (λ s. Multiple c s.size) ss

  find_candidate-IsCandidate :
      (native offset : ℕ) (ss : List Sector) (n : ℕ) {c : ℕ}
      → find_candidate h native offset ss n ≡ some c
      → IsCandidate offset c n ss
  unfolding find_candidate
  find_candidate-IsCandidate native offset ss zero e = absurd (ground arith)
  find_candidate-IsCandidate native offset ss (suc n) {c} e =
      elim (Bool-cases (ltb (suc n) native)) [
        | inl low ↦ absurd (ground arith)
        | inr high ↦ elim (Bool-cases (fits_candidate h native offset ss (suc n))) [
          | inl fits ↦
              let same : suc n ≡ c = ground arith in
              subst (λ d. IsCandidate offset d (suc n) ss) same
                (record {
                  positive = omega arith;
                  bounded = omega arith;
                  aligned = Multiple-of_mod (suc n) offset (omega arith) (ground arith);
                  multiples = compatible-Multiple (suc n) ss (omega arith) (ground arith);
                })
          | inr other ↦
              let r = find_candidate-IsCandidate native offset ss n {c = c} (ground arith) in
              record {
                positive = r.positive;
                bounded = omega (arith, r.bounded);
                aligned = r.aligned;
                multiples = r.multiples;
              }
        ]
      ]

  pub record Prepared (w w' : Writer Flash) : Type 0 where
    pub blocks : HasBlocks w'.write_block_size (payload_offset w.kind) (h.sectors w.flash)
    pub small : w'.write_block_size ≤ max_flash_write_block_size
    pub rest : w' ≡ record w { write_block_size = w'.write_block_size }

  taken :
      (w w' : Writer Flash) (o : Option ℕ)
      → take_candidate h w o ≡ (true, w')
      → (c : ℕ) × (o ≡ some c) × (record w { write_block_size = c } ≡ w')
  unfolding take_candidate
  taken w w' none e = absurd (ground arith)
  taken w w' (some c) e = (c, refl, ground arith)

  pub prepare-Prepared :
      HasCells h → (w w' : Writer Flash) → prepare h w ≡ (true, w') → Prepared w w'
  unfolding prepare
  prepare-Prepared cells w w' e =
      let (c, found, same) =
        taken w w' _ (guard_passed (block_size_bad h (h.write_block_size w.flash)) w w' _ e).1 in
      let r =
        find_candidate-IsCandidate (h.write_block_size w.flash) (payload_offset w.kind)
          (h.sectors w.flash) max_flash_write_block_size found in
      subst (Prepared w) same (record {
        blocks = record {
          tiles = cells.tiled w.flash;
          fits = cells.fits w.flash;
          positive = r.positive;
          multiples = r.multiples;
          aligned = r.aligned;
        };
        small = r.bounded;
        rest = refl;
      })
