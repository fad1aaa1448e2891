-- ===== src/Dfu/Writer/Sectors.antt =====
-- What `erase_range` does for one write block: it erases the sector of the block, once.
use open_deck.Prelude.{
  ℕ, ◌+◌, ◌^◌, ◌≤◌, ◌<◌, ◌≡◌, ◌≢◌, ◌%◌, ◌⊎◌, Bool-cases, sym, ap, ◌∙◌, refl, Bool, true, false, not,
  List, [], ◌∷◌, Option, none, some, ◌==◌, if◌then◌else◌, arith, All, lt_or_le, inl, inr,
}
use open_deck.Dfu.Flash.{Hwa, Sector}
use open_deck.Dfu.Flash.Tiles.{Tiles, tiles_end, Multiple, le-tiles_end, room, Multiple-add, locate}
use open_deck.Dfu.Writer.{Writer, visit_sector, erase_sectors, erase_range}

-- Sectors that blocks of `c` bytes fit into, from the offset `start` on.
pub record HasBlocks (c start : ℕ) (ss : List Sector) : Type 0 where
  pub tiles : Tiles 0 ss
  pub fits : tiles_end 0 ss < 2 ^ 32
  pub positive : 0 < c
  pub multiples : All (λ s. Multiple c s.size) ss
  pub aligned : Multiple c start

module _ (h : Hwa) where
  open h use {Flash}

  -- one sector, unless it is the one that was erased last
  pub erase_once : Writer Flash → ℕ → Sector → Bool × Writer Flash
  erase_once w index s =
      let (ok, flash) = h.erase w.flash s.offset s.size in
      let w' = record w { flash = flash } in
      if elim w.erased_sector [ some k ↦ k == index | none ↦ false ]
      then (true, w)
      else if not ok
      then (false, w')
      else (true, record w' { erased_sector = some index })

  pub erase_located : Writer Flash → Option (ℕ × Sector) → Bool × Writer Flash
  erase_located w none = (false, w)
  erase_located w (some (index, s)) = erase_once w index s

  erase_beyond :
      (c : ℕ) (w : Writer Flash) (x o : ℕ) (ss : List Sector) (index : ℕ) (found : Bool)
      → Tiles o ss
      → tiles_end o ss < 2 ^ 32
      → x + c ≤ o
      → erase_sectors h w x (x + c) ss index found ≡ (found, w)
  unfolding erase_sectors visit_sector
  erase_beyond c w x o [] index found t fits p = refl
  erase_beyond c w x o (s ∷ ss) index found t fits p =
      let e = le-tiles_end (o + s.size) ss in
      ground (arith, erase_beyond c w x (o + s.size) ss (index + 1) found t.1 fits (omega arith))

  erase_here :
      (c : ℕ) (w : Writer Flash) (x o : ℕ) (s : Sector) (ss : List Sector) (index : ℕ)
      → Tiles o (s ∷ ss)
      → tiles_end o (s ∷ ss) < 2 ^ 32
      → 0 < c
      → o ≤ x
      → x + c ≤ o + s.size
      → erase_sectors h w x (x + c) (s ∷ ss) index false ≡ erase_once w index s
  unfolding erase_sectors visit_sector erase_once
  erase_here c w x o s ss index t fits pos p q =
      let e = le-tiles_end (o + s.size) ss in
      let go : (w' : Writer Flash) → erase_sectors h w' x (x + c) ss (index + 1) true ≡ (true, w') =
        λ w'. erase_beyond c w' x (o + s.size) ss (index + 1) true t.1 fits q in
      ground (
        arith,
        go w,
        go (record w { flash = (h.erase w.flash s.offset s.size).1; erased_sector = some index }),
      )

  erase_located_lem :
      (c : ℕ) (w : Writer Flash) (x o : ℕ) (ss : List Sector) (index : ℕ)
      → Tiles o ss
      → tiles_end o ss < 2 ^ 32
      → 0 < c
      → Multiple c x
      → Multiple c o
      → All (λ s. Multiple c s.size) ss
      → o ≤ x
      → erase_sectors h w x (x + c) ss index false ≡ erase_located w (locate ss x index)
  unfolding erase_sectors visit_sector erase_located locate
  erase_located_lem c w x o [] index t fits pos mx mo ms p = refl
  erase_located_lem c w x o (s ∷ ss) index t fits pos mx mo ms p =
      let m = Multiple-add c mo ms.0 in
      let e = le-tiles_end (o + s.size) ss in
      elim (lt_or_le x (s.offset + s.size)) [
        | inl q ↦
            let r = room c mx m (omega arith) in
            ground (arith, erase_here c w x o s ss index t fits pos p r)
        | inr q ↦ ground (
          arith,
          erase_located_lem c w x (o + s.size) ss (index + 1) t.1 fits pos mx m ms.1 (omega arith),
        )
      ]

  -- The sector was erased before, or it is erased now.
  unfoldable pub IsErased : Writer Flash → Writer Flash → ℕ → Sector → Type 0
  IsErased w w' k s =
      ((w.erased_sector ≡ some k) × (w' ≡ w))
      ⊎ ((w.erased_sector ≢ some k)
          × (h.erase w.flash s.offset s.size ≡ (true, w'.flash))
          × (w' ≡ record w { flash = w'.flash; erased_sector = some k }))

  erase_once-IsErased :
      (w : Writer Flash) (k : ℕ) (s : Sector) (w' : Writer Flash)
      → erase_once w k s ≡ (true, w')
      → IsErased w w' k s
  unfolding erase_once IsErased
  erase_once-IsErased w k s w' e =
      elim (Bool-cases (elim w.erased_sector [ some j ↦ j == k | none ↦ false ])) [
        | inl same ↦ inl (ground arith, ground arith)
        | inr other ↦ inr (ground arith, ground arith, ground arith)
      ]

  pub erase_range-IsErased :
      (c start : ℕ) (ss : List Sector) (w : Writer Flash) (x : ℕ) (w' : Writer Flash)
      → HasBlocks c start ss
      → h.sectors w.flash ≡ ss
      → Multiple c x
      → x + c < 2 ^ 32
      → erase_range h w x c ≡ (true, w')
      → (k : ℕ) × (s : Sector) × (locate ss x 0 ≡ some (k, s)) × IsErased w w' k s
  unfolding erase_range erase_located
  erase_range-IsErased c start ss w x w' b e m fits r =
      let go : erase_sectors h w x (x + c) (h.sectors w.flash) 0 false
          ≡ erase_located w (locate ss x 0) =
        rw e (
          erase_located_lem c w x 0 ss 0 b.tiles b.fits b.positive m (0, omega arith) b.multiples
            (omega arith)) in
      let p = b.positive in
      let q : (x + c) % 2 ^ 32 ≡ x + c = omega arith in
      let r' : erase_located w (locate ss x 0) ≡ (true, w') =
        sym go ∙ ground (arith, ap (λ y. erase_sectors h w x y (h.sectors w.flash) 0 false) q) in
      found (locate ss x 0) refl r'
    where
      found :
          (o : Option (ℕ × Sector))
          → locate ss x 0 ≡ o
          → erase_located w o ≡ (true, w')
          → (k : ℕ) × (s : Sector) × (locate ss x 0 ≡ some (k, s)) × IsErased w w' k s
      found none e r = absurd (ground arith)
      found (some (k, s)) e r = (k, s, e, erase_once-IsErased w k s w' r)
