-- ===== src/Dfu/Writer/Frontier.antt =====
-- The frontier of the blocks that a writer has stored, and how writing a block moves it.
use mathlib.Core.Path.{subst}
use open_deck.Prelude.{
  ℕ, ◌+◌, ◌-◌, ◌≤◌, ◌<◌, ◌≡◌, ◌≢◌, ◌⊎◌, inl, inr, refl, sym, ap, ◌∙◌, true, List, none, some, arith,
  lt_or_le, length, get_or,
}
use open_deck.Dfu.Flash.{Hwa, Sector, erased_byte}
use open_deck.Dfu.Flash.Cells.{HasCells}
use open_deck.Dfu.Flash.Tiles.{
  Multiple, locate, locate-bounds, locate-same, locate-index, locate-room, Multiple-add,
}
use open_deck.Dfu.Writer.{Writer, erase_range, write_block}
use open_deck.Dfu.Writer.Sectors.{HasBlocks, IsErased, erase_range-IsErased}

module _ (h : Hwa) where
  open h use {Flash}

  record BlockWritten (w w' : Writer Flash) (x : ℕ) (bytes : List ℕ) : Type 0 where
    between : Writer Flash
    fits : x + length bytes ≤ h.size w.flash
    erased : erase_range h w x (length bytes) ≡ (true, between)
    written : h.write between.flash x bytes ≡ (true, w'.flash)
    rest : w' ≡ record between { flash = w'.flash }

  write_block-BlockWritten :
      (w : Writer Flash) (x : ℕ) (bytes : List ℕ) (w' : Writer Flash)
      → write_block h w x bytes ≡ (true, w')
      → BlockWritten w w' x bytes
  unfolding write_block
  write_block-BlockWritten w x bytes w' e = record {
    between = (erase_range h w x (length bytes)).1;
    fits = ground arith;
    erased = ground arith;
    written = ground arith;
    rest = ground arith;
  }

  module _ (cells : HasCells h) (c start : ℕ) (ss : List Sector) (contents : ℕ → ℕ) where
    -- Up to `x` the cells hold the contents, and the rest of the sector that was erased last is
    -- erased; at the start there is no such sector.
    pub record Frontier (w : Writer Flash) (x : ℕ) : Type 0 where
      pub sectors : h.sectors w.flash ≡ ss
      pub block : w.write_block_size ≡ c
      pub after : start ≤ x
      pub multiple : Multiple c x
      pub stored : (i : ℕ) → start ≤ i → i < x → cells.cell w.flash i ≡ contents i
      pub ready :
          ((w.erased_sector ≡ none) × (x ≡ start))
          ⊎ ((k : ℕ) × (s : Sector) × (w.erased_sector ≡ some k)
              × (locate ss (x - 1) 0 ≡ some (k, s))
              × (0 < x)
              × ((i : ℕ) → x ≤ i → i < s.offset + s.size → cells.cell w.flash i ≡ erased_byte))

    -- The sector of the block at `x` is erased from there on, and the frontier is where it was.
    record Cleared (w w' : Writer Flash) (x k : ℕ) (s : Sector) : Type 0 where
      sectors : h.sectors w'.flash ≡ ss
      stored : (i : ℕ) → start ≤ i → i < x → cells.cell w'.flash i ≡ contents i
      blank : (i : ℕ) → x ≤ i → i < s.offset + s.size → cells.cell w'.flash i ≡ erased_byte
      mark : w'.erased_sector ≡ some k
      rest : w' ≡ record w { flash = w'.flash; erased_sector = w'.erased_sector }

    erased_before :
        (w : Writer Flash) (x k : ℕ) (s : Sector)
        → HasBlocks c start ss
        → Frontier w x
        → locate ss x 0 ≡ some (k, s)
        → w.erased_sector ≡ some k
        → Cleared w w x k s
    erased_before w x k s b f l e = elim f.ready [
      | inl (none_yet, _) ↦ cc none_yet
      | inr (k', s', mark, before, pos, blank) ↦
          let same : k' ≡ k = ground arith in
          let before' : locate ss (x - 1) 0 ≡ some (k, s') = ground arith in
          let same_sector : s' ≡ s =
            locate-index 0 ss (x - 1) x 0 b.tiles (omega arith) (omega arith) before' l in
          record {
            sectors = f.sectors;
            stored = f.stored;
            blank = λ i p q. blank i p (rw same_sector q);
            mark = e;
            rest = refl;
          }
    ]

    erased_now :
        (w w' : Writer Flash) (x k : ℕ) (s : Sector)
        → HasBlocks c start ss
        → Frontier w x
        → locate ss x 0 ≡ some (k, s)
        → w.erased_sector ≢ some k
        → h.erase w.flash s.offset s.size ≡ (true, w'.flash)
        → w' ≡ record w { flash = w'.flash; erased_sector = some k }
        → Cleared w w' x k s
    erased_now w w' x k s b f l ne er e =
        let mark : w'.erased_sector ≡ some k = ap (λ v. v.erased_sector) e in
        let within = locate-bounds 0 ss x 0 b.tiles (omega arith) l in
        record {
          sectors = (cells.erase_layout w.flash s.offset s.size er).0 ∙ f.sectors;
          stored = λ i p q.
              cells.erase_outside w.flash s.offset s.size er i (inl (below i p q)) ∙ f.stored i p q;
          blank = λ i p q. cells.erase_inside w.flash s.offset s.size er i (omega arith) q;
          mark = mark;
          rest = e ∙ ap (λ m. record w { flash = w'.flash; erased_sector = m }) (sym mark);
        }
      where
        below : (i : ℕ) → start ≤ i → i < x → i < s.offset
        below i p q = elim (lt_or_le i s.offset) [
          | inl r ↦ r
          | inr r ↦ elim f.ready [
            | inl (_, at_start) ↦ absurd (omega arith)
            | inr (k', s', marked, before, pos, _) ↦
                let within = locate-bounds 0 ss x 0 {k = k} {s = s} b.tiles (omega arith) l in
                let again =
                  locate-same 0 ss x (x - 1) 0 {k = k} {s = s} b.tiles (omega arith) l (omega arith)
                    (omega arith) in
                let same : k' ≡ k = ground arith in absurd (ne (marked ∙ ap some same))
          ]
        ]

    block_moves :
        (w w₁ w' : Writer Flash) (x k : ℕ) (s : Sector) (bytes : List ℕ)
        → HasBlocks c start ss
        → Frontier w x
        → Cleared w w₁ x k s
        → locate ss x 0 ≡ some (k, s)
        → length bytes ≡ c
        → ((i : ℕ) → x ≤ i → i < x + c → get_or bytes (i - x) 0 ≡ contents i)
        → h.write w₁.flash x bytes ≡ (true, w'.flash)
        → w' ≡ record w₁ { flash = w'.flash }
        → Frontier w' (x + c)
    block_moves w w₁ w' x k s bytes b f d l size same written rest =
        let room =
          locate-room c 0 ss x 0 {k = k} {s = s} b.tiles (0, omega arith) b.multiples f.multiple
            (omega arith) l in
        let pos = b.positive in
        let after = f.after in
        let within = locate-bounds 0 ss x 0 {k = k} {s = s} b.tiles (omega arith) l in
        record {
          sectors = (cells.write_layout w₁.flash x bytes written).0 ∙ d.sectors;
          block = ap (λ v. v.write_block_size) rest ∙ ap (λ v. v.write_block_size) d.rest ∙ f.block;
          after = omega arith;
          multiple = Multiple-add c f.multiple (1, omega arith);
          stored = λ i p q. elim (lt_or_le i x) [
            | inl r ↦ cells.write_outside w₁.flash x bytes written i (inl r) ∙ d.stored i p r
            | inr r ↦
                cells.write_inside w₁.flash x bytes written (λ j p' q'. d.blank j p' (omega arith))
                  i r (omega arith)
                ∙ same i r q
          ];
          ready = inr (
            k,
            s,
            ap (λ v. v.erased_sector) rest ∙ d.mark,
            locate-same 0 ss x (x + c - 1) 0 b.tiles (omega arith) l (omega arith) (omega arith),
            omega arith,
            λ i p q.
                cells.write_outside w₁.flash x bytes written i (inr (omega arith))
                ∙ d.blank i (omega arith) q,
          );
        }

    IsErased-Cleared :
        (w w₁ : Writer Flash) (x k : ℕ) (s : Sector)
        → HasBlocks c start ss
        → Frontier w x
        → locate ss x 0 ≡ some (k, s)
        → IsErased h w w₁ k s
        → Cleared w w₁ x k s
    unfolding IsErased
    IsErased-Cleared w w₁ x k s b f l (inl (mark, same)) =
        subst (λ v. Cleared w v x k s) (sym same) (erased_before w x k s b f l mark)
    IsErased-Cleared w w₁ x k s b f l (inr (ne, er, e)) = erased_now w w₁ x k s b f l ne er e

    -- A block of the contents, written at the frontier, moves it on by one block.
    pub write_block-Frontier :
        (w : Writer Flash) (x : ℕ) (bytes : List ℕ) (w' : Writer Flash)
        → HasBlocks c start ss
        → Frontier w x
        → length bytes ≡ c
        → ((i : ℕ) → x ≤ i → i < x + c → get_or bytes (i - x) 0 ≡ contents i)
        → write_block h w x bytes ≡ (true, w')
        → Frontier w' (x + c)
          × (w' ≡ record w { flash = w'.flash; erased_sector = w'.erased_sector })
    write_block-Frontier w x bytes w' b f size same e =
        let q = write_block-BlockWritten w x bytes w' e in
        let w₁ = q.between in
        let limit = cells.size_fits w.flash in
        let (k, s, loc, er) =
          erase_range-IsErased h c start ss w x w₁ b f.sectors f.multiple
            (omega (arith, q.fits, limit)) (ap (erase_range h w x) (sym size) ∙ q.erased) in
        let d = IsErased-Cleared w w₁ x k s b f loc er in
        (
          block_moves w w₁ w' x k s bytes b f d loc size same q.written q.rest,
          ground (arith, q.rest, d.rest),
        )
