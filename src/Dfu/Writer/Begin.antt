-- ===== src/Dfu/Writer/Begin.antt =====
-- The writer that `begin` leaves.
use mathlib.Core.Path.{subst}
use open_deck.Prelude.{
  ℕ, ◌+◌, ◌%◌, ◌^◌, ◌≤◌, ◌<◌, ◌≡◌, ◌≢◌, ◌⊎◌, inl, inr, refl, sym, ap, ◌∙◌, Bool, true, false, not,
  List, [], ◌∷◌, none, leb, ltb, ◌==◌, if◌then◌else◌, arith, Bool-cases, guard_passed, not-false,
}
use open_deck.Dfu.Format.{Header}
use open_deck.Dfu.Flash.{Hwa, Sector}
use open_deck.Dfu.Flash.Cells.{HasCells}
use open_deck.Dfu.Writer.{
  Kind, staged, base, direct, Writer, reset, init, prepare, capacity, payload_offset, base_begin,
  start_stream, begin, abort, erase_header_sector, erase_header_sectors,
}
use open_deck.Dfu.Writer.Sectors.{HasBlocks}
use open_deck.Dfu.Writer.Blocks.{Prepared, prepare-Prepared}

pub Kind-cases : (k : Kind) → (k ≡ staged) ⊎ (k ≢ staged)
Kind-cases staged = inl refl
Kind-cases base = inr (λ e. cc e)
Kind-cases direct = inr (λ e. cc e)

not_zero : (n : ℕ) → (n == 0) ≡ false → 0 < n
not_zero n e = ground arith

module _ (h : Hwa) where
  open h use {Flash}

  pub record Begun (w w' : Writer Flash) (header : Header) (size : ℕ) : Type 0 where
    pub blocks : HasBlocks w'.write_block_size (payload_offset w.kind) (h.sectors w'.flash)
    pub small : w'.write_block_size ≤ 2048
    pub fits : payload_offset w.kind + size ≤ h.size w'.flash
    pub positive : 0 < size
    pub kind : w'.kind ≡ w.kind
    pub header_kept : w'.header ≡ header
    pub expected : w'.expected_size ≡ size
    pub counted : w'.bytes_written ≡ 0
    pub active : w'.active ≡ true
    pub unerased : w'.erased_sector ≡ none
    pub next : w'.next_offset ≡ payload_offset w.kind
    pub clean : w'.block_dirty ≡ false
    pub empty : w'.block_size ≡ 0
    pub buffer : w'.block_buffer ≡ w.block_buffer

  -- the writer after `reset` and `init`
  record Opened (w v : Writer Flash) : Type 0 where
    kind : v.kind ≡ w.kind
    bytes_written : v.bytes_written ≡ 0
    buffer : v.block_buffer ≡ w.block_buffer

  init-Opened : (w : Writer Flash) → Opened w (init h (reset w)).1
  unfolding init reset
  init-Opened w = elim (Bool-cases w.initialized) [
    | inl p ↦ record { kind = ground arith; bytes_written = ground arith; buffer = ground arith }
    | inr p ↦ record { kind = ground arith; bytes_written = ground arith; buffer = ground arith }
  ]

  capacity-room :
      (w : Writer Flash) (size : ℕ)
      → 0 < size
      → ltb (capacity h w) size ≡ false
      → payload_offset w.kind + size ≤ h.size w.flash
  unfolding capacity
  capacity-room w size pos e = ground arith

  stream_started :
      (w w₁ : Writer Flash) (header : Header) (size c : ℕ)
      → Opened w w₁
      → HasBlocks c (payload_offset w₁.kind) (h.sectors w₁.flash)
      → c ≤ 2048
      → 0 < size
      → payload_offset w₁.kind + size ≤ h.size w₁.flash
      → Begun w (start_stream h (record w₁ { write_block_size = c }) header size) header size
  stream_started w w₁ header size c o blocks small pos room = record {
    blocks = subst (λ k. HasBlocks c (payload_offset k) (h.sectors w₁.flash)) o.kind blocks;
    small = small;
    fits = subst (λ k. payload_offset k + size ≤ h.size w₁.flash) o.kind room;
    positive = pos;
    kind = o.kind;
    header_kept = refl;
    expected = refl;
    counted = o.bytes_written;
    active = refl;
    unerased = refl;
    next = ap payload_offset o.kind;
    clean = refl;
    empty = refl;
    buffer = o.buffer;
  }

  start_stream-Begun :
      (w w₁ w₂ : Writer Flash) (header : Header) (size : ℕ)
      → Opened w w₁
      → Prepared h w₁ w₂
      → 0 < size
      → ltb (capacity h w₂) size ≡ false
      → Begun w (start_stream h w₂ header size) header size
  start_stream-Begun w w₁ w₂ header size o p pos room =
      let room' : payload_offset w₁.kind + size ≤ h.size w₁.flash =
        subst (λ v. payload_offset v.kind + size ≤ h.size v.flash) p.rest
          (capacity-room w₂ size pos room) in
      subst (λ v. Begun w (start_stream h v header size) header size) (sym p.rest)
        (stream_started w w₁ header size w₂.write_block_size o p.blocks p.small pos room')

  -- the early returns of `StagedUpdateWriter::begin`
  abbrev choice :
      Kind → Bool → Bool → Writer Flash → Writer Flash → Writer Flash → Bool × Writer Flash
  choice k begun erased v v' aborted = elim k [
    | staged ↦ if not begun then (false, v) else if not erased then (false, aborted) else (true, v')
    | _ ↦ (begun, v)
  ]

  chosen :
      (k : Kind) (begun erased : Bool) (v v' aborted w' : Writer Flash)
      → choice k begun erased v v' aborted ≡ (true, w')
      → ((begun ≡ true) × (v ≡ w')) ⊎ ((begun ≡ true) × (erased ≡ true) × (v' ≡ w'))
  chosen staged true true v v' aborted w' e = inr (refl, refl, ground arith)
  chosen staged true false v v' aborted w' e = absurd (ground arith)
  chosen staged false erased v v' aborted w' e = absurd (ground arith)
  chosen base begun erased v v' aborted w' e = inl (ground arith, ground arith)
  chosen direct begun erased v v' aborted w' e = inl (ground arith, ground arith)

  module _ (cells : HasCells h) where
    base_begin-Begun :
        (w w' : Writer Flash) (header : Header) (size : ℕ)
        → base_begin h w header size ≡ (true, w')
        → Begun w w' header size
    unfolding base_begin
    base_begin-Begun w w' header size e =
        let w₁ = (init h (reset w)).1 in
        let w₂ = (prepare h w₁).1 in
        let (some_bytes, e₁) = guard_passed (size == 0) (reset w) w' _ e in
        let (opened, e₂) = guard_passed (not (init h (reset w)).0) w₁ w' _ e₁ in
        let (prepared, e₃) = guard_passed (not (prepare h w₁).0) w₂ w' _ e₂ in
        let (room, e₄) = guard_passed (ltb (capacity h w₂) size) w₂ w' _ e₃ in
        let same : start_stream h w₂ header size ≡ w' = ap (λ r. r.1) e₄ in
        let ready = not-false (prepare h w₁).0 prepared in
        subst (λ v. Begun w v header size) same
          (start_stream-Begun w w₁ w₂ header size (init-Opened w)
            (prepare-Prepared h cells w₁ w₂ (ap (λ t. (t, w₂)) ready)) (not_zero size some_bytes)
            room)

    -- The erased header leaves the layout as it is.
    erase_header_sectors-layout :
        (f : Flash) (ss : List Sector) (n : ℕ) (f' : Flash)
        → erase_header_sectors h f ss n ≡ (true, f')
        → (h.sectors f' ≡ h.sectors f) × (h.size f' ≡ h.size f)
    unfolding erase_header_sectors
    erase_header_sectors-layout f [] n f' e =
        let same : f ≡ f' = ground arith in (ap h.sectors (sym same), ap h.size (sym same))
    erase_header_sectors-layout f (s ∷ ss) n f' e =
        let (ok, f₁) = h.erase f s.offset s.size in
        elim (Bool-cases (leb 2048 n)) [
          | inl done ↦
              let same : f ≡ f' = ground arith in (ap h.sectors (sym same), ap h.size (sym same))
          | inr more ↦
              let erased : h.erase f s.offset s.size ≡ (true, f₁) = ground arith in
              let (same, size, _) = cells.erase_layout f s.offset s.size erased in
              let (same', size') =
                erase_header_sectors-layout f₁ ss ((s.offset + s.size) % 2 ^ 32) f'
                  (ground arith) in
              (same' ∙ same, size' ∙ size)
        ]

    header_erased :
        (w v w' : Writer Flash) (header : Header) (size : ℕ)
        → Begun w v header size
        → erase_header_sector h v ≡ (true, w')
        → Begun w w' header size
    unfolding erase_header_sector
    header_erased w v w' header size b e =
        let f' = (erase_header_sectors h v.flash (h.sectors v.flash) 0).1 in
        let (sectors_same, size_same) =
          erase_header_sectors-layout v.flash (h.sectors v.flash) 0 f' (ground arith) in
        let same : record v { flash = f' } ≡ w' = ground arith in
        subst (λ u. Begun w u header size) same
          (record {
            blocks =
                subst (HasBlocks v.write_block_size (payload_offset w.kind)) (sym sectors_same)
                  b.blocks;
            small = b.small;
            fits = subst (λ n. payload_offset w.kind + size ≤ n) (sym size_same) b.fits;
            positive = b.positive;
            kind = b.kind;
            header_kept = b.header_kept;
            expected = b.expected;
            counted = b.counted;
            active = b.active;
            unerased = b.unerased;
            next = b.next;
            clean = b.clean;
            empty = b.empty;
            buffer = b.buffer;
          })

    begin-steps :
        (w w' : Writer Flash) (header : Header) (size : ℕ)
        → begin h w header size ≡ (true, w')
        → (base_begin h w header size ≡ (true, w'))
          ⊎ ((v : Writer Flash) × (base_begin h w header size ≡ (true, v))
              × (erase_header_sector h v ≡ (true, w')))
    unfolding begin
    begin-steps w w' header size e =
        let (begun, v) = base_begin h w header size in
        let (erased, v') = erase_header_sector h v in
        elim (chosen w.kind begun erased v v' (abort h v') w' e) [
          | inl (p, same) ↦ inl (λ i. (p i, same i))
          | inr (p, q, same) ↦ inr (v, λ i. (p i, v), λ i. (q i, same i))
        ]

    pub begin-Begun :
        (w w' : Writer Flash) (header : Header) (size : ℕ)
        → begin h w header size ≡ (true, w')
        → Begun w w' header size
    begin-Begun w w' header size e = elim (begin-steps w w' header size e) [
      | inl r ↦ base_begin-Begun w w' header size r
      | inr (v, r, erased) ↦
          header_erased w v w' header size (base_begin-Begun w v header size r) erased
    ]
