-- ===== src/Dfu/Writer/Bytes.antt =====
-- The block buffer of a writer between the bytes that it is given.
use mathlib.Core.Path.{subst, subst₂}
use open_deck.Prelude.{
  ℕ, ◌+◌, ◌-◌, ◌%◌, ◌^◌, ◌≤◌, ◌<◌, ◌≡◌, ◌⊎◌, inl, inr, refl, sym, ap, ◌∙◌, true, false, not, List,
  ◌==◌, if◌then◌else◌, arith, Bool-cases, lt_or_le, length, get_or, set, take, length-set,
  length-take, get_or-set_self, get_or-set_ne, get_or-take,
}
use open_deck.Dfu.Flash.{Hwa, Sector}
use open_deck.Dfu.Flash.Cells.{HasCells}
use open_deck.Dfu.Writer.{Writer, write_block, buffer_byte, write_byte}
use open_deck.Dfu.Writer.Sectors.{HasBlocks}
use open_deck.Dfu.Writer.Frontier.{Frontier, write_block-Frontier}

-- What writing the payload leaves alone.
pub record Kept {F : Type 0} (w w' : Writer F) : Type 0 where
  pub kind : w'.kind ≡ w.kind
  pub header : w'.header ≡ w.header
  pub expected_size : w'.expected_size ≡ w.expected_size
  pub bytes_written : w'.bytes_written ≡ w.bytes_written
  pub active : w'.active ≡ w.active

pub Kept-trans : {F : Type 0} {u v w : Writer F} → Kept u v → Kept v w → Kept u w
Kept-trans a b = record {
  kind = b.kind ∙ a.kind;
  header = b.header ∙ a.header;
  expected_size = b.expected_size ∙ a.expected_size;
  bytes_written = b.bytes_written ∙ a.bytes_written;
  active = b.active ∙ a.active;
}

module _ (h : Hwa) where
  open h use {Flash}

  -- a byte goes into the buffer
  abbrev pushed : Writer Flash → ℕ → Writer Flash
  pushed w byte = record w {
    block_buffer = set w.block_buffer w.block_size byte;
    block_size = w.block_size + 1;
    next_offset = (w.next_offset + 1) % 2 ^ 32;
  }

  -- a block is started
  abbrev started : Writer Flash → Writer Flash
  started w =
      if not w.block_dirty
      then record w { block_offset = w.next_offset; block_size = 0; block_dirty = true }
      else w

  abbrev cleared : Writer Flash → Writer Flash
  cleared w = record w { block_offset = 0; block_size = 0; block_dirty = false }

  buffer_byte-cases :
      (w : Writer Flash) (byte : ℕ) (w' : Writer Flash)
      → buffer_byte h w byte ≡ (true, w')
      → ((w.block_size + 1 ≡ w.write_block_size)
          × (v : Writer Flash) × (write_block h
                (pushed w byte)
                w.block_offset
                (take w.write_block_size (set w.block_buffer w.block_size byte))
              ≡ (true, v))
          × (w' ≡ cleared v))
        ⊎ ((w.block_size + 1 < w.write_block_size) × (w' ≡ pushed w byte))
  unfolding buffer_byte
  buffer_byte-cases w byte w' e =
      let r =
        write_block h (pushed w byte) w.block_offset
          (take w.write_block_size (set w.block_buffer w.block_size byte)) in
      elim (Bool-cases (w.block_size + 1 == w.write_block_size)) [
        | inl p ↦ inl (ground arith, r.1, ground arith, ground arith)
        | inr p ↦ inr (ground arith, ground arith)
      ]

  module _ (cells : HasCells h) (c start : ℕ) (ss : List Sector) (contents : ℕ → ℕ) where
    abbrev Front : Writer Flash → ℕ → Type 0
    Front = Frontier h cells c start ss contents

    -- The bytes since the frontier are in the buffer.
    record Filling (w : Writer Flash) (x n : ℕ) : Type 0 where
      frontier : Front w x
      count : x + w.block_size ≡ start + n
      next : w.next_offset ≡ start + n
      buffer : length w.block_buffer ≡ 2048
      held : (j : ℕ) → j < w.block_size → get_or w.block_buffer j 0 ≡ contents (x + j)
      dirty : w.block_dirty ≡ true
      begun : w.block_offset ≡ x
      partial : w.block_size < c

    -- `n` bytes of the contents were given.
    pub record Buffered (w : Writer Flash) (n : ℕ) : Type 0 where
      pub x : ℕ
      pub frontier : Front w x
      pub count : x + w.block_size ≡ start + n
      pub next : w.next_offset ≡ start + n
      pub buffer : length w.block_buffer ≡ 2048
      pub held : (j : ℕ) → j < w.block_size → get_or w.block_buffer j 0 ≡ contents (x + j)
      pub state :
          ((w.block_dirty ≡ false) × (w.block_size ≡ 0))
          ⊎ ((w.block_dirty ≡ true) × (w.block_offset ≡ x) × (w.block_size < c))

    pub Frontier-moved :
        (w v : Writer Flash) (x : ℕ)
        → v.flash ≡ w.flash
        → v.erased_sector ≡ w.erased_sector
        → v.write_block_size ≡ w.write_block_size
        → Front w x
        → Front v x
    Frontier-moved w v x e₁ e₂ e₃ f = record {
      sectors = ap h.sectors e₁ ∙ f.sectors;
      block = e₃ ∙ f.block;
      after = f.after;
      multiple = f.multiple;
      stored = λ i p q. ap (λ t. cells.cell t i) e₁ ∙ f.stored i p q;
      ready = elim f.ready [
        | inl (e, p) ↦ inl (e₂ ∙ e, p)
        | inr (k, s, e, l, p, blank) ↦
            inr (k, s, e₂ ∙ e, l, p, λ i q r. ap (λ t. cells.cell t i) e₁ ∙ blank i q r)
      ];
    }

    pub Buffered-counted :
        (w : Writer Flash) (n m : ℕ) → Buffered w n → Buffered (record w { bytes_written = m }) n
    Buffered-counted w n m b = record {
      x = b.x;
      frontier = Frontier-moved w (record w { bytes_written = m }) b.x refl refl refl b.frontier;
      count = b.count;
      next = b.next;
      buffer = b.buffer;
      held = b.held;
      state = b.state;
    }

    started-Filling :
        (w : Writer Flash) (n : ℕ)
        → 0 < c
        → (b : Buffered w n) → Filling (started w) b.x n × Kept w (started w)
    started-Filling w n pos b = elim b.state [
      | inl (clean, empty) ↦
          let v : Writer Flash = record w {
            block_offset = w.next_offset;
            block_size = 0;
            block_dirty = true;
          } in
          let same : v ≡ started w = ground arith in
          let count = b.count in
          let next = b.next in
          subst (λ u. Filling u b.x n × Kept w u) same
            (
              record {
                frontier = Frontier-moved w v b.x refl refl refl b.frontier;
                count = omega arith;
                next = b.next;
                buffer = b.buffer;
                held = λ j p. absurd (omega arith);
                dirty = refl;
                begun = omega arith;
                partial = pos;
              },
              record {
                kind = refl;
                header = refl;
                expected_size = refl;
                bytes_written = refl;
                active = refl;
              },
            )
      | inr (dirty, begun, partial) ↦
          let same : w ≡ started w = ground arith in
          subst (λ u. Filling u b.x n × Kept w u) same
            (
              record {
                frontier = b.frontier;
                count = b.count;
                next = b.next;
                buffer = b.buffer;
                held = b.held;
                dirty = dirty;
                begun = begun;
                partial = partial;
              },
              record {
                kind = refl;
                header = refl;
                expected_size = refl;
                bytes_written = refl;
                active = refl;
              },
            )
    ]

    pushed-held :
        (w : Writer Flash) (x n byte : ℕ)
        → c ≤ 2048
        → Filling w x n
        → contents (start + n) ≡ byte
        → (j : ℕ) → j < w.block_size + 1
        → get_or (set w.block_buffer w.block_size byte) j 0 ≡ contents (x + j)
    pushed-held w x n byte small f e j p =
        let part = f.partial in
        let count = f.count in
        let buffer = f.buffer in
        elim (lt_or_le j w.block_size) [
          | inl q ↦ get_or-set_ne w.block_buffer w.block_size j byte 0 (omega arith) ∙ f.held j q
          | inr q ↦
              let same : w.block_size ≡ j = omega arith in
              ap (λ k. get_or (set w.block_buffer w.block_size byte) k 0) (sym same)
              ∙ get_or-set_self w.block_buffer w.block_size byte 0 (omega arith)
              ∙ sym e
              ∙ ap contents (omega arith)
        ]

    block_full :
        (w : Writer Flash) (x n byte : ℕ) (v : Writer Flash)
        → HasBlocks c start ss
        → c ≤ 2048
        → start + n + 1 < 2 ^ 32
        → Filling w x n
        → contents (start + n) ≡ byte
        → w.block_size + 1 ≡ w.write_block_size
        → write_block h
            (pushed w byte)
            w.block_offset
            (take w.write_block_size (set w.block_buffer w.block_size byte))
          ≡ (true, v)
        → Buffered (cleared v) (n + 1) × Kept w (cleared v)
    block_full w x n byte v b small fits f e full r =
        let buffer = set w.block_buffer w.block_size byte in
        let front = Frontier-moved w (pushed w byte) x refl refl refl f.frontier in
        let block = front.block in
        let count = f.count in
        let next = f.next in
        let long : length buffer ≡ 2048 = length-set w.block_buffer w.block_size byte ∙ f.buffer in
        let r' : write_block h (pushed w byte) x (take c buffer) ≡ (true, v) =
          subst₂ (λ o k. write_block h (pushed w byte) o (take k buffer) ≡ (true, v)) f.begun block
            r in
        let (moved, rest) =
          write_block-Frontier h cells c start ss contents (pushed w byte) x (take c buffer) v b
            front (omega (arith, length-take c buffer))
            (λ i p q.
              get_or-take c buffer (i - x) 0 (omega arith)
              ∙ pushed-held w x n byte small f e (i - x) (omega arith)
              ∙ ap contents (omega arith))
            r' in
        (
          record {
            x = x + c;
            frontier = Frontier-moved v (cleared v) (x + c) refl refl refl moved;
            count = omega arith;
            next = ap (λ u. u.next_offset) rest ∙ omega arith;
            buffer = ap (λ u. length u.block_buffer) rest ∙ long;
            held = λ j p. absurd (omega arith);
            state = inl (refl, refl);
          },
          record {
            kind = ap (λ u. u.kind) rest;
            header = ap (λ u. u.header) rest;
            expected_size = ap (λ u. u.expected_size) rest;
            bytes_written = ap (λ u. u.bytes_written) rest;
            active = ap (λ u. u.active) rest;
          },
        )

    block_partial :
        (w : Writer Flash) (x n byte : ℕ)
        → c ≤ 2048
        → start + n + 1 < 2 ^ 32
        → Filling w x n
        → contents (start + n) ≡ byte
        → w.block_size + 1 < w.write_block_size
        → Buffered (pushed w byte) (n + 1) × Kept w (pushed w byte)
    block_partial w x n byte small fits f e more =
        let front = Frontier-moved w (pushed w byte) x refl refl refl f.frontier in
        let block = front.block in
        let count = f.count in
        let next = f.next in
        (
          record {
            x = x;
            frontier = front;
            count = omega arith;
            next = omega arith;
            buffer = length-set w.block_buffer w.block_size byte ∙ f.buffer;
            held = pushed-held w x n byte small f e;
            state = inr (f.dirty, f.begun, omega arith);
          },
          record {
            kind = refl;
            header = refl;
            expected_size = refl;
            bytes_written = refl;
            active = refl;
          },
        )

    -- The next byte of the contents.
    pub write_byte-Buffered :
        (w : Writer Flash) (n byte : ℕ) (w' : Writer Flash)
        → HasBlocks c start ss
        → c ≤ 2048
        → start + n + 1 < 2 ^ 32
        → Buffered w n
        → contents (start + n) ≡ byte
        → write_byte h w byte ≡ (true, w')
        → Buffered w' (n + 1) × Kept w w'
    unfolding write_byte
    write_byte-Buffered w n byte w' b small fits s e r =
        let (f, kept) = started-Filling w n b.positive s in
        let u = started w in
        let r' : buffer_byte h u byte ≡ (true, w') = ground arith in
        elim (buffer_byte-cases u byte w' r') [
          | inl (full, v, written, rest) ↦
              let (t, kept') = block_full u s.x n byte v b small fits f e full written in
              subst (λ t'. Buffered t' (n + 1) × Kept w t') (sym rest) (t, Kept-trans kept kept')
          | inr (more, rest) ↦
              let (t, kept') = block_partial u s.x n byte small fits f e more in
              subst (λ t'. Buffered t' (n + 1) × Kept w t') (sym rest) (t, Kept-trans kept kept')
        ]
