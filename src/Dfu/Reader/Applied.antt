-- ===== src/Dfu/Reader/Applied.antt =====
-- What `consume` does when it returns true.
use mathlib.Core.Path.{subst}
use open_deck.Prelude.{
  ℕ, zero, suc, ◌+◌, ◌-◌, ◌^◌, ◌≤◌, ◌<◌, ◌≡◌, ◌⊎◌, inl, inr, refl, sym, ap, ◌∙◌, Bool, true, List,
  none, some, get_or, arith, length, get_or-beyond, get_or-default, min, lt_or_le,
}
use open_deck.Dfu.Format.{Header, header_valid, payload_size}
use open_deck.Dfu.Flash.{Hwa, Sector, erased_byte}
use open_deck.Dfu.Flash.Cells.{HasCells, cells_from, cells_from-payload}
use open_deck.Dfu.Writer.{Writer, payload_offset, writer_backend, header_storage_size, begin}
use open_deck.Dfu.Writer.Sectors.{HasBlocks}
use open_deck.Dfu.Writer.Begin.{begin-Begun}
use open_deck.Dfu.Writer.Finish.{finish-Stored}
use open_deck.Dfu.Writer.Stored.{Writing, Begun-Writing}
use open_deck.Dfu.Writer.Chunks.{write-Chunk}
use open_deck.Dfu.Reader.{
  piece_start, buffer_size, header_size, Copied, copied, unread, rejected, copy_payload,
  conclude_copy, consume,
}
use open_deck.Dfu.Reader.Cases.{
  piece_size, copy_payload-cases, copy_payload-end, conclude_copy-cases, consume-cases,
}

-- A read that succeeds gives the cells of the range.
pub record HasReads (r : Hwa) : Type 0 where
  pub cell : r.Flash → ℕ → ℕ
  pub reads :
      (f : r.Flash) (offset size : ℕ) (bytes : List ℕ)
      → r.read f offset size ≡ some bytes
      → bytes ≡ cells_from (cell f) offset size

-- A piece of the payload in the staged area cannot be read.
pub Unread : (r : Hwa) → r.Flash → ℕ → Type 0
Unread r area size =
    (offset : ℕ) × (offset < size)
    × (r.read area (piece_start offset) (min buffer_size (size - offset)) ≡ none)

Unread-of :
    (r : Hwa) (area : r.Flash) (size offset : ℕ)
    → offset < size
    → r.read area (piece_start offset) (piece_size size offset) ≡ none
    → Unread r area size
unfolding Unread
Unread-of r area size offset p bad = (offset, p, bad)

length-cells_from : (cell : ℕ → ℕ) (x n : ℕ) → length (cells_from cell x n) ≡ n
length-cells_from cell x zero = refl
length-cells_from cell x (suc n) = ap suc (length-cells_from cell (x + 1) n)

get_or-cells_from :
    (cell : ℕ → ℕ) (x n j d : ℕ) → j < n → get_or (cells_from cell x n) j d ≡ cell (x + j)
get_or-cells_from cell x zero j d p = absurd (omega arith)
get_or-cells_from cell x (suc n) zero d p = ap cell (omega arith)
get_or-cells_from cell x (suc n) (suc j) d p =
    get_or-cells_from cell (x + 1) n j d (omega arith) ∙ ap cell (omega arith)

module _ (r : Hwa) (reads : HasReads r) (clear_pending : r.Flash → Bool × r.Flash) (h : Hwa)
    (cells : HasCells h) (uid : ℕ) where
  open h use {Flash}

  -- the payload of the staged area, as the contents of the area of the writer
  abbrev staged_contents : r.Flash → ℕ → ℕ → ℕ → ℕ
  staged_contents area start size k =
      get_or (cells_from (reads.cell area) header_storage_size size) (k - start) erased_byte

  abbrev copy_into : ℕ → ℕ → ℕ → r.Flash → Writer Flash → Copied × Writer Flash
  copy_into = copy_payload r clear_pending (writer_backend h) uid

  piece-contents :
      (area : r.Flash) (start size offset n : ℕ) (bytes : List ℕ)
      → r.read area (piece_start offset) n ≡ some bytes
      → offset + n ≤ size
      → header_storage_size + size < 2 ^ 32
      → (length bytes ≡ n)
        × ((j : ℕ)
            → j < n
            → staged_contents area start size (start + offset + j) ≡ get_or bytes j 0)
  piece-contents area start size offset n bytes ok p room =
      let cell = reads.cell area in
      let same = reads.reads area (piece_start offset) n bytes ok in
      (
        ap length same ∙ length-cells_from cell (piece_start offset) n,
        λ j q.
            ap (λ k. get_or (cells_from cell header_storage_size size) k erased_byte) (omega arith)
            ∙ get_or-cells_from cell header_storage_size size (offset + j) erased_byte (omega arith)
            ∙ ap cell (omega arith)
            ∙ sym (get_or-cells_from cell (piece_start offset) n j 0 q)
            ∙ ap (λ l. get_or l j 0) (sym same),
      )

  piece-bounds :
      (size offset rounds : ℕ)
      → offset < size
      → size ≤ offset + suc rounds
      → (offset + piece_size size offset ≤ size) × (size ≤ offset + piece_size size offset + rounds)
  piece-bounds size offset rounds p q = (omega arith, omega arith)

  abbrev Target : r.Flash → ℕ → ℕ → ℕ → List Sector → Writer Flash → ℕ → Type 0
  Target area start size c ss = Writing h cells c start ss (staged_contents area start size) size

  -- The loop ends at an unreadable piece, at a rejected one, or with all of the payload written.
  copy_payload-Writing :
      (area : r.Flash) (start size c : ℕ) (ss : List Sector) (rounds offset : ℕ) (w : Writer Flash)
      (out : Copied × Writer Flash)
      → HasBlocks c start ss
      → c ≤ 2048
      → start + size < 2 ^ 32
      → header_storage_size + size < 2 ^ 32
      → size ≤ offset + rounds
      → offset ≤ size
      → Target area start size c ss w offset
      → copy_into rounds size offset area w ≡ out
      → ((out.0 ≡ unread) × Unread r area size)
        ⊎ (out.0 ≡ rejected)
        ⊎ ((out.0 ≡ copied) × Target area start size c ss out.1 size)
  copy_payload-Writing area start size c ss zero offset w out b small fits room enough q t e =
      let is =
        copy_payload-end r clear_pending (writer_backend h) uid zero size offset area w out
          (inl refl) e in
      let done : offset ≡ size = omega arith in
      inr (
        inr (
          ap (λ o. o.0) is,
          subst (λ o. Target area start size c ss o.1 size) (sym is)
              (subst (Target area start size c ss w) done t),
        ))
  copy_payload-Writing area start size c ss (suc rounds) offset w out b small fits room enough q t
        e =
      elim (lt_or_le offset size) [
        | inr p ↦
            let is =
              copy_payload-end r clear_pending (writer_backend h) uid (suc rounds) size offset area
                w out (inr p) e in
            let done : offset ≡ size = omega arith in
            inr (
              inr (
                ap (λ o. o.0) is,
                subst (λ o. Target area start size c ss o.1 size) (sym is)
                    (subst (Target area start size c ss w) done t),
              ))
        | inl p ↦
            elim (copy_payload-cases r clear_pending (writer_backend h) uid rounds size offset area
              w out p e) [
                | inl (bad, is) ↦ inl (is, Unread-of r area size offset p bad)
                | inr (inl is) ↦ inr (inl is)
                | inr (inr (bytes, v, ok, written, more)) ↦
                    let n = piece_size size offset in
                    let (inside, left) = piece-bounds size offset rounds p enough in
                    let (len, same) =
                      piece-contents area start size offset n bytes ok inside room in
                    let t' =
                      write-Chunk h cells c start ss (staged_contents area start size) size w offset
                        bytes v b small (omega arith) t (λ j k. same j (omega arith)) written in
                    copy_payload-Writing area start size c ss rounds (offset + n) v out b small fits
                      room left inside
                      (subst (λ m. Target area start size c ss v (offset + m)) len t') more
              ]
      ]

  apply_update-Applied :
      (area area' : r.Flash) (w v w' : Writer Flash) (header : Header) (size : ℕ)
      → length w.block_buffer ≡ 2048
      → length header ≤ 2048
      → header_storage_size + size < 2 ^ 32
      → begin h w header size ≡ (true, v)
      → conclude_copy r clear_pending (writer_backend h) uid area (copy_into size size 0 area v)
        ≡ (true, area', w')
      → Unread r area size
        ⊎ (cells_from (cells.cell w'.flash) (payload_offset w.kind) size
            ≡ cells_from (reads.cell area) header_storage_size size)
  apply_update-Applied area area' w v w' header size buffer short room begun e =
      let s = begin-Begun h cells w v header size begun in
      let start = payload_offset w.kind in
      let c = v.write_block_size in
      let ss = h.sectors v.flash in
      let fits = s.fits in
      let limit = cells.size_fits v.flash in
      let contents = staged_contents area start size in
      let payload = cells_from (reads.cell area) header_storage_size size in
      let len : length payload ≡ size =
        length-cells_from (reads.cell area) header_storage_size size in
      let out = copy_into size size 0 area v in
      let ends = conclude_copy-cases r clear_pending (writer_backend h) uid area area' out w' e in
      elim (copy_payload-Writing area start size c ss size 0 v out s.blocks s.small (omega arith)
        room (omega arith) (omega arith)
        (Begun-Writing h cells w v header size contents short buffer s) refl) [
          | inl (_, u) ↦ inl u
          | inr (inl is) ↦ elim ends [
            | inl u ↦ absurd (cc (u, is))
            | inr (u, _) ↦ absurd (cc (u, is))
          ]
          | inr (inr (is, t)) ↦ elim ends [
            | inl u ↦ absurd (cc (u, is))
            | inr (_, done) ↦
                let stored =
                  finish-Stored h cells c start ss contents size out.1 w' s.blocks s.small
                    (λ k q. get_or-beyond payload (k - start) erased_byte (omega arith)) t.buffered
                    t.placed t.short done in
                inr (
                  subst (λ n. cells_from (cells.cell w'.flash) start n ≡ payload) len
                    (cells_from-payload (cells.cell w'.flash) start payload (λ i p.
                      stored (start + i) (omega arith) (omega arith)
                      ∙ ap (λ k. get_or payload k erased_byte) (omega arith)
                      ∙ get_or-default payload i erased_byte 0 p)))
          ]
        ]

  -- When a call returns true, the staged area starts with a valid header, and either a piece of the
  -- payload that the header announces could not be read, or the payload is in the flash area of the
  -- writer, from the payload offset of its class on. The writer, of any of the three classes, may
  -- have been in any state, with a buffer of 2048 bytes; a read that succeeds gives the bytes that
  -- the staged area holds, the announced payload ends below 2^32 in the staged area, and the flash
  -- area of the writer keeps to its documentation.
  pub consume-Applied :
      (area area' : r.Flash) (w w' : Writer Flash)
      → length w.block_buffer ≡ 2048
      → header_storage_size
          + payload_size (cells_from (reads.cell (r.open_area area).1) 0 header_size)
        < 2 ^ 32
      → consume r clear_pending (writer_backend h) uid area w ≡ (true, area', w')
      → let cell = reads.cell (r.open_area area).1 in
        let header = cells_from cell 0 header_size in
        let size = payload_size header in
        (header_valid uid header ≡ true)
        × (Unread r (r.open_area area).1 size
            ⊎ (cells_from (cells.cell w'.flash) (payload_offset w.kind) size
                ≡ cells_from cell header_storage_size size))
  consume-Applied area area' w w' buffer room e =
      let a = (r.open_area area).1 in
      let (header, v, ok, valid, begun, more) =
        consume-cases r clear_pending (writer_backend h) uid area area' w w' e in
      let same = reads.reads a 0 header_size header ok in
      let len : length header ≡ 16 = ap length same in
      subst
        (λ hd.
          (header_valid uid hd ≡ true)
          × (Unread r a (payload_size hd)
              ⊎ (cells_from (cells.cell w'.flash) (payload_offset w.kind) (payload_size hd)
                  ≡ cells_from (reads.cell a) header_storage_size (payload_size hd))))
        same
        (
          valid,
          apply_update-Applied a area' w v w' header (payload_size header) buffer (omega arith)
              (subst (λ hd. header_storage_size + payload_size hd < 2 ^ 32) (sym same) room) begun
              more,
        )
