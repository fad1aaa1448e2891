-- ===== src/Dfu/Writer/Stored.antt =====
-- A transfer that a writer takes leaves the payload in the flash area.
use mathlib.Core.Path.{subst}
use open_deck.Prelude.{
  ℕ, suc, ◌+◌, ◌-◌, ◌%◌, ◌^◌, ◌≤◌, ◌<◌, ◌≡◌, inl, refl, sym, ap, ◌∙◌, Bool, true, false, not, List,
  [], ◌∷◌, get_or, some, arith, length, guard_passed, not-false, get_or-beyond, get_or-default,
}
use open_deck.Dfu.Format.{Header}
use open_deck.Dfu.Backend.{transfer, delivered}
use open_deck.Dfu.Flash.{Hwa, Sector, erased_byte}
use open_deck.Dfu.Flash.Cells.{HasCells, cells_from, cells_from-payload}
use open_deck.Dfu.Writer.{
  Writer, payload_offset, write, write_bytes, write_byte, abort, writer_backend,
}
use open_deck.Dfu.Writer.Sectors.{HasBlocks}
use open_deck.Dfu.Backend.Laws.{delivered-nil, delivered-cons, transfer-begin}
use open_deck.Dfu.Writer.Finish.{finish-Stored}
use open_deck.Dfu.Writer.Begin.{Begun, begin-Begun}
use open_deck.Dfu.Writer.Bytes.{Buffered, write_byte-Buffered, Buffered-counted}

module _ (h : Hwa) (cells : HasCells h) (c start : ℕ) (ss : List Sector) (contents : ℕ → ℕ)
    (size : ℕ) where
  open h use {Flash}

  pub record Writing (w : Writer Flash) (n : ℕ) : Type 0 where
    pub buffered : Buffered h cells c start ss contents w n
    pub counted : w.bytes_written ≡ n
    pub expected : w.expected_size ≡ size
    pub active : w.active ≡ true
    pub placed : start ≡ payload_offset w.kind
    pub short : length w.header ≤ 2048

  one_byte : (r : Bool × Writer Flash) → elim r.0 [ true ↦ (true, r.1) | false ↦ (false, r.1) ] ≡ r
  one_byte (true, v) = refl
  one_byte (false, v) = refl

  write_bytes-one :
      (w : Writer Flash) (byte : ℕ) → write_bytes h w (byte ∷ []) ≡ write_byte h w byte
  unfolding write_bytes
  write_bytes-one w byte = one_byte (write_byte h w byte)

  write_steps :
      (w : Writer Flash) (byte : ℕ) (w' : Writer Flash)
      → write h w (byte ∷ []) ≡ (true, w')
      → w.active ≡ true
      → (v : Writer Flash) × (write_byte h w byte ≡ (true, v))
        × (record v { bytes_written = (v.bytes_written + 1) % 2 ^ 32 } ≡ w')
  unfolding write
  write_steps w byte w' e on =
      let r = write_byte h w byte in
      let w₁ = abort h w in
      let w₂ = abort h (write_bytes h w (byte ∷ [])).1 in
      let (_, e₁) = guard_passed (not w.active) w w' _ e in
      let (_, e₂) = guard_passed _ w₁ w' _ e₁ in
      let (ok, e₃) = guard_passed (not (write_bytes h w (byte ∷ [])).0) w₂ w' _ e₂ in
      let one = write_bytes-one w byte in
      let done = sym (ap (λ q. q.0) one) ∙ not-false (write_bytes h w (byte ∷ [])).0 ok in
      (
        r.1,
        λ i. (done i, r.1),
        ap (λ (u : Writer Flash). record u { bytes_written = (u.bytes_written + 1) % 2 ^ 32 })
              (sym (ap (λ q. q.1) one))
            ∙ ap (λ q. q.1) e₃,
      )

  write-Writing :
      (w : Writer Flash) (n byte : ℕ) (w' : Writer Flash)
      → HasBlocks c start ss
      → c ≤ 2048
      → start + n + 1 < 2 ^ 32
      → Writing w n
      → contents (start + n) ≡ byte
      → write h w (byte ∷ []) ≡ (true, w')
      → Writing w' (n + 1)
  write-Writing w n byte w' b small fits r e done =
      let (v, written, same) = write_steps w byte w' done r.active in
      let (s, kept) =
        write_byte-Buffered h cells c start ss contents w n byte v b small fits r.buffered e
          written in
      let k = kept.bytes_written in
      let m = r.counted in
      subst (λ u. Writing u (n + 1)) same
        (record {
          buffered =
              Buffered-counted h cells c start ss contents v (n + 1)
                ((v.bytes_written + 1) % 2 ^ 32) s;
          counted = omega arith;
          expected = kept.expected_size ∙ r.expected;
          active = kept.active ∙ r.active;
          placed = r.placed ∙ ap payload_offset (sym kept.kind);
          short = subst (λ l. length l ≤ 2048) (sym kept.header) r.short;
        })

  delivered-stored :
      (w : Writer Flash) (n : ℕ) (rest : List ℕ) (w' : Writer Flash)
      → HasBlocks c start ss
      → c ≤ 2048
      → ((i : ℕ) → start + size ≤ i → contents i ≡ erased_byte)
      → start + size < 2 ^ 32
      → n + length rest ≡ size
      → ((j : ℕ) → j < length rest → contents (start + n + j) ≡ get_or rest j 0)
      → Writing w n
      → delivered (writer_backend h) w rest ≡ some w'
      → (i : ℕ) → start ≤ i
      → i < start + size
      → cells.cell w'.flash i ≡ contents i
  delivered-stored w n [] w' b small beyond fits whole same r e =
      let done : n ≡ size = omega arith in
      finish-Stored h cells c start ss contents size w w' b small beyond
        (subst (Buffered h cells c start ss contents w) done r.buffered) r.placed r.short
        (delivered-nil (writer_backend h) w e)
  delivered-stored w n (x ∷ rest) w' b small beyond fits whole same r e =
      let (v, written, more) = delivered-cons (writer_backend h) w x rest e in
      delivered-stored v (n + 1) rest w' b small beyond fits (omega arith)
        (λ j p. ap contents (omega arith) ∙ same (suc j) (omega arith))
        (write-Writing w n x v b small (omega arith) r
          (ap contents (omega arith) ∙ same 0 (omega arith)) written)
        more

module _ (h : Hwa) (cells : HasCells h) where
  open h use {Flash}

  -- A writer that has begun has written nothing yet.
  pub Begun-Writing :
      (w v : Writer Flash) (header : Header) (size : ℕ) (contents : ℕ → ℕ)
      → length header ≤ 2048
      → length w.block_buffer ≡ 2048
      → Begun h w v header size
      → Writing h cells v.write_block_size
          (payload_offset w.kind)
          (h.sectors v.flash)
          contents
          size
          v
          0
  Begun-Writing w v header size contents short buffer s =
      let start = payload_offset w.kind in
      let next = s.next in
      let empty = s.empty in
      record {
        buffered = record {
          x = start;
          frontier = record {
            sectors = refl;
            block = refl;
            after = omega arith;
            multiple = s.blocks.aligned;
            stored = λ k q r. absurd (omega arith);
            ready = inl (s.unerased, refl);
          };
          count = omega arith;
          next = omega arith;
          buffer = ap length s.buffer ∙ buffer;
          held = λ j q. absurd (omega arith);
          state = inl (s.clean, s.empty);
        };
        counted = s.counted;
        expected = s.expected;
        active = s.active;
        placed = ap payload_offset (sym s.kind);
        short = subst (λ l. length l ≤ 2048) (sym s.header_kept) short;
      }

  payload_stored :
      (w w' : Writer Flash) (header : Header) (payload : List ℕ)
      → length w.block_buffer ≡ 2048
      → length header ≤ 2048
      → transfer (writer_backend h) w header (length payload) payload ≡ some w'
      → (i : ℕ) → i < length payload
      → cells.cell w'.flash (payload_offset w.kind + i) ≡ get_or payload i 0
  payload_stored w w' header payload buffer short e i p =
      let (v, begun, sent) =
        transfer-begin (writer_backend h) w header (length payload) payload e in
      let s = begin-Begun h cells w v header (length payload) begun in
      let start = payload_offset w.kind in
      let contents : ℕ → ℕ = λ k. get_or payload (k - start) erased_byte in
      let fits = s.fits in
      let limit = cells.size_fits v.flash in
      let next = s.next in
      let empty = s.empty in
      delivered-stored h cells v.write_block_size start (h.sectors v.flash) contents
        (length payload) v 0 payload w' s.blocks s.small
        (λ k q. get_or-beyond payload (k - start) erased_byte (omega arith)) (omega arith)
        (omega arith)
        (λ j q.
          ap (λ k. get_or payload k erased_byte) (omega arith)
          ∙ get_or-default payload j erased_byte 0 q)
        (Begun-Writing w v header (length payload) contents short buffer s) sent (start + i)
        (omega arith) (omega arith)
      ∙ ap (λ k. get_or payload k erased_byte) (omega arith)
      ∙ get_or-default payload i erased_byte 0 p

  -- A transfer that a writer takes, of any of the three classes, leaves the payload in the flash
  -- area, from the payload offset of the class on; the writer may have been in any state, with a
  -- buffer of 2048 bytes, and the header has at most that length.
  pub transfer-stored :
      (w w' : Writer Flash) (header : Header) (payload : List ℕ)
      → length w.block_buffer ≡ 2048
      → length header ≤ 2048
      → transfer (writer_backend h) w header (length payload) payload ≡ some w'
      → cells_from (cells.cell w'.flash) (payload_offset w.kind) (length payload) ≡ payload
  transfer-stored w w' header payload buffer short e =
      cells_from-payload (cells.cell w'.flash) (payload_offset w.kind) payload
        (payload_stored w w' header payload buffer short e)
