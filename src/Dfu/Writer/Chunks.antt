-- ===== src/Dfu/Writer/Chunks.antt =====
-- `write` with more than one byte, as the reader of staged updates calls it.
use mathlib.Core.Path.{subst}
use open_deck.Prelude.{
  ℕ, suc, ◌+◌, ◌%◌, ◌^◌, ◌≤◌, ◌<◌, ◌≡◌, inl, inr, refl, sym, ap, ◌∙◌, true, not, List, [], ◌∷◌,
  get_or, arith, length, guard_passed, not-false, Bool-cases,
}
use open_deck.Dfu.Flash.{Hwa, Sector}
use open_deck.Dfu.Flash.Cells.{HasCells}
use open_deck.Dfu.Writer.{Writer, payload_offset, write, write_bytes, write_byte, abort}
use open_deck.Dfu.Writer.Sectors.{HasBlocks}
use open_deck.Dfu.Writer.Bytes.{Buffered, Kept, Kept-trans, write_byte-Buffered, Buffered-counted}
use open_deck.Dfu.Writer.Stored.{Writing}

Kept-refl : {F : Type 0} (w : Writer F) → Kept w w
Kept-refl w = record {
  kind = refl;
  header = refl;
  expected_size = refl;
  bytes_written = refl;
  active = refl;
}

module _ (h : Hwa) where
  open h use {Flash}

  -- One round of the loop of `write`.
  write_bytes-cons :
      (w w' : Writer Flash) (byte : ℕ) (bytes : List ℕ)
      → write_bytes h w (byte ∷ bytes) ≡ (true, w')
      → (v : Writer Flash) × (write_byte h w byte ≡ (true, v))
        × (write_bytes h v bytes ≡ (true, w'))
  unfolding write_bytes
  write_bytes-cons w w' byte bytes e = elim (Bool-cases (write_byte h w byte).0) [
    | inl ok ↦ ((write_byte h w byte).1, ground arith, ground (arith, ok))
    | inr bad ↦ absurd (ground (arith, bad))
  ]

module _ (h : Hwa) (cells : HasCells h) (c start : ℕ) (ss : List Sector) (contents : ℕ → ℕ)
    (size : ℕ) where
  open h use {Flash}

  write_bytes-Buffered :
      (w : Writer Flash) (n : ℕ) (bytes : List ℕ) (w' : Writer Flash)
      → HasBlocks c start ss
      → c ≤ 2048
      → start + n + length bytes < 2 ^ 32
      → Buffered h cells c start ss contents w n
      → ((j : ℕ) → j < length bytes → contents (start + n + j) ≡ get_or bytes j 0)
      → write_bytes h w bytes ≡ (true, w')
      → Buffered h cells c start ss contents w' (n + length bytes) × Kept w w'
  unfolding write_bytes
  write_bytes-Buffered w n [] w' b small fits s same e =
      let q = ap (λ r. r.1) e in
      let add_0 : n ≡ n + length {A = ℕ} [] = omega arith in
      (
        subst (λ u. Buffered h cells c start ss contents u (n + length {A = ℕ} [])) q
            (subst (Buffered h cells c start ss contents w) add_0 s),
        subst (λ u. Kept w u) q (Kept-refl w),
      )
  write_bytes-Buffered w n (x ∷ bytes) w' b small fits s same e =
      let (v, written, more) = write_bytes-cons h w w' x bytes e in
      let (t, kept) =
        write_byte-Buffered h cells c start ss contents w n x v b small (omega arith) s
          (ap contents (omega arith) ∙ same 0 (omega arith)) written in
      let (t', kept') =
        write_bytes-Buffered v (n + 1) bytes w' b small (omega arith) t
          (λ j p. ap contents (omega arith) ∙ same (suc j) (omega arith)) more in
      let add_suc : n + 1 + length bytes ≡ n + length (x ∷ bytes) = omega arith in
      (subst (Buffered h cells c start ss contents w') add_suc t', Kept-trans kept kept')

  -- A piece of the contents.
  pub write-Chunk :
      (w : Writer Flash) (n : ℕ) (bytes : List ℕ) (w' : Writer Flash)
      → HasBlocks c start ss
      → c ≤ 2048
      → start + n + length bytes < 2 ^ 32
      → Writing h cells c start ss contents size w n
      → ((j : ℕ) → j < length bytes → contents (start + n + j) ≡ get_or bytes j 0)
      → write h w bytes ≡ (true, w')
      → Writing h cells c start ss contents size w' (n + length bytes)
  unfolding write
  write-Chunk w n bytes w' b small fits r same e =
      let s = write_bytes h w bytes in
      let v = s.1 in
      let (_, e₁) = guard_passed (not w.active) w w' _ e in
      let (_, e₂) = guard_passed _ (abort h w) w' _ e₁ in
      let (ok, e₃) = guard_passed (not s.0) (abort h v) w' _ e₂ in
      let done : s ≡ (true, v) = ap (λ t. (t, v)) (not-false s.0 ok) in
      let (t, kept) = write_bytes-Buffered w n bytes v b small fits r.buffered same done in
      let k = kept.bytes_written in
      let m = r.counted in
      subst (λ u. Writing h cells c start ss contents size u (n + length bytes)) (ap (λ q. q.1) e₃)
        (record {
          buffered =
              Buffered-counted h cells c start ss contents v (n + length bytes)
                ((v.bytes_written + length bytes) % 2 ^ 32) t;
          counted = omega arith;
          expected = kept.expected_size ∙ r.expected;
          active = kept.active ∙ r.active;
          placed = r.placed ∙ ap payload_offset (sym kept.kind);
          short = subst (λ l. length l ≤ 2048) (sym kept.header) r.short;
        })
