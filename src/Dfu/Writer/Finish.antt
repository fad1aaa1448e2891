-- ===== src/Dfu/Writer/Finish.antt =====
-- `finish` of a writer that was given all bytes: the last block is padded and written, and the
-- commit leaves the cells of the payload alone.
use mathlib.Core.Path.{subst, subst₂}
use open_deck.Prelude.{
  ℕ, ◌+◌, ◌-◌, ◌≤◌, ◌<◌, ◌≡◌, ◌⊎◌, inl, inr, refl, sym, ap, ◌∙◌, Bool, true, false, not, List, ◌++◌,
  take, drop, replicate, get_or, if◌then◌else◌, arith, Bool-cases, lt_or_le, length, guard_passed,
  not-false, length-append, length-take, length-drop, length-replicate, get_or-take,
  get_or-append_left, get_or-append_right, get_or-replicate,
}
use open_deck.Dfu.Format.{Header}
use open_deck.Dfu.Flash.{Hwa, Sector, erased_byte}
use open_deck.Dfu.Flash.Cells.{HasCells}
use open_deck.Dfu.Writer.{
  Kind, staged, base, direct, Writer, payload_offset, finish, abort, write_block, write_header,
  base_commit, commit, commit_or_abort, clear_block,
}
use open_deck.Dfu.Writer.Sectors.{HasBlocks}
use open_deck.Dfu.Writer.Frontier.{write_block-Frontier}
use open_deck.Dfu.Writer.Bytes.{Buffered, Frontier-moved}

abbrev padded : List ℕ → ℕ → ℕ → List ℕ
padded buffer n c = take n buffer ++ replicate (c - n) erased_byte ++ drop c buffer

length-filled :
    (buffer : List ℕ) (n c : ℕ)
    → n ≤ c
    → n ≤ length buffer
    → length (take n buffer ++ replicate (c - n) erased_byte) ≡ c
length-filled buffer n c p q = omega (
  arith,
  length-append (take n buffer) (replicate (c - n) erased_byte),
  length-take n buffer,
  length-replicate (c - n) erased_byte,
)

padded-held :
    (buffer : List ℕ) (n c j : ℕ)
    → n ≤ c
    → n ≤ length buffer
    → j < n
    → get_or (padded buffer n c) j 0 ≡ get_or buffer j 0
padded-held buffer n c j s p q =
    get_or-append_left (take n buffer ++ replicate (c - n) erased_byte) (drop c buffer) j 0
      (omega (arith, length-filled buffer n c s p))
    ∙ get_or-append_left (take n buffer) (replicate (c - n) erased_byte) j 0
        (omega (arith, length-take n buffer))
    ∙ get_or-take n buffer j 0 q

padded-erased :
    (buffer : List ℕ) (n c j : ℕ)
    → n ≤ length buffer
    → n ≤ j
    → j < c
    → get_or (padded buffer n c) j 0 ≡ erased_byte
padded-erased buffer n c j p q r =
    let size : length (take n buffer) ≡ n = omega (arith, length-take n buffer) in
    get_or-append_left (take n buffer ++ replicate (c - n) erased_byte) (drop c buffer) j 0
      (omega (arith, length-filled buffer n c (omega arith) p))
    ∙ get_or-append_right (take n buffer) (replicate (c - n) erased_byte) j 0 (omega arith)
    ∙ get_or-replicate (c - n) (j - length (take n buffer)) erased_byte 0 (omega arith)

length-padded :
    (buffer : List ℕ) (n c : ℕ)
    → n ≤ c
    → c ≤ length buffer
    → length (padded buffer n c) ≡ length buffer
length-padded buffer n c p q = omega (
  arith,
  length-append (take n buffer ++ replicate (c - n) erased_byte) (drop c buffer),
  length-filled buffer n c p (omega arith),
  length-drop c buffer,
)

module _ (h : Hwa) (cells : HasCells h) where
  open h use {Flash}

  abbrev committed : Kind → Bool → Writer Flash → Writer Flash → Writer Flash → Bool × Writer Flash
  committed k written w₁ w₂ w₃ = elim k [
    | base ↦ (true, w₂)
    | staged ↦ if not written then (false, w₁) else (true, base_commit h w₁)
    | direct ↦ (true, w₃)
  ]

  committed-cases :
      (k : Kind) (written : Bool) (w₁ w₂ w₃ w' : Writer Flash)
      → committed k written w₁ w₂ w₃ ≡ (true, w')
      → (w₂ ≡ w') ⊎ (w₃ ≡ w') ⊎ ((k ≡ staged) × (written ≡ true) × (base_commit h w₁ ≡ w'))
  committed-cases base written w₁ w₂ w₃ w' e = inl (ap (λ r. r.1) e)
  committed-cases direct written w₁ w₂ w₃ w' e = inr (inl (ap (λ r. r.1) e))
  committed-cases staged true w₁ w₂ w₃ w' e = inr (inr (refl, refl, ap (λ r. r.1) e))
  committed-cases staged false w₁ w₂ w₃ w' e = absurd (ground arith)

  base_commit-flash : (w : Writer Flash) → (base_commit h w).flash ≡ w.flash
  unfolding base_commit
  base_commit-flash w = refl

  write_header-cells :
      (w : Writer Flash) (header : Header) (w' : Writer Flash) (i : ℕ)
      → length header ≤ 2048
      → write_header h w header ≡ (true, w')
      → 2048 ≤ i
      → cells.cell w'.flash i ≡ cells.cell w.flash i
  unfolding write_header
  write_header-cells w header w' i small e p =
      let bytes = header ++ drop (length header) (replicate 2048 erased_byte) in
      let (_, e₁) = guard_passed _ w w' _ e in
      let (ok, flash) = h.write w.flash 0 bytes in
      let written : h.write w.flash 0 bytes ≡ (true, w'.flash) = λ k. ((e₁ k).0, (e₁ k).1.flash) in
      cells.write_outside w.flash 0 bytes written i (
        inr (
          omega (
            arith,
            length-append header (drop (length header) (replicate 2048 erased_byte)),
            length-drop (length header) (replicate 2048 erased_byte),
            length-replicate 2048 erased_byte,
          )))

  commit-cells :
      (w : Writer Flash) (header : Header) (w' : Writer Flash) (i : ℕ)
      → length header ≤ 2048
      → commit h w header ≡ (true, w')
      → payload_offset w.kind ≤ i
      → cells.cell w'.flash i ≡ cells.cell w.flash i
  unfolding commit payload_offset
  commit-cells w header w' i small e p =
      let (written, w₁) = write_header h w header in
      let w₂ = base_commit h w in
      elim (committed-cases w.kind written w₁ w₂ _ w' e) [
        | inl same ↦
            ap (λ u. cells.cell u.flash i) (sym same)
            ∙ ap (λ f. cells.cell f i) (base_commit-flash w)
        | inr (inl same) ↦
            ap (λ u. cells.cell u.flash i) (sym same)
            ∙ ap (λ f. cells.cell f i) (base_commit-flash w)
        | inr (inr (is_staged, ok, same)) ↦
            let far : 2048 ≤ i = subst (λ k. payload_offset k ≤ i) is_staged p in
            ap (λ u. cells.cell u.flash i) (sym same)
            ∙ ap (λ f. cells.cell f i) (base_commit-flash w₁)
            ∙ write_header-cells w header w₁ i small (λ j. (ok j, w₁)) far
      ]

  abbrev settled : Bool × Writer Flash → Writer Flash → Bool × Writer Flash
  settled (ok, v) aborted = if ok then (true, v) else (false, aborted)

  settled-ok :
      (r : Bool × Writer Flash) (aborted w' : Writer Flash)
      → settled r aborted ≡ (true, w')
      → r ≡ (true, w')
  settled-ok (true, v) aborted w' e = e
  settled-ok (false, v) aborted w' e = absurd (ground arith)

  commit_or_abort-commit :
      (w w' : Writer Flash) → commit_or_abort h w ≡ (true, w') → commit h w w.header ≡ (true, w')
  unfolding commit_or_abort
  commit_or_abort-commit w w' e = settled-ok (commit h w w.header) _ w' e

  module _ (c start : ℕ) (ss : List Sector) (contents : ℕ → ℕ) (size : ℕ) where
    Stored : Writer Flash → Type 0
    Stored w = (i : ℕ) → start ≤ i → i < start + size → cells.cell w.flash i ≡ contents i

    last_block :
        (w v : Writer Flash)
        → HasBlocks c start ss
        → c ≤ 2048
        → ((i : ℕ) → start + size ≤ i → contents i ≡ erased_byte)
        → (b : Buffered h cells c start ss contents w size) → w.block_dirty ≡ true
        → write_block h
            (record w { block_buffer = padded w.block_buffer w.block_size w.write_block_size })
            w.block_offset
            (take w.write_block_size (padded w.block_buffer w.block_size w.write_block_size))
          ≡ (true, v)
        → Stored v × (v.kind ≡ w.kind) × (v.header ≡ w.header)
    unfolding Stored
    last_block w v blocks small beyond b dirty r = elim b.state [
      | inl (clean, _) ↦ absurd (ground arith)
      | inr (_, begun, part) ↦
          let block = b.frontier.block in
          let count = b.count in
          let buffer = b.buffer in
          let u : Writer Flash = record w { block_buffer = padded w.block_buffer w.block_size c } in
          let r' : write_block h u b.x (take c u.block_buffer) ≡ (true, v) =
            subst₂
              (λ o k.
                write_block h (record w { block_buffer = padded w.block_buffer w.block_size k }) o
                  (take k (padded w.block_buffer w.block_size k))
                ≡ (true, v))
              begun block r in
          let long = length-padded w.block_buffer w.block_size c (omega arith) (omega arith) in
          let (moved, rest) =
            write_block-Frontier h cells c start ss contents u b.x (take c u.block_buffer) v blocks
              (Frontier-moved h cells c start ss contents w u b.x refl refl refl b.frontier)
              (omega (arith, length-take c u.block_buffer))
              (λ i p q.
                get_or-take c u.block_buffer (i - b.x) 0 (omega arith)
                ∙ elim (lt_or_le (i - b.x) w.block_size) [
                  | inl near ↦
                      padded-held w.block_buffer w.block_size c (i - b.x) (omega arith)
                        (omega arith) near
                      ∙ b.held (i - b.x) near
                      ∙ ap contents (omega arith)
                  | inr far ↦
                      padded-erased w.block_buffer w.block_size c (i - b.x) (omega arith) far
                        (omega arith)
                      ∙ sym (beyond i (omega arith))
                ])
              r' in
          (λ i p q. moved.stored i p (omega arith), ap (λ t. t.kind) rest, ap (λ t. t.header) rest)
    ]

    committed-Stored :
        (w w' : Writer Flash)
        → commit_or_abort h w ≡ (true, w')
        → start ≡ payload_offset w.kind
        → length w.header ≤ 2048
        → Stored w
        → Stored w'
    unfolding Stored
    committed-Stored w w' e place small stored = λ i p q.
        commit-cells w w.header w' i small (commit_or_abort-commit w w' e) (omega arith)
        ∙ stored i p q

    clean-Stored :
        (w : Writer Flash)
        → 0 < c
        → Buffered h cells c start ss contents w size
        → w.block_dirty ≡ false
        → Stored w
    unfolding Stored
    clean-Stored w pos b clean = λ i p q. elim b.state [
      | inl (_, empty) ↦ let count = b.count in b.frontier.stored i p (omega arith)
      | inr (dirty, _, _) ↦ absurd (ground arith)
    ]

    pub finish-Stored :
        (w w' : Writer Flash)
        → HasBlocks c start ss
        → c ≤ 2048
        → ((i : ℕ) → start + size ≤ i → contents i ≡ erased_byte)
        → Buffered h cells c start ss contents w size
        → start ≡ payload_offset w.kind
        → length w.header ≤ 2048
        → finish h w ≡ (true, w')
        → (i : ℕ) → start ≤ i
        → i < start + size
        → cells.cell w'.flash i ≡ contents i
    unfolding finish Stored
    finish-Stored w w' blocks small beyond b place short e =
        let r =
          write_block h
            (record w { block_buffer = padded w.block_buffer w.block_size w.write_block_size })
            w.block_offset
            (take w.write_block_size (padded w.block_buffer w.block_size w.write_block_size)) in
        let (_, e₁) = guard_passed (not w.active) w w' _ e in
        let (_, e₂) = guard_passed _ (abort h w) w' _ e₁ in
        elim (Bool-cases w.block_dirty) [
          | inl dirty ↦
              let rest =
                if not r.0 then (false, abort h r.1) else commit_or_abort h (clear_block h r.1) in
              let e₃ : rest ≡ (true, w') =
                subst (λ d. (if not d then commit_or_abort h w else rest) ≡ (true, w')) dirty e₂ in
              let (ok, e₄) =
                guard_passed (not r.0) (abort h r.1) w' (commit_or_abort h (clear_block h r.1))
                  e₃ in
              let yes = not-false r.0 ok in
              let (stored, kind, header) =
                last_block w r.1 blocks small beyond b dirty (λ i. (yes i, r.1)) in
              committed-Stored (clear_block h r.1) w' e₄ (place ∙ ap payload_offset (sym kind))
                (subst (λ l. length l ≤ 2048) (sym header) short) stored
          | inr clean ↦
              let rest =
                if not r.0 then (false, abort h r.1) else commit_or_abort h (clear_block h r.1) in
              let e₃ : commit_or_abort h w ≡ (true, w') =
                subst (λ d. (if not d then commit_or_abort h w else rest) ≡ (true, w')) clean e₂ in
              committed-Stored w w' e₃ place short (clean-Stored w blocks.positive b clean)
        ]
