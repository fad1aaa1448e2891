-- ===== src/Dfu/Reader/Cases.antt =====
-- What the loop and the ends of `consume` say about the calls that they made.
use open_deck.Prelude.{
  ℕ, zero, suc, ◌+◌, ◌-◌, ◌≤◌, ◌<◌, ◌≡◌, ◌⊎◌, inl, inr, refl, sym, ap, ◌∙◌, Bool, true, List, none,
  some, arith, Bool-cases, Option-cases, ltb, min, lt→ltb,
}
use open_deck.Dfu.Format.{Header, header_valid, payload_size}
use open_deck.Dfu.Backend.{Backend}
use open_deck.Dfu.Flash.{Hwa}
use open_deck.Dfu.Reader.{
  piece_start, buffer_size, header_size, Copied, copied, unread, rejected, copy_payload,
  conclude_copy, apply_update, consume_header, consume,
}

abbrev pub piece_size : ℕ → ℕ → ℕ
piece_size size offset = min buffer_size (size - offset)

module _ (r : Hwa) (clear_pending : r.Flash → Bool × r.Flash) (b : Backend) (uid : ℕ) where
  open r use {Flash}
  open b use {State}

  abbrev pub copy : ℕ → ℕ → ℕ → Flash → State → Copied × State
  copy = copy_payload r clear_pending b uid

  -- What a round does before the loop goes on or ends.
  pub copy_payload-cases :
      (rounds size offset : ℕ) (area : Flash) (w : State) (c : Copied × State)
      → offset < size
      → copy (suc rounds) size offset area w ≡ c
      → ((r.read area (piece_start offset) (piece_size size offset) ≡ none) × (c.0 ≡ unread))
        ⊎ (c.0 ≡ rejected)
        ⊎ ((bytes : List ℕ) × (v : State) × (r.read area
                (piece_start offset)
                (piece_size size offset)
              ≡ some bytes)
            × (b.write w bytes ≡ (true, v))
            × (copy rounds size (offset + piece_size size offset) area v ≡ c))
  unfolding copy_payload
  copy_payload-cases rounds size offset area w c p e =
      let x = piece_start offset in
      let n = piece_size size offset in
      let on = lt→ltb offset size p in
      elim (Option-cases (r.read area x n)) [
        | inl bad ↦ inl (bad, ap (λ q. q.0) (sym e) ∙ rw (copy_payload, on, bad))
        | inr (bytes, ok) ↦ elim (Bool-cases (b.write w bytes).0) [
          | inl good ↦ inr (
              inr (
                bytes,
                (b.write w bytes).1,
                ok,
                λ i. (good i, (b.write w bytes).1),
                (rw (copy_payload, on, ok, good)) ∙ e,
              ))
          | inr wrong ↦ inr (inl (ap (λ q. q.0) (sym e) ∙ rw (copy_payload, on, ok, wrong)))
        ]
      ]

  -- The loop ends with no round left, or with no byte left.
  pub copy_payload-end :
      (rounds size offset : ℕ) (area : Flash) (w : State) (c : Copied × State)
      → (rounds ≡ 0) ⊎ (size ≤ offset)
      → copy rounds size offset area w ≡ c
      → c ≡ (copied, w)
  unfolding copy_payload
  copy_payload-end zero size offset area w c p e = sym e
  copy_payload-end (suc rounds) size offset area w c (inl p) e = absurd (omega arith)
  copy_payload-end (suc rounds) size offset area w c (inr p) e =
      elim (Bool-cases (ltb offset size)) [
        | inl on ↦ absurd (ground arith)
        | inr off ↦ sym e ∙ rw (copy_payload, off)
      ]

  pub conclude_copy-cases :
      (area area' : Flash) (c : Copied × State) (w' : State)
      → conclude_copy r clear_pending b uid area c ≡ (true, area', w')
      → (c.0 ≡ unread) ⊎ ((c.0 ≡ copied) × (b.finish c.1 ≡ (true, w')))
  unfolding conclude_copy
  conclude_copy-cases area area' (unread, w) w' e = inl refl
  conclude_copy-cases area area' (rejected, w) w' e = absurd (ground arith)
  conclude_copy-cases area area' (copied, w) w' e = elim (Bool-cases (b.finish w).0) [
    | inl ok ↦ inr (refl, ground arith)
    | inr bad ↦ absurd (ground arith)
  ]

  -- A call that returns true has begun to write the update of the staged header.
  pub consume-cases :
      (area area' : Flash) (w w' : State)
      → consume r clear_pending b uid area w ≡ (true, area', w')
      → (header : Header) × (v : State) × (r.read (r.open_area area).1 0 header_size ≡ some header)
        × (header_valid uid header ≡ true)
        × (b.begin w header (payload_size header) ≡ (true, v))
        × (conclude_copy r clear_pending b uid
              (r.open_area area).1
              (copy (payload_size header) (payload_size header) 0 (r.open_area area).1 v)
            ≡ (true, area', w'))
  unfolding consume consume_header apply_update
  consume-cases area area' w w' e =
      let a = (r.open_area area).1 in
      elim (Bool-cases (r.open_area area).0) [
        | inr closed ↦ absurd (ground arith)
        | inl opened ↦ elim (Option-cases (r.read a 0 header_size)) [
          | inl bad ↦ absurd (ground (arith, bad))
          | inr (header, ok) ↦ elim (Bool-cases (header_valid uid header)) [
            | inr invalid ↦ absurd (ground (arith, ok))
            | inl valid ↦ elim (Bool-cases (b.begin w header (payload_size header)).0) [
              | inr wrong ↦ absurd (ground (arith, ok))
              | inl good ↦ (
                header,
                (b.begin w header (payload_size header)).1,
                ok,
                valid,
                λ i. (good i, (b.begin w header (payload_size header)).1),
                ground (arith, ok),
              )
            ]
          ]
        ]
      ]
