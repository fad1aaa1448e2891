-- ===== src/Dfu/Parser/Prefix.antt =====
-- A stream that ends in `Complete` starts with the start command and has all of the metadata.
use open_deck.Prelude.{ℕ, ◌+◌, ◌<◌, ◌≡◌, refl, List, [], ◌∷◌, ◌++◌, length, set, arith}
use native.Mathlib.Decide.{ℕ_discrete}
use open_deck.Dfu.Format.{Header, complete, incomplete, invalid, start_command, word, expected_byte}
use open_deck.Dfu.Backend.{Backend}
use open_deck.Dfu.Parser.{
  Parser, ReceiveStage, initial, feed, feed_loop, process_start, process_metadata,
}
use open_deck.Dfu.Parser.Runs.{at_metadata, loop_more, loop_stop}

-- The parser in the start command, with `n` bytes of it seen.
abbrev at_start : {W : Type 0} → W → Header → ℕ → Parser W
at_start w h n = record (initial w) { header = h; stage_bytes_received = n }

module _ (b : Backend) (uid : ℕ) where
  open b use {State}

  start_more :
      (w : State) (h : Header) (n x : ℕ)
      → n < 3
      → expected_byte start_command n ≡ x
      → feed b uid (at_start w h n) x ≡ (incomplete, at_start w (set h n x) (n + 1))
  unfolding feed process_start
  start_more w h n x lt e = ground arith

  start_bad :
      (w : State) (h : Header) (n x : ℕ)
      → ¬ (expected_byte start_command n ≡ x)
      → (feed b uid (at_start w h n) x).0 ≡ invalid
  unfolding feed process_start
  start_bad w h n x e = ground arith

  start_byte :
      (w : State) (h : Header) (n x : ℕ) (rest : List ℕ)
      → n < 3
      → (feed_loop b uid incomplete (at_start w h n) (x ∷ rest)).0 ≡ complete
      → (expected_byte start_command n ≡ x)
        × ((feed_loop b uid incomplete (at_start w (set h n x) (n + 1)) rest).0 ≡ complete)
  start_byte w h n x rest lt e = elim (ℕ_discrete (expected_byte start_command n) x) [
    | yes same ↦ (same, rw (loop_more b uid incomplete _ x rest (start_more w h n x lt same)) at e)
    | no other ↦ cc (loop_stop b uid incomplete _ x rest (start_bad w h n x other))
  ]

  start_byte_last :
      (w : State) (h : Header) (x : ℕ) (rest : List ℕ)
      → (feed_loop b uid incomplete (at_start w h 3) (x ∷ rest)).0 ≡ complete
      → expected_byte start_command 3 ≡ x
  start_byte_last w h x rest e = elim (ℕ_discrete (expected_byte start_command 3) x) [
    | yes same ↦ same
    | no other ↦ cc (loop_stop b uid incomplete _ x rest (start_bad w h 3 x other))
  ]

  pub start_sound :
      (w : State) (bytes : List ℕ)
      → (feed_loop b uid incomplete (initial w) bytes).0 ≡ complete
      → (rest : List ℕ) × (bytes ≡ word start_command ++ rest)
  unfolding feed_loop expected_byte
  start_sound w [] e = cc
  start_sound w (x ∷ []) e = let (_, r0) = start_byte w _ 0 x [] (omega arith) e in cc r0
  start_sound w (x ∷ y ∷ []) e =
      let (_, r0) = start_byte w _ 0 x (y ∷ []) (omega arith) e in
      let (_, r1) = start_byte w _ 1 y [] (omega arith) r0 in cc r1
  start_sound w (x ∷ y ∷ z ∷ []) e =
      let (_, r0) = start_byte w _ 0 x (y ∷ z ∷ []) (omega arith) e in
      let (_, r1) = start_byte w _ 1 y (z ∷ []) (omega arith) r0 in
      let (_, r2) = start_byte w _ 2 z [] (omega arith) r1 in cc r2
  start_sound w (x ∷ y ∷ z ∷ t ∷ rest) e =
      let (e0, r0) = start_byte w _ 0 x (y ∷ z ∷ t ∷ rest) (omega arith) e in
      let (e1, r1) = start_byte w _ 1 y (z ∷ t ∷ rest) (omega arith) r0 in
      let (e2, r2) = start_byte w _ 2 z (t ∷ rest) (omega arith) r1 in
      let e3 = start_byte_last w _ t rest r2 in (rest, cc)

  -- Before its last byte the metadata only gathers.
  metadata_more :
      (p : Parser State) (x : ℕ)
      → p.status ≡ incomplete
      → p.stage ≡ ReceiveStage.metadata
      → p.stage_bytes_received < 11
      → let (s, p') = feed b uid p x in
        (s ≡ incomplete)
        × (p'.status ≡ incomplete)
        × (p'.stage ≡ ReceiveStage.metadata)
        × (p'.stage_bytes_received ≡ p.stage_bytes_received + 1)
  unfolding feed process_metadata
  metadata_more p x status stage lt = ground arith

  metadata_short :
      (bytes : List ℕ) (p : Parser State)
      → p.status ≡ incomplete
      → p.stage ≡ ReceiveStage.metadata
      → p.stage_bytes_received + length bytes < 12
      → (feed_loop b uid incomplete p bytes).0 ≡ incomplete
  unfolding feed_loop
  metadata_short [] p status stage lt = refl
  metadata_short (x ∷ bytes) p status stage lt =
      let (s, st, sg, n) = metadata_more p x status stage (omega arith) in
      rw (s, feed_loop) (metadata_short bytes (feed b uid p x).1 st sg (omega (arith, n)))

  -- Fewer than twelve bytes of metadata leave the stream incomplete.
  pub metadata_incomplete :
      (w : State) (bytes : List ℕ)
      → length bytes < 12
      → (feed_loop b uid incomplete (at_metadata w) bytes).0 ≡ incomplete
  metadata_incomplete w bytes lt = metadata_short bytes (at_metadata w) refl refl (omega arith)
