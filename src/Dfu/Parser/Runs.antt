-- ===== src/Dfu/Parser/Runs.antt =====
-- What `feed` does over a whole stage of the stream, as equations on the loop of `feed(std::span)`.
use Prim.Native.Nat.{bit_or}
use open_deck.Prelude.{
  ℕ, ◌≡◌, refl, arith, ◌∙◌, true, false, List, [], ◌∷◌, ◌++◌, ◌⊎◌, inl, inr, set,
}
use open_deck.Prelude.Bits.{shl32}
use open_deck.Dfu.Format.{
  Header, StreamStatus, complete, incomplete, invalid, start_command, word, expected_byte,
  payload_size, read_word, header_valid,
}
use open_deck.Dfu.Format.Words.{joined}
use open_deck.Dfu.Backend.{Backend}
use open_deck.Dfu.Parser.{
  Parser, ReceiveStage, initial, feed, feed_loop, process_start, process_metadata,
}

-- The parser after the start command.
abbrev pub at_metadata : {W : Type 0} → W → Parser W
at_metadata w = record (initial w) {
  stage = ReceiveStage.metadata;
  header = word start_command ++ (0 ∷ 0 ∷ 0 ∷ 0 ∷ 0 ∷ 0 ∷ 0 ∷ 0 ∷ 0 ∷ 0 ∷ 0 ∷ 0 ∷ []);
}

-- The parser in the payload, with `n` bytes of it handed on.
abbrev pub at_payload : {W : Type 0} → W → Header → ℕ → Parser W
at_payload w h n = record (initial w) {
  stage = ReceiveStage.payload;
  received_format_version = read_word h 1;
  received_uid = read_word h 2;
  expected_size = payload_size h;
  bytes_written = n;
  header = h;
  writer_active = true;
}

-- The parser in the end command, with `n` bytes of it seen.
abbrev pub at_end : {W : Type 0} → W → Header → ℕ → Parser W
at_end w h n = record (at_payload w h (payload_size h)) {
  stage = ReceiveStage.end;
  stage_bytes_received = n;
}

-- The parser in the metadata, before its last byte.
abbrev gathered : {W : Type 0} → W → ℕ → ℕ → ℕ → Header → Parser W
gathered w version uid size h = record (initial w) {
  stage = ReceiveStage.metadata;
  stage_bytes_received = 11;
  received_format_version = version;
  received_uid = uid;
  expected_size = size;
  header = h;
}

module _ (b : Backend) (uid : ℕ) where
  open b use {State}

  -- The loop goes on after a byte that leaves the stream incomplete, and stops at an invalid one.
  pub loop_more :
      (s : StreamStatus) (p : Parser State) {p' : Parser State} (x : ℕ) (rest : List ℕ)
      → feed b uid p x ≡ (incomplete, p')
      → feed_loop b uid s p (x ∷ rest) ≡ feed_loop b uid incomplete p' rest
  unfolding feed_loop
  loop_more s p x rest e = ground arith

  pub loop_complete :
      (s : StreamStatus) (p : Parser State) {p' : Parser State} (x : ℕ) (rest : List ℕ)
      → feed b uid p x ≡ (complete, p')
      → feed_loop b uid s p (x ∷ rest) ≡ feed_loop b uid complete p' rest
  unfolding feed_loop
  loop_complete s p x rest e = ground arith

  pub loop_stop :
      (s : StreamStatus) (p : Parser State) (x : ℕ) (rest : List ℕ)
      → (feed b uid p x).0 ≡ invalid
      → (feed_loop b uid s p (x ∷ rest)).0 ≡ invalid
  unfolding feed_loop
  loop_stop s p x rest e = rw (e, feed_loop)

  pub start_run :
      (w : State) (rest : List ℕ)
      → feed_loop b uid incomplete (initial w) (word start_command ++ rest)
        ≡ feed_loop b uid incomplete (at_metadata w) rest
  unfolding feed_loop feed process_start expected_byte
  start_run w rest = refl

  last_ok :
      (w w' : State) (version u size : ℕ) (h : Header) (x : ℕ)
      → let h' = set h 15 x in
        let size' = bit_or size (shl32 x 24) in
        header_valid uid h' ≡ true
        → b.begin w h' size' ≡ (true, w')
        → feed b uid (gathered w version u size h) x ≡ (
          incomplete,
          record (gathered w' version u size' h') {
            stage = ReceiveStage.payload;
            stage_bytes_received = 0;
            writer_active = true;
          },
        )
  unfolding feed process_metadata
  last_ok w w' version u size h x v e = rw (v, e)

  last_bad :
      (w : State) (version u size : ℕ) (h : Header) (x : ℕ)
      → let h' = set h 15 x in
        (header_valid uid h' ≡ false)
          ⊎ ((header_valid uid h' ≡ true) × ((b.begin w h' (bit_or size (shl32 x 24))).0 ≡ false))
        → (feed b uid (gathered w version u size h) x).0 ≡ invalid
  unfolding feed process_metadata
  last_bad w version u size h x (inl v) = rw v
  last_bad w version u size h x (inr (v, e)) = rw (v, e)

  module _ (m0 m1 m2 m3 m4 m5 m6 m7 m8 m9 m10 m11 : ℕ) where
    abbrev pub metadata_bytes : List ℕ
    metadata_bytes = m0 ∷ m1 ∷ m2 ∷ m3 ∷ m4 ∷ m5 ∷ m6 ∷ m7 ∷ m8 ∷ m9 ∷ m10 ∷ m11 ∷ []

    abbrev pub received : Header
    received = word start_command ++ metadata_bytes

    metadata_first :
        (w : State) (rest : List ℕ)
        → feed_loop b uid incomplete (at_metadata w) (metadata_bytes ++ rest)
          ≡ feed_loop b uid incomplete
              (gathered w
                (joined m0 m1 m2 m3)
                (joined m4 m5 m6 m7)
                (bit_or (bit_or (bit_or 0 (shl32 m8 0)) (shl32 m9 8)) (shl32 m10 16))
                (word start_command
                  ++ (m0 ∷ m1 ∷ m2 ∷ m3 ∷ m4 ∷ m5 ∷ m6 ∷ m7 ∷ m8 ∷ m9 ∷ m10 ∷ 0 ∷ [])))
              (m11 ∷ rest)
    unfolding feed_loop feed process_metadata
    metadata_first w rest = refl

    -- Twelve bytes of metadata take the parser to the payload, if the header is valid and the
    -- writer begins; else they end in `Invalid`.
    pub metadata_ok :
        (w w' : State) (rest : List ℕ)
        → header_valid uid received ≡ true
        → b.begin w received (payload_size received) ≡ (true, w')
        → feed_loop b uid incomplete (at_metadata w) (metadata_bytes ++ rest)
          ≡ feed_loop b uid incomplete (at_payload w' received 0) rest
    unfolding payload_size read_word
    metadata_ok w w' rest v e =
        metadata_first w rest
        ∙ loop_more incomplete _ m11 rest (
            last_ok w w' _ _ _
              (word start_command
                ++ (m0 ∷ m1 ∷ m2 ∷ m3 ∷ m4 ∷ m5 ∷ m6 ∷ m7 ∷ m8 ∷ m9 ∷ m10 ∷ 0 ∷ []))
              m11 v e)

    pub metadata_bad :
        (w : State) (rest : List ℕ)
        → (header_valid uid received ≡ false)
          ⊎ ((header_valid uid received ≡ true)
              × ((b.begin w received (payload_size received)).0 ≡ false))
        → (feed_loop b uid incomplete (at_metadata w) (metadata_bytes ++ rest)).0 ≡ invalid
    unfolding payload_size read_word
    metadata_bad w rest h = rw (metadata_first w rest) (
        loop_stop incomplete _ m11 rest (
          last_bad w _ _ _
            (word start_command ++ (m0 ∷ m1 ∷ m2 ∷ m3 ∷ m4 ∷ m5 ∷ m6 ∷ m7 ∷ m8 ∷ m9 ∷ m10 ∷ 0 ∷ []))
            m11 h))
