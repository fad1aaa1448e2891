-- ===== src/Dfu/Parser/Stream.antt =====
-- The parser accepts exactly the streams of its target that its writer takes.
use mathlib.Core.Path.{subst, subst₂, ap₂}
use open_deck.Prelude.{
  ℕ, ◌^◌, ◌<◌, ◌≡◌, ap, sym, ◌∙◌, true, List, ◌∷◌, ◌++◌, length, some, arith, inl, inr, AreBytes,
  Bool-cases,
}
use open_deck.Dfu.Format.{
  Header, complete, incomplete, start_command, end_command, word, stream, header_of, payload_size,
  header_valid,
}
use open_deck.Dfu.Format.Words.{header_of_valid, header_of-valid, payload_size-lt}
use open_deck.Dfu.Backend.{Backend, transfer}
use open_deck.Dfu.Backend.Laws.{transfer-begin, transfer-begin_of}
use open_deck.Dfu.Parser.{Parser, initial, feed_loop, feed_span}
use open_deck.Dfu.Parser.Runs.{
  at_payload, at_metadata, start_run, metadata_ok, metadata_bad, received,
}
use open_deck.Dfu.Parser.Prefix.{start_sound, metadata_incomplete}
use open_deck.Dfu.Parser.Payload.{finished, payload_run, payload-Sound}

module _ (b : Backend) (uid : ℕ) where
  open b use {State}

  -- What a stream was, that the parser found complete.
  pub record Accepted (w : State) (bytes : List ℕ) (p : Parser State) : Type 0 where
    pub payload : List ℕ
    pub nonempty : 0 < length payload
    pub shape : bytes ≡ stream uid payload
    pub sent :
        transfer b w (header_of uid (length payload)) (length payload) payload ≡ some p.writer
    pub counted : p.bytes_written ≡ length payload

module _ (b : Backend) (uid : ℕ) (uid_fits : uid < 2 ^ 32) where
  open b use {State}

  -- For a target UID of 32 bits: a new parser fed with the stream of a payload, of between 1 and 2^32 - 1 bytes, whose transfer
  -- the writer takes, returns `Complete`, and ends in the stage `Done`, with the writer that the
  -- transfer leaves and with all bytes of the payload counted.
  pub feed_span-stream :
      (w w' : State) (payload : List ℕ)
      → 0 < length payload
      → length payload < 2 ^ 32
      → transfer b w (header_of uid (length payload)) (length payload) payload ≡ some w'
      → feed_span b uid (initial w) (stream uid payload)
        ≡ (complete, finished w' (header_of uid (length payload)))
  unfolding feed_span
  feed_span-stream w w' payload pos fits e =
      let n = length payload in
      let h = header_of uid n in
      let (v, size) = header_of-valid uid n uid_fits fits pos in
      let (w₁, begun, sent) = transfer-begin b w h n payload e in
      start_run b uid w (word 1 ++ word uid ++ word n ++ payload ++ word end_command)
      ∙ metadata_ok b uid _ _ _ _ _ _ _ _ _ _ _ _ w w₁ (payload ++ word end_command) v
          (rw size begun)
      ∙ payload_run b uid h (omega (arith, size)) w₁ w' 0 payload (omega (arith, size))
          (omega (arith, size)) sent

  -- From the payload on, after a header that the writer has begun with.
  from_payload :
      (w w₁ : State) (h : Header) (rest : List ℕ)
      → payload_size h < 2 ^ 32
      → 0 < payload_size h
      → h ≡ header_of uid (payload_size h)
      → b.begin w h (payload_size h) ≡ (true, w₁)
      → let (s, p) = feed_loop b uid incomplete (at_payload w₁ h 0) rest in
        s ≡ complete → Accepted b uid w (h ++ rest) p
  from_payload w w₁ h rest fits pos shape begun e =
      let r = payload-Sound b uid h fits w₁ 0 rest pos e in
      let n = length r.payload in
      let size : payload_size h ≡ n = omega (arith, r.sized) in
      let header : h ≡ header_of uid n = shape ∙ ap (header_of uid) size in
      record {
        payload = r.payload;
        nonempty = omega (arith, size);
        shape = ap₂ ◌++◌ header r.shape;
        sent =
            transfer-begin_of b w w₁ (header_of uid n) n r.payload
              (subst₂ (λ g k. b.begin w g k ≡ (true, w₁)) header size begun)
            ∙ r.sent;
        counted = ap (λ q. q.bytes_written) r.final ∙ size;
      }

  metadata_sound :
      (w : State) (bytes : List ℕ)
      → AreBytes bytes
      → let (s, p) = feed_loop b uid incomplete (at_metadata w) bytes in
        s ≡ complete → Accepted b uid w (word start_command ++ bytes) p
  metadata_sound w (m0 ∷ m1 ∷ m2 ∷ m3 ∷ m4 ∷ m5 ∷ m6 ∷ m7 ∷ m8 ∷ m9 ∷ m10 ∷ m11 ∷ rest) are e =
      elim (Bool-cases (header_valid uid h)) [
        | inr bad ↦ cc (metadata_bad b uid m0 m1 m2 m3 m4 m5 m6 m7 m8 m9 m10 m11 w rest (inl bad))
        | inl v ↦ elim (Bool-cases (b.begin w h (payload_size h)).0) [
          | inr bad ↦
              cc (metadata_bad b uid m0 m1 m2 m3 m4 m5 m6 m7 m8 m9 m10 m11 w rest (inr (v, bad)))
          | inl begun ↦
              let w₁ = (b.begin w h (payload_size h)).1 in
              let go =
                metadata_ok b uid m0 m1 m2 m3 m4 m5 m6 m7 m8 m9 m10 m11 w w₁ rest v
                  (ground arith) in
              let (shape, pos) =
                header_of_valid uid m0 m1 m2 m3 m4 m5 m6 m7 m8 m9 m10 m11 (omega arith)
                  (omega arith) (omega arith) v in
              subst (λ q. Accepted b uid w (h ++ rest) q.1) (sym go)
                (from_payload w w₁ h rest
                  (payload_size-lt uid m0 m1 m2 m3 m4 m5 m6 m7 m8 m9 m10 m11 (omega arith)
                    (omega arith) (omega arith))
                  pos shape (ground arith) (ap (λ q. q.0) (sym go) ∙ e))
        ]
      ]
    where
      h : Header
      h = received b uid m0 m1 m2 m3 m4 m5 m6 m7 m8 m9 m10 m11
  metadata_sound w l are e = cc (metadata_incomplete b uid w l (omega arith))

  -- For a target UID of 32 bits: a new parser that returns `Complete` for a sequence of bytes was given exactly the stream of a
  -- payload that is not empty, its writer took the transfer of that payload and is left as the
  -- transfer leaves it, and the parser has counted the bytes of the payload.
  pub feed_span-Accepted :
      (w : State) (bytes : List ℕ)
      → AreBytes bytes
      → let (s, p) = feed_span b uid (initial w) bytes in s ≡ complete → Accepted b uid w bytes p
  unfolding feed_span
  feed_span-Accepted w bytes are e =
      let (rest, shape) = start_sound b uid w bytes e in
      let whole = ap (feed_loop b uid incomplete (initial w)) shape ∙ start_run b uid w rest in
      let are_all : AreBytes (word start_command ++ rest) = subst AreBytes shape are in
      subst₂ (λ l q. Accepted b uid w l q.1) (sym shape) (sym whole)
        (metadata_sound w rest are_all.1.1.1.1 (ap (λ q. q.0) (sym whole) ∙ e))
