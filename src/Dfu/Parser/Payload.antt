-- ===== src/Dfu/Parser/Payload.antt =====
-- The payload and the end command, byte by byte and as whole runs of the loop.
use open_deck.Prelude.{
  ℕ, ◌+◌, ◌^◌, ◌<◌, ◌≡◌, refl, ap, ◌≢◌, inl, inr, Bool-cases, ◌∙◌, true, false, List, [], ◌∷◌, ◌++◌,
  length, some, arith,
}
use native.Mathlib.Decide.{ℕ_discrete}
use open_deck.Dfu.Format.{
  Header, complete, incomplete, invalid, end_command, word, expected_byte, payload_size,
}
use open_deck.Dfu.Backend.{Backend, delivered}
use open_deck.Dfu.Backend.Laws.{delivered-nil, delivered-nil_of, delivered-cons, delivered-cons_of}
use open_deck.Dfu.Parser.{Parser, ReceiveStage, feed, feed_loop, process_payload, process_end}
use open_deck.Dfu.Parser.Runs.{at_payload, at_end, loop_more, loop_complete, loop_stop}

-- The parser after the whole stream.
abbrev pub finished : {W : Type 0} → W → Header → Parser W
finished w h = record (at_end w h 4) {
  stage = ReceiveStage.done;
  status = complete;
  writer_active = false;
}

module _ (b : Backend) (uid : ℕ) where
  open b use {State, write, finish}

  module _ (h : Header) (fits : payload_size h < 2 ^ 32) where
    payload_more :
        (w w' : State) (n x : ℕ)
        → write w (x ∷ []) ≡ (true, w')
        → n + 1 < payload_size h
        → feed b uid (at_payload w h n) x ≡ (incomplete, at_payload w' h (n + 1))
    unfolding feed process_payload
    payload_more w w' n x e lt = ground arith

    payload_last :
        (w w' : State) (n x : ℕ)
        → write w (x ∷ []) ≡ (true, w')
        → n + 1 ≡ payload_size h
        → feed b uid (at_payload w h n) x ≡ (incomplete, at_end w' h 0)
    unfolding feed process_payload
    payload_last w w' n x e last = ground arith

  payload_bad :
      (w : State) (h : Header) (n x : ℕ)
      → (write w (x ∷ [])).0 ≡ false
      → (feed b uid (at_payload w h n) x).0 ≡ invalid
  unfolding feed process_payload
  payload_bad w h n x e = ground arith

  end_more :
      (w : State) (h : Header) (n x : ℕ)
      → n < 3
      → expected_byte end_command n ≡ x
      → feed b uid (at_end w h n) x ≡ (incomplete, at_end w h (n + 1))
  unfolding feed process_end
  end_more w h n x lt e = ground arith

  end_bad :
      (w : State) (h : Header) (n x : ℕ)
      → expected_byte end_command n ≢ x
      → (feed b uid (at_end w h n) x).0 ≡ invalid
  unfolding feed process_end
  end_bad w h n x e = ground arith

  end_last_ok :
      (w w' : State) (h : Header) (x : ℕ)
      → expected_byte end_command 3 ≡ x
      → finish w ≡ (true, w')
      → feed b uid (at_end w h 3) x ≡ (complete, finished w' h)
  unfolding feed process_end
  end_last_ok w w' h x e f = ground arith

  end_last_bad :
      (w : State) (h : Header) (x : ℕ)
      → (finish w).0 ≡ false
      → (feed b uid (at_end w h 3) x).0 ≡ invalid
  unfolding feed process_end
  end_last_bad w h x f = ground arith

  -- What a run that ends in `Complete` has read and sent, from byte `n` of the payload on.
  pub record Received (w : State) (h : Header) (n : ℕ) (bytes : List ℕ) (p : Parser State)
      : Type 0 where
    pub payload : List ℕ
    pub shape : bytes ≡ payload ++ word end_command
    pub sized : n + length payload ≡ payload_size h
    pub sent : delivered b w payload ≡ some p.writer
    pub final : p ≡ finished p.writer h

  end_run :
      (w w' : State) (h : Header)
      → finish w ≡ (true, w')
      → feed_loop b uid incomplete (at_end w h 0) (word end_command) ≡ (complete, finished w' h)
  unfolding expected_byte feed_loop
  end_run w w' h e =
      loop_more b uid incomplete (at_end w h 0) 79 (68 ∷ 70 ∷ 69 ∷ [])
        (end_more w h 0 79 (omega arith) refl)
      ∙ loop_more b uid incomplete (at_end w h 1) 68 (70 ∷ 69 ∷ [])
          (end_more w h 1 68 (omega arith) refl)
      ∙ loop_more b uid incomplete (at_end w h 2) 70 (69 ∷ [])
          (end_more w h 2 70 (omega arith) refl)
      ∙ loop_complete b uid incomplete (at_end w h 3) 69 [] (end_last_ok w w' h 69 refl e)

  -- A run that completes has the expected byte next.
  end_byte :
      (w : State) (h : Header) (n x : ℕ) (rest : List ℕ)
      → n < 3
      → (feed_loop b uid incomplete (at_end w h n) (x ∷ rest)).0 ≡ complete
      → (expected_byte end_command n ≡ x)
        × ((feed_loop b uid incomplete (at_end w h (n + 1)) rest).0 ≡ complete)
  end_byte w h n x rest lt e = elim (ℕ_discrete (expected_byte end_command n) x) [
    | yes same ↦ (same, rw (loop_more b uid incomplete _ x rest (end_more w h n x lt same)) at e)
    | no other ↦ cc (loop_stop b uid incomplete _ x rest (end_bad w h n x other))
  ]

  after_done :
      (w : State) (h : Header) (rest : List ℕ)
      → (feed_loop b uid complete (finished w h) rest).0 ≡ complete
      → rest ≡ []
  unfolding feed_loop feed
  after_done w h [] e = refl
  after_done w h (x ∷ rest) e = cc

  end_byte_last :
      (w : State) (h : Header) (x : ℕ) (rest : List ℕ)
      → (feed_loop b uid incomplete (at_end w h 3) (x ∷ rest)).0 ≡ complete
      → (expected_byte end_command 3 ≡ x) × (rest ≡ []) × ((finish w).0 ≡ true)
  end_byte_last w h x rest e = elim (ℕ_discrete (expected_byte end_command 3) x) [
    | no other ↦ cc (loop_stop b uid incomplete _ x rest (end_bad w h 3 x other))
    | yes same ↦ elim (Bool-cases (finish w).0) [
      | inr failed ↦ cc (loop_stop b uid incomplete _ x rest (end_last_bad w h x failed))
      | inl ok ↦ (
        same,
        after_done (finish w).1 h rest (
            rw
              (loop_complete b uid incomplete (at_end w h 3) x rest
                (end_last_ok w (finish w).1 h x same (ground arith)))
              at e),
        ok,
      )
    ]
  ]

  end_sound :
      (w : State) (h : Header) (bytes : List ℕ)
      → (feed_loop b uid incomplete (at_end w h 0) bytes).0 ≡ complete
      → (bytes ≡ word end_command) × ((finish w).0 ≡ true)
  unfolding feed_loop expected_byte
  end_sound w h [] e = cc
  end_sound w h (x ∷ []) e = let (_, r0) = end_byte w h 0 x [] (omega arith) e in cc r0
  end_sound w h (x ∷ y ∷ []) e =
      let (_, r0) = end_byte w h 0 x (y ∷ []) (omega arith) e in
      let (_, r1) = end_byte w h 1 y [] (omega arith) r0 in cc r1
  end_sound w h (x ∷ y ∷ z ∷ []) e =
      let (_, r0) = end_byte w h 0 x (y ∷ z ∷ []) (omega arith) e in
      let (_, r1) = end_byte w h 1 y (z ∷ []) (omega arith) r0 in
      let (_, r2) = end_byte w h 2 z [] (omega arith) r1 in cc r2
  end_sound w h (x ∷ y ∷ z ∷ t ∷ rest) e =
      let (e0, r0) = end_byte w h 0 x (y ∷ z ∷ t ∷ rest) (omega arith) e in
      let (e1, r1) = end_byte w h 1 y (z ∷ t ∷ rest) (omega arith) r0 in
      let (e2, r2) = end_byte w h 2 z (t ∷ rest) (omega arith) r1 in
      let (e3, e4, ok) = end_byte_last w h t rest r2 in (cc, ok)

  module _ (h : Header) (fits : payload_size h < 2 ^ 32) where
    -- The whole payload and the end command, when the writer takes them.
    pub payload_run :
        (w w' : State) (n : ℕ) (ps : List ℕ)
        → n < payload_size h
        → n + length ps ≡ payload_size h
        → delivered b w ps ≡ some w'
        → feed_loop b uid incomplete (at_payload w h n) (ps ++ word end_command)
          ≡ (complete, finished w' h)
    payload_run w w' n [] lt len e = absurd (omega arith)
    payload_run w w' n (x ∷ []) lt len e =
        let (w₁, sent, rest) = delivered-cons b w x [] e in
        loop_more b uid incomplete _ x (word end_command)
          (payload_last h fits w w₁ n x sent (omega arith))
        ∙ end_run w₁ w' h (delivered-nil b w₁ rest)
    payload_run w w' n (x ∷ y ∷ ps) lt len e =
        let (w₁, sent, rest) = delivered-cons b w x (y ∷ ps) e in
        loop_more b uid incomplete _ x (y ∷ ps ++ word end_command)
          (payload_more h fits w w₁ n x sent (omega arith))
        ∙ payload_run w₁ w' (n + 1) (y ∷ ps) (omega arith) (omega arith) rest

    abbrev Sound : State → ℕ → List ℕ → Type 0
    Sound w n bytes =
        (feed_loop b uid incomplete (at_payload w h n) bytes).0 ≡ complete
        → Received w h n bytes (feed_loop b uid incomplete (at_payload w h n) bytes).1

    Sound-last :
        (w w' : State) (n x : ℕ) (rest : List ℕ)
        → write w (x ∷ []) ≡ (true, w')
        → n + 1 ≡ payload_size h
        → Sound w n (x ∷ rest)
    Sound-last w w' n x rest sent last e =
        let go =
          loop_more b uid incomplete (at_payload w h n) x rest
            (payload_last h fits w w' n x sent last) in
        let (shape, ok) = end_sound w' h rest (rw go at e) in
        let w'' = (finish w').1 in
        let whole : feed_loop b uid incomplete (at_payload w h n) (x ∷ rest)
            ≡ (complete, finished w'' h) =
          go ∙ rw shape (end_run w' w'' h (ground arith)) in
        record {
          payload = x ∷ [];
          shape = ap (λ l. x ∷ l) shape;
          sized = omega (arith, last);
          sent =
              rw (whole, delivered-cons_of b w w' x [] sent) (delivered-nil_of b w' (ground arith));
          final = rw whole refl;
        }

    Sound-more :
        (w w' : State) (n x : ℕ) (rest : List ℕ)
        → write w (x ∷ []) ≡ (true, w')
        → n + 1 < payload_size h
        → Sound w' (n + 1) rest
        → Sound w n (x ∷ rest)
    Sound-more w w' n x rest sent more ih e =
        let go =
          loop_more b uid incomplete (at_payload w h n) x rest
            (payload_more h fits w w' n x sent more) in
        let r = ih (rw go at e) in
        record {
          payload = x ∷ r.payload;
          shape = ap (λ l. x ∷ l) r.shape;
          sized = omega (arith, r.sized);
          sent = rw (go, delivered-cons_of b w w' x r.payload sent) r.sent;
          final = rw go r.final;
        }

    pub payload-Sound : (w : State) (n : ℕ) (bytes : List ℕ) → n < payload_size h → Sound w n bytes
    unfolding feed_loop
    payload-Sound w n [] lt e = cc
    payload-Sound w n (x ∷ rest) lt e = elim (Bool-cases (write w (x ∷ [])).0) [
      | inr bad ↦ cc (loop_stop b uid incomplete _ x rest (payload_bad w h n x bad))
      | inl ok ↦
          let w' = (write w (x ∷ [])).1 in
          elim (ℕ_discrete (n + 1) (payload_size h)) [
            | yes last ↦ Sound-last w w' n x rest (ground arith) last e
            | no more ↦
                Sound-more w w' n x rest (ground arith) (omega arith)
                  (payload-Sound w' (n + 1) rest (omega arith)) e
          ]
    ]
