-- ===== src/Dfu/Parser/Errors.antt =====
-- What the parser keeps between bytes, and what a rejected stream leaves behind.
use open_deck.Prelude.{
  ℕ, ◌<◌, ◌^◌, ◌≡◌, ◌≢◌, ◌++◌, refl, sym, ◌∙◌, ltb, ◌==◌, not, ◌&&◌, if◌then◌else◌, Bool, true,
  false, List, [], ◌∷◌, length, some, arith,
}
use open_deck.Dfu.Format.{StreamStatus, complete, incomplete, invalid, stream, header_of}
use open_deck.Dfu.Backend.{Backend, transfer}
use open_deck.Dfu.Parser.{
  Parser, ReceiveStage, initial, feed, feed_loop, feed_span, abort, process_current_stage,
  process_start, process_metadata, process_payload, process_end,
}
use open_deck.Dfu.Parser.Chunks.{status-feed, feed_span-append_rejected}
use open_deck.Dfu.Parser.Stream.{feed_span-stream}
use open_deck.Dfu.Parser.Payload.{finished}

-- The status, the counter of bytes and the writer's flag that go with a stage.
abbrev is : StreamStatus → StreamStatus → Bool
is complete complete = true
is incomplete incomplete = true
is invalid invalid = true
is _ _ = false

abbrev pub agrees : ReceiveStage → StreamStatus → ℕ → Bool → Bool
agrees ReceiveStage.start status n active = ltb n 4 && not active && not (is status complete)
agrees ReceiveStage.metadata status n active = ltb n 12 && not active && is status incomplete
agrees ReceiveStage.payload status n active = n == 0 && active && is status incomplete
agrees ReceiveStage.end status n active = ltb n 4 && active && is status incomplete
agrees ReceiveStage.done status n active = not active && is status complete
agrees ReceiveStage.count status n active = false

abbrev pub IsValid : {W : Type 0} → Parser W → Type 0
IsValid p = agrees p.stage p.status p.stage_bytes_received p.writer_active ≡ true

module _ (b : Backend) (uid : ℕ) where
  open b use {State}

  -- After every byte the parser is in one of the stages before `Count`; the status is `Complete`
  -- exactly in `Done`, and `Invalid` only in `Start`; the writer counts as active exactly in the
  -- payload and the end command; and the counter of bytes is below the length of the stage's field.
  pub feed-IsValid : (p : Parser State) (x : ℕ) → IsValid p → IsValid (feed b uid p x).1
  unfolding feed process_start process_metadata process_payload process_end
  feed-IsValid p x v = ground arith

  -- A byte that is rejected leaves the parser as new but for the status.
  pub feed-rejects :
      (p : Parser State) (x : ℕ)
      → let (s, p') = feed b uid p x in
        p.status ≢ invalid → s ≡ invalid → p' ≡ record (initial p'.writer) { status = invalid }
  unfolding feed process_start process_metadata process_payload process_end
  feed-rejects p x ne e = ground arith

  -- A parser as new but for the status.
  abbrev IsNew : Parser State → Type 0
  IsNew p = p ≡ record (initial p.writer) { status = invalid }

  abbrev after : StreamStatus × Parser State → List ℕ → StreamStatus × Parser State
  after (s, p) xs = elim s [
    | complete ↦ feed_loop b uid complete p xs
    | incomplete ↦ feed_loop b uid incomplete p xs
    | invalid ↦ (invalid, p)
  ]

  after-IsNew :
      (r : StreamStatus × Parser State) (xs : List ℕ)
      → r.1.status ≡ r.0
      → (r.0 ≡ invalid → IsNew r.1)
      → ((p : Parser State) (s : StreamStatus)
          → p.status ≡ s
          → s ≢ invalid
          → (feed_loop b uid s p xs).0 ≡ invalid
          → IsNew (feed_loop b uid s p xs).1)
      → (after r xs).0 ≡ invalid
      → IsNew (after r xs).1
  after-IsNew (complete, p) xs e rejects rest bad = rest p complete e (λ t. cc t) bad
  after-IsNew (incomplete, p) xs e rejects rest bad = rest p incomplete e (λ t. cc t) bad
  after-IsNew (invalid, p) xs e rejects rest bad = rejects refl

  feed_loop-IsNew :
      (xs : List ℕ) (p : Parser State) (s : StreamStatus)
      → p.status ≡ s
      → s ≢ invalid
      → (feed_loop b uid s p xs).0 ≡ invalid
      → IsNew (feed_loop b uid s p xs).1
  unfolding feed_loop
  feed_loop-IsNew [] p s e ne bad = absurd (ne bad)
  feed_loop-IsNew (x ∷ xs) p s e ne bad =
      after-IsNew (feed b uid p x) xs (status-feed b uid p x)
        (feed-rejects p x (λ t. ne (sym e ∙ t))) (λ q t. feed_loop-IsNew xs q t) bad

  -- A sequence of bytes with a beginning that is rejected is rejected as a whole, whatever follows,
  -- by any parser that is not rejected before: the parser is left as new but for the status, with the
  -- writer as the beginning left it, which no later byte reaches.
  pub feed_span-rejected :
      (p : Parser State) (xs ys : List ℕ)
      → p.status ≢ invalid
      → (feed_span b uid p xs).0 ≡ invalid
      → feed_span b uid p (xs ++ ys)
        ≡ (invalid, record (initial (feed_span b uid p xs).1.writer) { status = invalid })
  unfolding feed_span
  feed_span-rejected p xs ys ne r =
      feed_span-append_rejected b uid p xs ys r
      ∙ (λ i. (r i, feed_loop-IsNew xs p p.status refl ne r i))

  -- A byte that is rejected in the payload or the end command aborts the writer, as its stage left
  -- it; one that is rejected before the writer began leaves the writer as its stage left it.
  pub feed-aborts :
      (p : Parser State) (x : ℕ)
      → let (s, p') = feed b uid p x in
        let w = (process_current_stage b uid p x).1.writer in
        IsValid p
        → p.status ≢ invalid
        → s ≡ invalid
        → p'.writer ≡ (if p.writer_active then b.abort w else w)
  unfolding feed process_current_stage process_start process_metadata process_payload process_end
  feed-aborts p x v ne e = ground arith

  -- Whatever a parser has been fed, after `abort` it takes the stream of a payload as a new one
  -- does, on the writer that was aborted: for a target UID of 32 bits, and a payload of 1 to 2^32 - 1
  -- bytes whose transfer that writer takes.
  pub feed_span-abort :
      (p : Parser State) (w : State) (payload : List ℕ)
      → uid < 2 ^ 32
      → 0 < length payload
      → length payload < 2 ^ 32
      → transfer b (b.abort p.writer) (header_of uid (length payload)) (length payload) payload
        ≡ some w
      → feed_span b uid (abort b p) (stream uid payload)
        ≡ (complete, finished w (header_of uid (length payload)))
  unfolding abort
  feed_span-abort p w payload hu pos fits e =
      feed_span-stream b uid hu (b.abort p.writer) w payload pos fits e
