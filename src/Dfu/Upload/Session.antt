-- ===== src/Dfu/Upload/Session.antt =====
-- A whole upload, as a client sends it: one frame after the other, going on as long as the answer
-- is `Status::Ok`.
use mathlib.Core.Path.{subst}
use mathlib.Core.List.{flatten}
use open_deck.Prelude.{
  ℕ, ◌^◌, ◌<◌, ◌≤◌, ◌≡◌, refl, ◌≢◌, ap, sym, ◌∙◌, true, List, [], ◌∷◌, map, Option, none, some,
  length, arith, All, append-nil,
}
use open_deck.Dfu.Format.{StreamStatus, stream, header_of}
use open_deck.Dfu.Backend.{Backend, transfer}
use open_deck.Dfu.Format.Words.{header_of-valid}
use open_deck.Dfu.Parser
use open_deck.Dfu.Parser.{Parser, feed_loop, feed_span}
use open_deck.Dfu.Parser.Chunks.{feed_span-nil, feed_span-append, feed_span-append_rejected}
use open_deck.Dfu.Parser.Payload.{finished}
use open_deck.Dfu.Parser.Errors.{feed_span-abort}
use open_deck.Dfu.Upload.{
  ByteOrder, IsLittleEndian, CommandResult, Upload, finish, ok, chunk_size, make_ack, handle,
  handle_frame, handle_chunk, handle_begin, handle_finish, result,
}
use open_deck.Dfu.Upload.Frames.{chunk_frame, frame_info-chunk_frame}

abbrev pub begin_frame : List ℕ
begin_frame = 0x01 ∷ []

abbrev pub finish_frame : List ℕ
finish_frame = 0x03 ∷ []

abbrev acknowledged : {A : Type 0} → Option CommandResult × A → Option A
acknowledged (none, u) = none
acknowledged (some r, u) = elim r.response.status [ ok ↦ some u | _ ↦ none ]

module _ (b : Backend) (uid : ℕ) (o : ByteOrder) where
  open b use {State}

  pub send_all : Upload b uid → List (List ℕ) → Option (Upload b uid)
  send_all u [] = some u
  send_all u (frame ∷ frames) = elim (acknowledged (handle b uid o u frame)) [
    | none ↦ none
    | some u' ↦ send_all u' frames
  ]

  module _ (le : IsLittleEndian o) where
    -- A chunk that the parser does not reject is acknowledged.
    chunk_acknowledged :
        (u : Parser State) (x : ℕ) (xs : List ℕ)
        → length (x ∷ xs) ≤ chunk_size
        → (feed_span b uid u (x ∷ xs)).0 ≢ StreamStatus.invalid
        → acknowledged (handle b uid o u (chunk_frame (x ∷ xs)))
          ≡ some (feed_span b uid u (x ∷ xs)).1
    unfolding handle handle_frame handle_chunk result
    chunk_acknowledged u x xs fits ne =
        let found = frame_info-chunk_frame o le (x ∷ xs) [] fits in
        ground (arith, found, append-nil xs)

    -- The chunks of a stream that the parser finds complete are all acknowledged.
    chunks_acknowledged :
        (chunks : List (List ℕ)) (u : Parser State) {u' : Parser State}
        → All (λ c. (0 < length c) × (length c ≤ chunk_size)) chunks
        → feed_span b uid u (flatten chunks) ≡ (StreamStatus.complete, u')
        → send_all u (map chunk_frame chunks) ≡ some u'
    unfolding send_all flatten
    chunks_acknowledged [] u sizes e = ground (arith, feed_span-nil b uid u)
    chunks_acknowledged ([] ∷ chunks) u sizes e = absurd (omega arith)
    chunks_acknowledged ((x ∷ xs) ∷ chunks) u sizes e =
        let go = feed_span-append b uid u (x ∷ xs) (flatten chunks) in
        let (s, u₁) = feed_span b uid u (x ∷ xs) in
        let accepted : s ≢ StreamStatus.invalid = λ bad.
          let whole = feed_span-append_rejected b uid u (x ∷ xs) (flatten chunks) bad in
          let r : StreamStatus.invalid ≡ StreamStatus.complete =
            sym (ap (λ q. q.0) whole ∙ bad) ∙ ap (λ q. q.0) e in
          cc r in
        rw (chunk_acknowledged u x xs sizes.0.1 accepted, send_all)
          (chunks_acknowledged chunks u₁ sizes.1 (sym (go accepted) ∙ e))

  send_all-cons :
      (u : Parser State) {u' : Parser State} (frame : List ℕ) (frames : List (List ℕ))
      → acknowledged (handle b uid o u frame) ≡ some u'
      → send_all u (frame ∷ frames) ≡ send_all u' frames
  unfolding send_all
  send_all-cons u frame frames e = rw (e, send_all)

  begin_acknowledged :
      (u : Parser State)
      → b.supported u.writer ≡ true
      → acknowledged (handle b uid o u begin_frame) ≡ some (Parser.abort b u)
  unfolding handle handle_frame handle_begin result Parser.supported
  begin_acknowledged u sup = rw sup

  finish_answer :
      (u : Parser State)
      → u.status ≡ StreamStatus.complete
      → handle b uid o u finish_frame
        ≡ (some (record { response = make_ack finish ok u.bytes_written; finished = true }), u)
  unfolding handle handle_frame handle_finish result
  finish_answer u e = ground arith

  -- Any upload handler, at any point of any earlier upload, that is sent `Begin`, then a stream in
  -- chunks of 1 to 2048 bytes, each time after a status `Ok`, acknowledges all of them with `Ok`;
  -- and it answers `Finish` with `Ok`, with the number of payload bytes, and as finished. This is
  -- so if its writer is supported and takes the transfer of the payload after an abort, for a target
  -- UID of 32 bits, a payload of 1 to 2^32 - 1 bytes, and byte-order reads that are little-endian.
  pub upload_session :
      (u : Parser State) (w : State) (payload : List ℕ) (chunks : List (List ℕ))
      → IsLittleEndian o
      → uid < 2 ^ 32
      → 0 < length payload
      → length payload < 2 ^ 32
      → b.supported u.writer ≡ true
      → transfer b (b.abort u.writer) (header_of uid (length payload)) (length payload) payload
        ≡ some w
      → All (λ c. (0 < length c) × (length c ≤ chunk_size)) chunks
      → flatten chunks ≡ stream uid payload
      → let u' = finished w (header_of uid (length payload)) in
        (send_all u (begin_frame ∷ map chunk_frame chunks) ≡ some u')
        × (handle b uid o u' finish_frame ≡ (
          some (record { response = make_ack finish ok (length payload); finished = true }),
          u',
        ))
  upload_session u w payload chunks le hu pos fits sup e sizes whole =
      let fed = feed_span-abort b uid u w payload hu pos fits e in
      let (_, size) = header_of-valid uid (length payload) hu fits pos in
      (
        send_all-cons u begin_frame (map chunk_frame chunks) (begin_acknowledged u sup)
            ∙ chunks_acknowledged le chunks (Parser.abort b u) sizes (
                subst (λ l. feed_span b uid (Parser.abort b u) l ≡ (StreamStatus.complete, done))
                  (sym whole) fed),
        finish_answer done refl
            ∙ ap (λ n. (some (record { response = make_ack finish ok n; finished = true }), done))
                size,
      )
    where
      done : Parser State
      done = finished w (header_of uid (length payload))
