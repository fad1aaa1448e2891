-- ===== src/Dfu/Parser/Tests.antt =====
-- The stream and upload theorems at concrete inputs: a payload of three bytes for the target
-- 0x1234abcd, on a writer that keeps what it is given.
use open_deck.Prelude.{ℕ, ◌≡◌, refl, ap, true, List, [], ◌∷◌, ◌++◌, arith}
use open_deck.Dfu.Format.{complete, invalid, stream, header_of, expected_byte}
use open_deck.Dfu.Backend.{Backend, transfer}
use open_deck.Dfu.Parser
use open_deck.Dfu.Parser.{
  Parser, initial, feed, feed_span, feed_loop, process_payload, process_end, process_start,
}
use open_deck.Dfu.Parser.Payload.{finished}
use open_deck.Dfu.Parser.Stream.{Accepted, feed_span-stream, feed_span-Accepted}
use open_deck.Dfu.Parser.Errors.{
  IsValid, feed-IsValid, feed_span-rejected, feed-rejects, feed-aborts, feed_span-abort,
}
use open_deck.Dfu.Parser.Chunks.{feed_span-append}

abbrev recorder : Backend
recorder = record {
  State = List ℕ;
  begin = λ w header size. (true, []);
  write = λ w xs. (true, w ++ xs);
  finish = λ w. (true, w);
  abort = λ w. [];
  supported = λ w. true;
}

abbrev uid : ℕ
uid = 0x1234abcd

abbrev payload : List ℕ
payload = 10 ∷ 20 ∷ 255 ∷ []

feed_span-stream_example :
    feed_span recorder uid (initial []) (stream uid payload)
    ≡ (complete, finished payload (header_of uid 3))
unfolding transfer
feed_span-stream_example =
    feed_span-stream recorder uid (omega arith) [] payload payload (omega arith) (omega arith) refl

feed_span-Accepted_example :
    Accepted recorder uid []
      (stream uid payload)
      (feed_span recorder uid (initial []) (stream uid payload)).1
feed_span-Accepted_example =
    feed_span-Accepted recorder uid (omega arith) [] (stream uid payload) (omega arith)
      (ap (λ q. q.0) feed_span-stream_example)

-- in the payload, with one of three bytes handed on
abbrev halfway : Parser (List ℕ)
halfway = record (initial (10 ∷ [])) {
  stage = Parser.ReceiveStage.payload;
  expected_size = 3;
  bytes_written = 1;
  header = header_of uid 3;
  writer_active = true;
}

-- in the end command, with two of its bytes seen
abbrev ending : Parser (List ℕ)
ending = record (initial payload) {
  stage = Parser.ReceiveStage.end;
  stage_bytes_received = 2;
  expected_size = 3;
  bytes_written = 3;
  header = header_of uid 3;
  writer_active = true;
}

feed-IsValid_example : IsValid (feed recorder uid halfway 20).1
feed-IsValid_example = feed-IsValid recorder uid halfway 20 refl

-- The second byte of the header is wrong.
feed_span-rejected_example :
    feed_span recorder uid (initial payload) ((79 ∷ 0 ∷ []) ++ (68 ∷ 70 ∷ []))
    ≡ (invalid, record (initial payload) { status = invalid })
unfolding feed_span feed_loop feed process_start expected_byte
feed_span-rejected_example =
    feed_span-rejected recorder uid (initial payload) (79 ∷ 0 ∷ []) (68 ∷ 70 ∷ []) (λ e. cc e) refl

-- The third byte of the end command is 70.
feed-rejects_example :
    (feed recorder uid ending 71).1
    ≡ record (initial (feed recorder uid ending 71).1.writer) { status = invalid }
unfolding feed process_end expected_byte
feed-rejects_example = feed-rejects recorder uid ending 71 (λ e. cc) refl

feed-aborts_example : (feed recorder uid ending 71).1.writer ≡ []
unfolding feed process_end expected_byte
feed-aborts_example = feed-aborts recorder uid ending 71 refl (λ e. cc) refl

feed_span-abort_example :
    feed_span recorder uid (Parser.abort recorder ending) (stream uid payload)
    ≡ (complete, finished payload (header_of uid 3))
unfolding transfer
feed_span-abort_example =
    feed_span-abort recorder uid ending payload payload (omega arith) (omega arith) (omega arith)
      refl

feed_span-append_example :
    feed_span recorder uid halfway (20 ∷ 255 ∷ [])
    ≡ feed_span recorder uid (feed_span recorder uid halfway (20 ∷ [])).1 (255 ∷ [])
unfolding feed_span feed_loop feed process_payload
feed_span-append_example = feed_span-append recorder uid halfway (20 ∷ []) (255 ∷ []) (λ e. cc e)
