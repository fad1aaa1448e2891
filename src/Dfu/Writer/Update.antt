-- ===== src/Dfu/Writer/Update.antt =====
-- The parser in front of a writer: what an accepted stream leaves in the flash area.
use open_deck.Prelude.{ℕ, ◌^◌, ◌<◌, ◌≡◌, List, length, arith, AreBytes}
use open_deck.Dfu.Format.{complete, stream, header_of}
use open_deck.Dfu.Flash.{Hwa}
use open_deck.Dfu.Flash.Cells.{HasCells, cells_from}
use open_deck.Dfu.Parser.{initial, feed_span}
use open_deck.Dfu.Parser.Stream.{feed_span-Accepted}
use open_deck.Dfu.Writer.{Writer, writer_backend, payload_offset}
use open_deck.Dfu.Writer.Stored.{transfer-stored}

module _ (h : Hwa) (cells : HasCells h) (uid : ℕ) where
  open h use {Flash}

  -- A stream whose payload is in the flash area, from the offset `start` on.
  pub record Installed (start : ℕ) (bytes : List ℕ) (flash : Flash) : Type 0 where
    pub payload : List ℕ
    pub nonempty : 0 < length payload
    pub shape : bytes ≡ stream uid payload
    pub stored : cells_from (cells.cell flash) start (length payload) ≡ payload

  -- For a target UID of 32 bits and a flash area as `HasCells` describes it:
  -- when a new parser in front of a writer, of any class and in any state with a buffer of 2048
  -- bytes, returns `Complete` for a sequence of bytes, these are the stream of a payload that is not
  -- empty, and the flash area holds that payload from the payload offset of the class on.
  pub feed_span-Installed :
      (w : Writer Flash) (bytes : List ℕ)
      → uid < 2 ^ 32
      → length w.block_buffer ≡ 2048
      → AreBytes bytes
      → let (s, p) = feed_span (writer_backend h) uid (initial w) bytes in
        s ≡ complete → Installed (payload_offset w.kind) bytes p.writer.flash
  feed_span-Installed w bytes fits buffer are e =
      let a = feed_span-Accepted (writer_backend h) uid fits w bytes are e in
      record {
        payload = a.payload;
        nonempty = a.nonempty;
        shape = a.shape;
        stored =
            transfer-stored h cells w (feed_span (writer_backend h) uid (initial w) bytes).1.writer
              (header_of uid (length a.payload)) a.payload buffer (omega arith) a.sent;
      }
