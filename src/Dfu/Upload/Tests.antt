-- ===== src/Dfu/Upload/Tests.antt =====
-- The theorems on frames, acknowledgements and uploads at concrete inputs.
use mathlib.Core.List.{flatten}
use open_deck.Prelude.{ℕ, ◌≡◌, refl, true, false, List, [], ◌∷◌, ◌++◌, some, arith, map, ◌+◌, ◌*◌}
use open_deck.Dfu.Format.{header_of}
use open_deck.Dfu.Backend.{Backend, transfer}
use open_deck.Dfu.Parser.{Parser, initial}
use open_deck.Dfu.Parser.Payload.{finished}
use open_deck.Dfu.Upload.{
  ByteOrder, IsLittleEndian, Command, Status, Ack, Frame, frame_info, chunk_info, ack_to_bytes,
  ack_from_bytes, make_ack, handle, to_command,
}
use open_deck.Dfu.Upload.Frames.{chunk_frame, frame_info-chunk_frame, IsFrame, frame_info-IsFrame}
use open_deck.Dfu.Upload.Acks.{ack_from_bytes-ack_to_bytes, ack_to_bytes-ack_from_bytes}
use open_deck.Dfu.Upload.Session.{begin_frame, finish_frame, send_all, upload_session}

abbrev order : ByteOrder
order = record {
  get_le16 = λ x y. x + y * 256;
  get_le32 = λ x y z t. x + y * 256 + z * 65536 + t * 16777216;
}

order-IsLittleEndian : IsLittleEndian order
order-IsLittleEndian = record { le16 = λ x y hx hy. refl; le32 = λ x y z t hx hy hz ht. refl }

abbrev recorder : Backend
recorder = record {
  State = List ℕ;
  begin = λ w header size. (true, []);
  write = λ w xs. (true, w ++ xs);
  finish = λ w. (true, w);
  abort = λ w. [];
  supported = λ w. true;
}

frame_info-chunk_frame_example :
    frame_info order (0x02 ∷ 2 ∷ 0 ∷ 7 ∷ 8 ∷ 0x03 ∷ [])
    ≡ some (record { command = Command.chunk; payload = 7 ∷ 8 ∷ []; size = 5; is_complete = true })
frame_info-chunk_frame_example =
    frame_info-chunk_frame order order-IsLittleEndian (7 ∷ 8 ∷ []) (0x03 ∷ []) (omega arith)

abbrev partial : Frame
partial = record { command = Command.chunk; payload = []; size = 5; is_complete = false }

frame_info-IsFrame_example : IsFrame (0x02 ∷ 2 ∷ 0 ∷ 7 ∷ []) partial
unfolding frame_info to_command chunk_info
frame_info-IsFrame_example = frame_info-IsFrame order (0x02 ∷ 2 ∷ 0 ∷ 7 ∷ []) refl

abbrev ack : Ack
ack = record {
  response = 0x81;
  command = Command.chunk;
  status = Status.failed;
  bytes_written = 0x12345;
}

ack_from_bytes-ack_to_bytes_example : ack_from_bytes order (ack_to_bytes ack) ≡ some ack
ack_from_bytes-ack_to_bytes_example =
    ack_from_bytes-ack_to_bytes order ack order-IsLittleEndian tt tt (omega arith)

ack_to_bytes-ack_from_bytes_example :
    ack_to_bytes ack ≡ 0x81 ∷ 0x02 ∷ 0x01 ∷ 0x45 ∷ 0x23 ∷ 0x01 ∷ 0x00 ∷ []
unfolding ack_from_bytes
ack_to_bytes-ack_from_bytes_example =
    ack_to_bytes-ack_from_bytes order (0x81 ∷ 0x02 ∷ 0x01 ∷ 0x45 ∷ 0x23 ∷ 0x01 ∷ 0x00 ∷ [])
      order-IsLittleEndian (omega arith) refl

-- The 23 bytes of a stream in two chunks.
abbrev chunks : List (List ℕ)
chunks =
    (79 ∷ 68 ∷ 70 ∷ 85 ∷ 1 ∷ 0 ∷ 0 ∷ 0 ∷ 0xcd ∷ 0xab ∷ 0x34 ∷ [])
    ∷ (0x12 ∷ 3 ∷ 0 ∷ 0 ∷ 0 ∷ 10 ∷ 20 ∷ 255 ∷ 79 ∷ 68 ∷ 70 ∷ 69 ∷ [])
    ∷ []

abbrev uploaded : Parser (List ℕ)
uploaded = finished (10 ∷ 20 ∷ 255 ∷ []) (header_of 0x1234abcd 3)

-- on a handler that holds an earlier payload
upload_session_example :
    (send_all recorder 0x1234abcd order
        (initial (1 ∷ 2 ∷ []))
        (begin_frame ∷ map chunk_frame chunks)
      ≡ some uploaded)
    × (handle recorder 0x1234abcd order uploaded finish_frame ≡ (
      some (record { response = make_ack Command.finish Status.ok 3; finished = true }),
      uploaded,
    ))
unfolding flatten transfer
upload_session_example =
    upload_session recorder 0x1234abcd order (initial (1 ∷ 2 ∷ [])) (10 ∷ 20 ∷ 255 ∷ [])
      (10 ∷ 20 ∷ 255 ∷ []) chunks order-IsLittleEndian (omega arith) (omega arith) (omega arith)
      refl refl (omega arith) refl
