-- ===== src/Dfu/Writer/Tests.antt =====
-- The writer theorems on the sample area.
use open_deck.Prelude.{ℕ, refl, List, [], ◌∷◌, arith}
use open_deck.Dfu.Format.{stream, expected_byte, header_valid}
use open_deck.Dfu.Parser.{
  initial, feed_span, feed, feed_loop, process_start, process_metadata, process_payload,
  process_end,
}
use open_deck.Dfu.Writer.{writer_backend, begin, write, finish, payload_offset}
use open_deck.Dfu.Writer.Sample.{area, area_cells, idle}
use open_deck.Dfu.Writer.Update.{Installed, feed_span-Installed}

abbrev uid : ℕ
uid = 0x1234abcd

abbrev payload : List ℕ
payload = 10 ∷ 20 ∷ 255 ∷ []

feed_span-Installed_example :
    Installed area area_cells uid 2048
      (stream uid payload)
      (feed_span (writer_backend area) uid (initial idle) (stream uid payload)).1.writer.flash
unfolding feed_span begin write finish payload_offset process_start process_metadata process_payload
    process_end feed_loop feed expected_byte header_valid
feed_span-Installed_example =
    feed_span-Installed area area_cells uid idle (stream uid payload) (omega arith) (omega arith)
      (omega arith) refl
