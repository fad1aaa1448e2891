-- ===== src/Osc/Signals/Received.antt =====
-- A packet is made for every mapped signal, and the receiver reads what was signalled.
use mathlib.Core.Path.{subst}
use open_deck.Prelude.{
  ℕ, ◌^◌, ◌≤◌, ◌<◌, ◌≡◌, sym, ap, ◌∙◌, Option, some, List, [], ◌∷◌, length, All, arith, take,
}
use open_deck.Signaling.{OscIoSignal}
use open_deck.Osc.Packet.{
  Platform, IsDocumented, packet_buffer_size, Argument, ArgumentKind, kind_of, Address, indexed,
}
use open_deck.Osc.Packet.Writer.{make_packet, tags_of}
use open_deck.Osc.Packet.Reader.{OscMessageView, parse_message, arg}
use open_deck.Osc.Packet.Encode.{address_text, message_bytes, make_packet-fits}
use open_deck.Osc.Packet.Parse.{IsReadable}
use open_deck.Osc.Packet.RoundTrip.{typed, typed-same, args-FitsWord, parse_message-make_packet}
use open_deck.Osc.Paths.{parse_indexed}
use open_deck.Osc.Paths.Index.{parse_indexed-address_text}
use open_deck.Osc.Signals.{make_io_packet}
use open_deck.Osc.Signals.Sources.{io_path, io_value, io_message-io_value}
use open_deck.Osc.Signals.Made.{
  CanSend, Sendable, as_message, io_message-Sendable, length-message_bytes,
}

-- What a receiver finds in a packet that was made: the address, and an argument where it was sent.
abbrev pub Received :
    Platform → Option ℕ × List ℕ → Address → List Argument → ℕ → ArgumentKind → Type 0
Received h made address args i kind =
    (size : ℕ) × (view : OscMessageView) × (made.0 ≡ some size)
    × (size ≤ packet_buffer_size)
    × (parse_message h (take size made.1) ≡ some view)
    × (view.address ≡ address_text address)
    × (view.type_tags ≡ tags_of args)
    × (view.arg_count ≡ length args)
    × (arg h view i kind ≡ typed args i kind)

module _ (h : Platform) (doc : IsDocumented h) where
  make_packet-Received :
      (address : Address) (args : List Argument) (i : ℕ) (kind : ArgumentKind)
      → CanSend address args
      → All IsReadable args
      → Received h (make_packet h address args) address args i kind
  make_packet-Received address args i kind c r =
      let size = length (message_bytes address args) in
      let short : size ≤ packet_buffer_size =
        omega (arith, length-message_bytes address args, c.fits) in
      let made = make_packet-fits h doc address args (args-FitsWord args r) short in
      let (view, parsed, text, tags, count, read) =
        parse_message-make_packet h doc address args size (make_packet h address args).1 i kind
          c.text r c.few (ap (λ o. (o, (make_packet h address args).1)) (ap (λ p. p.0) made)) in
      (size, view, ap (λ p. p.0) made, short, parsed, text, tags, count, read)

  -- An IO signal of a source that has a path, whose index fits a `size_t` of at most 64 bits and
  -- whose value has 32 bits: on a documented platform, `make_packet` succeeds with at most 192 bytes,
  -- `parse_message` accepts them, `parse_indexed` on the address of the view returns the component
  -- index when it is asked for the path of the source, and `arg` returns the value that `io_value`
  -- describes: 1 or 0 for a switch, the float of an analog input where there is one, and the
  -- reading otherwise.
  pub make_io_packet-Received :
      (bits : ℕ) (packet : List ℕ) (s : OscIoSignal) (path : List ℕ)
      → 2 ^ bits ≤ 2 ^ 64
      → s.component_index < 2 ^ bits
      → io_path s.source ≡ some path
      → IsReadable (io_value s)
      → (size : ℕ) × (view : OscMessageView) × ((make_io_packet h packet s).0 ≡ some size)
        × (size ≤ packet_buffer_size)
        × (parse_message h (take size (make_io_packet h packet s).1) ≡ some view)
        × (parse_indexed bits h.decimal_base view.address path ≡ some s.component_index)
        × (arg h view 0 (kind_of (io_value s)) ≡ some (io_value s))
  unfolding make_io_packet
  make_io_packet-Received bits packet s path w l d r =
      let a = io_value s in
      let e = io_message-io_value s path d in
      let address = indexed path s.component_index in
      let c =
        subst (λ m. Sendable (as_message m s.component_index)) e
          (io_message-Sendable s.source s.component_index s.int32_value s.float_value s.direction
            (omega arith)) in
      let same : make_io_packet h packet s ≡ make_packet h address (a ∷ []) =
        rw (make_io_packet, e) in
      let (size, view, made, short, parsed, text, tags, count, read) =
        subst (λ m. Received h m address (a ∷ []) 0 (kind_of a)) (sym same)
          (make_packet-Received address (a ∷ []) 0 (kind_of a) c (r, tt)) in
      (
        size,
        view,
        made,
        short,
        parsed,
        ap (λ b. parse_indexed bits b view.address path) doc.0
            ∙ ap (λ t. parse_indexed bits 10 t path) text
            ∙ parse_indexed-address_text bits path s.component_index l,
        read ∙ typed-same a [],
      )
