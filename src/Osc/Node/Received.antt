-- ===== src/Osc/Node/Received.antt =====
-- What `receive_packet` does: only what an allowed sender asks for, and what `make_packet` wrote.
use open_deck.Prelude.{
  ℕ, ◌^◌, ◌<◌, ◌≡◌, ◌≢◌, refl, ap, ◌∙◌, Bool, true, false, Option, none, some, List, [], ◌∷◌, ◌++◌,
  arith, All-append, if-last, take, if◌then◌else◌, Bool-cases, Option-cases, inl, inr,
}
use open_deck.Signaling.{inward, output}
use open_deck.Osc.Packet.{Platform, IsDocumented, osc_int32, indexed, int32_kind, slash}
use open_deck.Osc.Packet.Writer.{make_packet}
use open_deck.Osc.Packet.Reader.{OscMessageView, parse_message, arg}
use open_deck.Osc.Packet.Decimal.{decimal, decimal-IsNumeral}
use open_deck.Osc.Signals.Made.{text_of, digits_text}
use open_deck.Osc.Packet.Encode.{address_text}
use open_deck.Osc.Packet.Scan.{IsText}
use open_deck.Osc.Packet.RoundTrip.{typed-same, parse_message-make_packet}
use open_deck.Osc.Paths.{output_path, refresh_path, discovery_path, same_text, parse_indexed}
use open_deck.Osc.Paths.Index.{parse_indexed-address_text}
use open_deck.Osc.Destinations.{Database}
use open_deck.Osc.Node.{Node, traffic, io_signal}
use open_deck.Osc.Node.Send.{Build}
use open_deck.Osc.Node.Receive.{
  sender_allowed, receive_packet, handle_parsed, handle_view, handle_value, handle_message,
  int32_value,
}

-- the address of an output is neither of the two fixed ones
output-other :
    (i : ℕ)
    → (same_text (address_text (indexed output_path i)) discovery_path ≡ false)
      × (same_text (address_text (indexed output_path i)) refresh_path ≡ false)
output-other i = (refl, refl)

output_text : (i : ℕ) → IsText (address_text (indexed output_path i))
output_text i =
    All-append (λ c. 0 < c) (output_path ++ slash ∷ []) (decimal i)
      (text_of (output_path ++ slash ∷ []) refl)
      (digits_text (decimal i) (decimal-IsNumeral i).digits)

handle_message-output :
    (h : Platform) (size_bits : ℕ) (address : List ℕ) (i value : ℕ)
    → parse_indexed size_bits h.decimal_base address output_path ≡ some i
    → handle_value h size_bits address (some value)
      ≡ io_signal (record {
        source = output;
        component_index = i;
        int32_value = some value;
        float_value = none;
        direction = inward;
      })
        ∷ traffic inward
        ∷ []
unfolding handle_value handle_message
handle_message-output h size_bits address i value e = rw (handle_message, e)

module _ {Q : Type 0} (d : Database) (h : Platform) (build : Build) (size_bits : ℕ) where
  open d use {Store}

  receive_packet-denied :
      (answer : ℕ → Bool) (sender : ℕ) (payload : List ℕ) (node : Node Store Q)
      → sender_allowed d sender node ≡ false
      → receive_packet d h build size_bits answer sender (some payload) node ≡ (true, [])
  unfolding receive_packet
  receive_packet-denied answer sender payload node e =
      ap
        (λ b.
          if b
          then (
            true,
            handle_parsed d h build size_bits answer sender node (parse_message h payload),
          )
          else (true, []))
        e

  receive_packet-parsed :
      (answer : ℕ → Bool) (sender : ℕ) (payload : List ℕ) (node : Node Store Q)
      (o : Option OscMessageView)
      → sender_allowed d sender node ≡ true
      → parse_message h payload ≡ o
      → receive_packet d h build size_bits answer sender (some payload) node
        ≡ (true, handle_parsed d h build size_bits answer sender node o)
  unfolding receive_packet
  receive_packet-parsed answer sender payload node o e e' =
      ap
        (λ b.
          if b
          then (
            true,
            handle_parsed d h build size_bits answer sender node (parse_message h payload),
          )
          else (true, []))
        e
      ∙ ap (λ o. (true, handle_parsed d h build size_bits answer sender node o)) e'

  -- When `receive_packet` does anything to the outside, the sender is allowed and the bytes are a
  -- message that `parse_message` accepts.
  pub receive_packet-allowed :
      (answer : ℕ → Bool) (sender : ℕ) (payload : List ℕ) (node : Node Store Q)
      → (receive_packet d h build size_bits answer sender (some payload) node).1 ≢ []
      → (sender_allowed d sender node ≡ true)
        × (view : OscMessageView) × (parse_message h payload ≡ some view)
  unfolding handle_parsed
  receive_packet-allowed answer sender payload node n =
      elim (Bool-cases (sender_allowed d sender node)) [
        | inr e ↦ absurd (n (ap (λ r. r.1) (receive_packet-denied answer sender payload node e)))
        | inl e ↦ elim (Option-cases (parse_message h payload)) [
          | inl f ↦
              absurd (n (ap (λ r. r.1) (receive_packet-parsed answer sender payload node none e f)))
          | inr (view, f) ↦ (e, view, f)
        ]
      ]

  handle_view-value :
      (answer : ℕ → Bool) (sender : ℕ) (node : Node Store Q) (view : OscMessageView)
      → same_text view.address discovery_path ≡ false
      → same_text view.address refresh_path ≡ false
      → handle_view d h build size_bits answer sender node view
        ≡ handle_value h size_bits view.address (int32_value (arg h view 0 int32_kind))
  unfolding handle_view
  handle_view-value answer sender node view e e' = if-last _ _ _ _ _ e e'

  -- When `make_packet` writes a 32-bit value to the address of an output whose index fits a
  -- `size_t`, and an allowed sender's bytes are that packet, then on a documented platform
  -- `receive_packet` publishes an inbound IO signal for that output with that value, then the
  -- traffic, and nothing else.
  pub receive_packet-output :
      (answer : ℕ → Bool) (sender : ℕ) (node : Node Store Q) (i value size : ℕ) (buffer : List ℕ)
      → IsDocumented h
      → sender_allowed d sender node ≡ true
      → i < 2 ^ size_bits
      → value < 2 ^ 32
      → make_packet h (indexed output_path i) (osc_int32 value ∷ []) ≡ (some size, buffer)
      → receive_packet d h build size_bits answer sender (some (take size buffer)) node ≡ (
        true,
        io_signal (record {
          source = output;
          component_index = i;
          int32_value = some value;
          float_value = none;
          direction = inward;
        })
            ∷ traffic inward
            ∷ [],
      )
  unfolding handle_parsed
  receive_packet-output answer sender node i value size buffer doc allowed l m made =
      let text = address_text (indexed output_path i) in
      let (view, parsed, address, tags, count, read) =
        parse_message-make_packet h doc (indexed output_path i) (osc_int32 value ∷ []) size buffer 0
          int32_kind (output_text i) (m, tt) (omega arith) made in
      let (other, other') = output-other i in
      let index =
        ap (λ b. parse_indexed size_bits b view.address output_path) doc.0
        ∙ ap (λ t. parse_indexed size_bits 10 t output_path) address
        ∙ parse_indexed-address_text size_bits output_path i l in
      receive_packet-parsed answer sender (take size buffer) node (some view) allowed parsed
      ∙ ap (λ e. (true, e))
          (handle_view-value answer sender node view
              (ap (λ t. same_text t discovery_path) address ∙ other)
              (ap (λ t. same_text t refresh_path) address ∙ other')
            ∙ ap (λ o. handle_value h size_bits view.address (int32_value o))
                (read ∙ typed-same (osc_int32 value) [])
            ∙ handle_message-output h size_bits view.address i value index)
