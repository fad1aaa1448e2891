-- ===== src/Osc/Packet/Encode.antt =====
-- What `make_packet` makes, and when: the bytes of the address, of the type tags and of each
-- argument, at the offsets where they come to stand.
use open_deck.Prelude.{
  ℕ, ◌-◌, ◌^◌, ◌≤◌, ◌<◌, ◌≡◌, ap, Bool, none, some, List, [], ◌∷◌, ◌++◌, length, replicate, All,
  if◌then◌else◌,
}
use open_deck.Osc.Packet.{
  Platform, IsDocumented, packet_buffer_size, Argument, osc_int32, osc_string, osc_float32, Address,
  plain, indexed, slash, big_endian,
}
use open_deck.Osc.Packet.Writer.{
  PacketWriter, and_then, add_byte, add_bytes, pad, add_string, add_decimal, add_address,
  add_type_tags, add_int32, add_float32, add_arg, add_args, tags_of, make_packet,
}
use open_deck.Osc.Packet.Written.{
  written, Appends, followed_by, and_then-Appends, nothing-Appends, add_byte-Appends,
  add_bytes-Appends, padding, pad-Appends, string_bytes, add_string-Appends, add_word-Appends,
}
use open_deck.Osc.Packet.Decimal.{decimal, add_decimal-Appends}

-- The characters of an address.
abbrev pub address_text : Address → List ℕ
address_text (plain s) = s
address_text (indexed prefix index) = (prefix ++ slash ∷ []) ++ decimal index

abbrev pub argument_bytes : Argument → ℕ → List ℕ
argument_bytes (osc_int32 v) n = big_endian v
argument_bytes (osc_string s) n = string_bytes s n
argument_bytes (osc_float32 v) n = big_endian v

abbrev pub arguments_bytes : List Argument → ℕ → List ℕ
arguments_bytes [] n = []
arguments_bytes (a ∷ rest) n = followed_by (argument_bytes a) (arguments_bytes rest) n

-- Every int32 and every float is a pattern of 32 bits.
abbrev pub FitsWord : Argument → Type 0
FitsWord (osc_int32 v) = v < 2 ^ 32
FitsWord (osc_string s) = Unit
FitsWord (osc_float32 v) = v < 2 ^ 32

-- A message, described apart from the buffer that it is written to.
abbrev pub message_bytes : Address → List Argument → List ℕ
message_bytes address args =
    followed_by (followed_by (string_bytes (address_text address)) (string_bytes (tags_of args)))
      (arguments_bytes args) 0

module _ (h : Platform) (doc : IsDocumented h) where
  pub add_address-Appends :
      (a : Address) → Appends (λ w. add_address h w a) (string_bytes (address_text a))
  unfolding add_address
  add_address-Appends (plain s) = add_string-Appends s
  add_address-Appends (indexed prefix index) =
      and_then-Appends _ pad _ padding
        (and_then-Appends _ (λ w. add_byte w 0) _ (λ n. 0 ∷ [])
          (and_then-Appends _ (λ w. add_decimal h w index) _ (λ n. decimal index)
            (and_then-Appends (λ w. add_bytes w prefix) (λ w. add_byte w slash) (λ n. prefix)
              (λ n. slash ∷ []) (add_bytes-Appends prefix) (add_byte-Appends slash))
            (add_decimal-Appends h doc.0 index))
          (add_byte-Appends 0))
        pad-Appends

  add_arg-Appends : (a : Argument) → FitsWord a → Appends (λ w. add_arg h w a) (argument_bytes a)
  unfolding add_arg add_int32 add_float32
  add_arg-Appends (osc_int32 v) f = add_word-Appends h doc v f
  add_arg-Appends (osc_string s) f = add_string-Appends s
  add_arg-Appends (osc_float32 v) f = add_word-Appends h doc v f

  add_args-Appends :
      (args : List Argument)
      → All FitsWord args
      → Appends (λ w. add_args h w args) (arguments_bytes args)
  unfolding add_args
  add_args-Appends [] f = nothing-Appends
  add_args-Appends (a ∷ rest) (f, fs) =
      and_then-Appends (λ w. add_arg h w a) (λ w. add_args h w rest) (argument_bytes a)
        (arguments_bytes rest) (add_arg-Appends a f) (add_args-Appends rest fs)

  abbrev write_message : Address → List Argument → PacketWriter → Bool × PacketWriter
  write_message address args w =
      and_then (and_then (add_address h w address) (λ w. add_type_tags w (tags_of args)))
        (λ w. add_args h w args)

  write_message-Appends :
      (address : Address) (args : List Argument)
      → All FitsWord args
      → Appends (write_message address args) (
          followed_by
            (followed_by (string_bytes (address_text address)) (string_bytes (tags_of args)))
            (arguments_bytes args))
  unfolding add_type_tags
  write_message-Appends address args f =
      and_then-Appends _ (λ w. add_args h w args) _ (arguments_bytes args)
        (and_then-Appends (λ w. add_address h w address) (λ w. add_string w (tags_of args))
          (string_bytes (address_text address)) (string_bytes (tags_of args))
          (add_address-Appends address) (add_string-Appends (tags_of args)))
        (add_args-Appends args f)

  -- On a documented platform, a message of 32-bit words that is no longer than the packet buffer is
  -- made: the size is that of the message, and the buffer holds the message, then zeros.
  pub make_packet-fits :
      (address : Address) (args : List Argument)
      → All FitsWord args
      → length (message_bytes address args) ≤ packet_buffer_size
      → make_packet h address args ≡ (
        some (length (message_bytes address args)),
        message_bytes address args
            ++ replicate (packet_buffer_size - length (message_bytes address args)) 0,
      )
  unfolding make_packet
  make_packet-fits address args f l =
      ap (λ r. (if r.0 then some r.1.offset else none, r.1.buffer))
        ((write_message-Appends address args f).fits [] packet_buffer_size l)

  -- On a documented platform, a message of 32-bit words that is longer than the packet buffer is
  -- refused.
  pub make_packet-fails :
      (address : Address) (args : List Argument)
      → All FitsWord args
      → packet_buffer_size < length (message_bytes address args)
      → (make_packet h address args).0 ≡ none
  unfolding make_packet
  make_packet-fails address args f l =
      ap
        (λ r.
          if r
          then some (write_message address args (written [] packet_buffer_size)).1.offset
          else none)
        ((write_message-Appends address args f).fails [] packet_buffer_size l)
