-- ===== src/Osc/Packet/Writer.antt =====
-- `PacketWriter` and `make_packet_impl`: app/firmware/src/protocol/osc/packet/internal.h and
-- packet.cpp. A member function returns whether it succeeded beside the writer that it leaves; the
-- span of the packet buffer is the field `buffer`.
use open_deck.Prelude.{
  ℕ, zero, suc, ◌+◌, ◌-◌, ◌/◌, ◌%◌, Bool, true, false, ◌||◌, Option, none, some, List, [], ◌∷◌, map,
  ltb, leb, ◌==◌, if◌then◌else◌, length, set, replicate,
}
use open_deck.Osc.Packet.{
  packet_buffer_size, Argument, osc_int32, osc_string, osc_float32, kind_of, type_tag, comma, slash,
  digit_zero, Address, plain, indexed, alignment, word_size, Platform, copy_to,
}

pub record PacketWriter : Type 0 where
  pub buffer : List ℕ
  pub offset : ℕ

-- the continuation of a chain of `&&`
abbrev pub and_then :
    Bool × PacketWriter → (PacketWriter → Bool × PacketWriter) → Bool × PacketWriter
and_then (true, w) f = f w
and_then (false, w) f = (false, w)

unfoldable pub add_byte : PacketWriter → ℕ → Bool × PacketWriter
add_byte w value =
    if leb (length w.buffer) w.offset
    then (false, w)
    else (true, record { buffer = set w.buffer w.offset value; offset = w.offset + 1 })

unfoldable pub add_bytes : PacketWriter → List ℕ → Bool × PacketWriter
add_bytes w value = if ltb (length w.buffer) (w.offset + length value) then (false, w) else (
  true,
  record { buffer = copy_to w.buffer w.offset value; offset = w.offset + length value },
)

-- the loop of `pad`, with the rounds left
unfoldable pub pad_loop : ℕ → PacketWriter → Bool × PacketWriter
unfolding add_byte
pad_loop zero w = (false, w)
pad_loop (suc rounds) w = elim (w.offset % alignment == 0) [
  | true ↦ (true, w)
  | false ↦ and_then (add_byte w 0) (pad_loop rounds)
]

-- At most three bytes are missing, so the fourth round ends the loop.
unfoldable pub pad : PacketWriter → Bool × PacketWriter
unfolding pad_loop
pad w = pad_loop alignment w

unfoldable pub add_string : PacketWriter → List ℕ → Bool × PacketWriter
unfolding add_bytes add_byte pad
add_string w value =
    if ltb (length w.buffer) (w.offset + length value + 1)
    then (false, w)
    else and_then (and_then (add_bytes w value) (λ w. add_byte w 0)) pad

unfoldable pub add_type_tags : PacketWriter → List ℕ → Bool × PacketWriter
unfolding add_string
add_type_tags w value = add_string w value

-- the type tags of a message, without the terminator
abbrev pub tags_of : List Argument → List ℕ
tags_of args = comma ∷ map (λ a. type_tag (kind_of a)) args

module _ (h : Platform) where
  -- `add_decimal`, with a bound on the depth of its recursion
  unfoldable pub add_decimal_loop : ℕ → PacketWriter → ℕ → Bool × PacketWriter
  unfolding add_byte
  add_decimal_loop zero w value = (false, w)
  add_decimal_loop (suc depth) w value = elim (leb h.decimal_base value) [
    | true ↦
        and_then (add_decimal_loop depth w (value / h.decimal_base))
          (λ w. add_byte w ((digit_zero + value % h.decimal_base) % 256))
    | false ↦ add_byte w ((digit_zero + value % h.decimal_base) % 256)
  ]

  -- A quotient is smaller than the number, so this depth is enough.
  unfoldable pub add_decimal : PacketWriter → ℕ → Bool × PacketWriter
  unfolding add_decimal_loop
  add_decimal w value = add_decimal_loop (suc value) w value

  unfoldable pub add_address : PacketWriter → Address → Bool × PacketWriter
  unfolding add_string add_bytes add_byte add_decimal pad
  add_address w (plain value) = add_string w value
  add_address w (indexed prefix index) =
      and_then
        (and_then
          (and_then (and_then (add_bytes w prefix) (λ w. add_byte w slash))
            (λ w. add_decimal w index))
          (λ w. add_byte w 0))
        pad

  -- the common body of `add_int32` and `add_float32`: a float is copied to a word bit by bit
  unfoldable pub add_word : PacketWriter → ℕ → Bool × PacketWriter
  add_word w value =
      if ltb (length w.buffer) w.offset || ltb (length w.buffer - w.offset) word_size
      then (false, w)
      else (
        true,
        record {
          buffer = copy_to w.buffer w.offset (h.to_memory (h.cpu_to_be32 value));
          offset = w.offset + word_size;
        },
      )

  unfoldable pub add_int32 : PacketWriter → ℕ → Bool × PacketWriter
  unfolding add_word
  add_int32 w value = add_word w value

  unfoldable pub add_float32 : PacketWriter → ℕ → Bool × PacketWriter
  unfolding add_word
  add_float32 w value = add_word w value

  unfoldable pub add_arg : PacketWriter → Argument → Bool × PacketWriter
  unfolding add_int32 add_string add_float32
  add_arg w (osc_int32 value) = add_int32 w value
  add_arg w (osc_string value) = add_string w value
  add_arg w (osc_float32 value) = add_float32 w value

  -- `(writer.add_arg(args) && ...)`
  unfoldable pub add_args : PacketWriter → List Argument → Bool × PacketWriter
  unfolding add_arg
  add_args w [] = (true, w)
  add_args w (a ∷ rest) = and_then (add_arg w a) (λ w. add_args w rest)

  -- The size is returned beside the packet buffer, whatever it held before.
  unfoldable pub make_packet : Address → List Argument → Option ℕ × List ℕ
  unfolding add_address add_type_tags add_args
  make_packet address args =
      let start : PacketWriter = record { buffer = replicate packet_buffer_size 0; offset = 0 } in
      let (ok, w) =
        and_then (and_then (add_address start address) (λ w. add_type_tags w (tags_of args)))
          (λ w. add_args w args) in
      (if ok then some w.offset else none, w.buffer)
