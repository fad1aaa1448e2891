-- ===== src/Osc/Packet/Reader.antt =====
-- `OscMessageView` and `parse_message`: app/firmware/src/protocol/osc/packet/packet.{h,cpp}. A read
-- that fails is `none`; its offset and value are dropped by every caller.
use open_deck.Prelude.{
  ℕ, zero, suc, ◌+◌, ◌-◌, ◌%◌, Bool, true, false, not, ◌&&◌, ◌||◌, Option, none, some, List, [],
  ◌∷◌, ◌++◌, ltb, leb, ◌==◌, if◌then◌else◌, length, get_or, take, drop, replicate,
}
use open_deck.Osc.Packet.{
  max_argument_count, Argument, osc_int32, osc_string, osc_float32, ArgumentKind, int32_kind,
  string_kind, float32_kind, type_tag, comma, alignment, word_size, Platform,
}

-- the loop to the terminator, with the bytes left as its bound
unfoldable pub find_end : ℕ → List ℕ → ℕ → ℕ
find_end zero packet offset = offset
find_end (suc rounds) packet offset =
    elim (ltb offset (length packet) && not (get_or packet offset 0 == 0)) [
      | true ↦ find_end rounds packet (offset + 1)
      | false ↦ offset
    ]

-- the loop to the next boundary
unfoldable pub align_loop : ℕ → ℕ → ℕ
align_loop zero offset = offset
align_loop (suc rounds) offset = elim (offset % alignment == 0) [
  | true ↦ offset
  | false ↦ align_loop rounds (offset + 1)
]

unfoldable pub read_string : List ℕ → ℕ → Option (List ℕ × ℕ)
unfolding find_end align_loop
read_string packet start =
    if leb (length packet) start
    then none
    else (let offset = find_end (length packet - start) packet start in
        if leb (length packet) offset
        then none
        else (let value = take (offset - start) (drop start packet) in
            let aligned = align_loop alignment (offset + 1) in
            if leb aligned (length packet) then some (value, aligned) else none))

module _ (h : Platform) where
  -- the common body of `read_int32` and `read_float32`
  unfoldable pub read_word32 : List ℕ → ℕ → Option (ℕ × ℕ)
  read_word32 packet offset =
      if ltb (length packet) offset || ltb (length packet - offset) word_size
      then none
      else some
          (h.be32_to_cpu (h.from_memory (take word_size (drop offset packet))), offset + word_size)

  unfoldable pub read_int32 : List ℕ → ℕ → Option (ℕ × ℕ)
  unfolding read_word32
  read_int32 packet offset = read_word32 packet offset

  unfoldable pub read_float32 : List ℕ → ℕ → Option (ℕ × ℕ)
  unfolding read_word32
  read_float32 packet offset = read_word32 packet offset

pub record OscMessageView : Type 0 where
  pub packet : List ℕ
  pub address : List ℕ
  pub type_tags : List ℕ
  pub arg_offsets : List ℕ
  pub arg_count : ℕ

-- the constructor, which copies the offsets to the front of an array of zeros
unfoldable pub message_view : List ℕ → List ℕ → List ℕ → List ℕ → OscMessageView
message_view packet address type_tags arg_offsets = record {
  packet = packet;
  address = address;
  type_tags = type_tags;
  arg_offsets = arg_offsets ++ replicate (max_argument_count - length arg_offsets) 0;
  arg_count = length arg_offsets;
}

unfoldable pub is_empty : OscMessageView → Bool
is_empty view = view.arg_count == 0

unfoldable pub arg_matches : OscMessageView → ℕ → ℕ → Bool
arg_matches view index tag =
    ltb index view.arg_count
    && ltb (index + 1) (length view.type_tags)
    && get_or view.type_tags (index + 1) 0 == tag

-- the first component, as an argument
abbrev pub argument {ℓ} : {A : Type ℓ} → (A → Argument) → Option (A × ℕ) → Option Argument
argument f none = none
argument f (some (value, offset)) = some (f value)

module _ (h : Platform) where
  -- The value at an offset, read as an argument of a kind.
  abbrev pub read_value : List ℕ → ℕ → ArgumentKind → Option Argument
  read_value packet offset int32_kind = argument osc_int32 (read_int32 h packet offset)
  read_value packet offset string_kind = argument osc_string (read_string packet offset)
  read_value packet offset float32_kind = argument osc_float32 (read_float32 h packet offset)

  -- `arg` and the three overloads of `read_arg`
  unfoldable pub arg : OscMessageView → ℕ → ArgumentKind → Option Argument
  unfolding arg_matches
  arg view index kind =
      if arg_matches view index (type_tag kind)
      then read_value view.packet (get_or view.arg_offsets index 0) kind
      else none

-- the offset that a read leaves
abbrev pub offset_after {ℓ} : {A : Type ℓ} → Option (A × ℕ) → Option ℕ
offset_after none = none
offset_after (some (value, offset)) = some offset

abbrev pub cons_offset : ℕ → Option (List ℕ × ℕ) → Option (List ℕ × ℕ)
cons_offset offset none = none
cons_offset offset (some (offsets, last)) = some (offset ∷ offsets, last)

-- the check after the loop, that the arguments end where the packet ends
abbrev pub all_read : List ℕ → List ℕ → List ℕ → Option (List ℕ × ℕ) → Option OscMessageView
all_read packet address type_tags none = none
all_read packet address type_tags (some (offsets, last)) =
    if last == length packet then some (message_view packet address type_tags offsets) else none

module _ (h : Platform) where
  -- the switch in the loop of `parse_message`
  unfoldable pub skip_argument : List ℕ → ℕ → ℕ → Option ℕ
  unfolding read_int32 read_string read_float32
  skip_argument packet offset tag =
      if tag == type_tag int32_kind
      then offset_after (read_int32 h packet offset)
      else (if tag == type_tag string_kind
          then offset_after (read_string packet offset)
          else (if tag == type_tag float32_kind
              then offset_after (read_float32 h packet offset)
              else none))

  -- the loop of `parse_message` over the tags that follow the comma, which leaves the offsets
  unfoldable pub skip_arguments : List ℕ → ℕ → List ℕ → Option (List ℕ × ℕ)
  unfolding skip_argument
  skip_arguments packet offset [] = some ([], offset)
  skip_arguments packet offset (tag ∷ tags) = elim (skip_argument packet offset tag) [
    | none ↦ none
    | some next ↦ cons_offset offset (skip_arguments packet next tags)
  ]

  -- what follows the two strings
  unfoldable pub parse_arguments : List ℕ → List ℕ → List ℕ → ℕ → Option OscMessageView
  unfolding skip_arguments
  parse_arguments packet address [] offset = none
  parse_arguments packet address (first ∷ tags) offset =
      if not (first == comma)
      then none
      else (if ltb max_argument_count (length tags)
          then none
          else all_read packet address (first ∷ tags) (skip_arguments packet offset tags))

  unfoldable pub parse_message : List ℕ → Option OscMessageView
  unfolding read_string parse_arguments
  parse_message packet = elim (read_string packet 0) [
    | none ↦ none
    | some (address, offset) ↦ elim (read_string packet offset) [
      | none ↦ none
      | some (tags, offset') ↦ parse_arguments packet address tags offset'
    ]
  ]
