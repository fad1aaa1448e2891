-- ===== src/Osc/Packet/Parse.antt =====
-- `parse_message` on the bytes of a message.
use mathlib.Core.Path.{subst}
use open_deck.Prelude.{
  ℕ, ◌+◌, ◌^◌, ◌≤◌, ◌<◌, ◌≡◌, sym, ap, ◌∙◌, some, List, [], ◌∷◌, ◌++◌, length, map, All, arith,
  length-append, length-map, append_assoc,
}
use open_deck.Osc.Packet.{
  Platform, IsDocumented, max_argument_count, Argument, osc_int32, osc_string, osc_float32, kind_of,
  type_tag, Address, comma,
}
use open_deck.Osc.Packet.Writer.{tags_of}
use open_deck.Osc.Packet.Reader.{
  OscMessageView, read_string, message_view, skip_argument, skip_arguments, cons_offset,
  parse_arguments, parse_message, read_value, read_int32, read_float32,
}
use open_deck.Osc.Packet.Written.{string_bytes}
use open_deck.Osc.Packet.Encode.{address_text, argument_bytes, arguments_bytes, message_bytes}
use open_deck.Osc.Packet.Scan.{IsText, read_string-text, read_word32-word}

-- What an argument needs to be written and read back: a word fits 32 bits, a string holds no zero.
abbrev pub IsReadable : Argument → Type 0
IsReadable (osc_int32 v) = v < 2 ^ 32
IsReadable (osc_string s) = IsText s
IsReadable (osc_float32 v) = v < 2 ^ 32

-- The offsets of the arguments, the first of which stands at the given one.
abbrev pub offsets_of : List Argument → ℕ → List ℕ
offsets_of [] n = []
offsets_of (a ∷ rest) n = n ∷ offsets_of rest (n + length (argument_bytes a n))

module _ (h : Platform) where
  skip_arguments-cons :
      (packet : List ℕ) (offset tag : ℕ) (tags : List ℕ) (next : ℕ)
      → skip_argument h packet offset tag ≡ some next
      → skip_arguments h packet offset (tag ∷ tags)
        ≡ cons_offset offset (skip_arguments h packet next tags)
  unfolding skip_arguments
  skip_arguments-cons packet offset tag tags next e = rw (skip_arguments, e)

  pub parse_message-eq :
      (packet address tags : List ℕ) (offset offset' : ℕ)
      → read_string packet 0 ≡ some (address, offset)
      → read_string packet offset ≡ some (tags, offset')
      → parse_message h packet ≡ parse_arguments h packet address tags offset'
  unfolding parse_message
  parse_message-eq packet address tags offset offset' e e' = rw (parse_message, e, e')

  parse_arguments-eq :
      (packet address tags offsets : List ℕ) (offset : ℕ)
      → length tags ≤ max_argument_count
      → skip_arguments h packet offset tags ≡ some (offsets, length packet)
      → parse_arguments h packet address (comma ∷ tags) offset
        ≡ some (message_view packet address (comma ∷ tags) offsets)
  unfolding parse_arguments
  parse_arguments-eq packet address tags offsets offset l e = ground (arith, e)

module _ (h : Platform) (doc : IsDocumented h) where
  pub read_value-argument :
      (pre rest : List ℕ) (a : Argument)
      → IsReadable a
      → read_value h (pre ++ (argument_bytes a (length pre) ++ rest)) (length pre) (kind_of a)
        ≡ some a
  unfolding read_int32 read_float32
  read_value-argument pre rest (osc_int32 v) r = rw (read_word32-word h doc pre rest v r)
  read_value-argument pre rest (osc_string s) r = rw (read_string-text pre s rest r)
  read_value-argument pre rest (osc_float32 v) r = rw (read_word32-word h doc pre rest v r)

  skip_argument-argument :
      (pre rest : List ℕ) (a : Argument)
      → IsReadable a
      → skip_argument h
          (pre ++ (argument_bytes a (length pre) ++ rest))
          (length pre)
          (type_tag (kind_of a))
        ≡ some (length pre + length (argument_bytes a (length pre)))
  unfolding skip_argument read_int32 read_float32
  skip_argument-argument pre rest (osc_int32 v) r = rw (read_word32-word h doc pre rest v r)
  skip_argument-argument pre rest (osc_string s) r = rw (read_string-text pre s rest r)
  skip_argument-argument pre rest (osc_float32 v) r = rw (read_word32-word h doc pre rest v r)

  skip_arguments-arguments :
      (pre : List ℕ) (args : List Argument)
      → All IsReadable args
      → skip_arguments h
          (pre ++ arguments_bytes args (length pre))
          (length pre)
          (map (λ a. type_tag (kind_of a)) args)
        ≡ some
            (offsets_of args (length pre), length pre + length (arguments_bytes args (length pre)))
  unfolding skip_arguments
  skip_arguments-arguments pre [] r = ap (λ n. some ([], n)) (omega arith)
  skip_arguments-arguments pre (a ∷ rest) (r, rs) =
      let n = length pre in
      let b = argument_bytes a n in
      let m = n + length b in
      let tags = map (λ a. type_tag (kind_of a)) rest in
      let packet = pre ++ (b ++ arguments_bytes rest m) in
      let again =
        subst
          (λ k.
            skip_arguments h ((pre ++ b) ++ arguments_bytes rest k) k tags
            ≡ some (offsets_of rest k, k + length (arguments_bytes rest k)))
          (length-append pre b) (skip_arguments-arguments (pre ++ b) rest rs) in
      skip_arguments-cons h packet n (type_tag (kind_of a)) tags m
        (skip_argument-argument pre (arguments_bytes rest m) a r)
      ∙ ap (λ q. cons_offset n (skip_arguments h q m tags))
          (sym (append_assoc pre b (arguments_bytes rest m)))
      ∙ ap (cons_offset n) again
      ∙ ap (λ l. some (n ∷ offsets_of rest m, l))
          (omega (arith, length-append b (arguments_bytes rest m)))

tags-IsText : (args : List Argument) → IsText (map (λ a. type_tag (kind_of a)) args)
tags-IsText [] = tt
tags-IsText (osc_int32 v ∷ rest) = (omega arith, tags-IsText rest)
tags-IsText (osc_string v ∷ rest) = (omega arith, tags-IsText rest)
tags-IsText (osc_float32 v ∷ rest) = (omega arith, tags-IsText rest)

-- Where the arguments of a message begin.
abbrev pub strings_bytes : Address → List Argument → List ℕ
strings_bytes address args =
    let a = string_bytes (address_text address) 0 in a ++ string_bytes (tags_of args) (length a)

-- The view of a message.
abbrev pub view_of : Address → List Argument → OscMessageView
view_of address args =
    message_view (message_bytes address args) (address_text address) (tags_of args)
      (offsets_of args (length (strings_bytes address args)))

-- The message, as the reader walks it.
pub message_bytes-eq :
    (address : Address) (args : List Argument)
    → message_bytes address args
      ≡ strings_bytes address args ++ arguments_bytes args (length (strings_bytes address args))
message_bytes-eq address args =
    let a = string_bytes (address_text address) 0 in
    let tags = tags_of args in
    let e : 0 + length a ≡ length a = omega arith in
    let e' : 0 + length (strings_bytes address args) ≡ length (strings_bytes address args) =
      omega arith in
    ap
      (λ n.
        (a ++ string_bytes tags n) ++ arguments_bytes args (0 + length (a ++ string_bytes tags n)))
      e
    ∙ ap (λ n. strings_bytes address args ++ arguments_bytes args n) e'

module _ (h : Platform) (doc : IsDocumented h) where
  -- On a documented platform, `parse_message` accepts the bytes of a message of at most eight
  -- arguments, whose words have 32 bits and whose strings and address hold no zero: it returns a
  -- view of the address, of the type tags and of the offsets where the arguments were written.
  pub parse_message-message :
      (address : Address) (args : List Argument)
      → IsText (address_text address)
      → All IsReadable args
      → length args ≤ max_argument_count
      → parse_message h (message_bytes address args) ≡ some (view_of address args)
  parse_message-message address args t r l =
      let text = address_text address in
      let a = string_bytes text 0 in
      let b = string_bytes (tags_of args) (length a) in
      let ab = a ++ b in
      let rest = arguments_bytes args (length ab) in
      let tags = map (λ a. type_tag (kind_of a)) args in
      let packet = ab ++ rest in
      let walked : packet ≡ a ++ (b ++ rest) = append_assoc a b rest in
      let e : parse_message h packet
          ≡ some (message_view packet text (tags_of args) (offsets_of args (length ab))) =
        parse_message-eq h packet text (tags_of args) (length a) (length ab)
          (ap (λ q. read_string q 0) walked
            ∙ read_string-text [] text (b ++ rest) t
            ∙ ap (λ n. some (text, n)) (omega arith))
          (ap (λ q. read_string q (length a)) walked
            ∙ read_string-text a (tags_of args) rest (omega arith, tags-IsText args)
            ∙ ap (λ n. some (tags_of args, n)) (sym (length-append a b)))
        ∙ parse_arguments-eq h packet text tags (offsets_of args (length ab)) (length ab)
            (omega (arith, length-map args (λ a. type_tag (kind_of a))))
            (skip_arguments-arguments h doc ab args r
              ∙ ap (λ n. some (offsets_of args (length ab), n)) (sym (length-append ab rest))) in
      subst
        (λ q.
          parse_message h q
          ≡ some (message_view q text (tags_of args) (offsets_of args (length ab))))
        (sym (message_bytes-eq address args)) e
