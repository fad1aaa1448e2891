-- ===== src/Osc/Packet/RoundTrip.antt =====
-- A packet that `make_packet` made is read back by `parse_message` and `arg`.
use mathlib.Core.Path.{subst}
use open_deck.Prelude.{
  ℕ, zero, suc, ◌+◌, ◌-◌, ◌≤◌, ◌<◌, ◌≡◌, refl, sym, ap, ◌∙◌, true, false, Option, none, some, List,
  [], ◌∷◌, ◌++◌, length, map, All, arith, length-append, length-map, append_assoc, get_elem?,
  replicate, take, lt_or_le, inl, inr, get_or, get_or-append_left, take-append, ltb, Option-cases,
  Bool-cases, if◌then◌else◌, ==_iff, ◌&&◌, ◌==◌,
}
use open_deck.Osc.Packet.{
  Platform, IsDocumented, packet_buffer_size, max_argument_count, Argument, osc_int32, osc_string,
  osc_float32, ArgumentKind, kind_of, type_tag, Address,
}
use open_deck.Osc.Packet.Writer.{tags_of, make_packet}
use open_deck.Osc.Packet.Reader.{
  OscMessageView, message_view, arg, arg_matches, parse_message, read_value,
}
use open_deck.Osc.Packet.Encode.{
  address_text, argument_bytes, arguments_bytes, FitsWord, message_bytes, make_packet-fits,
  make_packet-fails,
}
use open_deck.Osc.Packet.Scan.{IsText}
use open_deck.Osc.Packet.Parse.{
  IsReadable, offsets_of, view_of, strings_bytes, message_bytes-eq, parse_message-message,
  read_value-argument,
}

readable-FitsWord : (a : Argument) → IsReadable a → FitsWord a
readable-FitsWord (osc_int32 v) r = r
readable-FitsWord (osc_string s) r = tt
readable-FitsWord (osc_float32 v) r = r

pub args-FitsWord : (args : List Argument) → All IsReadable args → All FitsWord args
args-FitsWord [] r = tt
args-FitsWord (a ∷ rest) (r, rs) = (readable-FitsWord a r, args-FitsWord rest rs)

some-cancel : {A : Type 0} {x y : A} → some x ≡ some y → x ≡ y
some-cancel e = cc

length-offsets_of : (args : List Argument) (n : ℕ) → length (offsets_of args n) ≡ length args
length-offsets_of [] n = refl
length-offsets_of (a ∷ rest) n = ap suc (length-offsets_of rest (n + length (argument_bytes a n)))

get_elem?-bound :
    (args : List Argument) (i : ℕ) (a : Argument) → get_elem? args i ≡ some a → i < length args
get_elem?-bound [] i a e = absurd (ground arith)
get_elem?-bound (b ∷ rest) zero a e = omega arith
get_elem?-bound (b ∷ rest) (suc i) a e = omega (arith, get_elem?-bound rest i a e)

get_elem?-tag :
    (args : List Argument) (i : ℕ) (a : Argument)
    → get_elem? args i ≡ some a
    → get_or (map (λ a. type_tag (kind_of a)) args) i 0 ≡ type_tag (kind_of a)
get_elem?-tag [] i a e = absurd (ground arith)
get_elem?-tag (b ∷ rest) zero a e = ap (λ c. type_tag (kind_of c)) (some-cancel e)
get_elem?-tag (b ∷ rest) (suc i) a e = get_elem?-tag rest i a e

module _ (h : Platform) (doc : IsDocumented h) where
  -- each argument is read where its offset points
  read_at-offset :
      (pre : List ℕ) (args : List Argument) (i : ℕ) (a : Argument)
      → All IsReadable args
      → get_elem? args i ≡ some a
      → read_value h
          (pre ++ arguments_bytes args (length pre))
          (get_or (offsets_of args (length pre)) i 0)
          (kind_of a)
        ≡ some a
  read_at-offset pre [] i a r e = absurd (ground arith)
  read_at-offset pre (b ∷ rest) zero a (r, rs) e =
      let n = length pre in
      let tail = arguments_bytes rest (n + length (argument_bytes b n)) in
      subst (λ c. read_value h (pre ++ (argument_bytes b n ++ tail)) n (kind_of c) ≡ some c)
        (some-cancel e) (read_value-argument h doc pre tail b r)
  read_at-offset pre (b ∷ rest) (suc i) a (r, rs) e =
      let n = length pre in
      let bs = argument_bytes b n in
      let m = n + length bs in
      let again =
        subst
          (λ k.
            read_value h ((pre ++ bs) ++ arguments_bytes rest k) (get_or (offsets_of rest k) i 0)
              (kind_of a)
            ≡ some a)
          (length-append pre bs) (read_at-offset (pre ++ bs) rest i a rs e) in
      ap (λ q. read_value h q (get_or (offsets_of rest m) i 0) (kind_of a))
        (sym (append_assoc pre bs (arguments_bytes rest m)))
      ∙ again

  arg-offset :
      (address : Address) (args : List Argument) (i : ℕ)
      → i < length args
      → get_or (view_of address args).arg_offsets i 0
        ≡ get_or (offsets_of args (length (strings_bytes address args))) i 0
  unfolding message_view
  arg-offset address args i b =
      let offsets = offsets_of args (length (strings_bytes address args)) in
      get_or-append_left offsets (replicate (max_argument_count - length offsets) 0) i 0
        (omega (arith, length-offsets_of args (length (strings_bytes address args))))

  packet-view :
      (address : Address) (args : List Argument)
      → (view_of address args).packet ≡ message_bytes address args
  unfolding message_view
  packet-view address args = refl

  -- the argument, if it is of the kind
  arg-expected :
      (address : Address) (args : List Argument) (i : ℕ) (kind : ArgumentKind) (a : Argument)
      → All IsReadable args
      → get_elem? args i ≡ some a
      → read_value h
          (view_of address args).packet
          (get_or (view_of address args).arg_offsets i 0)
          (kind_of a)
        ≡ some a
  arg-expected address args i kind a r e =
      let at = strings_bytes address args in
      ap (λ q. read_value h q (get_or (view_of address args).arg_offsets i 0) (kind_of a))
        (packet-view address args ∙ message_bytes-eq address args)
      ∙ ap (λ o. read_value h (at ++ arguments_bytes args (length at)) o (kind_of a))
          (arg-offset address args i (get_elem?-bound args i a e))
      ∙ read_at-offset at args i a r e

-- The argument at an index, if there is one of the kind.
unfoldable pub typed : List Argument → ℕ → ArgumentKind → Option Argument
typed args i kind = elim (get_elem? args i) [
  | none ↦ none
  | some a ↦ if type_tag (kind_of a) == type_tag kind then some a else none
]

arg_matches-view :
    (address : Address) (args : List Argument) (i tag : ℕ)
    → arg_matches (view_of address args) i tag
      ≡ (ltb i (length args) && get_or (map (λ a. type_tag (kind_of a)) args) i 0 == tag)
unfolding arg_matches message_view
arg_matches-view address args i tag = ground (
  arith,
  length-offsets_of args (length (strings_bytes address args)),
  length-map args (λ a. type_tag (kind_of a)),
)

get_elem?-none : (args : List Argument) (i : ℕ) → get_elem? args i ≡ none → length args ≤ i
get_elem?-none [] i e = omega arith
get_elem?-none (b ∷ rest) zero e = absurd (ground arith)
get_elem?-none (b ∷ rest) (suc i) e = omega (arith, get_elem?-none rest i e)

same-kind : (k l : ArgumentKind) → type_tag k ≡ type_tag l → k ≡ l
same-kind ArgumentKind.int32_kind ArgumentKind.int32_kind e = refl
same-kind ArgumentKind.int32_kind ArgumentKind.string_kind e = absurd (omega arith)
same-kind ArgumentKind.int32_kind ArgumentKind.float32_kind e = absurd (omega arith)
same-kind ArgumentKind.string_kind ArgumentKind.int32_kind e = absurd (omega arith)
same-kind ArgumentKind.string_kind ArgumentKind.string_kind e = refl
same-kind ArgumentKind.string_kind ArgumentKind.float32_kind e = absurd (omega arith)
same-kind ArgumentKind.float32_kind ArgumentKind.int32_kind e = absurd (omega arith)
same-kind ArgumentKind.float32_kind ArgumentKind.string_kind e = absurd (omega arith)
same-kind ArgumentKind.float32_kind ArgumentKind.float32_kind e = refl

pub typed-same : (a : Argument) (rest : List Argument) → typed (a ∷ rest) 0 (kind_of a) ≡ some a
unfolding typed
typed-same (osc_int32 v) rest = refl
typed-same (osc_string s) rest = refl
typed-same (osc_float32 v) rest = refl

typed-none :
    (args : List Argument) (i : ℕ) (kind : ArgumentKind)
    → get_elem? args i ≡ none
    → typed args i kind ≡ none
unfolding typed
typed-none args i kind e = rw (typed, e)

typed-some :
    (args : List Argument) (i : ℕ) (kind : ArgumentKind) (a : Argument)
    → get_elem? args i ≡ some a
    → typed args i kind ≡ (if type_tag (kind_of a) == type_tag kind then some a else none)
unfolding typed
typed-some args i kind a e = rw (typed, e)

module _ (h : Platform) (view : OscMessageView) (i : ℕ) (kind : ArgumentKind) where
  arg-refused : arg_matches view i (type_tag kind) ≡ false → arg h view i kind ≡ none
  unfolding arg
  arg-refused e =
      ap (λ b. if b then read_value h view.packet (get_or view.arg_offsets i 0) kind else none) e

  pub arg-reads :
      arg_matches view i (type_tag kind) ≡ true
      → arg h view i kind ≡ read_value h view.packet (get_or view.arg_offsets i 0) kind
  unfolding arg
  arg-reads e =
      ap (λ b. if b then read_value h view.packet (get_or view.arg_offsets i 0) kind else none) e

module _ (h : Platform) (doc : IsDocumented h) where
  arg-view :
      (address : Address) (args : List Argument) (i : ℕ) (kind : ArgumentKind)
      → All IsReadable args
      → arg h (view_of address args) i kind ≡ typed args i kind
  arg-view address args i kind r =
      let view = view_of address args in
      let m = arg_matches-view address args i (type_tag kind) in
      elim (Option-cases (get_elem? args i)) [
        | inl e ↦
            arg-refused h view i kind (m ∙ (let l = get_elem?-none args i e in ground arith))
            ∙ sym (typed-none args i kind e)
        | inr (a, e) ↦
            let l = get_elem?-bound args i a e in
            let t = get_elem?-tag args i a e in
            elim (Bool-cases (type_tag (kind_of a) == type_tag kind)) [
              | inl s ↦
                  let k =
                    same-kind (kind_of a) kind
                      ((==_iff (type_tag (kind_of a)) (type_tag kind)).0 s) in
                  arg-reads h view i kind (m ∙ ground (arith, t))
                  ∙ ap (read_value h view.packet (get_or view.arg_offsets i 0)) (sym k)
                  ∙ arg-expected h doc address args i kind a r e
                  ∙ sym (typed-some args i kind a e ∙ ap (λ b. if b then some a else none) s)
              | inr s ↦
                  arg-refused h view i kind (m ∙ ground (arith, t))
                  ∙ sym (typed-some args i kind a e ∙ ap (λ b. if b then some a else none) s)
            ]
      ]

  -- The bytes made are those of the message.
  take-made :
      (address : Address) (args : List Argument) (size : ℕ) (buffer : List ℕ)
      → All IsReadable args
      → make_packet h address args ≡ (some size, buffer)
      → take size buffer ≡ message_bytes address args
  take-made address args size buffer r made =
      let bytes = message_bytes address args in
      let f = args-FitsWord args r in
      elim (lt_or_le packet_buffer_size (length bytes)) [
        | inl long ↦
            absurd
              (none-some (sym (make_packet-fails h doc address args f long) ∙ ap (λ p. p.0) made))
        | inr short ↦
            let both = sym made ∙ make_packet-fits h doc address args f short in
            ap (λ n. take n buffer) (some-cancel (ap (λ p. p.0) both))
            ∙ ap (λ q. take (length bytes) q) (ap (λ p. p.1) both)
            ∙ take-append bytes (replicate (packet_buffer_size - length bytes) 0)
      ]
    where
      none-some : {n : ℕ} → none ≡ some n → ⊥
      none-some e = ground arith

  fields-view :
      (address : Address) (args : List Argument)
      → ((view_of address args).address ≡ address_text address)
        × ((view_of address args).type_tags ≡ tags_of args)
        × ((view_of address args).arg_count ≡ length args)
  unfolding message_view
  fields-view address args =
      (refl, refl, length-offsets_of args (length (strings_bytes address args)))

  -- When `make_packet` makes a packet of at most eight arguments, whose words have 32 bits and
  -- whose strings and address hold no zero, `parse_message` on the bytes made, on a documented
  -- platform, returns a view with the address, the type tags and the number of arguments, and `arg`
  -- on that view returns, at any index and for any kind, the argument that was written there if
  -- there is one of that kind, and nothing otherwise.
  pub parse_message-make_packet :
      (address : Address) (args : List Argument) (size : ℕ) (buffer : List ℕ) (i : ℕ)
      (kind : ArgumentKind)
      → IsText (address_text address)
      → All IsReadable args
      → length args ≤ max_argument_count
      → make_packet h address args ≡ (some size, buffer)
      → (view : OscMessageView) × (parse_message h (take size buffer) ≡ some view)
        × (view.address ≡ address_text address)
        × (view.type_tags ≡ tags_of args)
        × (view.arg_count ≡ length args)
        × (arg h view i kind ≡ typed args i kind)
  parse_message-make_packet address args size buffer i kind t r l made = (
    view_of address args,
    ap (parse_message h) (take-made address args size buffer r made)
        ∙ parse_message-message h doc address args t r l,
    (fields-view address args).0,
    (fields-view address args).1,
    (fields-view address args).2,
    arg-view address args i kind r,
  )
