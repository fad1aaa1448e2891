-- ===== src/Osc/Packet/Safety.antt =====
-- Whatever bytes `parse_message` accepts, the arguments of its view can be read.
use mathlib.Core.Path.{subst}
use open_deck.Prelude.{
  ℕ, zero, suc, ◌-◌, ◌≤◌, ◌<◌, ◌≡◌, refl, sym, ap, ◌∙◌, inl, inr, Bool, true, false, Option, none,
  some, List, [], ◌∷◌, length, arith, replicate, get_or, get_or-append_left, ltb, ◌==◌, ==_iff,
  Option-cases, Bool-cases, not, if◌then◌else◌,
}
use open_deck.Osc.Packet.{
  Platform, max_argument_count, Argument, osc_int32, osc_string, osc_float32, ArgumentKind,
  int32_kind, string_kind, float32_kind, type_tag, comma,
}
use open_deck.Osc.Packet.RoundTrip.{arg-reads}
use open_deck.Osc.Packet.Parse.{parse_message-eq}
use open_deck.Osc.Packet.Reader.{
  OscMessageView, message_view, arg, arg_matches, parse_message, parse_arguments, all_read,
  read_value, argument, offset_after, cons_offset, skip_argument, skip_arguments, read_string,
  read_int32, read_float32,
}

-- A value of some kind stands at the offset.
abbrev Readable : Platform → List ℕ → ℕ → ℕ → Type 0
Readable h packet offset tag =
    (kind : ArgumentKind) × (a : Argument) × (tag ≡ type_tag kind)
    × (read_value h packet offset kind ≡ some a)

read-argument {ℓ} :
    {A : Type ℓ} (f : A → Argument) (o : Option (A × ℕ)) (next : ℕ)
    → offset_after o ≡ some next
    → (a : Argument) × (argument f o ≡ some a)
read-argument f none next e = absurd (ground arith)
read-argument f (some (v, n)) next e = (f v, refl)

if-true {ℓ} : {A : Type ℓ} (b : Bool) (x y : A) → b ≡ true → (if b then x else y) ≡ x
if-true true x y e = refl
if-true false x y e = absurd (ground arith)

if-false {ℓ} : {A : Type ℓ} (b : Bool) (x y : A) → b ≡ false → (if b then x else y) ≡ y
if-false true x y e = absurd (ground arith)
if-false false x y e = refl

module _ (h : Platform) (packet : List ℕ) where
  skip_argument-Readable :
      (offset tag next : ℕ)
      → skip_argument h packet offset tag ≡ some next
      → Readable h packet offset tag
  unfolding skip_argument
  skip_argument-Readable offset tag next e = elim (Bool-cases (tag == type_tag int32_kind)) [
    | inl t ↦
        let (a, r) =
          read-argument osc_int32 (read_int32 h packet offset) next
            (sym (if-true (tag == type_tag int32_kind) _ _ t) ∙ e) in
        (int32_kind, a, (==_iff tag (type_tag int32_kind)).0 t, r)
    | inr f ↦
        let e₁ = sym (if-false (tag == type_tag int32_kind) _ _ f) ∙ e in
        elim (Bool-cases (tag == type_tag string_kind)) [
          | inl t ↦
              let (a, r) =
                read-argument osc_string (read_string packet offset) next
                  (sym (if-true (tag == type_tag string_kind) _ _ t) ∙ e₁) in
              (string_kind, a, (==_iff tag (type_tag string_kind)).0 t, r)
          | inr f₁ ↦
              let e₂ = sym (if-false (tag == type_tag string_kind) _ _ f₁) ∙ e₁ in
              elim (Bool-cases (tag == type_tag float32_kind)) [
                | inl t ↦
                    let (a, r) =
                      read-argument osc_float32 (read_float32 h packet offset) next
                        (sym (if-true (tag == type_tag float32_kind) _ _ t) ∙ e₂) in
                    (float32_kind, a, (==_iff tag (type_tag float32_kind)).0 t, r)
                | inr f₂ ↦ absurd (
                    let e₃ = sym (if-false (tag == type_tag float32_kind) _ _ f₂) ∙ e₂ in
                    ground arith)
              ]
        ]
  ]

  skip-nothing :
      (offset tag : ℕ) (tags : List ℕ)
      → skip_argument h packet offset tag ≡ none
      → skip_arguments h packet offset (tag ∷ tags) ≡ none
  unfolding skip_arguments
  skip-nothing offset tag tags e = rw (skip_arguments, e)

  skip-next :
      (offset tag : ℕ) (tags : List ℕ) (next : ℕ)
      → skip_argument h packet offset tag ≡ some next
      → skip_arguments h packet offset (tag ∷ tags)
        ≡ cons_offset offset (skip_arguments h packet next tags)
  unfolding skip_arguments
  skip-next offset tag tags next e = rw (skip_arguments, e)

  cons_offset-inverse :
      (offset last : ℕ) (offsets : List ℕ) (o : Option (List ℕ × ℕ))
      → cons_offset offset o ≡ some (offsets, last)
      → (rest : List ℕ) × (o ≡ some (rest, last)) × (offsets ≡ offset ∷ rest)
  cons_offset-inverse offset last offsets none e = absurd (ground arith)
  cons_offset-inverse offset last offsets (some (rest, n)) e = (rest, ground arith, ground arith)

  skip_arguments-inverse :
      (offset tag last : ℕ) (tags offsets : List ℕ)
      → skip_arguments h packet offset (tag ∷ tags) ≡ some (offsets, last)
      → (next : ℕ) × (rest : List ℕ) × (skip_argument h packet offset tag ≡ some next)
        × (skip_arguments h packet next tags ≡ some (rest, last))
        × (offsets ≡ offset ∷ rest)
  skip_arguments-inverse offset tag last tags offsets e =
      elim (Option-cases (skip_argument h packet offset tag)) [
        | inl f ↦ absurd (let g = sym (skip-nothing offset tag tags f) ∙ e in ground arith)
        | inr (next, f) ↦
            let (rest, p, q) =
              cons_offset-inverse offset last offsets (skip_arguments h packet next tags)
                (sym (skip-next offset tag tags next f) ∙ e) in
            (next, rest, f, p, q)
      ]

  length-skip_arguments :
      (offset last : ℕ) (tags offsets : List ℕ)
      → skip_arguments h packet offset tags ≡ some (offsets, last)
      → length offsets ≡ length tags
  unfolding skip_arguments
  length-skip_arguments offset last [] offsets e =
      ap (λ q. length q) (let f : [] ≡ offsets = ground arith in sym f)
  length-skip_arguments offset last (tag ∷ tags) offsets e =
      let (next, rest, f, p, q) = skip_arguments-inverse offset tag last tags offsets e in
      ap length q ∙ ap suc (length-skip_arguments next last tags rest p)

  skip_arguments-Readable :
      (offset last i : ℕ) (tags offsets : List ℕ)
      → skip_arguments h packet offset tags ≡ some (offsets, last)
      → i < length tags
      → Readable h packet (get_or offsets i 0) (get_or tags i 0)
  skip_arguments-Readable offset last i [] offsets e l = absurd (omega arith)
  skip_arguments-Readable offset last zero (tag ∷ tags) offsets e l =
      let (next, rest, f, p, q) = skip_arguments-inverse offset tag last tags offsets e in
      subst (λ os. Readable h packet (get_or os 0 0) tag) (sym q)
        (skip_argument-Readable offset tag next f)
  skip_arguments-Readable offset last (suc i) (tag ∷ tags) offsets e l =
      let (next, rest, f, p, q) = skip_arguments-inverse offset tag last tags offsets e in
      subst (λ os. Readable h packet (get_or os (suc i) 0) (get_or tags i 0)) (sym q)
        (skip_arguments-Readable next last i tags rest p (omega arith))

  all_read-inverse :
      (address type_tags : List ℕ) (o : Option (List ℕ × ℕ)) (view : OscMessageView)
      → all_read packet address type_tags o ≡ some view
      → (offsets : List ℕ) × (o ≡ some (offsets, length packet))
        × (view ≡ message_view packet address type_tags offsets)
  all_read-inverse address type_tags none view e = absurd (ground arith)
  all_read-inverse address type_tags (some (offsets, last)) view e =
      elim (Bool-cases (last == length packet)) [
        | inl t ↦ (
          offsets,
          ap (λ n. some (offsets, n)) ((==_iff last (length packet)).0 t),
          let g = sym (if-true (last == length packet) _ _ t) ∙ e in ground arith,
        )
        | inr f ↦ absurd (let g = sym (if-false (last == length packet) _ _ f) ∙ e in ground arith)
      ]

  -- What is known of an accepted message.
  abbrev Parsed : OscMessageView → Type 0
  Parsed view =
      (start : ℕ) × (tags : List ℕ) × (offsets : List ℕ) × (address : List ℕ) × (length tags
        ≤ max_argument_count)
      × (skip_arguments h packet start tags ≡ some (offsets, length packet))
      × (view ≡ message_view packet address (comma ∷ tags) offsets)

  parse_arguments-Parsed :
      (address type_tags : List ℕ) (start : ℕ) (view : OscMessageView)
      → parse_arguments h packet address type_tags start ≡ some view
      → Parsed view
  unfolding parse_arguments
  parse_arguments-Parsed address [] start view e = absurd (ground arith)
  parse_arguments-Parsed address (first ∷ tags) start view e = elim (Bool-cases (first == comma)) [
    | inl t ↦
        let e₁ = sym (if-false (not (first == comma)) none _ (ap not t)) ∙ e in
        elim (Bool-cases (ltb max_argument_count (length tags))) [
          | inl u ↦ absurd (
              let g = sym (if-true (ltb max_argument_count (length tags)) none _ u) ∙ e₁ in
              ground arith)
          | inr u ↦
              let e₂ = sym (if-false (ltb max_argument_count (length tags)) none _ u) ∙ e₁ in
              let (offsets, p, q) =
                all_read-inverse address (first ∷ tags) (skip_arguments h packet start tags) view
                  e₂ in
              (
                start,
                tags,
                offsets,
                address,
                ground arith,
                p,
                q
                    ∙ ap (λ c. message_view packet address (c ∷ tags) offsets)
                        ((==_iff first comma).0 t),
              )
        ]
    | inr f ↦
        absurd (let g = sym (if-true (not (first == comma)) none _ (ap not f)) ∙ e in ground arith)
  ]

  parse_nothing : read_string packet 0 ≡ none → parse_message h packet ≡ none
  unfolding parse_message
  parse_nothing e = rw (parse_message, e)

  parse_no_tags :
      (address : List ℕ) (offset : ℕ)
      → read_string packet 0 ≡ some (address, offset)
      → read_string packet offset ≡ none
      → parse_message h packet ≡ none
  unfolding parse_message
  parse_no_tags address offset e e' = rw (parse_message, e, e')

  parse_message-Parsed : (view : OscMessageView) → parse_message h packet ≡ some view → Parsed view
  parse_message-Parsed view e = elim (Option-cases (read_string packet 0)) [
    | inl f ↦ absurd (let g = sym (parse_nothing f) ∙ e in ground arith)
    | inr ((address, offset), f) ↦ elim (Option-cases (read_string packet offset)) [
      | inl f' ↦ absurd (let g = sym (parse_no_tags address offset f f') ∙ e in ground arith)
      | inr ((tags, offset'), f') ↦
          parse_arguments-Parsed address tags offset' view
            (sym (parse_message-eq h packet address tags offset offset' f f') ∙ e)
    ]
  ]

  Parsed-matches :
      (i : ℕ) (tags offsets address : List ℕ) (kind : ArgumentKind)
      → i < length offsets
      → length offsets ≡ length tags
      → get_or tags i 0 ≡ type_tag kind
      → arg_matches (message_view packet address (comma ∷ tags) offsets) i (type_tag kind) ≡ true
  unfolding message_view arg_matches
  Parsed-matches i tags offsets address kind l e t = ground arith

  Parsed-offset :
      (i : ℕ) (tags offsets address : List ℕ)
      → i < length offsets
      → get_or (message_view packet address (comma ∷ tags) offsets).arg_offsets i 0
        ≡ get_or offsets i 0
  unfolding message_view
  Parsed-offset i tags offsets address l =
      get_or-append_left offsets (replicate (max_argument_count - length offsets) 0) i 0 l

  Parsed-packet :
      (tags offsets address : List ℕ)
      → ((message_view packet address (comma ∷ tags) offsets).packet ≡ packet)
        × ((message_view packet address (comma ∷ tags) offsets).arg_count ≡ length offsets)
  unfolding message_view
  Parsed-packet tags offsets address = (refl, refl)

  arg-Parsed :
      (start i : ℕ) (tags offsets address : List ℕ)
      → length tags ≤ max_argument_count
      → skip_arguments h packet start tags ≡ some (offsets, length packet)
      → i < (message_view packet address (comma ∷ tags) offsets).arg_count
      → (kind : ArgumentKind) × (a : Argument) × (arg h
            (message_view packet address (comma ∷ tags) offsets)
            i
            kind
          ≡ some a)
  arg-Parsed start i tags offsets address l e b =
      let view = message_view packet address (comma ∷ tags) offsets in
      let size = length-skip_arguments start (length packet) tags offsets e in
      let (same, count) = Parsed-packet tags offsets address in
      let b' : i < length offsets = omega (arith, count) in
      let (kind, a, t, r) =
        skip_arguments-Readable start (length packet) i tags offsets e (omega (arith, size)) in
      (
        kind,
        a,
        arg-reads h view i kind (Parsed-matches i tags offsets address kind b' size t)
            ∙ ap (λ q. read_value h q (get_or view.arg_offsets i 0) kind) same
            ∙ ap (λ o. read_value h packet o kind) (Parsed-offset i tags offsets address b')
            ∙ r,
      )

  -- On any bytes, a view that `parse_message` returns has at most eight arguments, and `arg`
  -- returns a value for every index below their number, for some kind.
  pub parse_message-arg :
      (view : OscMessageView) (i : ℕ)
      → parse_message h packet ≡ some view
      → i < view.arg_count
      → (view.arg_count ≤ max_argument_count)
        × (kind : ArgumentKind) × (a : Argument) × (arg h view i kind ≡ some a)
  parse_message-arg view i e l =
      let (start, tags, offsets, address, few, skipped, same) = parse_message-Parsed view e in
      let made = message_view packet address (comma ∷ tags) offsets in
      let size = length-skip_arguments start (length packet) tags offsets skipped in
      let count = (Parsed-packet tags offsets address).1 in
      let (kind, a, r) =
        arg-Parsed start i tags offsets address few skipped
          (subst (λ (v : OscMessageView). i < v.arg_count) same l) in
      (
        omega (arith, ap (λ (v : OscMessageView). v.arg_count) same, count, size),
        kind,
        a,
        ap (λ v. arg h v i kind) same ∙ r,
      )
