-- ===== src/Osc/Packet/Written.antt =====
-- What the operations of `PacketWriter` append, as long as the buffer beyond the offset holds zeros:
-- each one appends bytes that depend on the offset alone, and fails when they do not fit.
use mathlib.Core.Path.{subst, ap₂}
use open_deck.Prelude.{
  snoc_assoc, ℕ, zero, suc, ◌+◌, ◌-◌, ◌%◌, ◌≤◌, ◌<◌, ◌≡◌, refl, sym, ap, ◌∙◌, inl, inr, Bool, true,
  false, List, [], ◌∷◌, ◌++◌, length, set, replicate, length-append, length-replicate, append-nil,
  append_assoc, lt_or_le, if-both, ltb, ◌^◌, arith,
}
use open_deck.Osc.Packet.{Platform, copy_to, big_endian, IsDocumented}
use open_deck.Osc.Packet.Writer.{
  PacketWriter, and_then, add_byte, add_bytes, pad_loop, pad, add_string, add_word,
}

-- a writer that has written `xs` and has `k` bytes left
abbrev pub written : List ℕ → ℕ → PacketWriter
written xs k = record { buffer = xs ++ replicate k 0; offset = length xs }

-- An operation appends the bytes that `bytes` gives at the offset, or fails.
pub record Appends (f : PacketWriter → Bool × PacketWriter) (bytes : ℕ → List ℕ) : Type 0 where
  pub fits :
      (xs : List ℕ) (k : ℕ)
      → length (bytes (length xs)) ≤ k
      → f (written xs k)
        ≡ (true, written (xs ++ bytes (length xs)) (k - length (bytes (length xs))))
  pub fails : (xs : List ℕ) (k : ℕ) → k < length (bytes (length xs)) → (f (written xs k)).0 ≡ false

-- two operations one after the other
abbrev pub followed_by : (ℕ → List ℕ) → (ℕ → List ℕ) → ℕ → List ℕ
followed_by u v n = u n ++ v (n + length (u n))

and_then-false :
    (r : Bool × PacketWriter) (g : PacketWriter → Bool × PacketWriter)
    → r.0 ≡ false
    → (and_then r g).0 ≡ false
and_then-false (true, w) g e = absurd (ground arith)
and_then-false (false, w) g e = refl

abbrev done : List ℕ → ℕ → Bool × PacketWriter
done b n = (true, record { buffer = b; offset = n })

module _ (f g : PacketWriter → Bool × PacketWriter) (u v : ℕ → List ℕ) where
  and_then-fits :
      Appends f u
      → Appends g v
      → (xs : List ℕ) (k : ℕ) → length (followed_by u v (length xs)) ≤ k
      → and_then (f (written xs k)) g ≡ (
        true,
        written (xs ++ followed_by u v (length xs)) (k - length (followed_by u v (length xs))),
      )
  and_then-fits p q xs k h =
      let n = length xs in
      let l = length-append (u n) (v (n + length (u n))) in
      let e = p.fits xs k (omega (arith, l)) in
      let e' =
        subst
          (λ m.
            length (v m) ≤ k - length (u n)
            → g (written (xs ++ u n) (k - length (u n)))
              ≡ (true, written ((xs ++ u n) ++ v m) (k - length (u n) - length (v m))))
          (length-append xs (u n)) (q.fits (xs ++ u n) (k - length (u n))) (omega (arith, l)) in
      ap (λ r. and_then r g) e
      ∙ e'
      ∙ ap₂ (λ ys j. (true, written ys j)) (append_assoc xs (u n) (v (n + length (u n))))
          (omega (arith, l))

  and_then-fails :
      Appends f u
      → Appends g v
      → (xs : List ℕ) (k : ℕ) → k < length (followed_by u v (length xs))
      → (and_then (f (written xs k)) g).0 ≡ false
  and_then-fails p q xs k h =
      let n = length xs in
      let l = length-append (u n) (v (n + length (u n))) in
      elim (lt_or_le k (length (u n))) [
        | inl lt ↦ and_then-false (f (written xs k)) g (p.fails xs k lt)
        | inr le ↦
            ap (λ r. (and_then r g).0) (p.fits xs k le)
            ∙ subst
                (λ m.
                  k - length (u n) < length (v m)
                  → (g (written (xs ++ u n) (k - length (u n)))).0 ≡ false)
                (length-append xs (u n)) (q.fails (xs ++ u n) (k - length (u n))) (omega (arith, l))
      ]

  pub and_then-Appends :
      Appends f u → Appends g v → Appends (λ w. and_then (f w) g) (followed_by u v)
  and_then-Appends p q = record { fits = and_then-fits p q; fails = and_then-fails p q }

pub nothing-Appends : Appends (λ w. (true, w)) (λ n. [])
nothing-Appends = record {
  fits = λ xs k h.
      (let e : k ≡ k - length {A = ℕ} [] = omega arith in
        ap₂ (λ ys j. (true, written ys j)) (sym (append-nil xs)) e);
  fails = λ xs k h. absurd (omega arith);
}

set-append : (xs rest : List ℕ) (r x : ℕ) → set (xs ++ r ∷ rest) (length xs) x ≡ xs ++ x ∷ rest
set-append [] rest r x = refl
set-append (y ∷ ys) rest r x = ap (λ t. y ∷ t) (set-append ys rest r x)

size-written : (xs : List ℕ) (k : ℕ) → length (xs ++ replicate k 0) ≡ length xs + k
size-written xs k = omega (arith, length-append xs (replicate k 0), length-replicate {A = ℕ} k 0)

add_byte-fits :
    (x : ℕ) (xs : List ℕ) (k : ℕ)
    → 1 ≤ k
    → add_byte (written xs k) x ≡ (true, written (xs ++ (x ∷ [])) (k - 1))
unfolding add_byte
add_byte-fits x xs zero h = absurd (omega arith)
add_byte-fits x xs (suc k) h =
    let start : List ℕ = set (xs ++ replicate (suc k) 0) (length xs) x in
    let e : add_byte (written xs (suc k)) x ≡ done start (length xs + 1) =
      ground (arith, size-written xs (suc k)) in
    e
    ∙ ap₂ done
        (set-append xs (replicate k 0) 0 x
          ∙ snoc_assoc xs (replicate k 0) x
          ∙ ap (λ j. (xs ++ (x ∷ [])) ++ replicate j 0) (omega arith))
        (omega (arith, length-append xs (x ∷ [])))

pub add_byte-Appends : (x : ℕ) → Appends (λ w. add_byte w x) (λ n. x ∷ [])
unfolding add_byte
add_byte-Appends x = record {
  fits = add_byte-fits x;
  fails = λ xs k h. ground (arith, size-written xs k);
}

copy_to-append :
    (xs vs : List ℕ) (k : ℕ)
    → length vs ≤ k
    → copy_to (xs ++ replicate k 0) (length xs) vs ≡ (xs ++ vs) ++ replicate (k - length vs) 0
copy_to-append xs [] k h =
    let e : k ≡ k - length {A = ℕ} [] = omega arith in
    ap (λ ys. ys ++ replicate k 0) (sym (append-nil xs))
    ∙ ap (λ j. (xs ++ []) ++ replicate {A = ℕ} j 0) e
copy_to-append xs (v ∷ vs) zero h = absurd (omega arith)
copy_to-append xs (v ∷ vs) (suc k) h =
    let ys = xs ++ (v ∷ []) in
    let e : suc (length xs) ≡ length ys = omega (arith, length-append xs (v ∷ [])) in
    let e' : k - length vs ≡ suc k - length (v ∷ vs) = omega arith in
    ap (λ b. copy_to b (suc (length xs)) vs)
      (set-append xs (replicate k 0) 0 v ∙ snoc_assoc xs (replicate k 0) v)
    ∙ ap (λ n. copy_to (ys ++ replicate k 0) n vs) e
    ∙ copy_to-append ys vs k (omega arith)
    ∙ ap₂ (λ (zs : List ℕ) j. zs ++ replicate {A = ℕ} j 0) (sym (snoc_assoc xs vs v)) e'

add_bytes-fits :
    (vs xs : List ℕ) (k : ℕ)
    → length vs ≤ k
    → add_bytes (written xs k) vs ≡ (true, written (xs ++ vs) (k - length vs))
unfolding add_bytes
add_bytes-fits vs xs k h =
    ground (arith, size-written xs k)
    ∙ ap₂ done (copy_to-append xs vs k h) (sym (length-append xs vs))

pub add_bytes-Appends : (vs : List ℕ) → Appends (λ w. add_bytes w vs) (λ n. vs)
unfolding add_bytes
add_bytes-Appends vs = record {
  fits = add_bytes-fits vs;
  fails = λ xs k h. ground (arith, size-written xs k);
}

-- How far an offset is from the next boundary, and the zeros that `pad` appends there.
abbrev pub missing : ℕ → ℕ
missing n = (4 - n % 4) % 4

abbrev pub padding : ℕ → List ℕ
padding n = replicate (missing n) 0

pad_loop-aligned :
    (rounds : ℕ) (w : PacketWriter) → missing w.offset ≡ 0 → pad_loop (suc rounds) w ≡ (true, w)
unfolding pad_loop
pad_loop-aligned rounds w e = ground arith

pad_loop-step :
    (rounds m : ℕ) (w : PacketWriter)
    → missing w.offset ≡ suc m
    → pad_loop (suc rounds) w ≡ and_then (add_byte w 0) (pad_loop rounds)
unfolding pad_loop
pad_loop-step rounds m w e = ground arith

missing-snoc :
    (xs : List ℕ) (m : ℕ) → missing (length xs) ≡ suc m → missing (length (xs ++ (0 ∷ []))) ≡ m
missing-snoc xs m e = omega (arith, length-append xs (0 ∷ []))

pad_loop-fits :
    (rounds m : ℕ) (xs : List ℕ) (k : ℕ)
    → missing (length xs) ≡ m
    → m < rounds
    → m ≤ k
    → pad_loop rounds (written xs k) ≡ (true, written (xs ++ replicate m 0) (k - m))
pad_loop-fits zero m xs k e r h = absurd (omega arith)
pad_loop-fits (suc rounds) zero xs k e r h =
    pad_loop-aligned rounds (written xs k) e
    ∙ ap₂ (λ ys j. (true, written ys j)) (sym (append-nil xs)) (omega arith)
pad_loop-fits (suc rounds) (suc m) xs k e r h =
    pad_loop-step rounds m (written xs k) e
    ∙ ap (λ t. and_then t (pad_loop rounds)) (add_byte-fits 0 xs k (omega arith))
    ∙ pad_loop-fits rounds m (xs ++ (0 ∷ [])) (k - 1) (missing-snoc xs m e) (omega arith)
        (omega arith)
    ∙ ap₂ (λ ys j. (true, written ys j)) (sym (snoc_assoc xs (replicate m 0) 0)) (omega arith)

pad_loop-fails :
    (rounds m : ℕ) (xs : List ℕ) (k : ℕ)
    → missing (length xs) ≡ m
    → m < rounds
    → k < m
    → (pad_loop rounds (written xs k)).0 ≡ false
pad_loop-fails zero m xs k e r h = absurd (omega arith)
pad_loop-fails (suc rounds) zero xs k e r h = absurd (omega arith)
pad_loop-fails (suc rounds) (suc m) xs zero e r h =
    ap (λ t. t.0) (pad_loop-step rounds m (written xs 0) e)
    ∙ and_then-false (add_byte (written xs 0) 0) (pad_loop rounds)
        ((add_byte-Appends 0).fails xs 0 (omega arith))
pad_loop-fails (suc rounds) (suc m) xs (suc k) e r h =
    ap (λ t. t.0) (pad_loop-step rounds m (written xs (suc k)) e)
    ∙ ap (λ t. (and_then t (pad_loop rounds)).0) (add_byte-fits 0 xs (suc k) (omega arith))
    ∙ ap (λ j. (pad_loop rounds (written (xs ++ (0 ∷ [])) j)).0) (omega arith)
    ∙ pad_loop-fails rounds m (xs ++ (0 ∷ [])) k (missing-snoc xs m e) (omega arith) (omega arith)

length-padding : (n : ℕ) → length (padding n) ≡ missing n
length-padding n = length-replicate (missing n) 0

pub pad-Appends : Appends pad padding
unfolding pad
pad-Appends = record {
  fits = λ xs k h.
      (pad_loop-fits 4 (missing (length xs)) xs k refl (omega arith)
          (omega (arith, length-padding (length xs)))
        ∙ ap (λ m. (true, written (xs ++ padding (length xs)) (k - m)))
            (sym (length-padding (length xs))));
  fails = λ xs k h.
      pad_loop-fails 4 (missing (length xs)) xs k refl (omega arith)
        (omega (arith, length-padding (length xs)));
}

-- A string with its terminator and padding, at an offset.
abbrev pub string_bytes : List ℕ → ℕ → List ℕ
string_bytes s = followed_by (followed_by (λ n. s) (λ n. 0 ∷ [])) padding

chain-Appends :
    (s : List ℕ)
    → Appends (λ w. and_then (and_then (add_bytes w s) (λ w. add_byte w 0)) pad) (string_bytes s)
chain-Appends s =
    and_then-Appends _ pad _ padding
      (and_then-Appends (λ w. add_bytes w s) (λ w. add_byte w 0) (λ n. s) (λ n. 0 ∷ [])
        (add_bytes-Appends s) (add_byte-Appends 0))
      pad-Appends

pub length-string_bytes :
    (s : List ℕ) (n : ℕ) → length (string_bytes s n) ≡ length s + 1 + missing (n + (length s + 1))
length-string_bytes s n =
    let t = s ++ (0 ∷ []) in
    let e : length t ≡ length s + 1 = length-append s (0 ∷ []) in
    length-append t (padding (n + length t))
    ∙ ap₂ (λ a b. a + b) e (length-padding (n + length t) ∙ ap (λ l. missing (n + l)) e)

pub add_string-Appends : (s : List ℕ) → Appends (λ w. add_string w s) (string_bytes s)
unfolding add_string
add_string-Appends s = record {
  fits = λ xs k h.
      ground (arith, size-written xs k, length-string_bytes s (length xs))
      ∙ (chain-Appends s).fits xs k h;
  fails = λ xs k h.
      if-both (λ (r : Bool × PacketWriter). r.0 ≡ false)
        (ltb (length (xs ++ replicate k 0)) (length xs + length s + 1)) _ _ refl
        ((chain-Appends s).fails xs k h);
}

module _ (h : Platform) (ok : IsDocumented h) where
  pub add_word-Appends : (v : ℕ) → v < 2 ^ 32 → Appends (λ w. add_word h w v) (λ n. big_endian v)
  unfolding add_word
  add_word-Appends v b = record {
    fits = λ xs k l.
        (let e = ok.1 v b in
          ground (arith, size-written xs k)
          ∙ ap₂ done
              (ap (copy_to (xs ++ replicate k 0) (length xs)) e
                ∙ copy_to-append xs (big_endian v) k l)
              (sym (length-append xs (big_endian v))));
    fails = λ xs k l. ground (arith, size-written xs k);
  }
