-- ===== src/Osc/Packet/Scan.antt =====
-- `read_string` and `read_int32`: what they read where a string or a word was written, and where
-- they end on any bytes.
use open_deck.Prelude.{
  ℕ, zero, suc, ◌+◌, ◌-◌, ◌^◌, ◌≤◌, ◌<◌, ◌≡◌, refl, ap, ◌∙◌, Option, none, some, List, [], ◌∷◌,
  ◌++◌, length, get_or, take, drop, leb, All, arith, length-append, append_assoc, if◌then◌else◌,
  drop-append, take-append, snoc_assoc, length-replicate,
}
use open_deck.Osc.Packet.{Platform, IsDocumented, big_endian, alignment}
use open_deck.Osc.Packet.Reader.{find_end, align_loop, read_string, read_word32}
use open_deck.Osc.Packet.Written.{missing, padding, string_bytes, length-string_bytes}

-- A string holds no terminator.
abbrev pub IsText : List ℕ → Type 0
IsText = All (λ c. 0 < c)

find_end-stop :
    (rounds : ℕ) (packet : List ℕ) (n : ℕ) → get_or packet n 0 ≡ 0 → find_end rounds packet n ≡ n
unfolding find_end
find_end-stop zero packet n e = refl
find_end-stop (suc rounds) packet n e = ground arith

find_end-step :
    (rounds : ℕ) (packet : List ℕ) (n : ℕ)
    → n < length packet
    → 0 < get_or packet n 0
    → find_end (suc rounds) packet n ≡ find_end rounds packet (n + 1)
unfolding find_end
find_end-step rounds packet n l e = ground arith

pub get_or-here : (pre ys : List ℕ) (y : ℕ) → get_or (pre ++ y ∷ ys) (length pre) 0 ≡ y
get_or-here [] ys y = refl
get_or-here (x ∷ pre) ys y = get_or-here pre ys y

find_end-text :
    (rounds : ℕ) (pre s rest : List ℕ)
    → IsText s
    → length s < rounds
    → find_end rounds (pre ++ (s ++ 0 ∷ rest)) (length pre) ≡ length pre + length s
find_end-text zero pre s rest t l = absurd (omega arith)
find_end-text (suc rounds) pre [] rest t l =
    find_end-stop (suc rounds) (pre ++ 0 ∷ rest) (length pre) (get_or-here pre rest 0) ∙ omega arith
find_end-text (suc rounds) pre (c ∷ s) rest (p, t) l =
    let packet = pre ++ c ∷ (s ++ 0 ∷ rest) in
    let here = get_or-here pre (s ++ 0 ∷ rest) c in
    let size = length-append pre (c ∷ (s ++ 0 ∷ rest)) in
    let next : length pre + 1 ≡ length (pre ++ (c ∷ [])) =
      omega (arith, length-append pre (c ∷ [])) in
    let again = snoc_assoc pre (s ++ 0 ∷ rest) c in
    find_end-step rounds packet (length pre) (omega (arith, size)) (omega (arith, here))
    ∙ ap (find_end rounds packet) next
    ∙ ap (λ q. find_end rounds q (length (pre ++ (c ∷ [])))) again
    ∙ find_end-text rounds (pre ++ (c ∷ [])) s rest t (omega arith)
    ∙ omega (arith, next)

align_loop-aligned : (rounds n : ℕ) → missing n ≡ 0 → align_loop rounds n ≡ n
unfolding align_loop
align_loop-aligned zero n e = refl
align_loop-aligned (suc rounds) n e = ground arith

align_loop-step :
    (rounds m n : ℕ) → missing n ≡ suc m → align_loop (suc rounds) n ≡ align_loop rounds (n + 1)
unfolding align_loop
align_loop-step rounds m n e = ground arith

align_loop-by : (rounds m n : ℕ) → missing n ≡ m → m < rounds → align_loop rounds n ≡ n + m
align_loop-by zero m n e l = absurd (omega arith)
align_loop-by (suc rounds) zero n e l = align_loop-aligned (suc rounds) n e ∙ omega arith
align_loop-by (suc rounds) (suc m) n e l =
    align_loop-step rounds m n e
    ∙ align_loop-by rounds m (n + 1) (omega arith) (omega arith)
    ∙ omega arith

pub align_loop-missing : (n : ℕ) → align_loop alignment n ≡ n + missing n
align_loop-missing n = align_loop-by 4 (missing n) n refl (omega arith)

-- what `read_string` does with the end that it found
abbrev read_to : List ℕ → ℕ → ℕ → Option (List ℕ × ℕ)
read_to packet start offset =
    if leb (length packet) offset
    then none
    else (let value = take (offset - start) (drop start packet) in
        let aligned = align_loop alignment (offset + 1) in
        if leb aligned (length packet) then some (value, aligned) else none)

read_string-eq :
    (packet : List ℕ) (start : ℕ)
    → start < length packet
    → read_string packet start
      ≡ read_to packet start (find_end (length packet - start) packet start)
unfolding read_string
read_string-eq packet start l = ground arith

read_to-eq :
    (packet : List ℕ) (start offset : ℕ)
    → offset < length packet
    → offset + 1 + missing (offset + 1) ≤ length packet
    → read_to packet start offset
      ≡ some (take (offset - start) (drop start packet), offset + 1 + missing (offset + 1))
read_to-eq packet start offset l l' = ground (arith, align_loop-missing (offset + 1))

-- the packet that a string was written to
abbrev with_string : List ℕ → List ℕ → List ℕ → List ℕ
with_string pre s rest = pre ++ (s ++ 0 ∷ (padding (length pre + length s + 1) ++ rest))

length-with_string :
    (pre s rest : List ℕ)
    → length (with_string pre s rest)
      ≡ length pre + length s + 1 + missing (length pre + length s + 1) + length rest
length-with_string pre s rest =
    let pad = padding (length pre + length s + 1) in
    omega (
      arith,
      length-append pre (s ++ 0 ∷ (pad ++ rest)),
      length-append s (0 ∷ (pad ++ rest)),
      length-append pad rest,
      length-replicate {A = ℕ} (missing (length pre + length s + 1)) 0,
    )

read_with_string :
    (pre s rest : List ℕ)
    → IsText s
    → read_string (with_string pre s rest) (length pre)
      ≡ some (s, length pre + length s + 1 + missing (length pre + length s + 1))
read_with_string pre s rest t =
    let packet = with_string pre s rest in
    let n = length pre in
    let m = n + length s in
    let size = length-with_string pre s rest in
    let tail = padding (m + 1) ++ rest in
    let value : take (m - n) (drop n packet) ≡ s =
      ap (take (m - n)) (drop-append pre (s ++ 0 ∷ tail))
      ∙ ap (λ j. take j (s ++ 0 ∷ tail)) (omega arith)
      ∙ take-append s (0 ∷ tail) in
    read_string-eq packet n (omega (arith, size))
    ∙ ap (read_to packet n) (find_end-text (length packet - n) pre s tail t (omega (arith, size)))
    ∙ read_to-eq packet n m (omega (arith, size)) (omega (arith, size))
    ∙ ap (λ v. some (v, m + 1 + missing (m + 1))) value

with_string-eq :
    (pre s rest : List ℕ) → pre ++ (string_bytes s (length pre) ++ rest) ≡ with_string pre s rest
with_string-eq pre s rest =
    let at : length pre + length (s ++ (0 ∷ [])) ≡ length pre + length s + 1 =
      omega (arith, length-append s (0 ∷ [])) in
    let pad = padding (length pre + length (s ++ (0 ∷ []))) in
    ap (λ ys. pre ++ ys)
      (append_assoc (s ++ (0 ∷ [])) pad rest
        ∙ append_assoc s (0 ∷ []) (pad ++ rest)
        ∙ ap (λ n. s ++ 0 ∷ (padding n ++ rest)) at)

-- Where a string was written, it is read, and the reader comes to the end of its padding.
pub read_string-text :
    (pre s rest : List ℕ)
    → IsText s
    → read_string (pre ++ (string_bytes s (length pre) ++ rest)) (length pre)
      ≡ some (s, length pre + length (string_bytes s (length pre)))
read_string-text pre s rest t =
    ap (λ q. read_string q (length pre)) (with_string-eq pre s rest)
    ∙ read_with_string pre s rest t
    ∙ ap (λ n. some (s, n)) (omega (arith, length-string_bytes s (length pre)))

module _ (h : Platform) (doc : IsDocumented h) where
  pub read_word32-word :
      (pre rest : List ℕ) (v : ℕ)
      → v < 2 ^ 32
      → read_word32 h (pre ++ (big_endian v ++ rest)) (length pre) ≡ some (v, length pre + 4)
  unfolding read_word32
  read_word32-word pre rest v l =
      let value : take 4 (drop (length pre) (pre ++ (big_endian v ++ rest))) ≡ big_endian v =
        ap (take 4) (drop-append pre (big_endian v ++ rest)) in
      let e : h.be32_to_cpu
            (h.from_memory (take 4 (drop (length pre) (pre ++ (big_endian v ++ rest)))))
          ≡ v =
        ap (λ b. h.be32_to_cpu (h.from_memory b)) value ∙ doc.2 v l in
      ground (arith, length-append pre (big_endian v ++ rest), e)
