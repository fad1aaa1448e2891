-- ===== src/Dfu/Flash/Tiles.antt =====
-- Where the sectors of a flash area lie, and which of them holds an offset.
use open_deck.Prelude.{
  ℕ, zero, suc, ◌+◌, ◌*◌, ◌≤◌, ◌<◌, ◌≡◌, sym, ◌∙◌, List, [], ◌∷◌, Option, none, some, ltb,
  if◌then◌else◌, arith, All, lt_or_le, inl, inr,
}
use open_deck.Dfu.Flash.{Sector}

-- The sectors follow one another from an offset on.
abbrev pub Tiles : ℕ → List Sector → Type 0
Tiles o [] = Unit
Tiles o (s ∷ ss) = (s.offset ≡ o) × Tiles (o + s.size) ss

-- where the last of them ends
abbrev pub tiles_end : ℕ → List Sector → ℕ
tiles_end o [] = o
tiles_end o (s ∷ ss) = tiles_end (o + s.size) ss

abbrev pub Multiple : ℕ → ℕ → Type 0
Multiple c n = (m : ℕ) × (n ≡ m * c)

pub le-tiles_end : (o : ℕ) (ss : List Sector) → o ≤ tiles_end o ss
le-tiles_end o [] = omega arith
le-tiles_end o (s ∷ ss) = omega (arith, le-tiles_end (o + s.size) ss)

-- Between two multiples there is room for one step.
room_lem : (c m k : ℕ) → m * c < k * c → m * c + c ≤ k * c
room_lem c zero zero h = absurd (omega arith)
room_lem c zero (suc k) h = omega arith
room_lem c (suc m) zero h = absurd (omega arith)
room_lem c (suc m) (suc k) h = omega (arith, room_lem c m k (omega arith))

pub room : (c : ℕ) {a b : ℕ} → Multiple c a → Multiple c b → a < b → a + c ≤ b
room c (m, p) (k, q) h = omega (arith, room_lem c m k (omega arith))

pub Multiple-add : (c : ℕ) {a b : ℕ} → Multiple c a → Multiple c b → Multiple c (a + b)
Multiple-add c (m, p) (k, q) = (m + k, omega arith)

-- The first sector that ends after an offset, with its index.
unfoldable pub locate : List Sector → ℕ → ℕ → Option (ℕ × Sector)
locate [] x index = none
locate (s ∷ ss) x index =
    let rest = locate ss x (index + 1) in
    if ltb x (s.offset + s.size) then some (index, s) else rest

pub locate-next :
    (s : Sector) (ss : List Sector) (x index : ℕ)
    → s.offset + s.size ≤ x
    → locate (s ∷ ss) x index ≡ locate ss x (index + 1)
unfolding locate
locate-next s ss x index h = ground arith

pub locate-bounds :
    (o : ℕ) (ss : List Sector) (x index : ℕ) {k : ℕ} {s : Sector}
    → Tiles o ss
    → o ≤ x
    → locate ss x index ≡ some (k, s)
    → (index ≤ k) × (o ≤ s.offset) × (s.offset ≤ x) × (x < s.offset + s.size)
unfolding locate
locate-bounds o [] x index t h e = ground arith
locate-bounds o (s ∷ ss) x index {k = k} {s = s'} t h e = elim (lt_or_le x (s.offset + s.size)) [
  | inl p ↦ ground arith
  | inr p ↦
      let r =
        locate-bounds (o + s.size) ss x (index + 1) {k = k} {s = s'} t.1 (omega arith)
          (sym (locate-next s ss x index p) ∙ e) in
      omega arith
]

-- Every offset of the sector found is in it.
pub locate-same :
    (o : ℕ) (ss : List Sector) (x y index : ℕ) {k : ℕ} {s : Sector}
    → Tiles o ss
    → o ≤ x
    → locate ss x index ≡ some (k, s)
    → s.offset ≤ y
    → y < s.offset + s.size
    → locate ss y index ≡ some (k, s)
unfolding locate
locate-same o [] x y index t h e p q = ground arith
locate-same o (s ∷ ss) x y index {k = k} {s = s'} t h e p q =
    elim (lt_or_le x (s.offset + s.size)) [
      | inl r ↦ ground arith
      | inr r ↦
          let e' = sym (locate-next s ss x index r) ∙ e in
          let b =
            locate-bounds (o + s.size) ss x (index + 1) {k = k} {s = s'} t.1 (omega arith) e' in
          locate-next s ss y index (omega arith)
          ∙ locate-same (o + s.size) ss x y (index + 1) t.1 (omega arith) e' p q
    ]

-- A sector is found by one index only.
pub locate-index :
    (o : ℕ) (ss : List Sector) (x y index : ℕ) {k : ℕ} {s s' : Sector}
    → Tiles o ss
    → o ≤ x
    → o ≤ y
    → locate ss x index ≡ some (k, s)
    → locate ss y index ≡ some (k, s')
    → s ≡ s'
unfolding locate
locate-index o [] x y index t h h' e e' = ground arith
locate-index o (s ∷ ss) x y index {k = k} {s = s₁} {s' = s₂} t h h' e e' =
    elim (lt_or_le x (s.offset + s.size)) [
      | inl p ↦ elim (lt_or_le y (s.offset + s.size)) [
        | inl q ↦ ground arith
        | inr q ↦
            let r =
              locate-bounds (o + s.size) ss y (index + 1) {k = k} {s = s₂} t.1 (omega arith)
                (sym (locate-next s ss y index q) ∙ e') in
            let i : index ≡ k = ground arith in absurd (omega arith)
      ]
      | inr p ↦
          let e₁ = sym (locate-next s ss x index p) ∙ e in
          let r =
            locate-bounds (o + s.size) ss x (index + 1) {k = k} {s = s₁} t.1 (omega arith) e₁ in
          elim (lt_or_le y (s.offset + s.size)) [
            | inl q ↦ let i : index ≡ k = ground arith in absurd (omega arith)
            | inr q ↦
                locate-index (o + s.size) ss x y (index + 1) t.1 (omega arith) (omega arith) e₁
                  (sym (locate-next s ss y index q) ∙ e')
          ]
    ]

-- A block that starts in a sector also ends in it.
pub locate-room :
    (c o : ℕ) (ss : List Sector) (x index : ℕ) {k : ℕ} {s : Sector}
    → Tiles o ss
    → Multiple c o
    → All (λ t. Multiple c t.size) ss
    → Multiple c x
    → o ≤ x
    → locate ss x index ≡ some (k, s)
    → x + c ≤ s.offset + s.size
unfolding locate
locate-room c o [] x index t mo ms mx h e = ground arith
locate-room c o (s ∷ ss) x index {k = k} {s = s'} t mo ms mx h e =
    let m = Multiple-add c mo ms.0 in
    elim (lt_or_le x (s.offset + s.size)) [
      | inl p ↦ let r = room c mx m (omega arith) in ground arith
      | inr p ↦
          locate-room c (o + s.size) ss x (index + 1) t.1 m ms.1 mx (omega arith)
            (sym (locate-next s ss x index p) ∙ e)
    ]
