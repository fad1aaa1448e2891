-- ===== src/Dfu/Backend/Laws.antt =====
-- How a transfer is put together and taken apart, one call of the writer at a time.
use open_deck.Prelude.{ℕ, ◌≡◌, Bool, true, Bool-cases, inl, inr, List, [], ◌∷◌, some, arith}
use open_deck.Dfu.Format.{Header}
use open_deck.Dfu.Backend.{Backend, accepted, write_bytes, delivered, transfer}

accepted_inv : {A : Type 0} (r : Bool × A) {a : A} → accepted r ≡ some a → r ≡ (true, a)
accepted_inv r e = ground arith

module _ (b : Backend) where
  open b use {State, begin, write, finish}

  pub delivered-nil : (w : State) {w' : State} → delivered b w [] ≡ some w' → finish w ≡ (true, w')
  unfolding delivered write_bytes
  delivered-nil w e = accepted_inv (finish w) e

  pub delivered-nil_of :
      (w : State) {w' : State} → finish w ≡ (true, w') → delivered b w [] ≡ some w'
  unfolding delivered write_bytes
  delivered-nil_of w e = rw e

  pub delivered-cons_of :
      (w w' : State) (x : ℕ) (xs : List ℕ)
      → write w (x ∷ []) ≡ (true, w')
      → delivered b w (x ∷ xs) ≡ delivered b w' xs
  unfolding delivered write_bytes
  delivered-cons_of w w' x xs e = rw e

  pub delivered-cons :
      (w : State) {w' : State} (x : ℕ) (xs : List ℕ)
      → delivered b w (x ∷ xs) ≡ some w'
      → (w₁ : State) × (write w (x ∷ []) ≡ (true, w₁)) × (delivered b w₁ xs ≡ some w')
  unfolding delivered write_bytes
  delivered-cons w x xs e = elim (Bool-cases (write w (x ∷ [])).0) [
    | inl ok ↦ ((write w (x ∷ [])).1, ground arith, ground arith)
    | inr bad ↦ ground arith
  ]

  pub transfer-begin :
      (w : State) {w' : State} (h : Header) (size : ℕ) (payload : List ℕ)
      → transfer b w h size payload ≡ some w'
      → (w₁ : State) × (begin w h size ≡ (true, w₁)) × (delivered b w₁ payload ≡ some w')
  unfolding transfer
  transfer-begin w h size payload e = elim (Bool-cases (begin w h size).0) [
    | inl ok ↦ ((begin w h size).1, ground arith, ground arith)
    | inr bad ↦ ground arith
  ]

  pub transfer-begin_of :
      (w w' : State) (h : Header) (size : ℕ) (payload : List ℕ)
      → begin w h size ≡ (true, w')
      → transfer b w h size payload ≡ delivered b w' payload
  unfolding transfer
  transfer-begin_of w w' h size payload e = rw e
