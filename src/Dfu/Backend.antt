-- ===== src/Dfu/Backend.antt =====
-- What the stream parser asks of its writer: the public virtual interface of `DfuWriter`
-- (app/common/src/dfu/writer/instance/impl/dfu_writer.h). A call returns its result beside the
-- writer that it leaves.
pub mod Laws
use open_deck.Prelude.{ℕ, Bool, List, Option, none, some, [], ◌∷◌, if◌then◌else◌}
use open_deck.Dfu.Format.{Header}

pub record Backend : Type 1 where
  pub State : Type 0
  pub begin : State → Header → ℕ → Bool × State
  pub write : State → List ℕ → Bool × State
  pub finish : State → Bool × State
  pub abort : State → State
  pub supported : State → Bool

-- A call that must succeed for the transfer to go on.
abbrev pub accepted : {A : Type 0} → Bool × A → Option A
accepted (ok, a) = if ok then some a else none

infixl 5 ◌>>=◌
abbrev pub ◌>>=◌ : {A B : Type 0} → Option A → (A → Option B) → Option B
none >>= f = none
some a >>= f = f a

-- A transfer as the parser drives it: the payload goes over in writes of one byte.
module _ (b : Backend) where
  open b use {State, begin, write, finish}

  unfoldable pub write_bytes : State → List ℕ → Option State
  write_bytes w [] = some w
  write_bytes w (x ∷ xs) = accepted (write w (x ∷ [])) >>= λ w'. write_bytes w' xs

  -- the payload, then `finish`
  unfoldable pub delivered : State → List ℕ → Option State
  unfolding write_bytes
  delivered w payload = write_bytes w payload >>= λ w'. accepted (finish w')

  unfoldable pub transfer : State → Header → ℕ → List ℕ → Option State
  unfolding delivered
  transfer w header size payload = do w' ← accepted (begin w header size); delivered w' payload
