-- ===== src/Util/IncDec.antt =====
-- `IncDec<T, MinValue, MaxValue>`: app/firmware/src/util/incdec/inc_dec.h. The bounds are arguments.
-- The source computes in `int`: its test `MaxValue - value < steps` is `MaxValue < value + steps`
-- here, and no result but a remainder or a bound exceeds the arguments, so none wraps.
pub mod Range
use open_deck.Prelude.{ℕ, ◌+◌, ◌-◌, ◌%◌, Bool, ltb, if◌then◌else◌}

-- `IncDec::Type`
pub data Overrun : Type 0 where
  edge overflow : Overrun

unfoldable pub increment : ℕ → ℕ → ℕ → Overrun → ℕ
increment max_value value steps type =
    if ltb max_value (value + steps)
    then elim type [ edge ↦ max_value | overflow ↦ (value + steps % max_value) % (max_value + 1) ]
    else value + steps

unfoldable pub decrement : ℕ → ℕ → ℕ → ℕ → Overrun → ℕ
decrement min_value max_value value steps type =
    if ltb value steps
    then elim type [
      | edge ↦ min_value
      | overflow ↦ (value + max_value + 1 - steps % max_value) % (max_value + 1)
    ]
    else value - steps
