-- ===== src/Util/IncDec/Range.antt =====
-- What `IncDec` computes for a value in its range.
use open_deck.Prelude.{ℕ, ◌+◌, ◌-◌, ◌≤◌, ◌<◌, ◌≡◌, min, arith}
use open_deck.Util.IncDec.{edge, overflow, increment, decrement}

pub increment-edge :
    (max_value value steps : ℕ)
    → value ≤ max_value
    → increment max_value value steps edge ≡ min (value + steps) max_value
unfolding increment
increment-edge max_value value steps h = ground arith

pub decrement-edge :
    (max_value value steps : ℕ) → decrement 0 max_value value steps edge ≡ value - steps
unfolding decrement
decrement-edge max_value value steps = ground arith

-- Around the end and back: for fewer steps than the maximum, `decrement` with overflow undoes
-- `increment` with overflow, on the values of seven bits.
pub decrement-increment :
    (value steps : ℕ)
    → value ≤ 127
    → steps < 127
    → decrement 0 127 (increment 127 value steps overflow) steps overflow ≡ value
unfolding increment decrement
decrement-increment value steps h s = ground arith
