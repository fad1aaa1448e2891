-- ===== src/Global/Bpm/Range.antt =====
-- The range of the tempo.
use open_deck.Prelude.{zero, suc, ℕ, ◌-◌, ◌%◌, ◌≡◌, leb, if◌then◌else◌, arith}
use open_deck.Global.Bpm.{Bpm, decrement}

-- the tempo after a number of single steps down
pub steps_down : Bpm → ℕ → Bpm
steps_down b zero = b
steps_down b (suc n) = steps_down (decrement b 1).1 n

-- One step down takes 1 off, but from 0 it leads to 10.
one_down : (b : Bpm) → (decrement b 1).1.bpm ≡ (if leb 1 b.bpm then b.bpm - 1 else 10)
unfolding decrement
one_down b = ground arith

-- Single steps down from any tempo do not stop at 10, the lowest tempo that is documented: each
-- takes 1 off until the tempo is 0, the next one leads from 0 up to 10, and so on around the eleven
-- tempos from 10 to 0.
pub steps_down-cycle :
    (b : Bpm) (n : ℕ)
    → (steps_down b n).bpm ≡ (if leb n b.bpm then b.bpm - n else 10 - (n - b.bpm - 1) % 11)
unfolding steps_down
steps_down-cycle b zero = ground arith
steps_down-cycle b (suc n) =
    let b' = (decrement b 1).1 in
    let one = one_down b in let rest = steps_down-cycle b' n in ground (arith, one, rest)
