-- ===== src/Encoders/Inputs/Speed.antt =====
-- How fast an encoder counts.
use open_deck.Prelude.{
  ℕ, zero, suc, ◌+◌, ◌%◌, ◌≤◌, ◌<◌, ◌≡◌, Bool, false, Option, none, some, arith, get_or, min, ltb,
  if◌then◌else◌,
}
use open_deck.Encoders.Signals.{Zlibs, Constrains}
use open_deck.Encoders.Inputs.{next_speed, encoder_acceleration_step_inc}

-- whether a movement follows the last one within 140 milliseconds
abbrev pub is_fast : Option ℕ → Bool
is_fast none = false
is_fast (some t) = ltb t 140

-- The speed of an encoder with an acceleration profile, at most its greatest speed, grows with each
-- movement that is fast, by 1 to 3 and up to the greatest speed of 5, 10 or 100, and starts again
-- from 0 with each other one; it never wraps (where `constrain` does what it says).
pub next_speed-min :
    (z : Zlibs) (profile speed : ℕ) (movement_elapsed_time : Option ℕ)
    → Constrains z
    → 0 < profile
    → profile < 4
    → speed ≤ get_or encoder_acceleration_step_inc profile 0
    → next_speed z profile speed movement_elapsed_time ≡ (
        if is_fast movement_elapsed_time
        then min (speed + profile) (get_or encoder_acceleration_step_inc profile 0)
        else 0)
unfolding next_speed
next_speed-min z zero speed t law pos few fits = absurd (omega arith)
next_speed-min z (suc zero) speed t law pos few fits =
    ground (arith, law ((speed + 1) % 256) 0 5 (omega arith))
next_speed-min z (suc (suc zero)) speed t law pos few fits =
    ground (arith, law ((speed + 2) % 256) 0 10 (omega arith))
next_speed-min z (suc (suc (suc zero))) speed t law pos few fits =
    ground (arith, law ((speed + 3) % 256) 0 100 (omega arith))
next_speed-min z (suc (suc (suc (suc n)))) speed t law pos few fits = absurd (omega arith)
