-- ===== src/Global/Bpm.antt =====
-- `Bpm`: app/firmware/src/global/bpm.h. The values published as `MidiBpmChange` are kept in order.
use open_deck.Prelude.{
  ℕ, ◌+◌, ◌/◌, Bool, true, false, not, List, [], ◌∷◌, ◌++◌, ◌==◌, if◌then◌else◌,
}
use open_deck.Util.IncDec.{edge}
use open_deck.Util.IncDec
pub mod Range

abbrev pub bpm_min_value : ℕ
bpm_min_value = 10

abbrev pub bpm_max_value : ℕ
bpm_max_value = 255

abbrev pub bpm_default : ℕ
bpm_default = 120

abbrev pub ppqn : ℕ
ppqn = 24

pub record Bpm : Type 0 where
  pub bpm : ℕ
  pub published : List ℕ

unfoldable pub set_bpm : Bpm → ℕ → Bpm
set_bpm b bpm = record b { bpm = bpm; published = b.published ++ (bpm ∷ []) }

unfoldable pub increment : Bpm → ℕ → Bool × Bpm
unfolding set_bpm IncDec.increment
increment b steps =
    let new_bpm = IncDec.increment bpm_max_value b.bpm steps edge in
    if not (new_bpm == b.bpm) then (true, set_bpm b new_bpm) else (false, b)

unfoldable pub decrement : Bpm → ℕ → Bool × Bpm
unfolding set_bpm IncDec.decrement
decrement b steps =
    let new_bpm = IncDec.decrement bpm_min_value bpm_max_value b.bpm steps edge in
    if not (new_bpm == b.bpm) then (true, set_bpm b new_bpm) else (false, b)

-- `USEC_PER_MINUTE` is 60000000. A division by zero is undefined in the source.
abbrev pub bpm_to_usec : ℕ → ℕ
bpm_to_usec bpm = 60000000 / ppqn / bpm
