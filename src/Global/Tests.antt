-- ===== src/Global/Tests.antt =====
-- The theorems on the global values at concrete inputs.
use open_deck.Prelude.{◌≡◌, refl, List, [], ◌∷◌, arith}
use open_deck.Util.IncDec.{increment, decrement, overflow}
use open_deck.Util.IncDec.Range.{decrement-increment}
use open_deck.Global.Bpm.{Bpm}
use open_deck.Global.Bpm.Range.{steps_down, steps_down-cycle}
use open_deck.Global.MidiProgram.{initial, set_program}
use open_deck.Global.MidiProgram.Range.{
  Call, increment_by, set_to, offset_up, IsTable, run_all, run_all-IsTable, set_program-Changed,
  Changed,
}

decrement-increment_example : decrement 0 127 (increment 127 120 10 overflow) 10 overflow ≡ 120
decrement-increment_example = decrement-increment 120 10 (omega arith) (omega arith)

abbrev tempo : Bpm
tempo = record { bpm = 10; published = [] }

steps_down-cycle_example : (steps_down tempo 14).bpm ≡ 7
steps_down-cycle_example = steps_down-cycle tempo 14

abbrev calls : List Call
calls = offset_up 100 ∷ increment_by 3 1 ∷ set_to 4 40 ∷ []

run_all-IsTable_example : IsTable (run_all initial calls)
run_all-IsTable_example = run_all-IsTable initial calls (omega arith)

set_program-Changed_example : Changed initial 3 5 (set_program initial 3 5)
set_program-Changed_example = set_program-Changed initial 3 5 refl
