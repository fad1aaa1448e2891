-- ===== src/Switches/Filter.antt =====
-- `FilterHw`: app/firmware/src/io/digital/switches/filter/hw/filter_hw.h. The array
-- `_debounce_state` is a list of bytes with an entry for each digital input.
pub mod Recent
pub mod Debounce
use open_deck.Prelude.{
  ℕ, ◌*◌, ◌%◌, Bool, true, false, List, leb, ◌==◌, if◌then◌else◌, get_or, set, replicate, length,
}
use Prim.Native.Nat.{bit_or}

abbrev pub debounce_state_active : ℕ
debounce_state_active = 0xff

-- `static_cast<uint8_t>(state)`
abbrev pub bit_of : Bool → ℕ
bit_of true = 1
bit_of false = 0

-- The debounce state of one input with the next sample shifted in.
unfoldable pub shift_in : ℕ → Bool → ℕ
shift_in debounce_state state = bit_or (debounce_state * 2 % 256) (bit_of state)

-- the end of `is_filtered`: its result, and the state that the caller's variable is left with
unfoldable pub decide : ℕ → Bool → Bool × Bool
decide debounce_state state =
    if debounce_state == debounce_state_active
    then (true, true)
    else if debounce_state == 0
    then (true, false)
    else (false, state)

unfoldable pub is_filtered : List ℕ → ℕ → Bool → (Bool × Bool) × List ℕ
unfolding shift_in decide
is_filtered states index state =
    let shifted = shift_in (get_or states index 0) state in
    if leb (length states) index
    then ((true, state), states)
    else (decide shifted state, set states index shifted)

-- the member initialiser
abbrev pub initial : ℕ → List ℕ
initial count = replicate count 0
