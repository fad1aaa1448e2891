-- ===== src/Encoders/Mapper/Values.antt =====
-- The value that an encoder keeps, and what it sends.
use open_deck.Prelude.{
  ℕ, ◌+◌, ◌-◌, ◌*◌, ◌≤◌, ◌<◌, ◌≡◌, ap, ◌∙◌, Option, none, some, length, get_or, set,
  get_or-set_self, min, max, arith, ltb, if◌then◌else◌, ◌&&◌, Bool-cases, inl, inr, if-both,
}
use open_deck.Encoders.Filter.{Position, ccw, same}
use open_deck.Encoders.Signals.{Zlibs, Constrains}
use open_deck.Encoders.Mapper.{
  Mapper, DatabaseInfo, Action, is_14bit, step_value, stepped, signals, Result,
}

-- the greatest value of a type
abbrev pub greatest : Zlibs → Action → ℕ
greatest z type = if is_14bit type then z.max_value_14bit else z.max_value_7bit

-- How far a step goes: four times as far on 14 bits when accelerated.
abbrev pub distance : Action → ℕ → ℕ
distance type steps = if is_14bit type && ltb 1 steps then 4 * steps else steps

-- where it ends: down to 0 or up to the greatest value
abbrev pub moved : Zlibs → Action → Position → ℕ → ℕ → ℕ
moved z type position value steps =
    if same position ccw
    then value - distance type steps
    else min (value + distance type steps) (greatest z type)

stepped-moved :
    (z : Zlibs) (type : Action) (position : Position) (value steps : ℕ)
    → z.max_value_7bit < 256
    → value ≤ greatest z type
    → steps < 256
    → stepped z type position value steps ≡ moved z type position value steps
unfolding stepped
stepped-moved z type position value steps seven fits few = elim (Bool-cases (is_14bit type)) [
  | inl wide ↦ elim (Bool-cases (same position ccw)) [ inl p ↦ ground arith | inr p ↦ ground arith ]
  | inr narrow ↦ elim (Bool-cases (same position ccw)) [
    | inl p ↦ ground arith
    | inr p ↦ ground arith
  ]
]

module _ (z : Zlibs) where
  -- A step of an encoder that keeps a value moves it: against the clock down, no further than 0, and
  -- with the clock up, no further than the greatest value of the type; accelerated steps on 14 bits
  -- go four times as far. The result, put within the limits, is the value that is kept. This is so for
  -- an encoder of the table, limits in order, a value in the range of its type, and steps of 8 bits,
  -- when `constrain` does what it says and 7-bit values fit in a byte.
  pub step_value-moved :
      (m : Mapper) (info : DatabaseInfo) (position : Position) (steps : ℕ)
      → Constrains z
      → z.max_value_7bit < 256
      → info.component_index < length m.values
      → info.lower_limit ≤ info.upper_limit
      → get_or m.values info.component_index 0 ≤ greatest z info.type
      → steps < 256
      → let (_, m') = step_value z m info position steps in
        get_or m'.values info.component_index 0
        ≡ max info.lower_limit (
            min
              (moved z info.type position (get_or m.values info.component_index 0) steps)
              info.upper_limit)
  unfolding step_value
  step_value-moved m info position steps law seven inside limits fits few =
      let old = get_or m.values info.component_index 0 in
      let value =
        z.constrain (stepped z info.type position old steps) info.lower_limit info.upper_limit in
      let m' : Mapper = record m { values = set m.values info.component_index value } in
      if-both {A = Option Result × Mapper} (λ r. get_or r.1.values info.component_index 0 ≡ value) _
        (none, m') (some (signals info value), m')
        (get_or-set_self m.values info.component_index value 0 inside)
        (get_or-set_self m.values info.component_index value 0 inside)
      ∙ law (stepped z info.type position old steps) info.lower_limit info.upper_limit limits
      ∙ ap (λ v. max info.lower_limit (min v info.upper_limit))
          (stepped-moved z info.type position old steps seven fits few)
