-- ===== src/Switches/Mapper/Presses.antt =====
-- A latching switch turns with every press.
use open_deck.Prelude.{
  ℕ, zero, suc, ◌<◌, ◌≡◌, inl, inr, refl, ap, ◌∙◌, Bool, true, false, not, ◌&&◌, List, [], ◌∷◌, leb,
  if◌then◌else◌, get_or, length, arith, Bool-cases, get_or-set_self, length-set,
}
use open_deck.Switches.Settings.{
  Section, Config, SwitchType, momentary, latching, type_count, to_type,
}
use open_deck.Switches.State.{Mapper, read_database_info}
use open_deck.Switches.Mapper.{latched, result, same_state}
use open_deck.Switches.Mapper.Changes.{result-unchanged, result-Changed}

-- How often a switch is pressed, from the state that it has.
pub presses : Bool → List Bool → ℕ
presses state [] = 0
presses state (reading ∷ readings) =
    let rest = presses reading readings in if reading && not state then suc rest else rest

-- A state that is turned over and over.
pub turned : ℕ → Bool → Bool
turned zero state = state
turned (suc n) state = turned n (not state)

-- The arrays have an entry for the switch.
pub record Ready (m : Mapper) (index : ℕ) : Type 0 where
  pub pressed : index < length m.pressed_state
  pub latched : index < length m.osc_latching_state

latching_type :
    (config : Config) (index : ℕ)
    → config Section.type_section index ≡ 1
    → (read_database_info config index).type ≡ latching
unfolding read_database_info to_type
latching_type config index e = ap to_type e

latched-length :
    (type : SwitchType) (reading : Bool) (states : List Bool) (index : ℕ)
    → length (latched type reading true false states index).1 ≡ length states
unfolding latched
latched-length momentary reading states index = refl
latched-length type_count reading states index = refl
latched-length latching true states index =
    length-set states index (not (get_or states index false))
latched-length latching false states index = refl

latched-turn :
    (reading : Bool) (states : List Bool) (index : ℕ)
    → index < length states
    → get_or (latched latching reading true false states index).1 index false
      ≡ (if reading then not (get_or states index false) else get_or states index false)
unfolding latched
latched-turn true states index p =
    get_or-set_self states index (not (get_or states index false)) false p
latched-turn false states index p = refl

turned-press :
    (reading pressed state : Bool) (readings : List Bool)
    → same_state pressed reading ≡ false
    → turned (presses reading readings) (if reading then not state else state)
      ≡ turned (presses pressed (reading ∷ readings)) state
unfolding presses turned
turned-press true false state readings e = refl
turned-press false true state readings e = refl
turned-press true true state readings e = absurd (cc e)
turned-press false false state readings e = absurd (cc e)

turned-same :
    (reading pressed state : Bool) (readings : List Bool)
    → same_state pressed reading ≡ true
    → turned (presses pressed readings) state ≡ turned (presses pressed (reading ∷ readings)) state
unfolding presses turned
turned-same true true state readings e = refl
turned-same false false state readings e = refl
turned-same true false state readings e = absurd (cc e)
turned-same false true state readings e = absurd (cc e)

module _ (max_value_7bit : ℕ) (config : Config) (size : ℕ) where
  -- The mapper after readings of one switch, the first one first.
  pub read_all : Mapper → ℕ → List Bool → Mapper
  read_all m index [] = m
  read_all m index (reading ∷ readings) =
      read_all (result max_value_7bit config size m index reading).1 index readings

  -- A latching switch turns its latch with every press and not otherwise: after readings of it, the
  -- OSC latch is the former one turned as often as the readings go from released to pressed. The
  -- index is in range, the type that the database gives is latching, and the arrays have an entry
  -- for the switch.
  pub read_all-turned :
      (m : Mapper) (index : ℕ) (readings : List Bool)
      → leb size index ≡ false
      → config Section.type_section index ≡ 1
      → Ready m index
      → get_or (read_all m index readings).osc_latching_state index false
        ≡ turned
            (presses (get_or m.pressed_state index false) readings)
            (get_or m.osc_latching_state index false)
  unfolding read_all presses turned
  read_all-turned m index [] inside e r = refl
  read_all-turned m index (reading ∷ readings) inside e r =
      let p = get_or m.pressed_state index false in
      let s = get_or m.osc_latching_state index false in
      let m' = (result max_value_7bit config size m index reading).1 in
      elim (Bool-cases (same_state p reading)) [
        | inl same ↦
            let u =
              ap (λ q. q.1) (result-unchanged max_value_7bit config size m index reading same) in
            ap (λ q. get_or (read_all q index readings).osc_latching_state index false) u
            ∙ read_all-turned m index readings inside e r
            ∙ turned-same reading p s readings same
        | inr differs ↦
            let c = result-Changed max_value_7bit config size m index reading inside differs in
            let now =
              ap (λ l. get_or l index false) c.pressed_kept
              ∙ get_or-set_self m.pressed_state index reading false r.pressed in
            let type = (read_database_info config index).type in
            let latching_now = latching_type config index e in
            let after =
              ap (λ l. get_or l index false) c.osc_kept
              ∙ ap
                  (λ t.
                    get_or (latched t reading true false m.osc_latching_state index).1 index false)
                  latching_now
              ∙ latched-turn reading m.osc_latching_state index r.latched in
            let pressed_length =
              ap length c.pressed_kept ∙ length-set m.pressed_state index reading in
            let latched_length =
              ap length c.osc_kept ∙ latched-length type reading m.osc_latching_state index in
            read_all-turned m' index readings inside e
              (record { pressed = omega arith; latched = omega arith })
            ∙ (λ i. turned (presses (now i) readings) (after i))
            ∙ turned-press reading p s readings differs
      ]
