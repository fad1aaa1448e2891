-- ===== src/Switches/Mapper/Changes.antt =====
-- What a reading changes and sends, and that a refresh repeats it.
use open_deck.Prelude.{
  ℕ, ◌<◌, ◌≡◌, ◌≢◌, inl, inr, refl, sym, ap, ◌∙◌, Bool, true, false, List, Option, none, some, leb,
  get_or, set, length, Bool-cases, get_or-set_self,
}
use open_deck.Signaling.{OscIoSignal, MidiIoSignal, SystemEvent}
use open_deck.Switches.Settings.{Config, SwitchType, momentary, latching, type_count}
use open_deck.Switches.State.{Mapper, Result, read_database_info}
use open_deck.Switches.Messages.{send_midi}
use open_deck.Switches.Mapper.{
  latched, build_result, result, refresh_result, osc_latch, midi_latch, with_states, osc_of,
  unless_empty, when_sent, same_state,
}
use open_deck.Switches.Mapper.Refresh.{
  build_result-inside, refresh_result-inside, refresh_result-mapper,
}
use open_deck.Switches.Mapper.Latches.{send_midi-Same}

-- the OSC signal of a result
abbrev pub osc_part : Option Result → Option OscIoSignal
osc_part none = none
osc_part (some r) = r.osc

abbrev pub pressed : Mapper → ℕ → Bool → Mapper
pressed m index reading = record m { pressed_state = set m.pressed_state index reading }

unless_empty-osc :
    (osc : Option OscIoSignal) (midi : Option MidiIoSignal) (system : Option SystemEvent)
    → osc_part (unless_empty osc midi system) ≡ osc
unfolding unless_empty
unless_empty-osc none none none = refl
unless_empty-osc none none (some s) = refl
unless_empty-osc none (some m) system = refl
unless_empty-osc (some o) midi system = refl

-- A message that was sent is sent again, and nothing changes.
latched-repeats :
    (type : SwitchType) (reading : Bool) (states : List Bool) (index : ℕ) (o : OscIoSignal)
    → osc_of index (latched type reading true false states index).0 ≡ some o
    → osc_of index
        (latched type reading false true (latched type reading true false states index).1 index).0
      ≡ some o
unfolding latched osc_of
latched-repeats momentary reading states index o e = e
latched-repeats type_count reading states index o e = e
latched-repeats latching true states index o e = e
latched-repeats latching false states index o e = absurd (cc e)

module _ (max_value_7bit : ℕ) (config : Config) (size : ℕ) where
  abbrev res : Mapper → ℕ → Bool → Option Result × Mapper
  res = result max_value_7bit config size

  pub result-unchanged :
      (m : Mapper) (index : ℕ) (reading : Bool)
      → same_state (get_or m.pressed_state index false) reading ≡ true
      → res m index reading ≡ (none, m)
  unfolding result
  result-unchanged m index reading e = elim (Bool-cases (leb size index)) [
    | inl over ↦ rw (result, over)
    | inr inside ↦ rw (result, inside, e)
  ]

  pub result-outside :
      (m : Mapper) (index : ℕ) (reading : Bool)
      → leb size index ≡ true
      → res m index reading ≡ (none, m)
  unfolding result
  result-outside m index reading e = rw (result, e)

  pub result-built :
      (m : Mapper) (index : ℕ) (reading : Bool)
      → leb size index ≡ false
      → same_state (get_or m.pressed_state index false) reading ≡ false
      → res m index reading
        ≡ build_result max_value_7bit size
            (pressed m index reading)
            index
            reading
            (read_database_info config index)
            true
            false
  unfolding result
  result-built m index reading e d = rw (result, e, d)

  -- What a change of the reading sends and leaves.
  pub record Changed (m : Mapper) (index : ℕ) (reading : Bool) (out : Option Result × Mapper)
      : Type 0 where
    pub sent :
        osc_part out.0
        ≡ osc_of index
            (latched
              (read_database_info config index).type
              reading
              true
              false
              m.osc_latching_state
              index).0
    pub pressed_kept : out.1.pressed_state ≡ set m.pressed_state index reading
    pub osc_kept :
        out.1.osc_latching_state
        ≡ (latched
            (read_database_info config index).type
            reading
            true
            false
            m.osc_latching_state
            index).1

  pub result-Changed :
      (m : Mapper) (index : ℕ) (reading : Bool)
      → leb size index ≡ false
      → same_state (get_or m.pressed_state index false) reading ≡ false
      → Changed m index reading (res m index reading)
  result-Changed m index reading e d =
      let info = read_database_info config index in
      let m₁ = pressed m index reading in
      let osc = osc_latch m₁ index reading info true false in
      let midi = midi_latch m₁ index reading info true false in
      let s = send_midi-Same max_value_7bit (with_states m₁ osc.1 midi.1) index info true midi.0 in
      let o = send_midi max_value_7bit (with_states m₁ osc.1 midi.1) index info true midi.0 in
      let built =
        result-built m index reading e d
        ∙ build_result-inside max_value_7bit size m₁ index reading info true false e in
      record {
        sent =
            ap (λ r. osc_part r.0) built
            ∙ unless_empty-osc (osc_of index osc.0) (when_sent o.send o.signal) o.system;
        pressed_kept = ap (λ r. r.1.pressed_state) built ∙ s.pressed;
        osc_kept = ap (λ r. r.1.osc_latching_state) built ∙ s.osc;
      }

  refresh_result-osc :
      (m : Mapper) (index : ℕ)
      → leb size index ≡ false
      → osc_part (refresh_result max_value_7bit config size m index).0
        ≡ osc_of index
            (latched
              (read_database_info config index).type
              (get_or m.pressed_state index false)
              false
              true
              m.osc_latching_state
              index).0
  refresh_result-osc m index inside =
      let info = read_database_info config index in
      let reading = get_or m.pressed_state index false in
      let osc = osc_latch m index reading info false true in
      let midi = midi_latch m index reading info false true in
      let o = send_midi max_value_7bit (with_states m osc.1 midi.1) index info false midi.0 in
      ap (λ r. osc_part r.0)
        (refresh_result-inside max_value_7bit config size m index inside
          ∙ build_result-inside max_value_7bit size m index reading info false true inside)
      ∙ unless_empty-osc (osc_of index osc.0) (when_sent o.send o.signal) o.system

  nothing_sent :
      (m : Mapper) (index : ℕ) (reading : Bool) (o : OscIoSignal)
      → res m index reading ≡ (none, m)
      → osc_part (res m index reading).0 ≢ some o
  nothing_sent m index reading o n e = cc (ap (λ r. osc_part r.0) n, e)

  -- A refresh after a reading repeats the OSC signal that the reading has sent, and leaves the
  -- mapper as it is; the array of pressed states has an entry for the switch.
  pub refresh_result-repeats :
      (m : Mapper) (index : ℕ) (reading : Bool) (o : OscIoSignal)
      → index < length m.pressed_state
      → osc_part (res m index reading).0 ≡ some o
      → let m' = (res m index reading).1 in
        (osc_part (refresh_result max_value_7bit config size m' index).0 ≡ some o)
        × ((refresh_result max_value_7bit config size m' index).1 ≡ m')
  refresh_result-repeats m index reading o p e =
      let m' = (res m index reading).1 in
      let type = (read_database_info config index).type in
      (
        elim (Bool-cases (leb size index)) [
          | inl over ↦
              absurd (nothing_sent m index reading o (result-outside m index reading over) e)
          | inr inside ↦
              elim (Bool-cases (same_state (get_or m.pressed_state index false) reading)) [
                | inl same ↦
                    absurd
                      (nothing_sent m index reading o (result-unchanged m index reading same) e)
                | inr differs ↦
                    let c = result-Changed m index reading inside differs in
                    let now =
                      ap (λ l. get_or l index false) c.pressed_kept
                      ∙ get_or-set_self m.pressed_state index reading false p in
                    refresh_result-osc m' index inside
                    ∙ (λ i. osc_of index (latched type (now i) false true (c.osc_kept i) index).0)
                    ∙ latched-repeats type reading m.osc_latching_state index o (sym c.sent ∙ e)
              ]
        ],
        refresh_result-mapper max_value_7bit config size m' index,
      )
