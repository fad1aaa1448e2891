-- ===== src/Osc/Node/Settings.antt =====
-- What the switch of `sys_config_set` lets pass, and which settings the destinations depend on.
use mathlib.Core.Path.{fun_ext}
use open_deck.Prelude.{
  ℕ, ◌/◌, ◌%◌, ◌≤◌, ◌<◌, ◌≡◌, ◌≢◌, refl, sym, ap, ◌∙◌, Bool, true, false, none, some, arith,
  if◌then◌else◌, Bool-cases, inl, inr, ◌==◌, ltb, lt_or_le,
}
use open_deck.Osc.Destinations.{
  NetworkOrder, Setting, dest_octet, dest_port, listen_port, restrict_incoming, unknown, to_setting,
  read_destination_config, configured, ipv4_of,
}
use open_deck.Osc.Node.Configuration.{ack, ipv4_octet_max, udp_port_max, check_setting}

-- The range of a setting.
abbrev pub InRange : Setting → ℕ → Type 0
InRange restrict_incoming value = value ≤ 1
InRange (dest_octet k i) value = value ≤ ipv4_octet_max
InRange (dest_port k) value = (0 < value) × (value ≤ udp_port_max)
InRange listen_port value = (0 < value) × (value ≤ udp_port_max)
InRange unknown value = ⊥

pub check_setting-InRange :
    (setting : Setting) (value : ℕ) (changed : Bool)
    → check_setting setting value ≡ (none, changed)
    → InRange setting value
unfolding check_setting
check_setting-InRange restrict_incoming value changed e = ground arith
check_setting-InRange (dest_octet k i) value changed e = ground arith
check_setting-InRange (dest_port k) value changed e = ground arith
check_setting-InRange listen_port value changed e = ground arith
check_setting-InRange unknown value changed e = absurd (ground arith)

pub never-ack :
    (setting : Setting) (value : ℕ) (changed : Bool)
    → check_setting setting value ≢ (some ack, changed)
unfolding check_setting
never-ack restrict_incoming value changed e = ground arith
never-ack (dest_octet k i) value changed e = ground arith
never-ack (dest_port k) value changed e = ground arith
never-ack listen_port value changed e = ground arith
never-ack unknown value changed e = ground arith

checked-port :
    (k value : ℕ) (changed : Bool)
    → check_setting (dest_port k) value ≡ (none, changed)
    → changed ≡ true
unfolding check_setting
checked-port k value changed e = ground arith

checked-octet :
    (k i value : ℕ) (changed : Bool)
    → check_setting (dest_octet k i) value ≡ (none, changed)
    → changed ≡ true
unfolding check_setting
checked-octet k i value changed e = ground arith

-- Only the last two settings leave the destinations alone.
changes-destination :
    (n value : ℕ) (changed : Bool)
    → n < 20
    → check_setting (if n % 5 == 4 then dest_port (n / 5) else dest_octet (n / 5) (n % 5)) value
      ≡ (none, changed)
    → changed ≡ true
changes-destination n value changed l e = elim (Bool-cases (n % 5 == 4)) [
  | inl p ↦ port (
      ap (λ b. check_setting (if b then dest_port (n / 5) else dest_octet (n / 5) (n % 5)) value)
        (sym p)
      ∙ e)
  | inr p ↦ octet (
      ap (λ b. check_setting (if b then dest_port (n / 5) else dest_octet (n / 5) (n % 5)) value)
        (sym p)
      ∙ e)
]
  where
    port : check_setting (dest_port (n / 5)) value ≡ (none, changed) → changed ≡ true
    port e = checked-port (n / 5) value changed e

    octet : check_setting (dest_octet (n / 5) (n % 5)) value ≡ (none, changed) → changed ≡ true
    octet e = checked-octet (n / 5) (n % 5) value changed e

pub kept-index : (n value : ℕ) → check_setting (to_setting n) value ≡ (none, false) → 20 ≤ n
kept-index n value e = elim (lt_or_le n 20) [
  | inl l ↦
      let same : to_setting n
          ≡ (if n % 5 == 4 then dest_port (n / 5) else dest_octet (n / 5) (n % 5)) =
        ground arith in
      absurd (
        let f =
          changes-destination n value false l (ap (λ s. check_setting s value) (sym same) ∙ e) in
        ground arith)
  | inr l ↦ l
]

-- the readings of the destinations
abbrev masked : (ℕ → ℕ) → ℕ → ℕ
masked r j = if ltb j 20 then r j else 0

masked-eq : (r r' : ℕ → ℕ) → ((j : ℕ) → j < 20 → r' j ≡ r j) → masked r' ≡ masked r
masked-eq r r' e = fun_ext (λ j. at j)
  where
    at : (j : ℕ) → masked r' j ≡ masked r j
    at j = elim (lt_or_le j 20) [
      | inl l ↦ let f = e j l in ground (arith, f)
      | inr l ↦ ground arith
    ]

configured-masked :
    (order : NetworkOrder) (r : ℕ → ℕ) → configured order r ≡ configured order (masked r)
unfolding configured read_destination_config ipv4_of
configured-masked order r = refl

pub configured-reads :
    (order : NetworkOrder) (r r' : ℕ → ℕ)
    → ((j : ℕ) → j < 20 → r' j ≡ r j)
    → configured order r' ≡ configured order r
configured-reads order r r' e =
    configured-masked order r'
    ∙ ap (configured order) (masked-eq r r' e)
    ∙ sym (configured-masked order r)
