-- ===== src/Osc/Destinations/Address.antt =====
-- The address of a destination: the loop that joins the octets, as arithmetic.
use Prim.Native.Nat.{bit_or}
use open_deck.Prelude.{
  ℕ, ◌+◌, ◌*◌, ◌%◌, ◌^◌, ◌<◌, ◌≡◌, refl, ap, ◌∙◌, Bool, false, Option, none, some, arith, leb,
  if◌then◌else◌, ◌==◌,
}
use open_deck.Prelude.Bits.{shl32, bit_or_above, bit_or_below}
use open_deck.Osc.Destinations.{
  NetworkOrder, ipv4_of, read_destination_config, octet_setting, port_setting, destination_count,
  Destination, ipv4_octet_shift,
}

-- the highest octet first
abbrev joined : ℕ → ℕ → ℕ → ℕ → ℕ
joined a b c d =
    bit_or (bit_or (bit_or (bit_or 0 (shl32 a 24)) (shl32 b 16)) (shl32 c 8)) (shl32 d 0)

ipv4_of-joined : (octet : ℕ → ℕ) → ipv4_of octet ≡ joined (octet 0) (octet 1) (octet 2) (octet 3)
unfolding ipv4_of ipv4_octet_shift
ipv4_of-joined octet = refl

shl32-eq : (x k : ℕ) → x * 2 ^ k < 2 ^ 32 → shl32 x k ≡ x * 2 ^ k
shl32-eq x k h = omega arith

joined_value :
    (a b c d : ℕ)
    → a < 256
    → b < 256
    → c < 256
    → d < 256
    → joined a b c d ≡ a * 16777216 + b * 65536 + c * 256 + d
joined_value a b c d p q r s =
    let e₀ : bit_or 0 (a * 2 ^ 24) ≡ a * 2 ^ 24 =
      omega (arith, bit_or_above 24 0 a (omega arith)) in
    let e₁ : bit_or (a * 2 ^ 24) (b * 2 ^ 16) ≡ (a * 256 + b) * 2 ^ 16 =
      omega (arith, bit_or_below 24 (b * 2 ^ 16) a (omega arith)) in
    let e₂ : bit_or ((a * 256 + b) * 2 ^ 16) (c * 2 ^ 8) ≡ ((a * 256 + b) * 256 + c) * 2 ^ 8 =
      omega (arith, bit_or_below 16 (c * 2 ^ 8) (a * 256 + b) (omega arith)) in
    let e₃ : bit_or (((a * 256 + b) * 256 + c) * 2 ^ 8) (d * 2 ^ 0)
        ≡ ((a * 256 + b) * 256 + c) * 2 ^ 8 + d * 2 ^ 0 =
      bit_or_below 8 (d * 2 ^ 0) ((a * 256 + b) * 256 + c) (omega arith) in
    rw
      (
        shl32-eq a 24 (omega arith),
        shl32-eq b 16 (omega arith),
        shl32-eq c 8 (omega arith),
        shl32-eq d 0 (omega arith),
        e₀,
        e₁,
        e₂,
        e₃,
      )
      (omega arith)

module _ (n : NetworkOrder) (read : ℕ → ℕ) (index : ℕ) where
  abbrev pub octet : ℕ → ℕ
  octet i = read (octet_setting index i)

  -- The address of a slot as arithmetic: the octets from the most significant one.
  abbrev pub address_value : ℕ
  address_value = octet 0 * 16777216 + octet 1 * 65536 + octet 2 * 256 + octet 3

  -- For a slot whose octets are bytes, `read_destination_config` returns a destination unless the
  -- four octets are zero; its address is the octets from the most significant one, its port is
  -- the lower 16 bits of the setting, both in network order, and it is in no back-off.
  pub read_destination_config-octets :
      index < destination_count
      → octet 0 < 256
      → octet 1 < 256
      → octet 2 < 256
      → octet 3 < 256
      → read_destination_config n read index ≡ (
          if address_value == 0
          then none
          else some (record {
            sin_port = n.to_be16 (read (port_setting index) % 2 ^ 16);
            s_addr = n.to_be32 address_value;
            retry_at_ms = 0;
          }))
  unfolding read_destination_config
  read_destination_config-octets l p q r s =
      let v = ipv4_of-joined octet ∙ joined_value (octet 0) (octet 1) (octet 2) (octet 3) p q r s in
      let guard : leb destination_count index ≡ false = ground arith in
      ap (λ (b : Bool). if b then none else config (ipv4_of octet)) guard ∙ ap config v
    where
      config : ℕ → Option Destination
      config ipv4 =
          if ipv4 == 0
          then none
          else some (record {
            sin_port = n.to_be16 (read (port_setting index) % 2 ^ 16);
            s_addr = n.to_be32 ipv4;
            retry_at_ms = 0;
          })
