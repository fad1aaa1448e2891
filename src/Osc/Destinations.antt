-- ===== src/Osc/Destinations.antt =====
-- Where OSC packets are sent: the settings of app/firmware/src/protocol/osc/shared/common.h, and the
-- destinations and their back-off in app/firmware/src/protocol/osc/instance/impl/osc.cpp. Every
-- destination has the family `AF_INET`, which is left out. The database is a parameter.
pub mod Backoff
pub mod Address
use Prim.Native.Nat.{bit_or}
use open_deck.Prelude.{
  ℕ, zero, suc, ◌+◌, ◌-◌, ◌*◌, ◌/◌, ◌%◌, ◌^◌, Bool, true, false, not, ◌&&◌, ◌||◌, Option, none,
  some, List, [], ◌∷◌, ltb, leb, ◌==◌, if◌then◌else◌, get_elem?,
}
use open_deck.Prelude.Bits.{shl32}

-- `Database::read`, with and without its result, and `Database::update` for the section OscSettings
pub record Database : Type 1 where
  pub Store : Type 0
  pub read : Store → ℕ → ℕ
  pub try_read : Store → ℕ → Option ℕ
  pub update : Store → ℕ → ℕ → Bool × Store

abbrev pub destination_count : ℕ
destination_count = 4

abbrev pub octet_count : ℕ
octet_count = 4

-- `Setting`: an octet of a destination, the port of a destination, the port to listen on, and
-- whether senders are restricted; `unknown` stands for every byte from `Count` on
pub data Setting : Type 0 where
  dest_octet : ℕ → ℕ → Setting
  dest_port : ℕ → Setting
  listen_port restrict_incoming unknown : Setting

-- the enumerators in their order, five for each destination
abbrev pub to_setting : ℕ → Setting
to_setting n =
    if leb 22 n
    then unknown
    else (if n == 21
        then restrict_incoming
        else (if n == 20
            then listen_port
            else (if n % 5 == 4 then dest_port (n / 5) else dest_octet (n / 5) (n % 5))))

abbrev pub octet_setting : ℕ → ℕ → ℕ
octet_setting destination octet = 5 * destination + octet

abbrev pub port_setting : ℕ → ℕ
port_setting destination = 5 * destination + 4

abbrev pub listen_port_setting : ℕ
listen_port_setting = 20

abbrev pub restrict_setting : ℕ
restrict_setting = 21

pub record Destination : Type 0 where
  pub sin_port : ℕ
  pub s_addr : ℕ
  pub retry_at_ms : ℕ

abbrev pub retry_delay_ms : ℕ
retry_delay_ms = 30000

-- a subtraction of two `uint32_t`
abbrev pub minus32 : ℕ → ℕ → ℕ
minus32 a b = (a + (2 ^ 32 - b)) % 2 ^ 32

-- `static_cast<int32_t>(x) > 0`
abbrev pub is_positive : ℕ → Bool
is_positive x = ltb 0 x && ltb x (2 ^ 31)

unfoldable pub retry_active : ℕ → ℕ → Bool
retry_active retry_at_ms now_ms = is_positive (minus32 retry_at_ms now_ms)

unfoldable pub has_sendable_destination : ℕ → List (Option Destination) → Bool
unfolding retry_active
has_sendable_destination now [] = false
has_sendable_destination now (none ∷ rest) = has_sendable_destination now rest
has_sendable_destination now (some d ∷ rest) =
    not (retry_active d.retry_at_ms now) || has_sendable_destination now rest

unfoldable pub ipv4_octet_shift : ℕ → ℕ
ipv4_octet_shift octet_index = (octet_count - 1 - octet_index) * 8

-- the address that four octets make
unfoldable pub ipv4_of : (ℕ → ℕ) → ℕ
unfolding ipv4_octet_shift
ipv4_of octet =
    bit_or
      (bit_or
        (bit_or (bit_or 0 (shl32 (octet 0) (ipv4_octet_shift 0)))
          (shl32 (octet 1) (ipv4_octet_shift 1)))
        (shl32 (octet 2) (ipv4_octet_shift 2)))
      (shl32 (octet 3) (ipv4_octet_shift 3))

-- `sys_cpu_to_be16` and `sys_cpu_to_be32` of Zephyr
pub record NetworkOrder : Type 0 where
  pub to_be16 : ℕ → ℕ
  pub to_be32 : ℕ → ℕ

module _ (n : NetworkOrder) (read : ℕ → ℕ) where
  unfoldable pub read_destination_config : ℕ → Option Destination
  unfolding ipv4_of
  read_destination_config index =
      if leb destination_count index
      then none
      else (let ipv4 = ipv4_of (λ i. read (octet_setting index i)) in
          if ipv4 == 0
          then none
          else some (record {
            sin_port = n.to_be16 (read (port_setting index) % 2 ^ 16);
            s_addr = n.to_be32 ipv4;
            retry_at_ms = 0;
          }))

  -- what `refresh_destinations` stores
  unfoldable pub configured : List (Option Destination)
  unfolding read_destination_config
  configured =
      read_destination_config 0
      ∷ read_destination_config 1
      ∷ read_destination_config 2
      ∷ read_destination_config 3
      ∷ []

-- `destination`: none where there is no slot, and none where the slot is empty
abbrev pub destination : List (Option Destination) → ℕ → Option Destination
destination [] index = none
destination (d ∷ rest) zero = d
destination (d ∷ rest) (suc index) = destination rest index
