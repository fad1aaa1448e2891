-- ===== src/Osc/Node/Send.antt =====
-- Sending: `send_packet`, its loop over the destinations, and the packets that answer a discovery, of
-- app/firmware/src/protocol/osc/instance/impl/osc.cpp.
use open_deck.Prelude.{
  ℕ, ◌+◌, ◌%◌, ◌^◌, Bool, true, false, Option, none, some, List, [], ◌∷◌, ◌++◌, ◌==◌, if◌then◌else◌,
  take,
}
use open_deck.Signaling.{outward}
use open_deck.Osc.Packet.{Platform, osc_int32, osc_string, plain}
use open_deck.Osc.Packet.Writer.{make_packet}
use open_deck.Osc.Paths.{characters, device_path}
use open_deck.Osc.Destinations.{Destination, retry_delay_ms, retry_active}
use open_deck.Osc.Node.{TxEvent, Node, Effect, datagram, traffic}

-- `send_packet_to`, with the answer of `_hwa.send`: whether it is not negative
unfoldable pub send_packet_to : Bool → List ℕ → ℕ → ℕ → Bool × List Effect
send_packet_to answer packet port address =
    if answer
    then (true, datagram port address packet ∷ traffic outward ∷ [])
    else (false, datagram port address packet ∷ [])

-- the time that `send_packet` stores after a try
abbrev pub retry_time : ℕ → Bool → ℕ
retry_time now sent = if sent then 0 else (now + retry_delay_ms) % 2 ^ 32

module _ (now : ℕ) (answer : ℕ → Bool) (packet : List ℕ) where
  -- one destination, at an index
  unfoldable pub send_one : ℕ → Option Destination → Option Destination × List Effect
  unfolding retry_active send_packet_to
  send_one i none = (none, [])
  send_one i (some d) =
      if retry_active d.retry_at_ms now
      then (some d, [])
      else (let (sent, effects) = send_packet_to (answer i) packet d.sin_port d.s_addr in
          (some (record d { retry_at_ms = retry_time now sent }), effects))

  -- the loop of `send_packet`, from an index on
  unfoldable pub send_all : ℕ → List (Option Destination) → List (Option Destination) × List Effect
  unfolding send_one
  send_all i [] = ([], [])
  send_all i (d ∷ rest) =
      let (d', effects) = send_one i d in
      let (rest', more) = send_all (i + 1) rest in (d' ∷ rest', effects ++ more)

module _ {S Q : Type 0} (now : ℕ) (answer : ℕ → Bool) where
  unfoldable pub send_packet : List ℕ → Node S Q → Bool × Node S Q × List Effect
  unfolding send_all
  send_packet packet node =
      let (destinations, effects) = send_all now answer packet 0 node.destinations in
      (true, record node { destinations = destinations }, effects)

  unfoldable pub send_event : TxEvent → Node S Q → Bool × Node S Q × List Effect
  unfolding send_packet
  send_event event node =
      if event.size == 0 then (false, node, []) else send_packet (take event.size event.packet) node

-- What the build puts in: `OPENDECK_TARGET` and the version string.
pub record Build : Type 0 where
  pub target : List ℕ
  pub version : List ℕ

module _ (h : Platform) (build : Build) where
  unfoldable pub make_device_info_packet : ℕ → List ℕ → List ℕ → Option ℕ × List ℕ
  unfolding make_packet
  make_device_info_packet listen_port network_name ip_address = make_packet h (plain device_path) (
      osc_string (characters "opendeck")
      ∷ osc_string build.target
      ∷ osc_string build.version
      ∷ osc_int32 (listen_port % 2 ^ 16)
      ∷ osc_string network_name
      ∷ osc_string ip_address
      ∷ [])

-- the loop of `send_discovery_response`: a datagram to the sender at each configured port, until
-- one fails; whether all succeeded, whether any was sent, and the effects
unfoldable pub respond_all :
    (ℕ → Bool) → List ℕ → ℕ → ℕ → List (Option Destination) → Bool × Bool × List Effect
unfolding send_packet_to
respond_all answer packet sender i [] = (true, false, [])
respond_all answer packet sender i (none ∷ rest) = respond_all answer packet sender (i + 1) rest
respond_all answer packet sender i (some d ∷ rest) =
    let (sent, effects) = send_packet_to (answer i) packet d.sin_port sender in
    let (all_sent, any, more) = respond_all answer packet sender (i + 1) rest in
    if sent then (all_sent, true, effects ++ more) else (false, false, effects)
