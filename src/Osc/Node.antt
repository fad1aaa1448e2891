-- ===== src/Osc/Node.antt =====
-- The class `Osc`: app/firmware/src/protocol/osc/instance/impl/osc.{h,cpp}. A member function takes
-- the node, and returns its result beside the node that it leaves and what it does to the outside.
-- The semaphores and locks only order the threads and are left out, as are the log lines.
pub mod Send
pub mod Receive
pub mod Configuration
pub mod Sent
pub mod Received
pub mod Settings
pub mod Stored
mod Tests
use open_deck.Prelude.{
  ℕ, zero, suc, ◌+◌, ◌-◌, ◌%◌, ◌^◌, Bool, true, false, not, ◌&&◌, ◌||◌, Option, none, some, List,
  [], ◌∷◌, ◌++◌, ltb, leb, ◌==◌, if◌then◌else◌, length, take, replicate,
}
use open_deck.Signaling.{OscIoSignal, SignalDirection, inward, outward, output}
use open_deck.Osc.Packet.{
  Platform, Argument, osc_int32, osc_string, osc_float32, int32_kind, plain, packet_buffer_size,
}
use open_deck.Osc.Packet.Writer.{make_packet}
use open_deck.Osc.Packet.Reader.{OscMessageView, parse_message, arg, is_empty}
use open_deck.Osc.Paths.{
  characters, same_text, parse_indexed, output_path, refresh_path, discovery_path, device_path,
}
use open_deck.Osc.Destinations.{
  Database, Destination, NetworkOrder, retry_delay_ms, retry_active, has_sendable_destination,
  configured, destination, listen_port_setting, restrict_setting,
}

pub record TxEvent : Type 0 where
  pub packet : List ℕ
  pub size : ℕ
  pub control : Bool
  pub shutdown : Bool

abbrev pub tx_queue_size : ℕ
tx_queue_size = 32

abbrev pub tx_queue_high_watermark : ℕ
tx_queue_high_watermark = 16

-- `RingBuffer` of zlibs/utils/misc, of `tx_queue_size` events; every caller drops the result of
-- `insert`.
pub record RingBuffer : Type 1 where
  pub Queue : Type 0
  pub size : Queue → ℕ
  pub insert : Queue → TxEvent → Queue
  pub remove : Queue → Option TxEvent × Queue
  pub reset : Queue → Queue

-- the members, for a type of stores and of queues
pub record Node (S Q : Type 0) : Type 0 where
  pub store : S
  pub queue : Q
  pub destinations : List (Option Destination)
  pub initialized : Bool
  pub frozen : Bool
  pub is_shutdown : Bool
  pub listen_sock : Option ℕ
  pub identity_received : Bool
  pub network_name : List ℕ
  pub network_address : List ℕ

-- What a member function does to the outside: a datagram to a port and an address, and the signals
-- that it publishes.
pub data Effect : Type 0 where
  datagram : ℕ → ℕ → List ℕ → Effect
  traffic : SignalDirection → Effect
  osc_refresh_req : Effect
  io_signal : OscIoSignal → Effect

abbrev is_outward : SignalDirection → Bool
is_outward inward = false
is_outward outward = true

module _ {S : Type 0} (q : RingBuffer) where
  open q use {Queue}

  unfoldable pub enqueue_packet : List ℕ → ℕ → Node S Queue → Bool × Node S Queue
  enqueue_packet packet size node =
      if leb tx_queue_high_watermark (q.size node.queue) then (true, node) else (
        true,
        record node {
          queue =
              q.insert node.queue
                (record { packet = packet; size = size; control = false; shutdown = false });
        },
      )

  -- what follows `make_packet`
  unfoldable pub enqueue_made : Option ℕ × List ℕ → Node S Queue → Bool × Node S Queue
  unfolding enqueue_packet
  enqueue_made (none, packet) node = (true, node)
  enqueue_made (some size, packet) node = enqueue_packet packet size node

  -- `enqueue` at an uptime, for a signal of a direction and the `make_packet` of its type
  unfoldable pub enqueue :
      ℕ → SignalDirection → (List ℕ → Option ℕ × List ℕ) → Node S Queue → Bool × Node S Queue
  unfolding enqueue_made has_sendable_destination
  enqueue now direction make node =
      if not node.initialized || node.frozen || not (is_outward direction)
      then (true, node)
      else (if not (has_sendable_destination now node.destinations)
          then (true, node)
          else enqueue_made (make (replicate packet_buffer_size 0)) node)

  unfoldable pub deinit : Node S Queue → Bool × Node S Queue
  deinit node = (
    true,
    record node {
      initialized = false;
      listen_sock = none;
      queue = q.insert (q.reset node.queue) (record {
        packet = replicate packet_buffer_size 0;
        size = 0;
        control = true;
        shutdown = false;
      });
    },
  )

  unfoldable pub reset_send_state : Node S Queue → Node S Queue
  reset_send_state node = record node { queue = q.reset node.queue }

module _ {S Q : Type 0} where
  unfoldable pub has_network_identity : Node S Q → Bool
  has_network_identity node =
      node.identity_received
      && not (length node.network_name == 0)
      && not (length node.network_address == 0)

  unfoldable pub close_listen_socket : Node S Q → Node S Q
  close_listen_socket node = record node { listen_sock = none }
