-- ===== src/Osc/Node/Tests.antt =====
-- The node's theorems at concrete inputs: a big-endian machine, a database that is a function, a
-- queue that is a list, and one destination, 192.168.0.10 port 9000.
use open_deck.Prelude.{
  ℕ, ◌+◌, ◌%◌, ◌^◌, ◌≡◌, ◌≢◌, refl, sym, ap, ltb→lt, Bool, true, false, Option, none, some, List,
  [], ◌∷◌, ◌++◌, arith, get_or, length, ltb, ◌==◌, if◌then◌else◌, take, map, replicate,
}
use open_deck.Signaling.{outward, inward, output}
use open_deck.Osc.Packet.{osc_int32, indexed}
use open_deck.Osc.Packet.Writer.{make_packet}
use open_deck.Osc.Paths.{characters, output_path}
use open_deck.Osc.Tests.{machine, machine-IsDocumented}
use open_deck.Osc.Destinations.{
  Database, Destination, NetworkOrder, destination, retry_active, retry_delay_ms, configured,
}
use open_deck.Osc.Node.{RingBuffer, Node, TxEvent, enqueue, traffic, io_signal}
use open_deck.Osc.Node.Send.{Build, send_packet}
use open_deck.Osc.Node.Receive.{receive_packet, sender_allowed}
use open_deck.Osc.Node.Configuration.{sys_config_set, error_write, error_new_value}
use open_deck.Osc.Node.Sent.{
  IsFifo, Appended, enqueue-Appended, enqueue-dropped, due, datagrams, to_datagram,
  send_packet-datagrams, send_packet-backs_off,
}
use open_deck.Osc.Node.Received.{receive_packet-output}
use open_deck.Osc.Node.Stored.{IsStore, IsCoherent, sys_config_set-IsCoherent}

abbrev fifo : RingBuffer
fifo = record {
  Queue = List TxEvent;
  size = length;
  insert = λ b e. b ++ e ∷ [];
  remove = λ b. (none, b);
  reset = λ b. [];
}

fifo-IsFifo : IsFifo fifo (λ b. b)
fifo-IsFifo = record {
  contents-size = λ b. refl;
  contents-insert = λ b e l. refl;
  contents-reset = λ b. refl;
}

abbrev network : NetworkOrder
network = record { to_be16 = λ n. n; to_be32 = λ n. n }

abbrev outcome : Bool → (ℕ → ℕ) → (ℕ → ℕ) → Bool × (ℕ → ℕ)
outcome b t s = if b then (true, t) else (false, s)

-- the settings, as a function from their indices
abbrev database : Database
database = record {
  Store = ℕ → ℕ;
  read = λ s i. s i;
  try_read = λ s i. if ltb i 22 then some (s i) else none;
  update = λ s i v. outcome (ltb i 22) (λ j. if j == i then v else s j) s;
}

updated : (b : Bool) (s s' t : ℕ → ℕ) → outcome b t s ≡ (true, s') → (b ≡ true) × (t ≡ s')
updated true s s' t e = (refl, ap (λ p. p.1) e)
updated false s s' t e = absurd (let f : false ≡ true = ap (λ p. p.0) e in ground arith)

database-IsStore : IsStore database
database-IsStore = record {
  update-index = λ s s' i v e.
      (let u = updated (ltb i 22) s s' (λ j. if j == i then v else s j) e in ltb→lt i 22 u.0);
  read-update = λ s s' i v j e.
      (let u = updated (ltb i 22) s s' (λ j. if j == i then v else s j) e in
        ap (λ r. r j) (sym u.1));
}

abbrev settings : ℕ → ℕ
settings i = get_or (192 ∷ 168 ∷ 0 ∷ 10 ∷ 9000 ∷ replicate 15 0 ++ 9001 ∷ 0 ∷ []) i 0

abbrev desk : Destination
desk = record { sin_port = 9000; s_addr = 3232235530; retry_at_ms = 0 }

abbrev node : Node (ℕ → ℕ) (List TxEvent)
node = record {
  store = settings;
  queue = [];
  destinations = some desk ∷ none ∷ none ∷ none ∷ [];
  initialized = true;
  frozen = false;
  is_shutdown = false;
  listen_sock = some 3;
  identity_received = true;
  network_name = characters "opendeck";
  network_address = characters "192.168.0.2";
}

enqueue-Appended_example :
    Appended fifo (λ b. b) node (enqueue fifo 1000 outward (λ packet. (some 20, packet)) node)
enqueue-Appended_example =
    enqueue-Appended fifo (λ b. b) fifo-IsFifo 1000 outward (λ packet. (some 20, packet)) node
      (omega arith)

-- an uptime of a little less than 25 days
enqueue-dropped_example :
    enqueue fifo 2147483649 outward (λ packet. (some 20, packet)) node ≡ (true, node)
enqueue-dropped_example =
    enqueue-dropped fifo (λ b. b) 2147483649 outward (λ packet. (some 20, packet)) node
      (omega arith) (omega arith) (refl, (tt, (tt, (tt, tt))))

send_packet-datagrams_example :
    let (answered, node', effects) = send_packet 1000 (λ i. false) (1 ∷ 2 ∷ []) node in
    (answered ≡ true)
    × (node' ≡ record node { destinations = node'.destinations })
    × (datagrams effects ≡ map (to_datagram (1 ∷ 2 ∷ [])) (due 1000 node.destinations))
send_packet-datagrams_example = send_packet-datagrams 1000 (λ i. false) (1 ∷ 2 ∷ []) node

desk_free : retry_active 0 1000 ≡ false
unfolding retry_active
desk_free = refl

send_packet-backs_off_example :
    (d' : Destination) × (destination (send_packet 1000 (λ i. false) (1 ∷ []) node).1.destinations 0
      ≡ some d')
    × (d'.sin_port ≡ 9000)
    × (d'.s_addr ≡ 3232235530)
    × (retry_active d'.retry_at_ms ((1000 + 29999) % 2 ^ 32) ≡ ltb 29999 retry_delay_ms)
send_packet-backs_off_example =
    send_packet-backs_off 1000 (λ i. false) (1 ∷ []) node 0 desk 29999 (omega arith) (omega arith)
      refl desk_free refl

abbrev build : Build
build = record { target = characters "board"; version = characters "v1" }

abbrev command : Option ℕ × List ℕ
command = make_packet machine (indexed output_path 5) (osc_int32 1 ∷ [])

command_size : make_packet machine (indexed output_path 5) (osc_int32 1 ∷ []) ≡ (some 28, command.1)
unfolding make_packet
command_size = refl

allowed : sender_allowed database 7 node ≡ true
unfolding sender_allowed
allowed = refl

receive_packet-output_example :
    receive_packet database machine build 32 (λ i. true) 7 (some (take 28 command.1)) node ≡ (
      true,
      io_signal (record {
        source = output;
        component_index = 5;
        int32_value = some 1;
        float_value = none;
        direction = inward;
      })
          ∷ traffic inward
          ∷ [],
    )
receive_packet-output_example =
    receive_packet-output database machine build 32 (λ i. true) 7 node 5 1 28 command.1
      machine-IsDocumented allowed (omega arith) (omega arith) command_size

node-IsCoherent : IsCoherent database fifo network node
unfolding configured
node-IsCoherent = refl

-- port 8000 for the second destination
accepted : (sys_config_set database fifo network true 9 8000 node).0 ≢ some error_write
unfolding sys_config_set
accepted e = ground arith

sys_config_set-IsCoherent_example :
    IsCoherent database fifo network (sys_config_set database fifo network true 9 8000 node).1
sys_config_set-IsCoherent_example =
    sys_config_set-IsCoherent database fifo network database-IsStore true 9 8000 node
      node-IsCoherent accepted

refused : (sys_config_set database fifo network true 9 0 node).0 ≡ some error_new_value
unfolding sys_config_set
refused = refl
