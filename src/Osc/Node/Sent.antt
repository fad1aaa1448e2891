-- ===== src/Osc/Node/Sent.antt =====
-- What is sent, and what is dropped: `enqueue` and `send_packet`.
use mathlib.Core.Path.{subst}
use open_deck.Prelude.{
  ℕ, zero, suc, ◌+◌, ◌%◌, ◌^◌, ◌≤◌, ◌<◌, ◌≡◌, refl, sym, ap, ◌∙◌, Bool, true, false, Option, none,
  some, List, [], ◌∷◌, ◌++◌, arith, All, ltb, length, if◌then◌else◌, replicate, length-append,
  Bool-cases, inl, inr, lt_or_le, append-nil, if-both, map,
}
use open_deck.Signaling.{SignalDirection}
use open_deck.Osc.Packet.{packet_buffer_size}
use open_deck.Osc.Destinations.{
  Destination, retry_delay_ms, retry_active, has_sendable_destination, destination,
}
use open_deck.Osc.Destinations.Backoff.{
  IsFresh, has_sendable_destination-IsFresh, retry_active-window,
}
use open_deck.Osc.Node.{
  TxEvent, RingBuffer, Node, Effect, datagram, traffic, osc_refresh_req, io_signal, tx_queue_size,
  tx_queue_high_watermark, enqueue, enqueue_packet, enqueue_made,
}
use open_deck.Osc.Node.Send.{send_one, send_all, send_packet, send_packet_to, retry_time}

-- What is documented of the ring buffer: it is a queue, first in first out, of at most
-- `tx_queue_size` events.
pub record IsFifo (q : RingBuffer) (contents : q.Queue → List TxEvent) : Type 0 where
  pub contents-size : (b : q.Queue) → q.size b ≡ length (contents b)
  pub contents-insert :
      (b : q.Queue) (e : TxEvent)
      → length (contents b) < tx_queue_size
      → contents (q.insert b e) ≡ contents b ++ e ∷ []
  pub contents-reset : (b : q.Queue) → contents (q.reset b) ≡ []

module _ {S : Type 0} (q : RingBuffer) (contents : q.Queue → List TxEvent) where
  open q use {Queue}

  -- What a call may do: it answers true and changes nothing but the queue, to the end of which it
  -- appends at most one event, and which stays within the watermark.
  pub record Appended (node : Node S Queue) (r : Bool × Node S Queue) : Type 0 where
    pub answer : r.0 ≡ true
    pub rest : r.1 ≡ record node { queue = r.1.queue }
    pub added : List TxEvent
    pub grown : contents r.1.queue ≡ contents node.queue ++ added
    pub few : length added ≤ 1
    pub bounded : length (contents r.1.queue) ≤ tx_queue_high_watermark

  dropped-Appended :
      (node : Node S Queue)
      → length (contents node.queue) ≤ tx_queue_high_watermark
      → Appended node (true, node)
  dropped-Appended node l = record {
    answer = refl;
    rest = refl;
    added = [];
    grown = sym (append-nil (contents node.queue));
    few = omega arith;
    bounded = l;
  }

  module _ (fifo : IsFifo q contents) where
    inserted-Appended :
        (event : TxEvent) (node : Node S Queue)
        → length (contents node.queue) < tx_queue_high_watermark
        → Appended node (true, record node { queue = q.insert node.queue event })
    inserted-Appended event node l =
        let e = fifo.contents-insert node.queue event (omega arith) in
        record {
          answer = refl;
          rest = refl;
          added = event ∷ [];
          grown = e;
          few = omega arith;
          bounded = omega (arith, ap length e, length-append (contents node.queue) (event ∷ []));
        }

    enqueue_packet-Appended :
        (packet : List ℕ) (size : ℕ) (node : Node S Queue)
        → length (contents node.queue) ≤ tx_queue_high_watermark
        → Appended node (enqueue_packet q packet size node)
    unfolding enqueue_packet
    enqueue_packet-Appended packet size node l =
        let event : TxEvent = record {
          packet = packet;
          size = size;
          control = false;
          shutdown = false;
        } in
        elim (lt_or_le (q.size node.queue) 16) [
          | inl room ↦
              let e : (true, record node { queue = q.insert node.queue event })
                  ≡ enqueue_packet q packet size node =
                ground arith in
              subst (Appended node) e
                (inserted-Appended event node (omega (arith, fifo.contents-size node.queue)))
          | inr busy ↦
              let e : (true, node) ≡ enqueue_packet q packet size node = ground arith in
              subst (Appended node) e (dropped-Appended node l)
        ]

    enqueue_made-Appended :
        (made : Option ℕ × List ℕ) (node : Node S Queue)
        → length (contents node.queue) ≤ tx_queue_high_watermark
        → Appended node (enqueue_made q made node)
    unfolding enqueue_made
    enqueue_made-Appended (none, packet) node l = dropped-Appended node l
    enqueue_made-Appended (some size, packet) node l = enqueue_packet-Appended packet size node l

    -- When the ring buffer is a queue of 32 events and holds at most 16, `enqueue`, whatever is
    -- signalled, answers true and changes nothing but the queue: it appends at most one event to
    -- its end, and the queue then still holds at most 16.
    pub enqueue-Appended :
        (now : ℕ) (direction : SignalDirection) (make : List ℕ → Option ℕ × List ℕ)
        (node : Node S Queue)
        → length (contents node.queue) ≤ tx_queue_high_watermark
        → Appended node (enqueue q now direction make node)
    unfolding enqueue
    enqueue-Appended now direction make node l =
        if-both (Appended node) _ _ _ (dropped-Appended node l) (
          if-both (Appended node) _ _ _ (dropped-Appended node l)
            (enqueue_made-Appended (make (replicate packet_buffer_size 0)) node l))

  -- When no destination has failed since it last succeeded, at an uptime of more than 2 ^ 31
  -- milliseconds that has not wrapped around at 2 ^ 32, `enqueue` drops every signal.
  pub enqueue-dropped :
      (now : ℕ) (direction : SignalDirection) (make : List ℕ → Option ℕ × List ℕ)
      (node : Node S Queue)
      → now < 2 ^ 32
      → 2 ^ 31 < now
      → All IsFresh node.destinations
      → enqueue q now direction make node ≡ (true, node)
  unfolding enqueue
  enqueue-dropped now direction make node l m f =
      let e : has_sendable_destination now node.destinations ≡ false =
        ground (arith, has_sendable_destination-IsFresh now node.destinations l f) in
      ground (arith, e)

-- the destinations that are configured and in no back-off, in their order
abbrev pub due : ℕ → List (Option Destination) → List Destination
due now [] = []
due now (none ∷ rest) = due now rest
due now (some d ∷ rest) = if retry_active d.retry_at_ms now then due now rest else d ∷ due now rest

-- the datagrams among the effects
abbrev pub datagrams : List Effect → List Effect
datagrams [] = []
datagrams (datagram port address bytes ∷ rest) = datagram port address bytes ∷ datagrams rest
datagrams (traffic direction ∷ rest) = datagrams rest
datagrams (osc_refresh_req ∷ rest) = datagrams rest
datagrams (io_signal signal ∷ rest) = datagrams rest

abbrev pub to_datagram : List ℕ → Destination → Effect
to_datagram packet d = datagram d.sin_port d.s_addr packet

module _ (now : ℕ) (answer : ℕ → Bool) (packet : List ℕ) where
  destination-send_all :
      (k i : ℕ) (ds : List (Option Destination))
      → destination (send_all now answer packet k ds).0 i
        ≡ (send_one now answer packet (k + i) (destination ds i)).0
  unfolding send_all send_one
  destination-send_all k i [] = refl
  destination-send_all k zero (d ∷ rest) =
      ap (λ n. (send_one now answer packet n d).0) (omega arith)
  destination-send_all k (suc i) (d ∷ rest) =
      destination-send_all (k + 1) i rest
      ∙ ap (λ n. (send_one now answer packet n (destination rest i)).0) (omega arith)

  datagrams-one :
      (sent : Bool) (d : Destination) (more : List Effect)
      → datagrams ((send_packet_to sent packet d.sin_port d.s_addr).1 ++ more)
        ≡ to_datagram packet d ∷ datagrams more
  unfolding send_packet_to
  datagrams-one true d more = refl
  datagrams-one false d more = refl

  send_one-none : (k : ℕ) → send_one now answer packet k none ≡ (none, [])
  unfolding send_one
  send_one-none k = refl

  send_one-waiting :
      (k : ℕ) (d : Destination)
      → retry_active d.retry_at_ms now ≡ true
      → send_one now answer packet k (some d) ≡ (some d, [])
  unfolding send_one
  send_one-waiting k d e = ground (arith, e)

  send_one-free :
      (k : ℕ) (d : Destination)
      → retry_active d.retry_at_ms now ≡ false
      → send_one now answer packet k (some d) ≡ (
        some (record d { retry_at_ms = retry_time now (answer k) }),
        (send_packet_to (answer k) packet d.sin_port d.s_addr).1,
      )
  unfolding send_one
  send_one-free k d e =
      let sent = send_packet_to (answer k) packet d.sin_port d.s_addr in
      ap
        (λ b.
          if b
          then (some d, [])
          else (some (record d { retry_at_ms = retry_time now sent.0 }), sent.1))
        e
      ∙ ap (λ b. (some (record d { retry_at_ms = retry_time now b }), sent.1))
          (answered (answer k) d)
    where
      answered : (b : Bool) (d : Destination) → (send_packet_to b packet d.sin_port d.s_addr).0 ≡ b
      answered b d = ground arith

  datagrams-send_all :
      (k : ℕ) (ds : List (Option Destination))
      → datagrams (send_all now answer packet k ds).1 ≡ map (to_datagram packet) (due now ds)
  unfolding send_all
  datagrams-send_all k [] = refl
  datagrams-send_all k (none ∷ rest) =
      ap (λ r. datagrams (r.1 ++ (send_all now answer packet (k + 1) rest).1)) (send_one-none k)
      ∙ datagrams-send_all (k + 1) rest
  datagrams-send_all k (some d ∷ rest) =
      let more = (send_all now answer packet (k + 1) rest).1 in
      elim (Bool-cases (retry_active d.retry_at_ms now)) [
        | inl waiting ↦
            ap (λ r. datagrams (r.1 ++ more)) (send_one-waiting k d waiting)
            ∙ datagrams-send_all (k + 1) rest
            ∙ ap (λ b. map (to_datagram packet) (if b then due now rest else d ∷ due now rest))
                (sym waiting)
        | inr free ↦
            ap (λ r. datagrams (r.1 ++ more)) (send_one-free k d free)
            ∙ datagrams-one (answer k) d more
            ∙ ap (λ t. to_datagram packet d ∷ t) (datagrams-send_all (k + 1) rest)
            ∙ ap (λ b. map (to_datagram packet) (if b then due now rest else d ∷ due now rest))
                (sym free)
      ]

module _ {S Q : Type 0} (now : ℕ) (answer : ℕ → Bool) (packet : List ℕ) (node : Node S Q) where
  -- Whatever the network answers, `send_packet` returns true, changes nothing but the destinations,
  -- and its datagrams are the packet, once to each destination that is configured and in no
  -- back-off, in their order.
  pub send_packet-datagrams :
      let (answered, node', effects) = send_packet now answer packet node in
      (answered ≡ true)
      × (node' ≡ record node { destinations = node'.destinations })
      × (datagrams effects ≡ map (to_datagram packet) (due now node.destinations))
  unfolding send_packet
  send_packet-datagrams = (refl, refl, datagrams-send_all now answer packet 0 node.destinations)

  -- A destination that is in no back-off and whose send fails keeps its endpoint, and is in back-off
  -- for the next 30 seconds and no longer, as far as 2 ^ 31 milliseconds after that.
  pub send_packet-backs_off :
      (i : ℕ) (d : Destination) (elapsed : ℕ)
      → now < 2 ^ 32
      → elapsed ≤ retry_delay_ms + 2 ^ 31
      → destination node.destinations i ≡ some d
      → retry_active d.retry_at_ms now ≡ false
      → answer i ≡ false
      → (d' : Destination) × (destination (send_packet now answer packet node).1.destinations i
          ≡ some d')
        × (d'.sin_port ≡ d.sin_port)
        × (d'.s_addr ≡ d.s_addr)
        × (retry_active d'.retry_at_ms ((now + elapsed) % 2 ^ 32) ≡ ltb elapsed retry_delay_ms)
  unfolding send_packet
  send_packet-backs_off i d elapsed l e at free failed =
      let failing : ℕ = (now + retry_delay_ms) % 2 ^ 32 in
      (
        record d { retry_at_ms = failing },
        destination-send_all now answer packet 0 i node.destinations
            ∙ ap (λ o. (send_one now answer packet (0 + i) o).0) at
            ∙ ap (λ n. (send_one now answer packet n (some d)).0) (omega arith)
            ∙ ap (λ r. r.0) (send_one-free now answer packet i d free)
            ∙ ap (λ b. some (record d { retry_at_ms = retry_time now b })) failed,
        refl,
        refl,
        retry_active-window now elapsed l e,
      )
