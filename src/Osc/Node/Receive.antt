-- ===== src/Osc/Node/Receive.antt =====
-- Start-up and receiving: `init`, `receive_packet` and what they call, of
-- app/firmware/src/protocol/osc/instance/impl/osc.cpp.
use open_deck.Prelude.{
  ℕ, Bool, true, false, not, ◌&&◌, ◌||◌, Option, none, some, List, [], ◌∷◌, ◌++◌, ◌==◌,
  if◌then◌else◌, take,
}
use open_deck.Signaling.{inward, output}
use open_deck.Osc.Packet.{Platform, Argument, osc_int32, osc_string, osc_float32, int32_kind}
use open_deck.Osc.Packet.Reader.{OscMessageView, parse_message, arg, is_empty}
use open_deck.Osc.Paths.{same_text, parse_indexed, output_path, refresh_path, discovery_path}
use open_deck.Osc.Destinations.{
  Database, Destination, NetworkOrder, configured, listen_port_setting, restrict_setting,
}
use open_deck.Osc.Node.{Node, Effect, traffic, osc_refresh_req, io_signal, has_network_identity}
use open_deck.Osc.Node.Send.{send_packet, Build, make_device_info_packet, respond_all}

abbrev pub int32_value : Option Argument → Option ℕ
int32_value none = none
int32_value (some (osc_int32 v)) = some v
int32_value (some (osc_string s)) = none
int32_value (some (osc_float32 v)) = none

-- whether any destination has the address
abbrev pub has_address : ℕ → List (Option Destination) → Bool
has_address sender [] = false
has_address sender (none ∷ rest) = has_address sender rest
has_address sender (some e ∷ rest) = sender == e.s_addr || has_address sender rest

module _ {Q : Type 0} (d : Database) where
  open d use {Store}

  unfoldable pub sender_allowed : ℕ → Node Store Q → Bool
  sender_allowed sender node =
      if d.read node.store restrict_setting == 0 then true else has_address sender node.destinations

  unfoldable pub refresh_destinations : NetworkOrder → Node Store Q → Node Store Q
  unfolding configured
  refresh_destinations order node = record node {
    destinations = configured order (d.read node.store);
  }

module _ (h : Platform) (size_bits : ℕ) where
  unfoldable pub handle_message : List ℕ → ℕ → Bool × List Effect
  unfolding parse_indexed
  handle_message address value = elim (parse_indexed size_bits h.decimal_base address output_path) [
    | none ↦ (false, [])
    | some index ↦ (
      true,
      io_signal (record {
        source = output;
        component_index = index;
        int32_value = some value;
        float_value = none;
        direction = inward;
      })
          ∷ [],
    )
  ]

  -- the value of a message that is neither a discovery nor a refresh
  unfoldable pub handle_value : List ℕ → Option ℕ → List Effect
  unfolding handle_message
  handle_value address none = []
  handle_value address (some value) =
      let (handled, effects) = handle_message address value in
      if handled then effects ++ traffic inward ∷ [] else []

module _ {Q : Type 0} (d : Database) (h : Platform) (build : Build) (size_bits : ℕ) where
  open d use {Store}

  -- at an uptime, with whether a socket can be opened
  unfoldable pub send_discovery_announcement :
      ℕ → Bool → (ℕ → Bool) → Node Store Q → Bool × Node Store Q × List Effect
  unfolding has_network_identity make_device_info_packet send_packet
  send_discovery_announcement now opened answer node =
      if not (has_network_identity node) || not opened
      then (false, node, [])
      else (let (size, packet) =
            make_device_info_packet h build (d.read node.store listen_port_setting)
              node.network_name node.network_address in
          elim size [
            | none ↦ (false, node, [])
            | some n ↦ send_packet now answer (take n packet) node
          ])

  unfoldable pub init :
      NetworkOrder → ℕ → Bool → (ℕ → Bool) → Node Store Q → Bool × Node Store Q × List Effect
  unfolding refresh_destinations has_network_identity send_discovery_announcement
  init order now opened answer node =
      if node.initialized
      then (true, node, [])
      else (let started = record (refresh_destinations d order node) {
        is_shutdown = false;
        initialized = true;
      } in
          if has_network_identity started
          then (let (_, announced, effects) =
                send_discovery_announcement now opened answer started in
              (true, announced, effects))
          else (true, started, []))

  -- the handler of `NetworkIdentitySignal`
  unfoldable pub receive_identity :
      ℕ → Bool → (ℕ → Bool) → List ℕ → List ℕ → Node Store Q → Node Store Q × List Effect
  unfolding has_network_identity send_discovery_announcement
  receive_identity now opened answer name address node =
      let known = record node {
        network_name = name;
        network_address = address;
        identity_received = true;
      } in
      if known.initialized && has_network_identity known
      then (let (_, announced, effects) = send_discovery_announcement now opened answer known in
          (announced, effects))
      else (known, [])

  unfoldable pub send_discovery_response : (ℕ → Bool) → ℕ → Node Store Q → Bool × List Effect
  unfolding has_network_identity make_device_info_packet respond_all
  send_discovery_response answer sender node =
      if not (has_network_identity node)
      then (false, [])
      else (let (size, packet) =
            make_device_info_packet h build (d.read node.store listen_port_setting)
              node.network_name node.network_address in
          elim size [
            | none ↦ (false, [])
            | some n ↦
                let (all_sent, any, effects) =
                  respond_all answer (take n packet) sender 0 node.destinations in
                (all_sent && any, effects)
          ])

  unfoldable pub handle_view : (ℕ → Bool) → ℕ → Node Store Q → OscMessageView → List Effect
  unfolding is_empty send_discovery_response handle_value arg
  handle_view answer sender node view =
      if same_text view.address discovery_path
      then (if not (is_empty view)
          then []
          else traffic inward ∷ (send_discovery_response answer sender node).1)
      else (if same_text view.address refresh_path
          then (if not (is_empty view) then [] else osc_refresh_req ∷ traffic inward ∷ [])
          else handle_value h size_bits view.address (int32_value (arg h view 0 int32_kind)))

  -- what follows `parse_message`
  unfoldable pub handle_parsed : (ℕ → Bool) → ℕ → Node Store Q → Option OscMessageView → List Effect
  unfolding handle_view
  handle_parsed answer sender node none = []
  handle_parsed answer sender node (some view) = handle_view answer sender node view

  -- `receive_packet`, with what `_hwa.receive` gave: the bytes, or a failure
  unfoldable pub receive_packet :
      (ℕ → Bool) → ℕ → Option (List ℕ) → Node Store Q → Bool × List Effect
  unfolding sender_allowed parse_message handle_parsed
  receive_packet answer sender none node = (false, [])
  receive_packet answer sender (some payload) node =
      if sender_allowed d sender node
      then (true, handle_parsed answer sender node (parse_message h payload))
      else (true, [])
