-- ===== src/Osc/Node/Configuration.antt =====
-- The settings of OSC, read and written by SysEx: `sys_config_get` and `sys_config_set` of
-- app/firmware/src/protocol/osc/instance/impl/osc.cpp. Whether the section is `OscSettings` is the
-- first argument; a value is a `uint16_t`.
use open_deck.Prelude.{
  ℕ, ◌%◌, ◌^◌, Bool, true, false, ◌&&◌, ◌||◌, Option, none, some, ltb, ◌==◌, if◌then◌else◌,
}
use open_deck.Osc.Destinations.{
  Database, NetworkOrder, Setting, dest_octet, dest_port, listen_port, restrict_incoming, unknown,
  to_setting,
}
use open_deck.Osc.Node.{Node, RingBuffer, close_listen_socket, reset_send_state}
use open_deck.Osc.Node.Receive.{refresh_destinations}

-- the answers of `sys::Config::Status` that are given here
pub data Status : Type 0 where
  ack error_read error_write error_index error_new_value : Status

abbrev pub ipv4_octet_max : ℕ
ipv4_octet_max = 255

abbrev pub udp_port_max : ℕ
udp_port_max = 65535

abbrev read_or_zero : Option ℕ → Status × ℕ
read_or_zero none = (error_read, 0)
read_or_zero (some v) = (ack, v % 2 ^ 16)

-- the switch of `sys_config_set`: whether a destination changes, or the error
unfoldable pub check_setting : Setting → ℕ → Option Status × Bool
check_setting restrict_incoming value =
    if ltb 1 value then (some error_new_value, false) else (none, false)
check_setting (dest_octet k i) value =
    if ltb ipv4_octet_max value then (some error_new_value, false) else (none, true)
check_setting (dest_port k) value =
    if value == 0 || ltb udp_port_max value then (some error_new_value, false) else (none, true)
check_setting listen_port value =
    if value == 0 || ltb udp_port_max value then (some error_new_value, false) else (none, false)
check_setting unknown value = (some error_index, false)

abbrev pub is_listen_port : Setting → Bool
is_listen_port listen_port = true
is_listen_port (dest_octet k i) = false
is_listen_port (dest_port k) = false
is_listen_port restrict_incoming = false
is_listen_port unknown = false

module _ (d : Database) (q : RingBuffer) (order : NetworkOrder) where
  open d use {Store, read, try_read, update}
  open q use {Queue}

  -- the status, and the value that is written beside it
  unfoldable pub sys_config_get : Bool → ℕ → Node Store Queue → Option (Status × ℕ)
  sys_config_get is_osc index node =
      if is_osc then some (read_or_zero (try_read node.store index)) else none

  -- what follows a successful update
  unfoldable pub apply_setting : Setting → Bool → Node Store Queue → Node Store Queue
  unfolding close_listen_socket refresh_destinations reset_send_state
  apply_setting setting destination_changed node =
      let closed =
        if is_listen_port setting && node.initialized then close_listen_socket node else node in
      if destination_changed
      then reset_send_state q (refresh_destinations d order closed)
      else closed

  -- what follows `Database::update`
  unfoldable pub set_stored :
      Setting → Bool → Node Store Queue → Bool × Store → Option Status × Node Store Queue
  unfolding apply_setting
  set_stored setting destination_changed node (true, store) =
      (some ack, apply_setting setting destination_changed (record node { store = store }))
  set_stored setting destination_changed node (false, store) =
      (some error_write, record node { store = store })

  -- what follows the switch
  unfoldable pub set_checked :
      ℕ → ℕ → Node Store Queue → Option Status × Bool → Option Status × Node Store Queue
  unfolding set_stored
  set_checked index value node (some status, destination_changed) = (some status, node)
  set_checked index value node (none, destination_changed) =
      set_stored (to_setting (index % 256)) destination_changed node (update node.store index value)

  unfoldable pub sys_config_set : Bool → ℕ → ℕ → Node Store Queue → Option Status × Node Store Queue
  unfolding check_setting set_checked
  sys_config_set is_osc index value node =
      if is_osc
      then set_checked index value node (check_setting (to_setting (index % 256)) value)
      else (none, node)
