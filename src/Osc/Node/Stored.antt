-- ===== src/Osc/Node/Stored.antt =====
-- Writing a setting: the destinations stay those of the database, and what is stored is in range.
use open_deck.Prelude.{
  ℕ, ◌%◌, ◌≤◌, ◌<◌, ◌≡◌, ◌≢◌, refl, sym, ap, ◌∙◌, Bool, true, false, ◌&&◌, Option, none, some, List,
  [], ◌∷◌, arith, if◌then◌else◌, ◌==◌, if-both,
}
use open_deck.Osc.Destinations.{
  Database, Destination, NetworkOrder, Setting, to_setting, configured,
}
use open_deck.Osc.Node.{Node, RingBuffer, reset_send_state, close_listen_socket}
use open_deck.Osc.Node.Configuration.{
  Status, ack, error_write, check_setting, apply_setting, is_listen_port, set_stored, set_checked,
  sys_config_set,
}
use open_deck.Osc.Node.Settings.{
  InRange, check_setting-InRange, kept-index, configured-reads, never-ack,
}
use open_deck.Osc.Node.Receive.{refresh_destinations}

-- What is relied on of the database: an update that succeeds is to an index of the section, and
-- changes what is read there and nowhere else.
pub record IsStore (d : Database) : Type 0 where
  pub update-index : (s s' : d.Store) (i v : ℕ) → d.update s i v ≡ (true, s') → i < 22
  pub read-update :
      (s s' : d.Store) (i v j : ℕ)
      → d.update s i v ≡ (true, s')
      → d.read s' j ≡ (if j == i then v else d.read s j)

-- The endpoints, without the back-off.
abbrev pub endpoints : List (Option Destination) → List (Option (ℕ × ℕ))
endpoints [] = []
endpoints (none ∷ rest) = none ∷ endpoints rest
endpoints (some e ∷ rest) = some (e.sin_port, e.s_addr) ∷ endpoints rest

module _ (d : Database) (q : RingBuffer) (order : NetworkOrder) where
  open d use {Store, read, update}
  open q use {Queue}

  -- The destinations are those that the settings describe, whatever their back-off.
  abbrev pub IsCoherent : Node Store Queue → Type 0
  IsCoherent node = endpoints node.destinations ≡ endpoints (configured order (read node.store))

  refreshed-IsCoherent :
      (node : Node Store Queue)
      → IsCoherent (reset_send_state q (refresh_destinations d order node))
  unfolding reset_send_state refresh_destinations
  refreshed-IsCoherent node = refl

  closed-IsCoherent :
      (node : Node Store Queue) → IsCoherent node → IsCoherent (close_listen_socket node)
  unfolding close_listen_socket
  closed-IsCoherent node c = c

  apply-IsCoherent :
      (setting : Setting) (changed : Bool) (node : Node Store Queue)
      → (changed ≡ false → IsCoherent node)
      → IsCoherent (apply_setting d q order setting changed node)
  unfolding apply_setting
  apply-IsCoherent setting true node c =
      refreshed-IsCoherent
        (if is_listen_port setting && node.initialized then close_listen_socket node else node)
  apply-IsCoherent setting false node c =
      if-both IsCoherent _ _ _ (closed-IsCoherent node (c refl)) (c refl)

  store-apply_setting :
      (setting : Setting) (changed : Bool) (node : Node Store Queue)
      → (apply_setting d q order setting changed node).store ≡ node.store
  unfolding apply_setting reset_send_state refresh_destinations close_listen_socket
  store-apply_setting setting true node =
      if-both (λ (n : Node Store Queue). n.store ≡ node.store)
        (is_listen_port setting && node.initialized) (close_listen_socket node) node refl refl
  store-apply_setting setting false node =
      if-both (λ (n : Node Store Queue). n.store ≡ node.store)
        (is_listen_port setting && node.initialized) (close_listen_socket node) node refl refl

  module _ (law : IsStore d) where
    -- an update of one of the last two settings
    kept-IsCoherent :
        (index value : ℕ) (node : Node Store Queue) (store : Store)
        → update node.store index value ≡ (true, store)
        → check_setting (to_setting (index % 256)) value ≡ (none, false)
        → IsCoherent node
        → IsCoherent (record node { store = store })
    kept-IsCoherent index value node store u e c =
        let bound = law.update-index node.store store index value u in
        let high : 20 ≤ index = omega (arith, kept-index (index % 256) value e) in
        c
        ∙ ap endpoints (
            sym (
              configured-reads order (read node.store) (read store) (λ j l.
                (let r = law.read-update node.store store index value j u in
                  let other : (j == index) ≡ false = ground arith in
                  r ∙ ap (λ b. if b then value else read node.store j) other))))

    stored-IsCoherent :
        (index value : ℕ) (changed : Bool) (node : Node Store Queue) (o : Bool × Store)
        → update node.store index value ≡ o
        → check_setting (to_setting (index % 256)) value ≡ (none, changed)
        → IsCoherent node
        → (set_stored d q order (to_setting (index % 256)) changed node o).0 ≢ some error_write
        → IsCoherent (set_stored d q order (to_setting (index % 256)) changed node o).1
    unfolding set_stored
    stored-IsCoherent index value changed node (true, store) u e c n =
        apply-IsCoherent (to_setting (index % 256)) changed (record node { store = store })
          (λ f. kept-IsCoherent index value node store u (e ∙ ap (λ b. (none, b)) f) c)
    stored-IsCoherent index value changed node (false, store) u e c n = absurd (n refl)

    checked-IsCoherent :
        (index value : ℕ) (node : Node Store Queue) (o : Option Status × Bool)
        → check_setting (to_setting (index % 256)) value ≡ o
        → IsCoherent node
        → (set_checked d q order index value node o).0 ≢ some error_write
        → IsCoherent (set_checked d q order index value node o).1
    unfolding set_checked
    checked-IsCoherent index value node (some status, changed) e c n = c
    checked-IsCoherent index value node (none, changed) e c n =
        stored-IsCoherent index value changed node (update node.store index value) refl e c n

    -- Over a database in which a successful update changes the one setting it is asked to, the
    -- destinations stay those that the settings describe, back-off aside, whatever section, index
    -- and value `sys_config_set` is called with, unless it answers that the write failed.
    pub sys_config_set-IsCoherent :
        (is_osc : Bool) (index value : ℕ) (node : Node Store Queue)
        → IsCoherent node
        → (sys_config_set d q order is_osc index value node).0 ≢ some error_write
        → IsCoherent (sys_config_set d q order is_osc index value node).1
    unfolding sys_config_set
    sys_config_set-IsCoherent true index value node c n =
        checked-IsCoherent index value node (check_setting (to_setting (index % 256)) value) refl c
          n
    sys_config_set-IsCoherent false index value node c n = c

    stored-ack :
        (setting : Setting) (index value : ℕ) (changed : Bool) (node node' : Node Store Queue)
        (o : Bool × Store)
        → update node.store index value ≡ o
        → set_stored d q order setting changed node o ≡ (some ack, node')
        → read node'.store index ≡ value
    unfolding set_stored
    stored-ack setting index value changed node node' (true, store) u e =
        let r = law.read-update node.store store index value index u in
        let same : (index == index) ≡ true = ground arith in
        ap (λ s. read s index)
          (sym (ap (λ p. p.1.store) e)
            ∙ store-apply_setting setting changed (record node { store = store }))
        ∙ r
        ∙ ap (λ b. if b then value else read node.store index) same
    stored-ack setting index value changed node node' (false, store) u e = absurd (ground arith)

    checked-ack :
        (index value : ℕ) (node node' : Node Store Queue) (o : Option Status × Bool)
        → check_setting (to_setting (index % 256)) value ≡ o
        → set_checked d q order index value node o ≡ (some ack, node')
        → InRange (to_setting (index % 256)) value × (read node'.store index ≡ value)
    unfolding set_checked
    checked-ack index value node node' (some status, changed) e f =
        let same : status ≡ ack = ground arith in
        absurd (
          never-ack (to_setting (index % 256)) value changed (e ∙ ap (λ t. (some t, changed)) same))
    checked-ack index value node node' (none, changed) e f = (
      check_setting-InRange (to_setting (index % 256)) value changed e,
      stored-ack (to_setting (index % 256)) index value changed node node'
          (update node.store index value) refl f,
    )

    -- Over such a database, a write that `sys_config_set` acknowledges has a value in the range of
    -- its setting, and is what is read at the index afterwards.
    pub sys_config_set-ack :
        (index value : ℕ) (node node' : Node Store Queue)
        → sys_config_set d q order true index value node ≡ (some ack, node')
        → InRange (to_setting (index % 256)) value × (read node'.store index ≡ value)
    unfolding sys_config_set
    sys_config_set-ack index value node node' e =
        checked-ack index value node node' (check_setting (to_setting (index % 256)) value) refl e
