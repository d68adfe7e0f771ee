-- ===== src/Posix/NodeId.antt =====
-- The node-ID on POSIX sockets, of cy_udp_posix/cy_udp_posix.c: purge_tx, rpc_listen, rpc_unlisten,
-- platform_node_id_set, platform_node_id_clear.
use cy.Prelude.{ℕ, zero, suc, true, false, none, some, ◌==◌, if◌then◌else◌, length}
use cy.Platform.{Err, cy_ok}
use cy.Os.{Os}
use cy.Udpard.{Udpard}
use cy.Wrapper.{udp_wrapper_rx_new}
use cy.Wrapper.Receiving.{udp_wrapper_rx_init, udp_wrapper_rx_close}
use cy.Futures.{response_service_id}
use cy.Posix.{
  Memory, Posix, is_valid_ip, for_each, err_from_udp_wrapper, set_world, set_tx, set_rpc_rx,
}

module _ (os : Os) (udpard : Udpard (Memory os)) where
  open udpard use {
    Tx, Dispatcher, network_interface_count_max, tx_peek, tx_pop, tx_free, dispatcher_init,
    dispatcher_start, dispatcher_listen, dispatcher_cancel, set_port_timeout, items,
  }

  -- The loop over the frames of one queue: the rounds are as many as it has frames.
  unfoldable pub purge_queue : ℕ → Tx → Memory os → Tx × Memory os
  purge_queue zero tx m = (tx, m)
  purge_queue (suc rounds) tx m = elim (tx_peek tx) [
    | none ↦ (tx, m)
    | some it ↦ purge_queue rounds (tx_pop it tx) (tx_free it m)
  ]

  unfoldable pub purge_tx : ℕ → Posix os udpard → Posix os udpard
  purge_tx i p =
      let queue = (p.tx i).udpard_tx in
      let (tx, m) = purge_queue (length (items queue)) queue p.memory in
      set_tx os udpard (record p { memory = m }) i (record (p.tx i) { udpard_tx = tx })

  unfoldable pub rpc_listen : Posix os udpard → Posix os udpard
  rpc_listen p = record p {
    rpc_rx_dispatcher =
        set_port_timeout
          (dispatcher_listen p.rpc_rx_dispatcher response_service_id
            p.response_extent_with_overhead)
          response_service_id 0;
  }

  unfoldable pub rpc_unlisten : Posix os udpard → Posix os udpard
  rpc_unlisten p = record p {
    rpc_rx_dispatcher = dispatcher_cancel p.rpc_rx_dispatcher response_service_id;
  }

  unfoldable pub start_dispatcher : ℕ → Posix os udpard → (ℕ × ℕ) × Posix os udpard
  start_dispatcher node_id p =
      let (ep, dispatcher) = dispatcher_start dispatcher_init node_id in
      (ep, rpc_listen (record p { rpc_rx_dispatcher = dispatcher }))

  unfoldable pub renew_rpc : ℕ → Posix os udpard → Posix os udpard
  renew_rpc i p = set_rpc_rx os udpard p i (record { sock = udp_wrapper_rx_new; oom_count = 0 })

  -- The socket of the interface i, unless an earlier one failed or the interface is not used.
  unfoldable pub open_rpc : ℕ × ℕ → ℕ → Err × Posix os udpard → Err × Posix os udpard
  open_rpc (address, port) i (res, p) = elim (res == cy_ok) [
    | false ↦ (res, p)
    | true ↦ elim (is_valid_ip (p.local_iface_address i)) [
      | false ↦ (res, p)
      | true ↦
          let (e, sock, w) =
            udp_wrapper_rx_init os (p.rpc_rx i).sock (p.local_iface_address i) address port
              (p.tx i).local_port p.memory.world in
          (
            err_from_udp_wrapper os e,
            set_rpc_rx os udpard (set_world os udpard p w) i (record (p.rpc_rx i) { sock = sock }),
          )
    ]
  ]

  unfoldable pub close_rpc : ℕ → Posix os udpard → Posix os udpard
  close_rpc i p =
      let (sock, w) = udp_wrapper_rx_close os (p.rpc_rx i).sock p.memory.world in
      set_rpc_rx os udpard (set_world os udpard p w) i (record (p.rpc_rx i) { sock = sock })

  unfoldable pub platform_node_id_set : ℕ → Posix os udpard → Err × Posix os udpard
  platform_node_id_set node_id p =
      let (ep, p1) = start_dispatcher node_id p in
      let p2 = for_each network_interface_count_max 0 renew_rpc p1 in
      let (res, p3) = for_each network_interface_count_max 0 (open_rpc ep) (cy_ok, p2) in
      (res, if res == cy_ok then p3 else for_each network_interface_count_max 0 close_rpc p3)

  unfoldable pub platform_node_id_clear : Posix os udpard → Posix os udpard
  platform_node_id_clear p =
      for_each network_interface_count_max 0 purge_tx
        (rpc_unlisten (for_each network_interface_count_max 0 close_rpc p))
