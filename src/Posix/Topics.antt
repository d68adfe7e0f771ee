-- ===== src/Posix/Topics.antt =====
-- Topics on POSIX sockets, of cy_udp_posix/cy_udp_posix.c: platform_p2p and the platform_topic
-- functions.
use cy.Prelude.{ℕ, true, false, Option, none, some, List, ◌&&◌, ltb, leb, ◌==◌, if◌then◌else◌}
use cy.Prelude.Int.{ℤ}
use cy.Transfer.{TransferMetadata}
use cy.Platform.{Outgoing, SubscriptionParams, Err, cy_ok}
use cy.Node.{update}
use cy.Os.{Os}
use cy.Udpard.{Udpard}
use cy.Wrapper.{RxSocket, udp_wrapper_rx_new}
use cy.Wrapper.Receiving.{udp_wrapper_rx_init, udp_wrapper_rx_close}
use cy.Posix.{
  Memory, Posix, is_valid_ip, to_u64, for_each, gather_on_stack, err_from_udp_wrapper,
  err_from_udpard, merge_result, mem_alloc, mem_free, set_world, set_tx, set_posix_topic,
}
use cy.Posix.NodeId.{rpc_listen, rpc_unlisten}

module _ (os : Os) (udpard : Udpard (Memory os)) where
  open udpard use {
    Tx, network_interface_count_max, node_id_max, queue_capacity, tx_publish, tx_request,
    no_subscription, subscription_init, set_transfer_id_timeout, endpoint, subscription_free,
  }

  -- One more interface, if it is used: `call` is the library's call on its queue.
  unfoldable pub send_on :
      (Tx → Memory os → ℤ × Tx × Memory os) → ℕ → Err × Posix os udpard → Err × Posix os udpard
  send_on call i (res, p) = elim (ltb 0 (queue_capacity (p.tx i).udpard_tx)) [
    | false ↦ (res, p)
    | true ↦
        let (e, tx, m) = call (p.tx i).udpard_tx p.memory in
        (
          merge_result os udpard res e,
          set_tx os udpard (record p { memory = m }) i (record (p.tx i) { udpard_tx = tx }),
        )
  ]

  unfoldable pub platform_p2p :
      ℕ → ℕ → TransferMetadata → ℤ → List (List ℕ) → Posix os udpard → Err × Posix os udpard
  platform_p2p node_id service_id metadata tx_deadline payload p =
      for_each network_interface_count_max 0
        (send_on
          (tx_request node_id service_id metadata (to_u64 tx_deadline) (gather_on_stack payload)))
        (cy_ok, p)

  unfoldable pub platform_topic_publish :
      Outgoing → ℤ → List (List ℕ) → Posix os udpard → Err × Posix os udpard
  platform_topic_publish outgoing tx_deadline payload p =
      for_each network_interface_count_max 0
        (send_on (tx_publish outgoing (to_u64 tx_deadline) (gather_on_stack payload))) (cy_ok, p)

  -- The sockets are new, and the rest is zero. `topic_size` is the size of cy_udp_posix_topic_t.
  unfoldable pub platform_topic_new : ℕ → Posix os udpard → Option ℕ × Posix os udpard
  platform_topic_new topic_size p =
      let (topic, m) = mem_alloc os topic_size p.memory in
      let p1 = record p { memory = m } in
      elim topic [
        | none ↦ (none, p1)
        | some t ↦ (
          some t,
          set_posix_topic os udpard p1 t (record {
            sub = no_subscription;
            sock_rx = λ i. udp_wrapper_rx_new;
            rx_oom_count = 0;
          }),
        )
      ]

  -- The i-th socket of the topic is closed.
  unfoldable pub close_topic : ℕ → ℕ → Posix os udpard → Posix os udpard
  close_topic t i p =
      let (sock, w) = udp_wrapper_rx_close os ((p.topics t).sock_rx i) p.memory.world in
      set_posix_topic os udpard (set_world os udpard p w) t
        (record (p.topics t) { sock_rx = update (p.topics t).sock_rx i sock })

  unfoldable pub platform_topic_destroy : ℕ → Posix os udpard → Posix os udpard
  platform_topic_destroy t p =
      let p1 = for_each network_interface_count_max 0 (close_topic t) p in
      record p1 { memory = mem_free os (some t) p1.memory }

  unfoldable pub set_sock_rx : Posix os udpard → ℕ → ℕ → RxSocket → Posix os udpard
  set_sock_rx p t i sock =
      set_posix_topic os udpard p t
        (record (p.topics t) { sock_rx = update (p.topics t).sock_rx i sock })

  -- A new socket for the interface i, opened unless an earlier one failed or it is not used.
  unfoldable pub open_topic : ℕ → ℕ → Err × Posix os udpard → Err × Posix os udpard
  open_topic t i (res, p) =
      let p1 = set_sock_rx p t i udp_wrapper_rx_new in
      elim (res == cy_ok && is_valid_ip (p.local_iface_address i)) [
        | false ↦ (res, p1)
        | true ↦
            let (address, port) = endpoint (p.topics t).sub in
            let (e, sock, w) =
              udp_wrapper_rx_init os udp_wrapper_rx_new (p.local_iface_address i) address port
                (p.tx i).local_port p.memory.world in
            (err_from_udp_wrapper os e, set_sock_rx (set_world os udpard p1 w) t i sock)
      ]

  -- What follows once the subscription of the library is set up.
  unfoldable pub open_sockets : ℕ → Posix os udpard → Err × Posix os udpard
  open_sockets t p =
      let (res, p1) = for_each network_interface_count_max 0 (open_topic t) (cy_ok, p) in
      (res, if res == cy_ok then p1 else for_each network_interface_count_max 0 (close_topic t) p1)

  unfoldable pub platform_topic_subscribe :
      ℕ → ℕ → SubscriptionParams → Posix os udpard → Err × Posix os udpard
  platform_topic_subscribe t subject_id params p =
      let (e, sub) = subscription_init subject_id params.extent in
      let res = err_from_udpard os udpard e in
      elim (res == cy_ok) [
        | false ↦ (res, set_posix_topic os udpard p t (record (p.topics t) { sub = sub }))
        | true ↦ open_sockets t (
            set_posix_topic os udpard p t (record (p.topics t) {
              sub = set_transfer_id_timeout (to_u64 params.transfer_id_timeout) sub;
            }))
      ]

  unfoldable pub platform_topic_unsubscribe : ℕ → Posix os udpard → Posix os udpard
  platform_topic_unsubscribe t p =
      for_each network_interface_count_max 0 (close_topic t)
        (record p { memory = subscription_free (p.topics t).sub p.memory })

  unfoldable pub platform_topic_advertise : ℕ → ℕ → Posix os udpard → Posix os udpard
  platform_topic_advertise node_id response_extent_with_overhead p =
      elim (ltb p.response_extent_with_overhead response_extent_with_overhead) [
        | false ↦ p
        | true ↦
            let p1 = record p { response_extent_with_overhead = response_extent_with_overhead } in
            if leb node_id node_id_max then rpc_listen os udpard (rpc_unlisten os udpard p1) else p1
      ]
