-- ===== src/Posix/Start.antt =====
-- cy_udp_posix_new of cy_udp_posix/cy_udp_posix.c.
use cy.Prelude.{ℕ, ◌*◌, true, false, Option, none, some, List, ◌==◌, if◌then◌else◌}
use cy.Index.{Cavl}
use cy.Wkv.{Wkv}
use cy.Platform.{Err, cy_ok}
use cy.Setup.{cy_new}
use cy.Os.{Os}
use cy.Udpard.{Udpard}
use cy.Wrapper.{udp_wrapper_tx_new, udp_wrapper_rx_new, udp_wrapper_tx_init, udp_wrapper_tx_close}
use cy.Posix.{
  Memory, Posix, is_valid_ip, for_each, err_from_udp_wrapper, err_from_udpard, set_world, set_tx,
  set_rpc_rx,
}
use cy.Node.{update}
use cy.Posix.NodeId.{purge_tx}
use cy.Posix.Layer.{g_platform, CyUdp, with_posix}

-- CY_UDP_POSIX_NODE_ID_BLOOM_64BIT_WORDS
abbrev pub node_id_bloom_words : ℕ
node_id_bloom_words = 128

module _ (os : Os) (udpard : Udpard (Memory os)) where
  open udpard use {
    network_interface_count_max, node_id_unset, tx_init, set_queue_capacity, no_dispatcher,
  }

  -- The pipeline of the interface i, unless an earlier one failed.
  unfoldable pub init_pipeline : ℕ → ℕ → Err × Posix os udpard → Err × Posix os udpard
  init_pipeline tx_queue_capacity i (res, p) = elim (res == cy_ok) [
    | false ↦ (res, p)
    | true ↦
        let (e, tx) = tx_init tx_queue_capacity in
        let p1 = record p { local_iface_address = update p.local_iface_address i 0 } in
        let p2 =
          set_tx os udpard p1 i (record (p.tx i) { udpard_tx = tx; sock = udp_wrapper_tx_new }) in
        (
          err_from_udpard os udpard e,
          set_rpc_rx os udpard p2 i (record (p.rpc_rx i) { sock = udp_wrapper_rx_new }),
        )
  ]

  -- The TX socket of the interface i, or no queue where the interface is not used.
  unfoldable pub init_iface : (ℕ → ℕ) → ℕ → Err × Posix os udpard → Err × Posix os udpard
  init_iface local_iface_address i (res, p) = elim (res == cy_ok) [
    | false ↦ (res, p)
    | true ↦ elim (is_valid_ip (local_iface_address i)) [
      | false ↦ (
        res,
        set_tx os udpard p i
            (record (p.tx i) { udpard_tx = set_queue_capacity 0 (p.tx i).udpard_tx }),
      )
      | true ↦
          let (e, sock, port, w) =
            udp_wrapper_tx_init os (p.tx i).sock (local_iface_address i) (p.tx i).local_port
              p.memory.world in
          let p1 = record p {
            local_iface_address = update p.local_iface_address i (local_iface_address i);
          } in
          (
            err_from_udp_wrapper os e,
            set_tx os udpard (set_world os udpard p1 w) i
                (record (p.tx i) { sock = sock; local_port = port }),
          )
    ]
  ]

  unfoldable pub close_tx : ℕ → Posix os udpard → Posix os udpard
  close_tx i p =
      let p1 = purge_tx os udpard i p in
      let (sock, w) = udp_wrapper_tx_close os (p1.tx i).sock p1.memory.world in
      set_tx os udpard (set_world os udpard p1 w) i (record (p1.tx i) { sock = sock })

  -- The object after memset, with the fields that do not depend on the interfaces. The queues that
  -- are not set up yet stand for zeros.
  unfoldable pub blank_posix : udpard.Tx → udpard.Subscription → os.World → Posix os udpard
  blank_posix no_queue no_sub w = record {
    memory = record { world = w; allocated_fragments = 0; oom_count = 0 };
    response_extent_with_overhead = 64;
    rpc_rx_dispatcher = no_dispatcher;
    local_iface_address = λ i. 0;
    tx = λ i. record {
      udpard_tx = no_queue;
      sock = record { fd = some 0 };
      local_port = 0;
      frames_expired = 0;
    };
    rpc_rx = λ i. record { sock = record udp_wrapper_rx_new { fd = some 0 }; oom_count = 0 };
    topics = λ t. record { sub = no_sub; sock_rx = λ i. udp_wrapper_rx_new; rx_oom_count = 0 };
  }

module _ (cavl : Cavl) (os : Os) (udpard : Udpard (Memory os)) (wkv : Wkv (Posix os udpard))
    (topic_size : ℕ) (rapidhash : List ℕ → ℕ) where
  open udpard use {network_interface_count_max, node_id_unset}

  abbrev Node : Type 0
  Node = CyUdp cavl os udpard wkv topic_size

  -- The fields that cy_udp_posix_new sets before the interfaces: no bit of the Bloom filter is set.
  unfoldable pub blank_node : Node → Posix os udpard → Node
  blank_node s p = record (with_posix cavl os udpard wkv topic_size s p) {
    node_id_bloom = record { n_bits = 64 * node_id_bloom_words; popcount = 0; storage = λ i. 0 };
  }

  unfoldable pub clean_up : Option (Err × Node) → Option (Err × Node)
  clean_up none = none
  clean_up (some (res, s)) = some (
    res,
    if res == cy_ok
        then s
        else with_posix cavl os udpard wkv topic_size s
            (for_each network_interface_count_max 0 (close_tx os udpard) s.platform_state),
  )

  -- The interfaces were set up, or one of them failed.
  unfoldable pub start_node :
      (depth steps : ℕ) → ℕ → Node → ℕ → List ℕ → Err × Posix os udpard → Option (Err × Node)
  start_node depth steps on_heartbeat s uid namespace (res, p) = clean_up (
      if res == cy_ok
      then cy_new cavl (g_platform os udpard wkv topic_size) rapidhash depth steps (blank_node s p)
          on_heartbeat uid node_id_unset namespace
      else some (res, blank_node s p))

  -- `on_heartbeat` is the address of that callback; `no_queue` is a queue of zeros. The object is s, whose base cy_new sets.
  unfoldable pub cy_udp_posix_new :
      (depth steps : ℕ)
      → ℕ
      → Node
      → ℕ
      → List ℕ
      → (ℕ → ℕ)
      → ℕ
      → udpard.Tx
      → os.World
      → Option (Err × Node)
  cy_udp_posix_new depth steps on_heartbeat s uid namespace local_iface_address tx_queue_capacity
        no_queue w =
      let blank = blank_posix os udpard no_queue udpard.no_subscription w in
      let (res, p) =
        for_each network_interface_count_max 0 (init_pipeline os udpard tx_queue_capacity)
          (cy_ok, blank) in
      elim (res == cy_ok) [
        | false ↦ some (res, blank_node s p)
        | true ↦ start_node depth steps on_heartbeat s uid namespace (
            for_each network_interface_count_max 0 (init_iface os udpard local_iface_address)
              (res, p))
      ]
