-- ===== src/Posix/Spin.antt =====
-- The event loop of cy_udp_posix/cy_udp_posix.c: spin_once_until, cy_udp_posix_spin_until,
-- cy_udp_posix_spin_once.
use cy.Prelude.{
  ℕ, zero, suc, Bool, true, false, not, ◌&&◌, ◌||◌, Option, none, some, List, [], ◌∷◌, ◌++◌, map,
  ltb, ◌==◌, if◌then◌else◌,
}
use cy.Prelude.Int.{ℤ, pos, ◌+ℤ◌, ◌-ℤ◌, ltb_ℤ}
use cy.Index.{Cavl}
use cy.Wkv.{Wkv}
use cy.Transfer.{TransferOwned}
use cy.Platform.{Err, cy_ok}
use cy.Allocation.{is_empty}
use cy.Ingest.{Arrival}
use cy.Update.{cy_update}
use cy.Os.{Os}
use cy.Udpard.{Udpard}
use cy.Wrapper.{TxSocket, udp_wrapper_rx_is_initialized, udp_wrapper_wait}
use cy.Posix.{
  Memory, Posix, min_i64, is_valid_ip, err_from_udp_wrapper, set_world, cy_udp_posix_now,
}
use cy.Posix.Layer.{g_platform, CyUdp, with_posix}
use cy.Posix.Offload.{tx_offload}
use cy.Posix.Reading.{socket_of, read_socket}

-- An entry of the arrays of RX sockets: its topic, none for an RPC socket, and its interface.
pub record Awaited : Type 0 where
  pub topic : Option ℕ
  pub iface_index : ℕ

abbrev pub on_iface : Option ℕ → ℕ → Awaited
on_iface topic i = record { topic = topic; iface_index = i }

-- The interfaces from i on, `count` of them, for which the test holds.
unfoldable pub ifaces_where : (ℕ → Bool) → ℕ → ℕ → List ℕ
ifaces_where test zero i = []
ifaces_where test (suc count) i =
    let rest = ifaces_where test count (suc i) in if test i then i ∷ rest else rest

module _ (cavl : Cavl) (os : Os) (udpard : Udpard (Memory os)) (wkv : Wkv (Posix os udpard))
    (topic_size : ℕ) (rapidhash : List ℕ → ℕ) where
  open udpard use {network_interface_count_max, queue_size}

  abbrev Node : Type 0
  Node = CyUdp cavl os udpard wkv topic_size

  -- The interfaces with something to transmit.
  unfoldable pub tx_awaited : Node → List TxSocket
  tx_awaited s =
      map (λ (i : ℕ). (s.platform_state.tx i).sock)
        (ifaces_where (λ i. ltb 0 (queue_size (s.platform_state.tx i).udpard_tx))
          network_interface_count_max 0)

  unfoldable pub used_ifaces : Node → List ℕ
  used_ifaces s =
      ifaces_where (λ i. is_valid_ip (s.platform_state.local_iface_address i))
        network_interface_count_max 0

  unfoldable pub topic_awaited : Node → ℕ → List Awaited
  topic_awaited s t =
      if not (is_empty (s.topics t).couplings) then map (on_iface (some t)) (used_ifaces s) else []

  -- The loop over the topics in the order of their hashes.
  unfoldable pub topics_awaited : Node → List ℕ → List Awaited
  topics_awaited s [] = []
  topics_awaited s (t ∷ ts) = topic_awaited s t ++ topics_awaited s ts

  unfoldable pub rpc_awaited : Node → List Awaited
  rpc_awaited s = map (on_iface none) (
      ifaces_where
        (λ i.
          is_valid_ip (s.platform_state.local_iface_address i)
          && udp_wrapper_rx_is_initialized (s.platform_state.rpc_rx i).sock)
        network_interface_count_max 0)

  unfoldable pub rx_awaited : Node → List Awaited
  rx_awaited s = topics_awaited s (cavl.to_list s.topics_by_hash) ++ rpc_awaited s

  unfoldable pub now : Node → ℤ × Node
  now s =
      let p = s.platform_state in
      let (t, m) = cy_udp_posix_now os p.memory in
      (t, with_posix cavl os udpard wkv topic_size s (record p { memory = m }))

  module _ (on_future : ℕ → ℕ → Node → Node)
      (on_arrival : ℕ → Arrival → Node → TransferOwned → Node × TransferOwned)
      (on_tx_error : ℕ → ℕ → Node → Node) (on_rx_error : ℕ → ℕ → ℕ → Node → Node)
      (on_rpc_error : ℕ → ℕ → Node → Node) (stale : ℕ → ℕ) (rounds : ℕ) where
    -- The sockets that are ready are read one after the other.
    unfoldable pub read_ready : ℤ → List Awaited → List Bool → Option Node → Option Node
    read_ready ts awaited ready none = none
    read_ready ts [] ready (some s) = some s
    read_ready ts (a ∷ rest) [] (some s) = some s
    read_ready ts (a ∷ rest) (false ∷ ready) (some s) = read_ready ts rest ready (some s)
    read_ready ts (a ∷ rest) (true ∷ ready) (some s) = read_ready ts rest ready (
        read_socket cavl os udpard wkv topic_size rapidhash on_future on_arrival on_rx_error
          on_rpc_error rounds stale s ts a.topic a.iface_index)

    -- The last step: what is queued is transmitted also when the update failed.
    unfoldable pub offload_after : Option (Err × Node) → Option (Err × Node)
    offload_after none = none
    offload_after (some (res, s)) =
        elim (tx_offload cavl os udpard wkv topic_size on_tx_error rounds s) [
          | none ↦ none
          | some s1 ↦ some (res, s1)
        ]

    unfoldable pub update_after : Option Node → Option (Err × Node)
    update_after none = none
    update_after (some s) =
        offload_after
          (cy_update cavl (g_platform os udpard wkv topic_size) rapidhash on_future rounds s)

    -- What follows the wait.
    unfoldable pub handle_events : Node → List Awaited → Err → List Bool → Option (Err × Node)
    handle_events s awaited res ready = elim (res == cy_ok) [
      | false ↦ some (res, s)
      | true ↦ let (ts, s1) = now s in update_after (read_ready ts awaited ready (some s1))
    ]

    unfoldable pub wait_and_handle : Node → ℤ → Option (Err × Node)
    wait_and_handle s deadline =
        let awaited = rx_awaited s in
        let sockets =
          map
            (λ (a : Awaited).
              socket_of cavl os udpard wkv topic_size rapidhash s a.topic a.iface_index)
            awaited in
        let (t, s1) = now s in
        let ((e, kept_tx, kept_rx), w) =
          udp_wrapper_wait os (deadline -ℤ min_i64 t deadline) (tx_awaited s) sockets
            s1.platform_state.memory.world in
        handle_events
          (with_posix cavl os udpard wkv topic_size s1 (set_world os udpard s1.platform_state w))
          awaited (err_from_udp_wrapper os e) kept_rx

    unfoldable pub spin_once_until : Node → ℤ → Option (Err × Node)
    spin_once_until s deadline =
        elim (tx_offload cavl os udpard wkv topic_size on_tx_error rounds s) [
          | none ↦ none
          | some s1 ↦ wait_and_handle s1 deadline
        ]

    -- The loop, on fuel: it ends with an error, or when the time has come.
    unfoldable pub cy_udp_posix_spin_until : ℕ → Node → ℤ → Option (Err × Node)
    cy_udp_posix_spin_until zero s deadline = none
    cy_udp_posix_spin_until (suc spins) s deadline =
        elim (spin_once_until s (min_i64 deadline s.heartbeat_next)) [
          | none ↦ none
          | some (res, s1) ↦
              let (t, s2) = now s1 in
              elim (not (ltb_ℤ t deadline) || not (res == cy_ok)) [
                | true ↦ some (res, s2)
                | false ↦ cy_udp_posix_spin_until spins s2 deadline
              ]
        ]

    unfoldable pub cy_udp_posix_spin_once : Node → Option (Err × Node)
    cy_udp_posix_spin_once s =
        let (t, s1) = now s in spin_once_until s1 (min_i64 (t +ℤ pos 1000) s1.heartbeat_next)
