-- ===== src/Posix/Bounds.antt =====
-- The sizes of the arrays of sockets in spin_once_until of cy_udp_posix/cy_udp_posix.c.
use cy.Prelude.{
  ℕ, zero, suc, ◌+◌, ◌*◌, ◌≤◌, Bool, some, List, [], ◌∷◌, arith, length, length-append, length-map,
  ◌&&◌, none, map,
}
use cy.Index.{Cavl}
use cy.Wkv.{Wkv}
use cy.Os.{Os}
use cy.Udpard.{Udpard}
use cy.Wrapper.{udp_wrapper_rx_is_initialized}
use cy.Posix.{Memory, Posix, is_valid_ip}
use cy.Posix.Layer.{CyUdp}
use cy.Posix.Spin.{
  on_iface, ifaces_where, tx_awaited, used_ifaces, topic_awaited, topics_awaited, rpc_awaited,
  rx_awaited,
}

length-ifaces_where : (test : ℕ → Bool) (count i : ℕ) → length (ifaces_where test count i) ≤ count
unfolding ifaces_where
length-ifaces_where test zero i = omega arith
length-ifaces_where test (suc count) i =
    let rest = length-ifaces_where test count (suc i) in ground arith

module _ (cavl : Cavl) (os : Os) (udpard : Udpard (Memory os)) (wkv : Wkv (Posix os udpard))
    (topic_size : ℕ) (rapidhash : List ℕ → ℕ) (s : CyUdp cavl os udpard wkv topic_size) where
  open udpard use {network_interface_count_max}

  length-awaited :
      {B : Type 0} (test : ℕ → Bool) (f : ℕ → B)
      → length (map f (ifaces_where test network_interface_count_max 0))
        ≤ network_interface_count_max
  length-awaited test f =
      rw (length-map (ifaces_where test network_interface_count_max 0) f)
        (length-ifaces_where test network_interface_count_max 0)

  length-tx_awaited :
      length (tx_awaited cavl os udpard wkv topic_size rapidhash s) ≤ network_interface_count_max
  unfolding tx_awaited
  length-tx_awaited = length-awaited _ _

  length-topic_awaited :
      (t : ℕ)
      → length (topic_awaited cavl os udpard wkv topic_size rapidhash s t)
        ≤ network_interface_count_max
  unfolding topic_awaited used_ifaces
  length-topic_awaited t =
      let used =
        length-awaited (λ i. is_valid_ip (s.platform_state.local_iface_address i))
          (on_iface (some t)) in
      ground (arith, used)

  length-topics_awaited :
      (ts : List ℕ)
      → length (topics_awaited cavl os udpard wkv topic_size rapidhash s ts)
        ≤ network_interface_count_max * length ts
  unfolding topics_awaited
  length-topics_awaited [] = omega arith
  length-topics_awaited (t ∷ ts) =
      let here = length-topic_awaited t in
      let rest = length-topics_awaited ts in
      rw
        (length-append (topic_awaited cavl os udpard wkv topic_size rapidhash s t)
          (topics_awaited cavl os udpard wkv topic_size rapidhash s ts))
        (grind arith)

  -- On a node whose index by hash has at most topic_count topics, the sockets that spin_once_until
  -- waits for fit its arrays: at most CY_UDP_POSIX_IFACE_COUNT_MAX * (topic_count + 1) for
  -- receiving and CY_UDP_POSIX_IFACE_COUNT_MAX for sending.
  pub rx_awaited_bound :
      length (cavl.to_list s.topics_by_hash) ≤ s.topic_count
      → (length (rx_awaited cavl os udpard wkv topic_size rapidhash s)
          ≤ network_interface_count_max * (s.topic_count + 1))
        × (length (tx_awaited cavl os udpard wkv topic_size rapidhash s)
            ≤ network_interface_count_max)
  unfolding rx_awaited rpc_awaited
  rx_awaited_bound listed = (
    rw
        (length-append
          (topics_awaited cavl os udpard wkv topic_size rapidhash s (cavl.to_list s.topics_by_hash))
          (rpc_awaited cavl os udpard wkv topic_size rapidhash s))
        (grind (
          arith,
          length-topics_awaited (cavl.to_list s.topics_by_hash),
          length-awaited
              (λ i.
                is_valid_ip (s.platform_state.local_iface_address i)
                && udp_wrapper_rx_is_initialized (s.platform_state.rpc_rx i).sock)
              (on_iface none),
        )),
    length-tx_awaited,
  )
