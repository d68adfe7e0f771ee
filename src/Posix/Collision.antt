-- ===== src/Posix/Collision.antt =====
-- A node-ID collision on the POSIX platform: read_socket of cy_udp_posix/cy_udp_posix.c notices it, and
-- cy_update of cy/cy.c leaves the node-ID.
use cy.Prelude.{ℕ, ◌≤◌, ◌<◌, ◌≡◌, ◌≢◌, ◌⊎◌, inl, inr, refl, true, false, none, List, [], arith}
use cy.Prelude.Int.{ℤ}
use cy.Index.{Cavl}
use cy.Wkv.{Wkv}
use cy.Transfer.{TransferOwned}
use cy.Joining.{cy_notify_node_id_collision}
use cy.Ingest.{Arrival}
use cy.Update.{node_id_invalid, leave_node_id}
use cy.Os.{Os}
use cy.Udpard.{Udpard}
use cy.Posix.{Memory, Posix}
use cy.Posix.Layer.{g_platform, CyUdp}
use cy.Posix.Reading.{check_collision}
use cy.Posix.Closing.{platform_node_id_clear_lem}

same_or_not : (a b : ℕ) → (a ≡ b) ⊎ (a ≢ b)
same_or_not a b = ground arith

module _ (cavl : Cavl) (os : Os) (udpard : Udpard (Memory os)) (wkv : Wkv (Posix os udpard))
    (topic_size : ℕ) (rapidhash : List ℕ → ℕ)
    (on_future : ℕ → ℕ → CyUdp cavl os udpard wkv topic_size → CyUdp cavl os udpard wkv topic_size)
    (on_arrival : ℕ
      → Arrival
      → CyUdp cavl os udpard wkv topic_size
      → TransferOwned
      → CyUdp cavl os udpard wkv topic_size × TransferOwned)
    (on_rx_error : ℕ
      → ℕ
      → ℕ
      → CyUdp cavl os udpard wkv topic_size
      → CyUdp cavl os udpard wkv topic_size)
    (on_rpc_error : ℕ
      → ℕ
      → CyUdp cavl os udpard wkv topic_size
      → CyUdp cavl os udpard wkv topic_size) where
  open udpard use {network_interface_count_max, node_id_max, items}

  abbrev Node : Type 0
  Node = CyUdp cavl os udpard wkv topic_size

  abbrev pub datagram_checked : Node → ℕ → Node
  datagram_checked s src_nid =
      check_collision cavl os udpard wkv topic_size rapidhash on_future on_arrival on_rx_error
        on_rpc_error s src_nid

  -- The node off the network.
  pub record Left (s : Node) (now : ℤ) : Type 0 where
    pub unset : s.node_id ≡ node_id_invalid
    pub settled : s.node_id_collision ≡ false
    pub due : s.heartbeat_next ≡ now
    pub closed :
        (x : ℕ) → x < network_interface_count_max → (s.platform_state.rpc_rx x).sock.fd ≡ none
    pub empty :
        (x : ℕ) → x < network_interface_count_max → items (s.platform_state.tx x).udpard_tx ≡ []

  abbrev pub left : Node → ℤ → Node
  left s now = leave_node_id cavl (g_platform os udpard wkv topic_size) rapidhash on_future s now

  leave_node_id-Left : (s : Node) (now : ℤ) → s.node_id_collision ≡ true → Left (left s now) now
  unfolding leave_node_id
  leave_node_id-Left s now e = rw e record {
    unset = refl;
    settled = refl;
    due = refl;
    closed = λ x lt. (platform_node_id_clear_lem os udpard s.platform_state x lt).0;
    empty = λ x lt. (platform_node_id_clear_lem os udpard s.platform_state x lt).1;
  }

  stays : (s : Node) (now : ℤ) → s.node_id_collision ≡ false → left s now ≡ s
  unfolding leave_node_id
  stays s now e = ground arith

  noticed :
      (s : Node) → s.node_id ≤ node_id_max → (datagram_checked s s.node_id).node_id_collision ≡ true
  unfolding check_collision cy_notify_node_id_collision
  noticed s valid = ground arith

  unnoticed :
      (s : Node) (src_nid : ℕ)
      → (src_nid ≡ s.node_id → node_id_max < s.node_id)
      → datagram_checked s src_nid ≡ s
  unfolding check_collision
  unnoticed s src_nid foreign = ground arith

  -- For a node with a valid node-ID and no collision noted: a datagram whose source node-ID is the
  -- own one makes the node leave the network at the handling of the collision. Its node-ID is
  -- unset, the collision is settled, the next heartbeat is due at once, no RPC socket is open and
  -- every transmission queue is empty. A datagram with another source leaves the node as it is.
  pub check_collision-Left :
      (s : Node) (src_nid : ℕ) (now : ℤ)
      → s.node_id ≤ node_id_max
      → s.node_id_collision ≡ false
      → ((src_nid ≡ s.node_id) × Left (left (datagram_checked s src_nid) now) now)
        ⊎ ((src_nid ≢ s.node_id) × (left (datagram_checked s src_nid) now ≡ s))
  check_collision-Left s src_nid now valid fresh = elim (same_or_not src_nid s.node_id) [
    | inl same ↦
        inl
          (same, rw same (leave_node_id-Left (datagram_checked s s.node_id) now (noticed s valid)))
    | inr foreign ↦
        inr (foreign, rw (unnoticed s src_nid (λ same. absurd (foreign same))) (stays s now fresh))
  ]
