-- ===== src/Posix/Closing.antt =====
-- What platform_node_id_set and platform_node_id_clear of cy_udp_posix/cy_udp_posix.c leave of the
-- sockets and the queues.
use cy.Prelude.{
  ℕ, suc, ◌<◌, ◌≡◌, ◌≢◌, refl, ap, ◌∙◌, false, none, List, [], ◌∷◌, arith, ◌==◌, if◌then◌else◌,
  length, Bool-cases, inl, inr,
}
use cy.Platform.{cy_ok}
use cy.Node.{update}
use cy.Os.{Os}
use cy.Udpard.{Udpard, TxItem}
use cy.Wrapper.{RxSocket}
use cy.Wrapper.Receiving.{udp_wrapper_rx_close}
use cy.Posix.{Memory, Posix, for_each, set_world, set_tx, set_rpc_rx}
use cy.Posix.NodeId.{
  purge_queue, purge_tx, rpc_unlisten, close_rpc, platform_node_id_set, platform_node_id_clear,
}
use cy.Posix.Loops.{for_each_invariant}

-- A closed handle is not open.
pub rx_closed :
    (os : Os) (self : RxSocket) (w : os.World) → (udp_wrapper_rx_close os self w).0.fd ≡ none
unfolding udp_wrapper_rx_close
rx_closed os self w = ground arith

module _ (os : Os) (udpard : Udpard (Memory os)) where
  open udpard use {network_interface_count_max, items, peek_lem, pop_lem, tx_pop}

  -- The queue is empty when the loop ends.
  purge_queue_items :
      (tx : udpard.Tx) (m : Memory os) (its : List TxItem)
      → items tx ≡ its
      → items (purge_queue os udpard (length its) tx m).0 ≡ []
  unfolding purge_queue
  purge_queue_items tx m [] h = h
  purge_queue_items tx m (it ∷ rest) h =
      rw (purge_queue, peek_lem tx, h)
        (purge_queue_items (tx_pop it tx) (udpard.tx_free it m) rest (pop_lem tx it rest h))

  -- The RPC sockets below j are closed.
  abbrev Closed : ℕ → Posix os udpard → Type 0
  Closed j p = (x : ℕ) → x < j → (p.rpc_rx x).sock.fd ≡ none

  close_rpc_step :
      (j : ℕ) (p : Posix os udpard) → Closed j p → Closed (suc j) (close_rpc os udpard j p)
  unfolding close_rpc set_rpc_rx set_world update
  close_rpc_step j p h x lt = elim (Bool-cases (x == j)) [
    | inl e ↦ rw e (rx_closed os (p.rpc_rx j).sock p.memory.world)
    | inr e ↦ rw e (h x (ground arith))
  ]

  pub close_rpc_all :
      (p : Posix os udpard) (x : ℕ)
      → x < network_interface_count_max
      → ((for_each network_interface_count_max 0 (close_rpc os udpard) p).rpc_rx x).sock.fd ≡ none
  close_rpc_all p x lt =
      for_each_invariant Closed (close_rpc os udpard) network_interface_count_max 0 p
        (λ j s1 above below. close_rpc_step j s1) (λ y none_below. absurd (omega arith)) x
        (omega arith)

  -- The queues below j are empty, and the RPC sockets are those of p0.
  abbrev Purged : Posix os udpard → ℕ → Posix os udpard → Type 0
  Purged p0 j p = ((x : ℕ) → x < j → items (p.tx x).udpard_tx ≡ []) × (p.rpc_rx ≡ p0.rpc_rx)

  purge_tx_queue :
      (j x : ℕ) (p : Posix os udpard)
      → items ((purge_tx os udpard j p).tx x).udpard_tx
        ≡ (if x == j then [] else items (p.tx x).udpard_tx)
  unfolding purge_tx set_tx update
  purge_tx_queue j x p = elim (Bool-cases (x == j)) [
    | inl e ↦ rw e (purge_queue_items (p.tx j).udpard_tx p.memory (items (p.tx j).udpard_tx) refl)
    | inr e ↦ rw e refl
  ]

  purge_tx_rpc : (j : ℕ) (p : Posix os udpard) → (purge_tx os udpard j p).rpc_rx ≡ p.rpc_rx
  unfolding purge_tx set_tx
  purge_tx_rpc j p = refl

  purge_tx_step :
      (p0 : Posix os udpard) (j : ℕ) (p : Posix os udpard)
      → Purged p0 j p
      → Purged p0 (suc j) (purge_tx os udpard j p)
  purge_tx_step p0 j p h = (
    λ x lt. elim (Bool-cases (x == j)) [
      | inl e ↦ purge_tx_queue j x p ∙ rw e refl
      | inr e ↦ purge_tx_queue j x p ∙ rw e (h.0 x (ground arith))
    ],
    purge_tx_rpc j p ∙ h.1,
  )

  -- After platform_node_id_clear no RPC socket is open and no frame waits in a queue.
  pub platform_node_id_clear_lem :
      (p : Posix os udpard) (x : ℕ)
      → x < network_interface_count_max
      → (((platform_node_id_clear os udpard p).rpc_rx x).sock.fd ≡ none)
        × (items ((platform_node_id_clear os udpard p).tx x).udpard_tx ≡ [])
  unfolding platform_node_id_clear rpc_unlisten
  platform_node_id_clear_lem p x lt =
      let p1 =
        rpc_unlisten os udpard (for_each network_interface_count_max 0 (close_rpc os udpard) p) in
      let purged =
        for_each_invariant (Purged p1) (purge_tx os udpard) network_interface_count_max 0 p1
          (λ j s1 above below. purge_tx_step p1 j s1)
          (λ y none_below. absurd (omega arith), refl) in
      (
        ap (λ (rpc : ℕ → _). (rpc x).sock.fd) purged.1 ∙ close_rpc_all p x lt,
        purged.0 x (omega arith),
      )

  -- When platform_node_id_set fails, no RPC socket is left open.
  pub platform_node_id_set_failed :
      (node_id : ℕ) (p : Posix os udpard) (x : ℕ)
      → x < network_interface_count_max
      → (platform_node_id_set os udpard node_id p).0 ≢ cy_ok
      → ((platform_node_id_set os udpard node_id p).1.rpc_rx x).sock.fd ≡ none
  unfolding platform_node_id_set
  platform_node_id_set_failed node_id p x lt failed = rw (not_equal failed) (close_rpc_all _ x lt)
    where
      not_equal : {n : ℕ} → n ≢ cy_ok → (n == cy_ok) ≡ false
      not_equal ne = ground arith
