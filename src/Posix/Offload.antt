-- ===== src/Posix/Offload.antt =====
-- The transmission of queued frames, tx_offload of cy_udp_posix/cy_udp_posix.c.
use cy.Prelude.{ℕ, zero, suc, ◌+◌, ◌%◌, Bool, true, false, ◌||◌, Option, none, some, ltb, ◌==◌}
use cy.Prelude.Int.{ℤ, pos, negsuc}
use cy.Subject.{u64_mod}
use cy.Index.{Cavl}
use cy.Wkv.{Wkv}
use cy.Os.{Os}
use cy.Udpard.{Udpard, TxItem}
use cy.Wrapper.{udp_wrapper_tx_send}
use cy.Posix.{Memory, Posix, to_u64, cy_udp_posix_now, for_each, set_world, set_tx}
use cy.Posix.Layer.{CyUdp, with_posix}

module _ (cavl : Cavl) (os : Os) (udpard : Udpard (Memory os)) (wkv : Wkv (Posix os udpard))
    (topic_size : ℕ)
    -- tx_sock_err_handler, with the interface and the error.
    (on_tx_error : ℕ
      → ℕ
      → CyUdp cavl os udpard wkv topic_size
      → CyUdp cavl os udpard wkv topic_size) where
  abbrev Node : Type 0
  Node = CyUdp cavl os udpard wkv topic_size

  abbrev give : Node → Posix os udpard → Node
  give = with_posix cavl os udpard wkv topic_size

  open udpard use {network_interface_count_max, queue_capacity, tx_peek, tx_pop, tx_free}

  unfoldable pub is_timely : TxItem → ℤ → Bool
  is_timely tqi ts = tqi.deadline_usec == 0 || ltb (to_u64 ts) tqi.deadline_usec

  -- The frame leaves the queue and is freed.
  unfoldable pub drop_frame : ℕ → TxItem → Node → Node
  drop_frame i tqi s =
      let p = s.platform_state in
      let tx = p.tx i in
      give s (
        set_tx os udpard (record p { memory = tx_free tqi p.memory }) i
          (record tx { udpard_tx = tx_pop tqi tx.udpard_tx }))

  unfoldable pub expire_frame : ℕ → Node → Node
  expire_frame i s =
      let tx = s.platform_state.tx i in
      give s (
        set_tx os udpard s.platform_state i
          (record tx { frames_expired = (tx.frames_expired + 1) % u64_mod }))

  unfoldable pub send_frame : ℕ → TxItem → Node → ℤ × Node
  send_frame i tqi s =
      let p = s.platform_state in
      let (send_res, w) =
        udp_wrapper_tx_send os (p.tx i).sock tqi.destination_address tqi.destination_port tqi.dscp
          tqi.payload p.memory.world in
      (send_res, give s (set_world os udpard p w))

  -- What the result of a transmission leads to: none when the socket is no longer writable.
  unfoldable pub after_send : ℕ → ℤ × Node → Option Node × Node
  after_send i (pos zero, s) = (none, s)
  after_send i (pos (suc n), s) = (some s, s)
  after_send i (negsuc n, s) = (some (on_tx_error i (n + 1) s), s)

  -- One round: whether the loop goes on, and the node.
  unfoldable pub offload_frame : ℕ → ℤ → TxItem → Node → Bool × Node
  offload_frame i ts tqi s = elim (is_timely tqi ts) [
    | false ↦ (true, drop_frame i tqi (expire_frame i s))
    | true ↦
        let (sent, blocked) = after_send i (send_frame i tqi s) in
        elim sent [ none ↦ (false, blocked) | some s1 ↦ (true, drop_frame i tqi s1) ]
  ]

  -- The loop over the frames, on fuel, as the handler of errors may add frames.
  unfoldable pub offload_queue : ℕ → ℕ → ℤ → Node → Option Node
  offload_queue zero i ts s = none
  offload_queue (suc rounds) i ts s = elim (tx_peek (s.platform_state.tx i).udpard_tx) [
    | none ↦ some s
    | some tqi ↦
        let (more, s1) = offload_frame i ts tqi s in
        elim more [ true ↦ offload_queue rounds i ts s1 | false ↦ some s1 ]
  ]

  unfoldable pub offload_iface : ℕ → ℕ → Option Node → Option Node
  offload_iface rounds i none = none
  offload_iface rounds i (some s) =
      elim (ltb 0 (queue_capacity (s.platform_state.tx i).udpard_tx)) [
        | false ↦ some s
        | true ↦
            let p = s.platform_state in
            let (ts, m) = cy_udp_posix_now os p.memory in
            offload_queue rounds i ts (give s (record p { memory = m }))
      ]

  unfoldable pub tx_offload : ℕ → Node → Option Node
  tx_offload rounds s = for_each network_interface_count_max 0 (offload_iface rounds) (some s)
