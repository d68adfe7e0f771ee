-- ===== src/Posix/Draining.antt =====
-- The queue of an interface after the loop of tx_offload in cy_udp_posix/cy_udp_posix.c.
use cy.Prelude.{
  ℕ, zero, suc, ◌+◌, ◌<◌, ◌≡◌, refl, ap, ◌∙◌, Bool, true, false, Bool-cases, Option, none, some,
  List, [], ◌∷◌, inl, inr, arith, length, drop,
}
use cy.Prelude.Int.{ℤ, pos, negsuc}
use cy.Index.{Cavl}
use cy.Wkv.{Wkv}
use cy.Node.{update_at}
use cy.Os.{Os}
use cy.Udpard.{Udpard, TxItem}
use cy.Posix.{Memory, Posix, TxIface, set_world, set_tx}
use cy.Posix.Layer.{CyUdp, with_posix}
use cy.Posix.Offload.{
  is_timely, drop_frame, expire_frame, send_frame, after_send, offload_frame, offload_queue,
}

module _ (cavl : Cavl) (os : Os) (udpard : Udpard (Memory os)) (wkv : Wkv (Posix os udpard))
    (topic_size : ℕ)
    (on_tx_error : ℕ
      → ℕ
      → CyUdp cavl os udpard wkv topic_size
      → CyUdp cavl os udpard wkv topic_size)
    (i : ℕ) (ts : ℤ) where
  open udpard use {items, peek_lem, pop_lem}

  abbrev Node : Type 0
  Node = CyUdp cavl os udpard wkv topic_size

  -- The frames that wait on the interface.
  abbrev pub queued : Node → List TxItem
  queued s = items (s.platform_state.tx i).udpard_tx

  abbrev pub timely : TxItem → Bool
  timely it = is_timely cavl os udpard wkv topic_size on_tx_error it ts

  -- No frame, or a first frame that is timely.
  unfoldable pub waits : List TxItem → Bool
  waits [] = true
  waits (it ∷ rest) = timely it

  drop_frame_queued :
      (s : Node) (it : TxItem) (rest : List TxItem)
      → queued s ≡ it ∷ rest
      → queued (drop_frame cavl os udpard wkv topic_size on_tx_error i it s) ≡ rest
  unfolding drop_frame with_posix set_tx
  drop_frame_queued s it rest h =
      ap (λ (tx : TxIface os udpard). items tx.udpard_tx) (update_at s.platform_state.tx i _)
      ∙ pop_lem (s.platform_state.tx i).udpard_tx it rest h

  expire_frame_queued :
      (s : Node) → queued (expire_frame cavl os udpard wkv topic_size on_tx_error i s) ≡ queued s
  unfolding expire_frame with_posix set_tx
  expire_frame_queued s =
      ap (λ (tx : TxIface os udpard). items tx.udpard_tx) (update_at s.platform_state.tx i _)

  send_frame_queued :
      (s : Node) (it : TxItem)
      → queued (send_frame cavl os udpard wkv topic_size on_tx_error i it s).1 ≡ queued s
  unfolding send_frame with_posix set_world
  send_frame_queued s it = refl

  -- What a transmission leaves: nothing has been taken from the frames `its`.
  Unmoved : List TxItem → Option Node × Node → Type 0
  Unmoved its (none, s1) = queued s1 ≡ its
  Unmoved its (some s1, s2) = queued s1 ≡ its

  -- What a round leaves of the frames: the first one is gone, or it is timely and stays.
  Advanced : TxItem → List TxItem → Bool × Node → Type 0
  Advanced it rest (true, s1) = queued s1 ≡ rest
  Advanced it rest (false, s1) = (queued s1 ≡ it ∷ rest) × (timely it ≡ true)

  -- What the loop leaves: frames from the end of `its`, and the first of them is timely.
  pub Drained : List TxItem → Option Node → Type 0
  Drained its none = ⊥
  Drained its (some s1) = (k : ℕ) × (queued s1 ≡ drop k its) × (waits (queued s1) ≡ true)

  module _ (keeps : (e : ℕ) (s : Node) → queued (on_tx_error i e s) ≡ queued s) where
    after_send_queued :
        (its : List TxItem) (sent : ℤ × Node)
        → queued sent.1 ≡ its
        → Unmoved its (after_send cavl os udpard wkv topic_size on_tx_error i sent)
    unfolding after_send Unmoved
    after_send_queued its (pos zero, s) h = h
    after_send_queued its (pos (suc n), s) h = h
    after_send_queued its (negsuc n, s) h = keeps (n + 1) s ∙ h

    sent_or_blocked :
        (it : TxItem) (rest : List TxItem) (r : Option Node × Node)
        → timely it ≡ true
        → Unmoved (it ∷ rest) r
        → Advanced it rest (elim r.0 [
          | none ↦ (false, r.1)
          | some s1 ↦ (true, drop_frame cavl os udpard wkv topic_size on_tx_error i it s1)
        ])
    unfolding Unmoved Advanced
    sent_or_blocked it rest (none, s1) in_time h = (h, in_time)
    sent_or_blocked it rest (some s1, s2) in_time h = drop_frame_queued s1 it rest h

    offload_frame-Advanced :
        (s : Node) (it : TxItem) (rest : List TxItem)
        → queued s ≡ it ∷ rest
        → Advanced it rest (offload_frame cavl os udpard wkv topic_size on_tx_error i ts it s)
    unfolding Advanced offload_frame
    offload_frame-Advanced s it rest h = elim (Bool-cases (timely it)) [
      | inl e ↦
          rw (offload_frame, e)
            (sent_or_blocked it rest
              (after_send cavl os udpard wkv topic_size on_tx_error i
                (send_frame cavl os udpard wkv topic_size on_tx_error i it s))
              e
              (after_send_queued (it ∷ rest)
                (send_frame cavl os udpard wkv topic_size on_tx_error i it s)
                (send_frame_queued s it ∙ h)))
      | inr e ↦
          rw (offload_frame, e)
            (drop_frame_queued (expire_frame cavl os udpard wkv topic_size on_tx_error i s) it rest
              (expire_frame_queued s ∙ h))
    ]

    dropped_more :
        (it : TxItem) (its : List TxItem) (r : Option Node) → Drained its r → Drained (it ∷ its) r
    unfolding Drained
    dropped_more it its none left = elim left [ ]
    dropped_more it its (some s1) (k, left, in_time) = (suc k, left, in_time)

    -- A round, and what follows it.
    after_round :
        (it : TxItem) (rest : List TxItem) (rounds : ℕ) (r : Bool × Node)
        → Advanced it rest r
        → ((s1 : Node)
            → queued s1 ≡ rest
            → Drained rest (offload_queue cavl os udpard wkv topic_size on_tx_error rounds i ts s1))
        → Drained (it ∷ rest) (elim r.0 [
          | true ↦ offload_queue cavl os udpard wkv topic_size on_tx_error rounds i ts r.1
          | false ↦ some r.1
        ])
    unfolding Advanced Drained waits
    after_round it rest rounds (true, s1) h more = dropped_more it rest _ (more s1 h)
    after_round it rest rounds (false, s1) (h, in_time) more = (0, h, ap waits h ∙ in_time)

    -- When the handler of errors leaves the queue of the interface alone, the loop that sends its
    -- frames ends with more rounds than there are frames. Frames were taken from the front only,
    -- and either none is left or the first one left is timely.
    pub offload_queue-Drained :
        (its : List TxItem) (rounds : ℕ) (s : Node)
        → queued s ≡ its
        → length its < rounds
        → Drained its (offload_queue cavl os udpard wkv topic_size on_tx_error rounds i ts s)
    unfolding offload_queue Drained waits
    offload_queue-Drained its zero s h enough = absurd (omega arith)
    offload_queue-Drained [] (suc rounds) s h enough =
        rw (offload_queue, peek_lem (s.platform_state.tx i).udpard_tx, h) (0, h, ap waits h)
    offload_queue-Drained (it ∷ rest) (suc rounds) s h enough =
        rw (offload_queue, peek_lem (s.platform_state.tx i).udpard_tx, h)
          (after_round it rest rounds
            (offload_frame cavl os udpard wkv topic_size on_tx_error i ts it s)
            (offload_frame-Advanced s it rest h)
            (λ s1 h1. offload_queue-Drained rest rounds s1 h1 (omega arith)))
