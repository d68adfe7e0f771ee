-- ===== src/Posix/Subscribing.antt =====
-- The sockets of a topic after platform_topic_subscribe and platform_topic_unsubscribe of
-- cy_udp_posix/cy_udp_posix.c.
use cy.Prelude.{
  ℕ, suc, ◌<◌, ◌≡◌, refl, ◌&&◌, ap, ◌∙◌, ◌≢◌, false, none, arith, ◌==◌, Bool-cases, inl, inr,
}
use cy.Platform.{Err, SubscriptionParams, cy_ok}
use cy.Node.{update, update_at, update_apart}
use cy.Os.{Os}
use cy.Udpard.{Udpard}
use cy.Wrapper.{RxSocket, udp_wrapper_rx_new}
use cy.Wrapper.Receiving.{udp_wrapper_rx_close}
use cy.Posix.{
  Memory, Posix, PosixTopic, for_each, set_world, set_posix_topic, err_from_udpard, is_valid_ip,
}
use cy.Posix.Topics.{close_topic, open_topic, set_sock_rx, open_sockets, platform_topic_subscribe}
use cy.Posix.Loops.{for_each_invariant}
use cy.Posix.Closing.{rx_closed}

module _ (os : Os) (udpard : Udpard (Memory os)) (t : ℕ) where
  open udpard use {network_interface_count_max, subscription_init, subscription_free}

  -- The sockets of the topic below j are closed.
  abbrev pub Silent : ℕ → Posix os udpard → Type 0
  Silent j p = (x : ℕ) → x < j → ((p.topics t).sock_rx x).fd ≡ none

  close_topic_sock :
      (j x : ℕ) (p : Posix os udpard)
      → ((close_topic os udpard t j p).topics t).sock_rx x
        ≡ update
            (p.topics t).sock_rx
            j
            (udp_wrapper_rx_close os ((p.topics t).sock_rx j) p.memory.world).0
            x
  unfolding close_topic set_posix_topic set_world
  close_topic_sock j x p = ap (λ (q : PosixTopic os udpard). q.sock_rx x) (update_at _ t _)

  close_topic_step :
      (j : ℕ) (p : Posix os udpard) → Silent j p → Silent (suc j) (close_topic os udpard t j p)
  unfolding update
  close_topic_step j p h x lt =
      ap (λ (sock : RxSocket). sock.fd) (close_topic_sock j x p) ∙ elim (Bool-cases (x == j)) [
        | inl e ↦ rw e (rx_closed os ((p.topics t).sock_rx j) p.memory.world)
        | inr e ↦ rw e (h x (ground arith))
      ]

  close_topic_all :
      (p : Posix os udpard)
      → Silent network_interface_count_max
          (for_each network_interface_count_max 0 (close_topic os udpard t) p)
  close_topic_all p x lt =
      for_each_invariant Silent (close_topic os udpard t) network_interface_count_max 0 p
        (λ j s1 above below. close_topic_step j s1) (λ y none_below. absurd (omega arith)) x
        (omega arith)

  not_ok : {n : ℕ} → n ≢ cy_ok → (n == cy_ok) ≡ false
  not_ok ne = ground arith

  open_sockets_failed :
      (p : Posix os udpard)
      → (open_sockets os udpard t p).0 ≢ cy_ok
      → Silent network_interface_count_max (open_sockets os udpard t p).1
  unfolding open_sockets
  open_sockets_failed p failed x lt = rw (not_ok failed) (close_topic_all _ x lt)

  -- What calls for the topic t leave alone: another topic u, and the rest of the sockets.
  abbrev pub Others : ℕ → Posix os udpard → ℕ → Posix os udpard → Type 0
  Others u p0 j p = (p.topics u ≡ p0.topics u) × (p.tx ≡ p0.tx) × (p.rpc_rx ≡ p0.rpc_rx)

  set_posix_topic-Others :
      (u : ℕ) (p : Posix os udpard) (v : PosixTopic os udpard)
      → u ≢ t
      → Others u p 0 (set_posix_topic os udpard p t v)
  unfolding set_posix_topic
  set_posix_topic-Others u p v apart = (update_apart p.topics t u v apart, refl, refl)

  close_topic-Others :
      (u : ℕ) (p0 p : Posix os udpard)
      → u ≢ t
      → Others u p0 0 p
      → Others u p0 0 (for_each network_interface_count_max 0 (close_topic os udpard t) p)
  unfolding close_topic set_posix_topic set_world
  close_topic-Others u p0 p apart h =
      for_each_invariant (Others u p0) (close_topic os udpard t) network_interface_count_max 0 p
        (λ j s1 above below (same, tx, rpc). (update_apart s1.topics t u _ apart ∙ same, tx, rpc)) h

  set_sock_rx-Others :
      (u i : ℕ) (sock : RxSocket) (p0 p : Posix os udpard)
      → u ≢ t
      → Others u p0 0 p
      → Others u p0 0 (set_sock_rx os udpard p t i sock)
  unfolding set_sock_rx set_posix_topic
  set_sock_rx-Others u i sock p0 p apart (same, tx, rpc) =
      (update_apart p.topics t u _ apart ∙ same, tx, rpc)

  open_topic-Others :
      (u j : ℕ) (p0 : Posix os udpard) (r : Err × Posix os udpard)
      → u ≢ t
      → Others u p0 0 r.1
      → Others u p0 0 (open_topic os udpard t j r).1
  unfolding open_topic set_world
  open_topic-Others u j p0 (res, p) apart h =
      elim (Bool-cases (res == cy_ok && is_valid_ip (p.local_iface_address j))) [
        | inl e ↦
            rw (open_topic, e)
              (set_sock_rx-Others u j _ p0 _ apart
                (set_sock_rx-Others u j udp_wrapper_rx_new p0 p apart h))
        | inr e ↦ rw (open_topic, e) (set_sock_rx-Others u j udp_wrapper_rx_new p0 p apart h)
      ]

  open_sockets-Others :
      (u : ℕ) (p0 p : Posix os udpard)
      → u ≢ t
      → Others u p0 0 p
      → (open_sockets os udpard t p).0 ≢ cy_ok
      → Others u p0 0 (open_sockets os udpard t p).1
  unfolding open_sockets
  open_sockets-Others u p0 p apart h failed = rw (not_ok failed) (
      close_topic-Others u p0 _ apart (
        for_each_invariant (λ j (r : Err × Posix os udpard). Others u p0 0 r.1)
          (open_topic os udpard t) network_interface_count_max 0 (cy_ok, p)
          (λ j r above below. open_topic-Others u j p0 r apart) h))

  -- When platform_topic_subscribe fails for a topic whose sockets are closed, they are closed
  -- afterwards, however many of them had been opened; and the other topics, the transmission queues
  -- with their sockets and the RPC sockets are as they were.
  pub platform_topic_subscribe_failed :
      (subject_id : ℕ) (params : SubscriptionParams) (p : Posix os udpard) (x u : ℕ)
      → ((y : ℕ) → y < network_interface_count_max → ((p.topics t).sock_rx y).fd ≡ none)
      → x < network_interface_count_max
      → u ≢ t
      → (platform_topic_subscribe os udpard t subject_id params p).0 ≢ cy_ok
      → ((((platform_topic_subscribe os udpard t subject_id params p).1.topics t).sock_rx x).fd
          ≡ none)
        × ((platform_topic_subscribe os udpard t subject_id params p).1.topics u ≡ p.topics u)
        × ((platform_topic_subscribe os udpard t subject_id params p).1.tx ≡ p.tx)
        × ((platform_topic_subscribe os udpard t subject_id params p).1.rpc_rx ≡ p.rpc_rx)
  unfolding platform_topic_subscribe set_posix_topic
  platform_topic_subscribe_failed subject_id params p x u closed lt apart =
      elim (Bool-cases
        (err_from_udpard os udpard (subscription_init subject_id params.extent).0 == cy_ok)) [
          | inl e ↦
              rw (platform_topic_subscribe, e)
                (λ failed.
                  let (same, tx, rpc) =
                    open_sockets-Others u p _ apart (set_posix_topic-Others u p _ apart) failed in
                  (open_sockets_failed _ failed x lt, same, tx, rpc))
          | inr e ↦
              rw (platform_topic_subscribe, e)
                (λ failed. (
                  ap (λ (q : PosixTopic os udpard). (q.sock_rx x).fd) (update_at p.topics t _)
                      ∙ closed x lt,
                  update_apart p.topics t u _ apart,
                  refl,
                  refl,
                ))
        ]
