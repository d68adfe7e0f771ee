-- ===== src/Gossip/Order.antt =====
-- What a published gossip, publish_heartbeat_gossip of cy/cy.c, leaves at the node.
use cy.Prelude.{
  ℕ, ◌≡◌, ◌≢◌, ◌<◌, ◌∙◌, refl, leb, ◌==◌, if◌then◌else◌, ap₂, false, some, List, arith,
}
use cy.Prelude.Int.{ℤ, ◌+ℤ◌}
use cy.Index.{Cavl}
use cy.Platform.{Platform, Err, cy_ok}
use cy.Node.{Cy}
use cy.Allocation.{set_topic, update_gossip_order, topic_ensure_subscribed}
use cy.Heartbeat.{Heartbeat}
use cy.Joining.{ensure_joined}
use cy.Gossip.{
  topic_age, count_transfer, send_heartbeat, transmit, publish_heartbeat, gossip_message,
  publish_heartbeat_gossip, scout_message, publish_heartbeat_scout,
}

module _ (cavl : Cavl) (platform : Platform) (rapidhash : List ℕ → ℕ) where
  -- A published gossip.
  pub record Gossiped (s : Cy cavl platform) (t : ℕ) (now : ℤ) (s1 : Cy cavl platform)
      : Type 0 where
    pub last : s1.heartbeat_last ≡ now
    pub next : s1.heartbeat_next ≡ s.heartbeat_next +ℤ s.heartbeat_period_max
    pub stamped : (s1.topics t).ts_gossiped ≡ now
    pub calmed : (s1.topics t).gossip_priority ≡ 0
    pub others : (x : ℕ) → x ≢ t → (s1.topics x).gossip_priority ≡ (s.topics x).gossip_priority
    pub scouts : s1.next_scout ≡ s.next_scout

  joined_run :
      (s : Cy cavl platform) (now : ℤ) (m : Heartbeat)
      → s.node_id < platform.node_id_max
      → publish_heartbeat cavl platform rapidhash s now m
        ≡ some (send_heartbeat cavl platform rapidhash s now m)
  unfolding publish_heartbeat ensure_joined
  joined_run s now m j =
      let below : leb platform.node_id_max s.node_id ≡ false = ground arith in
      rw (publish_heartbeat, ensure_joined, below) refl

  sent :
      (s : Cy cavl platform) (now : ℤ) (m : Heartbeat) (x : ℕ)
      → (let s1 = (send_heartbeat cavl platform rapidhash s now m).1 in
          (s1.heartbeat_last ≡ now)
          × (s1.heartbeat_next ≡ s.heartbeat_next +ℤ s.heartbeat_period_max)
          × ((s1.topics x).ts_gossiped ≡ (s.topics x).ts_gossiped)
          × ((s1.topics x).gossip_priority ≡ (s.topics x).gossip_priority)
          × (s1.next_scout ≡ s.next_scout))
  unfolding send_heartbeat transmit count_transfer set_topic
  sent s now m x = (refl, refl, ground arith, ground arith, refl)

  prepared :
      (s : Cy cavl platform) (t x : ℕ) (now : ℤ)
      → (let s1 =
            update_gossip_order cavl platform
              (topic_ensure_subscribed cavl platform (topic_age cavl platform rapidhash s t now) t)
              t
              now
              0 in
          (s1.heartbeat_next ≡ s.heartbeat_next)
          × (s1.heartbeat_period_max ≡ s.heartbeat_period_max)
          × (s1.next_scout ≡ s.next_scout)
          × (s1.node_id ≡ s.node_id)
          × ((s1.topics t).ts_gossiped ≡ now)
          × ((s1.topics t).gossip_priority ≡ 0)
          × (x ≢ t → (s1.topics x).gossip_priority ≡ (s.topics x).gossip_priority))
  unfolding update_gossip_order topic_ensure_subscribed topic_age set_topic
  prepared s t x now = (
    ground arith,
    ground arith,
    ground arith,
    ground arith,
    ground arith,
    ground arith,
    λ ne. ground arith,
  )

  -- A node with a node-ID below the bound publishes the gossip of any topic: the call
  -- returns, the topic is no longer urgent and is stamped with the time, the other topics are as
  -- urgent as before, no scout leaves the queue, and the next heartbeat is due one longest period
  -- after the one that was due.
  pub publish_heartbeat_gossip_joined :
      (s : Cy cavl platform) (t : ℕ) (now : ℤ)
      → s.node_id < platform.node_id_max
      → (res : Err) × (s1 : Cy cavl platform) × (publish_heartbeat_gossip cavl platform rapidhash s
            t now
          ≡ some (res, s1))
        × Gossiped s t now s1
  unfolding publish_heartbeat_gossip
  publish_heartbeat_gossip_joined s t now j =
      let s0 =
        topic_ensure_subscribed cavl platform (topic_age cavl platform rapidhash s t now) t in
      let s1 = update_gossip_order cavl platform s0 t now 0 in
      let m = gossip_message cavl platform rapidhash (s0.topics t) in
      let (next, period, scouts, id, stamped, calmed, others) = prepared s t t now in
      let own = sent s1 now m t in
      (
        (send_heartbeat cavl platform rapidhash s1 now m).0,
        (send_heartbeat cavl platform rapidhash s1 now m).1,
        joined_run s1 now m (omega (arith, id)),
        record {
          last = own.0;
          next = own.1 ∙ ap₂ ◌+ℤ◌ next period;
          stamped = own.2 ∙ stamped;
          calmed = own.3 ∙ calmed;
          others = λ x ne. (sent s1 now m x).3 ∙ (prepared s t x now).6 ne;
          scouts = own.4 ∙ scouts;
        },
      )

  -- A published scout, and what the publication returned.
  pub record Scouted (s : Cy cavl platform) (subr : ℕ) (now : ℤ) (res : Err) (s1 : Cy cavl platform)
      : Type 0 where
    pub last : s1.heartbeat_last ≡ now
    pub next : s1.heartbeat_next ≡ s.heartbeat_next +ℤ s.heartbeat_period_max
    pub dequeued : res ≡ cy_ok → s1.next_scout ≡ (s.roots subr).next_scout
    pub queued : res ≢ cy_ok → s1.next_scout ≡ s.next_scout
    pub calm : (x : ℕ) → (s1.topics x).gossip_priority ≡ (s.topics x).gossip_priority

  -- The root is delisted where its scout was published.
  abbrev delisted : Err → Cy cavl platform → ℕ → Cy cavl platform
  delisted res s subr =
      if res == cy_ok then record s { next_scout = (s.roots subr).next_scout } else s

  scout_run :
      (s : Cy cavl platform) (subr : ℕ) (now : ℤ)
      → s.node_id < platform.node_id_max
      → (let m = scout_message cavl platform rapidhash (s.roots subr).name in
          let sending = send_heartbeat cavl platform rapidhash s now m in
          publish_heartbeat_scout cavl platform rapidhash s subr now
          ≡ some (sending.0, delisted sending.0 sending.1 subr))
  unfolding publish_heartbeat_scout
  scout_run s subr now j =
      rw
        (
          publish_heartbeat_scout,
          joined_run s now (scout_message cavl platform rapidhash (s.roots subr).name) j,
        )
        refl

  delisted-Scouted :
      (s : Cy cavl platform) (subr : ℕ) (now : ℤ) (m : Heartbeat)
      → (let sending = send_heartbeat cavl platform rapidhash s now m in
          Scouted s subr now sending.0 (delisted sending.0 sending.1 subr))
  unfolding send_heartbeat transmit count_transfer set_topic
  delisted-Scouted s subr now m = record {
    last = ground arith;
    next = ground arith;
    dequeued = λ ok. ground arith;
    queued = λ fail. ground arith;
    calm = λ x. ground arith;
  }

  -- A node with a node-ID below the bound publishes the scout of a subscriber root: the
  -- call returns, the next root takes its place exactly
  -- when the publication succeeded, and every topic is as urgent as before.
  pub publish_heartbeat_scout_joined :
      (s : Cy cavl platform) (subr : ℕ) (now : ℤ)
      → s.node_id < platform.node_id_max
      → (res : Err) × (s1 : Cy cavl platform) × (publish_heartbeat_scout cavl platform rapidhash s
            subr now
          ≡ some (res, s1))
        × Scouted s subr now res s1
  publish_heartbeat_scout_joined s subr now j =
      let m = scout_message cavl platform rapidhash (s.roots subr).name in
      let sending = send_heartbeat cavl platform rapidhash s now m in
      (
        sending.0,
        delisted sending.0 sending.1 subr,
        scout_run s subr now j,
        delisted-Scouted s subr now m,
      )
