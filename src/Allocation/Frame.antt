-- ===== src/Allocation/Frame.antt =====
-- What the operations around the loop of topic_allocate (cy/cy.c) leave alone.
use cy.Prelude.{ℕ, ◌≡◌, refl, ◌∙◌, Bool, true, false, arith, if◌then◌else◌}
use cy.Prelude.Int.{ℤ}
use cy.Index.{Cavl}
use cy.Platform.{Platform}
use cy.Node.{Topic, Cy}
use cy.Allocation.{
  set_topic, update_gossip_order, prioritize_gossip, topic_ensure_subscribed, suspend, announce,
}

module _ (cavl : Cavl) (platform : Platform) where
  -- Identity, age and evictions of every topic, and the index by subject-ID.
  pub record Keeps (s s1 : Cy cavl platform) : Type 0 where
    pub hash : (x : ℕ) → (s1.topics x).hash ≡ (s.topics x).hash
    pub age : (x : ℕ) → (s1.topics x).age ≡ (s.topics x).age
    pub evictions : (x : ℕ) → (s1.topics x).evictions ≡ (s.topics x).evictions
    pub index : s1.topics_by_subject_id ≡ s.topics_by_subject_id

  pub Keeps-refl : (s : Cy cavl platform) → Keeps s s
  Keeps-refl s = record { hash = λ x. refl; age = λ x. refl; evictions = λ x. refl; index = refl }

  pub Keeps-trans : {s s1 s2 : Cy cavl platform} → Keeps s s1 → Keeps s1 s2 → Keeps s s2
  Keeps-trans k l = record {
    hash = λ x. l.hash x ∙ k.hash x;
    age = λ x. l.age x ∙ k.age x;
    evictions = λ x. l.evictions x ∙ k.evictions x;
    index = l.index ∙ k.index;
  }

  -- A write that keeps the three fields of the topic written.
  pub set_topic-Keeps :
      (s : Cy cavl platform) (t : ℕ) (v : Topic cavl)
      → v.hash ≡ (s.topics t).hash
      → v.age ≡ (s.topics t).age
      → v.evictions ≡ (s.topics t).evictions
      → Keeps s (set_topic cavl platform s t v)
  unfolding set_topic
  set_topic-Keeps s t v h a e = record {
    hash = λ x. ground arith;
    age = λ x. ground arith;
    evictions = λ x. ground arith;
    index = ground arith;
  }

  pub update_gossip_order-Keeps :
      (s : Cy cavl platform) (t : ℕ) (ts : ℤ) (priority : ℕ)
      → Keeps s (update_gossip_order cavl platform s t ts priority)
  unfolding update_gossip_order
  update_gossip_order-Keeps s t ts priority = record {
    hash = λ x. ground arith;
    age = λ x. ground arith;
    evictions = λ x. ground arith;
    index = ground arith;
  }

  pub suspend-Keeps : (s : Cy cavl platform) (t : ℕ) → Keeps s (suspend cavl platform s t)
  unfolding suspend
  suspend-Keeps s t = record {
    hash = λ x. ground arith;
    age = λ x. ground arith;
    evictions = λ x. ground arith;
    index = ground arith;
  }

  pub Keeps-if :
      (b : Bool) {s s1 s2 : Cy cavl platform}
      → Keeps s s1
      → Keeps s s2
      → Keeps s (if b then s1 else s2)
  Keeps-if true k l = k
  Keeps-if false k l = l

  pub prioritize_gossip-Keeps :
      (s : Cy cavl platform) (t priority : ℕ)
      → Keeps s (prioritize_gossip cavl platform s t priority)
  unfolding prioritize_gossip
  prioritize_gossip-Keeps s t priority =
      Keeps-if _ (update_gossip_order-Keeps s t _ _) (Keeps-refl s)

  pub topic_ensure_subscribed-Keeps :
      (s : Cy cavl platform) (t : ℕ) → Keeps s (topic_ensure_subscribed cavl platform s t)
  unfolding topic_ensure_subscribed
  topic_ensure_subscribed-Keeps s t = record {
    hash = λ x. ground arith;
    age = λ x. ground arith;
    evictions = λ x. ground arith;
    index = ground arith;
  }

  -- The tail of topic_allocate.
  pub announce-Keeps : (s : Cy cavl platform) (t : ℕ) → Keeps s (announce cavl platform s t)
  unfolding announce
  announce-Keeps s t =
      Keeps-trans (prioritize_gossip-Keeps s t 50) (topic_ensure_subscribed-Keeps _ t)

  pub ts_event-Keeps : (s : Cy cavl platform) (ts : ℤ) → Keeps s (record s { ts_event = ts })
  ts_event-Keeps s ts = record {
    hash = λ x. refl;
    age = λ x. refl;
    evictions = λ x. refl;
    index = refl;
  }

  pub ts_local_event-Keeps :
      (s : Cy cavl platform) (ts : ℤ) → Keeps s (record s { ts_local_event = ts })
  ts_local_event-Keeps s ts = record {
    hash = λ x. refl;
    age = λ x. refl;
    evictions = λ x. refl;
    index = refl;
  }
