-- ===== src/Allocation.antt =====
-- The allocation of subject-IDs among the topics of one node, of cy/cy.c: the comparators of two
-- indexes, update_gossip_order, prioritize_gossip, deduce_subscription_params,
-- topic_ensure_subscribed and topic_allocate.
pub mod Frame
pub mod Rank
pub mod Setting
pub mod Rounds
pub mod Evicted
pub mod Contest
pub mod Squatters
pub mod Loop
pub mod Termination
pub mod Livelock
pub mod Tests
use Prim.Native.Nat.{compare}
use cy.Prelude.{
  ℕ, zero, suc, ◌+◌, ◌-◌, ◌%◌, Bool, true, false, not, ◌&&◌, Option, none, some, List, [], ◌∷◌,
  Ordering, ltb, ◌==◌, if◌then◌else◌,
}
use cy.Prelude.Int.{ℤ, pos, ltb_ℤ}
use cy.Subject.{u32_mod, is_pinned, topic_subject_id}
use cy.Age.{log2_floor, left_wins, larger, max_i64}
use cy.Index.{Comparator, Cavl}
use cy.Platform.{Platform, SubscriptionParams, cy_ok}
use cy.Node.{Subscriber, Coupling, Topic, Cy, update}

-- A pinned topic is less urgent.
unfoldable pub tuned_priority : ℕ → ℕ → ℕ
tuned_priority hash priority = if is_pinned hash && ltb 2 priority then priority - 1 else priority

unfoldable pub is_empty {ℓ} : {A : Type ℓ} → List A → Bool
is_empty [] = true
is_empty (x ∷ xs) = false

abbrev pub merge_params : SubscriptionParams → SubscriptionParams → SubscriptionParams
merge_params a b = record {
  extent = larger a.extent b.extent;
  transfer_id_timeout = max_i64 a.transfer_id_timeout b.transfer_id_timeout;
}

unfoldable pub over_subscribers :
    (ℕ → Subscriber) → SubscriptionParams → List ℕ → SubscriptionParams
over_subscribers subs out [] = out
over_subscribers subs out (x ∷ xs) = over_subscribers subs (merge_params out (subs x).params) xs

module _ (cavl : Cavl) (platform : Platform) where
  open cavl use {Tree, find_or_insert, remove}
  open platform use {topic_subscribe, topic_unsubscribe, topic_on_subscription_error}

  abbrev pub topic_at : Cy cavl platform → ℕ → Topic cavl
  topic_at s t = s.topics t

  unfoldable pub set_topic : Cy cavl platform → ℕ → Topic cavl → Cy cavl platform
  unfolding update
  set_topic s t v = record s { topics = update s.topics t v }

  -- cy_topic_subject_id
  abbrev pub subject_id_of : Cy cavl platform → ℕ → ℕ
  subject_id_of s t = topic_subject_id (s.topics t).hash (s.topics t).evictions

  -- The difference of two subject-IDs, by its sign.
  abbrev pub cavl_comp_topic_subject_id : Cy cavl platform → ℕ → Comparator
  cavl_comp_topic_subject_id s outer inner = compare outer (subject_id_of s inner)

  -- Never equal: higher priority to the left, then the lower gossip time; equal times in the order of
  -- their insertion.
  unfoldable pub cavl_comp_topic_gossip_order : Cy cavl platform → ℕ → Comparator
  cavl_comp_topic_gossip_order s outer inner =
      let o = s.topics outer in
      let i = s.topics inner in
      if not (o.gossip_priority == i.gossip_priority)
      then (if ltb i.gossip_priority o.gossip_priority then Ordering.lt else Ordering.gt)
      else (if ltb_ℤ o.ts_gossiped i.ts_gossiped then Ordering.lt else Ordering.gt)

  unfoldable pub update_gossip_order : Cy cavl platform → ℕ → ℤ → ℕ → Cy cavl platform
  unfolding set_topic cavl_comp_topic_gossip_order
  update_gossip_order s t ts_gossiped priority =
      let s1 = record s { topics_by_gossip_time = remove t s.topics_by_gossip_time } in
      let s2 =
        set_topic s1 t
          (record (s1.topics t) { gossip_priority = priority; ts_gossiped = ts_gossiped }) in
      record s2 {
        topics_by_gossip_time =
            (find_or_insert (cavl_comp_topic_gossip_order s2 t) t s2.topics_by_gossip_time).1;
      }

  unfoldable pub prioritize_gossip : Cy cavl platform → ℕ → ℕ → Cy cavl platform
  unfolding tuned_priority
  prioritize_gossip s t priority =
      let p = tuned_priority (s.topics t).hash priority in
      if ltb (s.topics t).gossip_priority p
      then update_gossip_order s t (s.topics t).ts_gossiped p
      else s

  unfoldable pub over_couplings :
      Cy cavl platform → SubscriptionParams → List Coupling → SubscriptionParams
  unfolding over_subscribers
  over_couplings s out [] = out
  over_couplings s out (c ∷ cs) =
      over_couplings s (over_subscribers s.subscribers out (s.roots c.root).subscribers) cs

  unfoldable pub deduce_subscription_params : Cy cavl platform → ℕ → SubscriptionParams
  unfolding over_couplings
  deduce_subscription_params s t =
      over_couplings s (record { extent = 0; transfer_id_timeout = pos 0 }) (s.topics t).couplings

  -- Resubscribes a topic that has couplings and no subscription; a failure goes to the platform.
  unfoldable pub topic_ensure_subscribed : Cy cavl platform → ℕ → Cy cavl platform
  unfolding set_topic is_empty
  topic_ensure_subscribed s t =
      if not (is_empty (s.topics t).couplings) && not (s.topics t).subscribed
      then (let (res, state) =
            topic_subscribe t (subject_id_of s t) (deduce_subscription_params s t)
              s.platform_state in
          let s1 =
            set_topic (record s { platform_state = state }) t
              (record (s.topics t) { subscribed = res == cy_ok }) in
          if res == cy_ok then s1 else record s1 {
            platform_state = topic_on_subscription_error (some t) res s1.platform_state;
          })
      else s

  -- The head of topic_allocate: a live subscription is taken down.
  unfoldable pub suspend : Cy cavl platform → ℕ → Cy cavl platform
  unfolding set_topic
  suspend s t =
      if (s.topics t).subscribed
      then set_topic
          (record s { platform_state = topic_unsubscribe t (subject_id_of s t) s.platform_state }) t
          (record (s.topics t) { subscribed = false })
      else s

  unfoldable pub withdraw : Bool → Cy cavl platform → ℕ → Cy cavl platform
  withdraw virgin s t =
      if virgin then s else record s { topics_by_subject_id = remove t s.topics_by_subject_id }

  unfoldable pub set_evictions : Cy cavl platform → ℕ → ℕ → Cy cavl platform
  unfolding set_topic
  set_evictions s t evictions = set_topic s t (record (s.topics t) { evictions = evictions })

  -- uint32_t evictions + 1
  abbrev pub next_evictions : Cy cavl platform → ℕ → ℕ
  next_evictions s t = ((s.topics t).evictions + 1) % u32_mod

  -- cavl2_find_or_insert on the subject-ID index: the topic found, and the new tree.
  abbrev pub claim : Cy cavl platform → ℕ → ℕ × Tree
  claim s t =
      find_or_insert (cavl_comp_topic_subject_id s (subject_id_of s t)) t s.topics_by_subject_id

  abbrev pub wins_over : Cy cavl platform → ℕ → ℕ → Bool
  wins_over s t other =
      left_wins (s.topics t).age (s.topics t).hash (log2_floor (s.topics other).age)
        (s.topics other).hash

  -- The loop of topic_allocate, with the recursive call as `evict`: none when the fuel runs out.
  unfoldable pub place :
      (Cy cavl platform → ℕ → ℕ → Option (Cy cavl platform))
      → ℕ
      → Cy cavl platform
      → ℕ
      → Option (Cy cavl platform)
  unfolding set_evictions
  place evict zero s t = none
  place evict (suc steps) s t =
      let other = (claim s t).0 in
      elim (other == t) [
        | true ↦ some (record s { topics_by_subject_id = (claim s t).1 })
        | false ↦ elim (wins_over s t other) [
          | true ↦ elim (evict s other (next_evictions s other)) [
            | none ↦ none
            | some s1 ↦ place evict steps s1 t
          ]
          | false ↦ place evict steps (set_evictions s t (next_evictions s t)) t
        ]
      ]

  -- The tail of topic_allocate: announce, and restore the subscription.
  unfoldable pub announce : Cy cavl platform → ℕ → Cy cavl platform
  announce s t = topic_ensure_subscribed (prioritize_gossip s t 50) t

  abbrev pub prepare : Cy cavl platform → ℕ → ℕ → Bool → Cy cavl platform
  prepare s t new_evictions virgin = set_evictions (withdraw virgin (suspend s t) t) t new_evictions

  -- topic_allocate, on fuel for the depth of its recursion and for the rounds of each loop.
  unfoldable pub topic_allocate :
      (depth steps : ℕ) → Cy cavl platform → ℕ → ℕ → Bool → Option (Cy cavl platform)
  unfolding suspend withdraw set_evictions place announce
  topic_allocate zero steps s t new_evictions virgin = none
  topic_allocate (suc depth) steps s t new_evictions virgin =
      elim (place (λ s' other e. topic_allocate depth steps s' other e false) steps
        (prepare s t new_evictions virgin) t) [ none ↦ none | some s1 ↦ some (announce s1 t) ]
