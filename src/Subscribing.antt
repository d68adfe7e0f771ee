-- ===== src/Subscribing.antt =====
-- Subscribers and publishers, of cy/cy.c: ensure_subscriber_root, cy_subscribe_with_params,
-- cy_advertise, and the coupling of a new subscriber with the topics that it matches. A call of
-- topic_allocate, and the walk along the scouts, have their fuel: none where this runs out.
pub mod Scouts
mod Tests
use cy.Prelude.{
  ℕ, zero, suc, ◌+◌, Bool, true, false, ◌&&◌, ◌||◌, Option, none, some, List, [], ◌∷◌, ltb, ◌==◌,
  if◌then◌else◌,
}
use cy.Prelude.Int.{pos, ltb_ℤ}
use cy.Names.{resolve_name}
use cy.Index.{Cavl}
use cy.Wkv.{Substitutions}
use cy.Platform.{
  Platform, SubscriptionParams, Err, cy_ok, cy_err_argument, cy_err_memory, cy_err_name,
}
use cy.Node.{Subscriber, SubscriberRoot, Publisher, Cy, update}
use cy.Allocation.{
  set_topic, subject_id_of, prioritize_gossip, deduce_subscription_params, topic_ensure_subscribed,
}
use cy.Mortal.{is_mortal, mortal_delist}
use cy.Lookup.{value_of}
use cy.Creation.{topic_ensure, topic_couple}

-- sizeof(cy_subscriber_root_t), with pointers of eight bytes
abbrev pub root_size : ℕ
root_size = 32

-- cy_prio_nominal
abbrev pub prio_nominal : ℕ
prio_nominal = 4

-- RESPONSE_PAYLOAD_OVERHEAD_BYTES
abbrev pub response_overhead : ℕ
response_overhead = 8

-- Whether the new parameters exceed the old ones.
unfoldable pub exceeds : SubscriptionParams → SubscriptionParams → Bool
exceeds old fresh_params =
    ltb old.extent fresh_params.extent
    || ltb_ℤ old.transfer_id_timeout fresh_params.transfer_id_timeout

-- All bytes zero.
abbrev pub blank_subscriber : Subscriber
blank_subscriber = record {
  root = 0;
  params = record { extent = 0; transfer_id_timeout = pos 0 };
  callback = 0;
}

module _ (cavl : Cavl) (platform : Platform) (rapidhash : List ℕ → ℕ) where
  open platform use {mem_alloc, mem_free, wkv, topic_unsubscribe, topic_advertise}
  open wkv use {get, set, put, del, matches, has_substitution_tokens}

  unfoldable pub set_root : Cy cavl platform → ℕ → SubscriberRoot → Cy cavl platform
  set_root s r v = record s { roots = update s.roots r v }

  unfoldable pub set_subscriber : Cy cavl platform → ℕ → Subscriber → Cy cavl platform
  set_subscriber s x v = record s { subscribers = update s.subscribers x v }

  unfoldable pub set_publisher : Cy cavl platform → ℕ → Publisher → Cy cavl platform
  set_publisher s x v = record s { publishers = update s.publishers x v }

  unfoldable pub unsubscribe_topic : Cy cavl platform → ℕ → Cy cavl platform
  unsubscribe_topic s t =
      let s1 = record s {
        platform_state = topic_unsubscribe t (subject_id_of cavl platform s t) s.platform_state;
      } in
      set_topic cavl platform s1 t (record (s1.topics t) { subscribed = false })

  unfoldable pub needs_resubscription : Cy cavl platform → ℕ → ℕ → Bool
  needs_resubscription s sub t =
      (s.topics t).subscribed
      && exceeds (deduce_subscription_params cavl platform s t) (s.subscribers sub).params

  -- wkv_cb_couple_new_subscription, for one topic.
  unfoldable pub couple_new_subscription :
      Cy cavl platform → ℕ → ℕ → Substitutions → Err × Cy cavl platform
  couple_new_subscription s sub t substitutions =
      let resubscribe = needs_resubscription s sub t in
      let (res, s1) =
        topic_couple cavl platform rapidhash s t (s.subscribers sub).root substitutions in
      elim (res == cy_ok) [
        | true ↦ (
          res,
          topic_ensure_subscribed cavl platform (if resubscribe then unsubscribe_topic s1 t else s1)
              t,
        )
        | false ↦ (res, s1)
      ]

  -- The traversal ends at the first failure.
  unfoldable pub couple_all :
      Cy cavl platform → ℕ → List (ℕ × Substitutions) → Bool × Cy cavl platform
  couple_all s sub [] = (true, s)
  couple_all s sub ((t, substitutions) ∷ rest) =
      let (res, s1) = couple_new_subscription s sub t substitutions in
      elim (res == cy_ok) [ true ↦ couple_all s1 sub rest | false ↦ (false, s1) ]

  -- The last scout from r on.
  unfoldable pub last_scout : ℕ → Cy cavl platform → ℕ → Option ℕ
  last_scout zero s r = none
  last_scout (suc rounds) s r = elim (s.roots r).next_scout [
    | none ↦ some r
    | some next ↦ last_scout rounds s next
  ]

  unfoldable pub append_behind : ℕ → Cy cavl platform → ℕ → Option ℕ → Option (Cy cavl platform)
  append_behind rounds s root none = some (record s { next_scout = some root })
  append_behind rounds s root (some first) = elim (last_scout rounds s first) [
    | none ↦ none
    | some last ↦ some (set_root s last (record (s.roots last) { next_scout = some root }))
  ]

  unfoldable pub append_scout : ℕ → Cy cavl platform → ℕ → Option (Cy cavl platform)
  append_scout rounds s root = append_behind rounds s root s.next_scout

  unfoldable pub blank_root : List ℕ → Bool → SubscriberRoot
  blank_root name is_pattern = record {
    name = name;
    is_pattern = is_pattern;
    next_scout = none;
    subscribers = [];
  }

  -- The node of a root that could not be set up is deleted.
  unfoldable pub drop_name : Cy cavl platform → List ℕ → Cy cavl platform
  drop_name s name = record s { subscribers_by_name = del s.subscribers_by_name name }

  unfoldable pub drop_root : Cy cavl platform → List ℕ → ℕ → Cy cavl platform
  drop_root s name root =
      let s1 = drop_name s name in record s1 { platform_state = mem_free root s1.platform_state }

  -- A root with substitution tokens.
  unfoldable pub enter_pattern :
      ℕ → Cy cavl platform → List ℕ → ℕ → Option (Err × Option ℕ × Cy cavl platform)
  enter_pattern rounds s name root =
      let (patterns, state) = set s.subscribers_by_pattern name s.platform_state in
      let s1 = record s { platform_state = state } in
      elim patterns [
        | none ↦ some (cy_err_memory, none, drop_root s1 name root)
        | some tree ↦
            elim (append_scout rounds (record s1 { subscribers_by_pattern = put tree name root })
              root) [ none ↦ none | some s2 ↦ some (cy_ok, some root, s2) ]
      ]

  -- A verbatim root: the topic is made at once.
  unfoldable pub enter_verbatim :
      (depth steps : ℕ) → Cy cavl platform → List ℕ → ℕ → Option (Err × Option ℕ × Cy cavl platform)
  enter_verbatim depth steps s name root =
      elim (topic_ensure cavl platform rapidhash depth steps s name) [
        | none ↦ none
        | some (res, t, s1) ↦ elim (res == cy_ok) [
          | true ↦ some (cy_ok, some root, s1)
          | false ↦ some (res, none, drop_root s1 name root)
        ]
      ]

  unfoldable pub new_root :
      (depth steps : ℕ) → Cy cavl platform → List ℕ → Option (Err × Option ℕ × Cy cavl platform)
  new_root depth steps s name =
      let (made, state) = mem_alloc root_size s.platform_state in
      let s1 = record s { platform_state = state } in
      elim made [
        | none ↦ some (cy_err_memory, none, drop_name s1 name)
        | some root ↦
            let wc = has_substitution_tokens name in
            let s2 =
              set_root (record s1 { subscribers_by_name = put s1.subscribers_by_name name root })
                root (blank_root name wc) in
            elim wc [
              | true ↦ enter_pattern steps s2 name root
              | false ↦ enter_verbatim depth steps s2 name root
            ]
      ]

  unfoldable pub ensure_subscriber_root :
      (depth steps : ℕ) → Cy cavl platform → List ℕ → Option (Err × Option ℕ × Cy cavl platform)
  ensure_subscriber_root depth steps s name =
      let (names, state) = set s.subscribers_by_name name s.platform_state in
      let s1 = record s { platform_state = state } in
      elim names [
        | none ↦ some (cy_err_memory, none, s1)
        | some tree ↦
            let s2 = record s1 { subscribers_by_name = tree } in
            elim (value_of cavl platform (get tree name)) [
              | some root ↦ some (cy_ok, some root, s2)
              | none ↦ new_root depth steps s2 name
            ]
      ]

  -- The subscriber becomes the first one of its root, and is coupled with the topics.
  unfoldable pub enlist_subscriber :
      Cy cavl platform → ℕ → ℕ → List ℕ → SubscriptionParams → ℕ → Err × Cy cavl platform
  enlist_subscriber s sub root name params callback =
      let s1 =
        set_subscriber s sub (record { root = root; params = params; callback = callback }) in
      let s2 =
        set_root s1 root
          (record (s1.roots root) { subscribers = sub ∷ (s1.roots root).subscribers }) in
      let (ok, s3) = couple_all s2 sub (matches s2.topics_by_name name) in
      (if ok then cy_ok else cy_err_memory, s3)

  unfoldable pub subscribe_root :
      Err × Option ℕ × Cy cavl platform
      → ℕ
      → List ℕ
      → SubscriptionParams
      → ℕ
      → Err × Cy cavl platform
  subscribe_root (res, none, s) sub name params callback = (res, s)
  subscribe_root (res, some root, s) sub name params callback =
      enlist_subscriber s sub root name params callback

  unfoldable pub subscribe_resolved :
      (depth steps : ℕ)
      → Cy cavl platform
      → ℕ
      → Option (List ℕ)
      → SubscriptionParams
      → ℕ
      → Option (Err × Cy cavl platform)
  subscribe_resolved depth steps s sub none params callback = some (cy_err_name, s)
  subscribe_resolved depth steps s sub (some name) params callback =
      elim (ensure_subscriber_root depth steps (set_subscriber s sub blank_subscriber) name) [
        | none ↦ none
        | some made ↦ some (subscribe_root made sub name params callback)
      ]

  -- The subscriber and the callback are none when their pointers are NULL.
  unfoldable pub cy_subscribe_with_params :
      (depth steps : ℕ)
      → Cy cavl platform
      → Option ℕ
      → List ℕ
      → SubscriptionParams
      → Option ℕ
      → Option (Err × Cy cavl platform)
  cy_subscribe_with_params depth steps s none name params callback = some (cy_err_argument, s)
  cy_subscribe_with_params depth steps s (some sub) name params none = some (cy_err_argument, s)
  cy_subscribe_with_params depth steps s (some sub) name params (some callback) =
      elim (ltb_ℤ params.transfer_id_timeout (pos 0)) [
        | true ↦ some (cy_err_argument, s)
        | false ↦
            subscribe_resolved depth steps s sub (resolve_name s.namespace s.name name) params
              callback
      ]

  -- A topic that is advertised is not mortal, and is announced.
  unfoldable pub advertise_topic : Cy cavl platform → ℕ → ℕ → ℕ → Cy cavl platform
  advertise_topic s pub_address t response_extent =
      let s1 = set_publisher s pub_address (record { topic = t; priority = prio_nominal }) in
      let s2 =
        set_topic cavl platform s1 t
          (record (s1.topics t) { pub_count = (s1.topics t).pub_count + 1 }) in
      let s3 = if is_mortal cavl platform s2 t then mortal_delist cavl platform s2 t else s2 in
      prioritize_gossip cavl platform
        (record s3 {
          platform_state =
              topic_advertise s3.node_id t (response_extent + response_overhead) s3.platform_state;
        })
        t 10

  unfoldable pub advertise_made : Err × Option ℕ × Cy cavl platform → ℕ → ℕ → Err × Cy cavl platform
  advertise_made (res, none, s) pub_address response_extent =
      (res, set_publisher s pub_address (record { topic = 0; priority = prio_nominal }))
  advertise_made (res, some t, s) pub_address response_extent =
      (res, advertise_topic s pub_address t response_extent)

  unfoldable pub advertise_resolved :
      (depth steps : ℕ)
      → Cy cavl platform
      → ℕ
      → Option (List ℕ)
      → ℕ
      → Option (Err × Cy cavl platform)
  advertise_resolved depth steps s pub_address none response_extent = some (cy_err_name, s)
  advertise_resolved depth steps s pub_address (some name) response_extent =
      elim (topic_ensure cavl platform rapidhash depth steps
        (set_publisher s pub_address (record { topic = 0; priority = 0 })) name) [
          | none ↦ none
          | some made ↦ some (advertise_made made pub_address response_extent)
        ]

  unfoldable pub cy_advertise :
      (depth steps : ℕ) → Cy cavl platform → ℕ → List ℕ → ℕ → Option (Err × Cy cavl platform)
  cy_advertise depth steps s pub_address name response_extent =
      advertise_resolved depth steps s pub_address (resolve_name s.namespace s.name name)
        response_extent
