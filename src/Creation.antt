-- ===== src/Creation.antt =====
-- New topics and their couplings with subscribers, of cy/cy.c: topic_new, topic_ensure, topic_couple,
-- topic_subscribe_if_matching. A call of topic_allocate has its fuel: none where this runs out.
pub mod Entry
mod Tests
use cy.Prelude.{
  ℕ, ◌+◌, ◌-◌, ◌*◌, ◌^◌, Bool, true, false, not, ◌&&◌, ◌||◌, Option, none, some, List, [], ◌∷◌, ltb,
  leb, ◌==◌, if◌then◌else◌, length,
}
use cy.Prelude.Int.{ℤ, negsuc}
use cy.Names.{topic_name_max}
use cy.Subject.{topic_hash, topic_subject_count}
use cy.Index.{Cavl}
use cy.Wkv.{Substitutions}
use cy.Platform.{Platform, Err, cy_ok, cy_err_memory, cy_err_name}
use cy.Node.{Topic, Coupling, Cy}
use cy.Allocation.{
  set_topic, cavl_comp_topic_gossip_order, prioritize_gossip, topic_ensure_subscribed,
  topic_allocate, is_empty,
}
use cy.Mortal.{is_mortal, mortal_delist, mortal_enlist}
use cy.Lookup.{cavl_comp_topic_hash, cy_topic_find_by_name}
use cy.Joining.{cy_now, random_u64}

-- INT64_MIN
abbrev pub big_bang : ℤ
big_bang = negsuc (2 ^ 63 - 1)

-- The size of cy_topic_coupling_t with so many substitutions, where a pointer takes eight bytes.
abbrev pub coupling_size : ℕ → ℕ
coupling_size count = 24 + count * 24

module _ (cavl : Cavl) (platform : Platform) (rapidhash : List ℕ → ℕ) where
  open cavl use {empty, find_or_insert}
  open platform use {mem_alloc, wkv, topic_on_subscription_error}
  open wkv use {set, put, route}

  unfoldable pub name_is_bad : List ℕ → Bool
  name_is_bad resolved_name = length resolved_name == 0 || ltb topic_name_max (length resolved_name)

  -- The fields that topic_new sets, one after the other; what it does not set is zero.
  unfoldable pub blank_topic : List ℕ → ℕ → ℕ → ℤ → ℤ → ℕ → Topic cavl
  blank_topic resolved_name hash evictions ts_aged ts_testified pub_transfer_id = record {
    name = resolved_name;
    evictions = evictions;
    hash = hash;
    age = 0;
    ts_aged = ts_aged;
    ts_gossiped = big_bang;
    ts_received = big_bang;
    ts_testified = ts_testified;
    gossip_priority = 10;
    mortal_next = none;
    mortal_prev = none;
    futures_by_transfer_id = empty;
    pub_transfer_id = pub_transfer_id;
    pub_count = 0;
    couplings = [];
    subscribed = false;
  }

  unfoldable pub init_topic : Cy cavl platform → ℕ → List ℕ → ℕ → ℕ → Cy cavl platform
  init_topic s t resolved_name hash evictions =
      let (ts_aged, s1) = cy_now cavl platform rapidhash s in
      let (ts_testified, s2) = cy_now cavl platform rapidhash s1 in
      let (pub_transfer_id, s3) = random_u64 cavl platform rapidhash s2 in
      let s4 =
        set_topic cavl platform s3 t
          (blank_topic resolved_name hash evictions ts_aged ts_testified pub_transfer_id) in
      let (ts_event, s5) = cy_now cavl platform rapidhash s4 in
      record s5 { ts_event = ts_event; ts_local_event = ts_event }

  -- The labels `oom` and `bad_name`.
  unfoldable pub abandon : Cy cavl platform → ℕ → Err × Option ℕ × Cy cavl platform
  abandon s t =
      (cy_err_name, none, record s { platform_state = platform.topic_destroy t s.platform_state })

  -- The indexes by hash and by gossip time.
  unfoldable pub index_topic : Cy cavl platform → ℕ → Cy cavl platform
  index_topic s t =
      let s1 = record s {
        topics_by_hash =
            (find_or_insert (cavl_comp_topic_hash cavl platform s (s.topics t).hash) t
              s.topics_by_hash).1;
      } in
      record s1 {
        topics_by_gossip_time =
            (find_or_insert (cavl_comp_topic_gossip_order cavl platform s1 t) t
              s1.topics_by_gossip_time).1;
      }

  -- The part behind the index by name.
  unfoldable pub enter_topic :
      (depth steps : ℕ) → Cy cavl platform → ℕ → Option (Err × Option ℕ × Cy cavl platform)
  enter_topic depth steps s t =
      elim (topic_allocate cavl platform depth steps (index_topic s t) t 0 true) [
        | none ↦ none
        | some s1 ↦ some (
          cy_ok,
          some t,
          mortal_enlist cavl platform (record s1 { topic_count = s1.topic_count + 1 }) t,
        )
      ]

  unfoldable pub name_topic :
      (depth steps : ℕ) → Cy cavl platform → ℕ → List ℕ → Option (Err × Option ℕ × Cy cavl platform)
  name_topic depth steps s t resolved_name =
      let (names, state) = set s.topics_by_name resolved_name s.platform_state in
      let s1 = record s { platform_state = state } in
      elim names [
        | none ↦ some (abandon s1 t)
        | some tree ↦
            enter_topic depth steps (record s1 { topics_by_name = put tree resolved_name t }) t
      ]

  -- What topic_new does with the object that the platform made.
  unfoldable pub set_up_topic :
      (depth steps : ℕ)
      → Cy cavl platform
      → ℕ
      → List ℕ
      → ℕ
      → ℕ
      → Option (Err × Option ℕ × Cy cavl platform)
  set_up_topic depth steps s t resolved_name hash evictions = elim (name_is_bad resolved_name) [
    | true ↦ some (abandon s t)
    | false ↦ elim (leb topic_subject_count s.topic_count) [
      | true ↦ some (abandon (init_topic s t resolved_name hash evictions) t)
      | false ↦ name_topic depth steps (init_topic s t resolved_name hash evictions) t resolved_name
    ]
  ]

  unfoldable pub topic_new :
      (depth steps : ℕ)
      → Cy cavl platform
      → List ℕ
      → ℕ
      → ℕ
      → Option (Err × Option ℕ × Cy cavl platform)
  topic_new depth steps s resolved_name hash evictions =
      let (made, state) = platform.topic_new s.platform_state in
      let s1 = record s { platform_state = state } in
      elim made [
        | none ↦ some (cy_err_memory, none, s1)
        | some t ↦ set_up_topic depth steps s1 t resolved_name hash evictions
      ]

  unfoldable pub topic_ensure :
      (depth steps : ℕ) → Cy cavl platform → List ℕ → Option (Err × Option ℕ × Cy cavl platform)
  topic_ensure depth steps s resolved_name =
      elim (cy_topic_find_by_name cavl platform s resolved_name) [
        | some t ↦ some (cy_ok, some t, s)
        | none ↦ topic_new depth steps s resolved_name (topic_hash rapidhash resolved_name) 0
      ]

  -- The new coupling is the first one of the topic.
  unfoldable pub attach : Cy cavl platform → ℕ → ℕ → Substitutions → Cy cavl platform
  attach s t subr substitutions =
      let coupling : Coupling = record { root = subr; substitutions = substitutions } in
      let s1 =
        set_topic cavl platform s t
          (record (s.topics t) { couplings = coupling ∷ (s.topics t).couplings }) in
      if not (s1.roots subr).is_pattern && is_mortal cavl platform s1 t
      then mortal_delist cavl platform s1 t
      else s1

  unfoldable pub topic_couple : Cy cavl platform → ℕ → ℕ → Substitutions → Err × Cy cavl platform
  topic_couple s t subr substitutions =
      let (cpl, state) = mem_alloc (coupling_size (length substitutions)) s.platform_state in
      let s1 = record s { platform_state = state } in
      elim cpl [ none ↦ (cy_err_memory, s1) | some x ↦ (cy_ok, attach s1 t subr substitutions) ]

  -- wkv_route with wkv_cb_couple_new_topic: the traversal ends at the first failure.
  unfoldable pub couple_new_topic :
      Cy cavl platform → ℕ → List (ℕ × Substitutions) → Bool × Cy cavl platform
  couple_new_topic s t [] = (true, s)
  couple_new_topic s t ((subr, substitutions) ∷ rest) =
      let (res, s1) = topic_couple s t subr substitutions in
      elim (res == cy_ok) [ true ↦ couple_new_topic s1 t rest | false ↦ (false, s1) ]

  unfoldable pub report : Cy cavl platform → Err → Cy cavl platform
  report s res = record s { platform_state = topic_on_subscription_error none res s.platform_state }

  -- The new topic and its subscriptions.
  unfoldable pub subscribe_new_topic :
      List ℕ → Err × Option ℕ × Cy cavl platform → Option ℕ × Cy cavl platform
  subscribe_new_topic resolved_name (res, none, s) = (none, report s res)
  subscribe_new_topic resolved_name (res, some t, s) =
      let (ok, s1) = couple_new_topic s t (route s.subscribers_by_pattern resolved_name) in
      if ok
      then (some t, topic_ensure_subscribed cavl platform s1 t)
      else (none, report s1 cy_err_memory)

  unfoldable pub topic_subscribe_if_matching :
      (depth steps : ℕ) → Cy cavl platform → List ℕ → ℕ → ℕ → Option (Option ℕ × Cy cavl platform)
  topic_subscribe_if_matching depth steps s resolved_name hash evictions =
      elim (length resolved_name == 0 || is_empty (route s.subscribers_by_pattern resolved_name)) [
        | true ↦ some (none, s)
        | false ↦ elim (topic_new depth steps s resolved_name hash evictions) [
          | none ↦ none
          | some made ↦ some (subscribe_new_topic resolved_name made)
        ]
      ]

  -- wkv_match with wkv_cb_topic_scout_response.
  unfoldable pub respond_to_scout : Cy cavl platform → List (ℕ × Substitutions) → Cy cavl platform
  respond_to_scout s [] = s
  respond_to_scout s ((t, substitutions) ∷ rest) =
      respond_to_scout (prioritize_gossip cavl platform s t 10) rest
