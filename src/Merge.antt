-- ===== src/Merge.antt =====
-- The receipt of heartbeats, on_heartbeat of cy/cy.c: gossips of known topics, of unknown topics, and
-- scouts. A call of topic_allocate has its fuel: none where this runs out.
pub mod Verdict
pub mod Collision
mod Tests
use cy.Prelude.{
  ℕ, ◌+◌, ◌%◌, Bool, true, false, not, ◌&&◌, ◌||◌, Option, none, some, List, [], ◌∷◌, ltb, ◌==◌,
  if◌then◌else◌,
}
use cy.Prelude.Int.{ℤ, ltb_ℤ}
use cy.Subject.{u32_mod, topic_subject_id}
use cy.Age.{log2_floor, pow2, max_u64, left_wins, eq_ℤ}
use cy.Index.{Cavl}
use cy.Platform.{Platform}
use cy.Node.{Topic, Cy}
use cy.Transfer.{TransferOwned, BufferOwned}
use cy.Allocation.{
  set_topic, update_gossip_order, prioritize_gossip, topic_ensure_subscribed, topic_allocate,
}
use cy.Mortal.{mortal_animate}
use cy.Bloom.{test_bit}
use cy.Lookup.{cy_topic_find_by_hash, cy_topic_find_by_subject_id}
use cy.Creation.{topic_subscribe_if_matching, respond_to_scout}
use cy.Heartbeat.{Heartbeat, name_offset, receive, key_of}

-- The fragments of an owned payload.
abbrev pub view_bytes : Option (List ℕ) → List ℕ
view_bytes none = []
view_bytes (some bytes) = bytes

abbrev pub fragments : BufferOwned → List (List ℕ)
fragments payload = view_bytes payload.view ∷ payload.next

-- Flags 1 and 4: FLAG_PUBLISHING | FLAG_RECEIVING; and 8: FLAG_SCOUT.
unfoldable pub is_testimony : ℕ → Bool
is_testimony flags = test_bit flags 0 || test_bit flags 2

unfoldable pub is_scout : ℕ → Bool
is_scout flags = test_bit flags 3

-- The verdict on a divergence: the rounded ages, then the evictions.
unfoldable pub keeps_evictions : ℤ → ℕ → ℤ → ℕ → Bool
keeps_evictions mine_lage mine_evictions other_lage other_evictions =
    ltb_ℤ other_lage mine_lage || (eq_ℤ mine_lage other_lage && ltb other_evictions mine_evictions)

module _ (cavl : Cavl) (platform : Platform) (rapidhash : List ℕ → ℕ) (depth steps : ℕ) where
  open platform use {wkv}
  open wkv use {matches}

  unfoldable pub merge_age : Cy cavl platform → ℕ → ℤ → Cy cavl platform
  merge_age s t other_lage =
      set_topic cavl platform s t
        (record (s.topics t) { age = max_u64 (s.topics t).age (pow2 other_lage) })

  -- A divergence that is lost: the allocation of the other side is tried.
  unfoldable pub follow : Cy cavl platform → ℕ → ℕ → ℤ → ℤ → Option (Cy cavl platform)
  follow s t other_evictions other_lage ts =
      elim (topic_allocate cavl platform depth steps (merge_age s t other_lage) t other_evictions
        false) [
          | none ↦ none
          | some s1 ↦
              let s2 =
                if (s1.topics t).evictions == other_evictions
                then update_gossip_order cavl platform s1 t (s.topics t).ts_gossiped 0
                else s1 in
              some (record s2 { ts_local_event = ts })
        ]

  unfoldable pub settle : Cy cavl platform → ℕ → ℕ → ℤ → ℤ → Option (Cy cavl platform)
  settle s t other_evictions other_lage ts =
      elim (keeps_evictions (log2_floor (s.topics t).age) (s.topics t).evictions other_lage
        other_evictions) [
          | true ↦ some (prioritize_gossip cavl platform s t 100)
          | false ↦ follow s t other_evictions other_lage ts
        ]

  unfoldable pub note_event : Option (Cy cavl platform) → ℤ → Option (Cy cavl platform)
  note_event none ts = none
  note_event (some s) ts = some (record s { ts_event = ts })

  unfoldable pub merge_after : Option (Cy cavl platform) → ℕ → ℤ → Option (Cy cavl platform)
  merge_after none t other_lage = none
  merge_after (some s) t other_lage = some (merge_age s t other_lage)

  -- A gossip of a topic that this node has.
  unfoldable pub on_known : Cy cavl platform → ℕ → ℕ → ℤ → ℤ → Option (Cy cavl platform)
  on_known s t other_evictions other_lage ts =
      merge_after
        (if (s.topics t).evictions == other_evictions
          then some (topic_ensure_subscribed cavl platform s t)
          else note_event (settle s t other_evictions other_lage ts) ts)
        t other_lage

  -- A collision on the subject-ID of the topic t.
  unfoldable pub collide : Cy cavl platform → ℕ → ℕ → ℤ → ℤ → Option (Cy cavl platform)
  collide s t other_hash other_lage ts =
      elim (left_wins (s.topics t).age (s.topics t).hash other_lage other_hash) [
        | true ↦ some (record (prioritize_gossip cavl platform s t 100) { ts_event = ts })
        | false ↦
            elim (topic_allocate cavl platform depth steps s t
              (((s.topics t).evictions + 1) % u32_mod) false) [
                | none ↦ none
                | some s1 ↦ some (record s1 { ts_local_event = ts; ts_event = ts })
              ]
      ]

  -- A gossip of a topic that this node does not have.
  unfoldable pub on_unknown : Cy cavl platform → ℕ → ℕ → ℤ → ℤ → Option (Cy cavl platform)
  on_unknown s other_hash other_evictions other_lage ts =
      elim (cy_topic_find_by_subject_id cavl platform s
        (topic_subject_id other_hash other_evictions)) [
          | none ↦ some s
          | some t ↦ collide s t other_hash other_lage ts
        ]

  -- A topic that somebody uses is kept alive.
  unfoldable pub testify : Cy cavl platform → ℕ → ℤ → Cy cavl platform
  testify s t ts =
      let s1 = mortal_animate cavl platform s t in
      set_topic cavl platform s1 t (record (s1.topics t) { ts_testified = ts })

  unfoldable pub testify_found : Option ℕ × Cy cavl platform → ℤ → Option ℕ × Cy cavl platform
  testify_found (none, s) ts = (none, s)
  testify_found (some t, s) ts = (some t, testify s t ts)

  unfoldable pub find_or_subscribe :
      Cy cavl platform → List ℕ → ℕ → ℕ → Option (Option ℕ × Cy cavl platform)
  find_or_subscribe s key other_hash other_evictions =
      elim (cy_topic_find_by_hash cavl platform s other_hash) [
        | some t ↦ some (some t, s)
        | none ↦
            topic_subscribe_if_matching cavl platform rapidhash depth steps s key other_hash
              other_evictions
      ]

  -- The topic of a gossip.
  unfoldable pub recall :
      Cy cavl platform → Heartbeat → List ℕ → ℤ → Option (Option ℕ × Cy cavl platform)
  recall s m key ts = elim (is_testimony m.flags) [
    | true ↦ elim (find_or_subscribe s key m.topic_hash m.topic_evictions) [
      | none ↦ none
      | some found ↦ some (testify_found found ts)
    ]
    | false ↦ some (cy_topic_find_by_hash cavl platform s m.topic_hash, s)
  ]

  unfoldable pub on_gossip : Cy cavl platform → Heartbeat → List ℕ → ℤ → Option (Cy cavl platform)
  on_gossip s m key ts = elim (recall s m key ts) [
    | none ↦ none
    | some (none, s1) ↦ on_unknown s1 m.topic_hash m.topic_evictions m.topic_log_age ts
    | some (some t, s1) ↦ on_known s1 t m.topic_evictions m.topic_log_age ts
  ]

  -- `beyond` is the memory behind the structure that the message is gathered into.
  unfoldable pub on_heartbeat :
      List ℕ → Cy cavl platform → TransferOwned → Option (Cy cavl platform)
  on_heartbeat beyond s transfer =
      let (msg_size, m) = receive (fragments transfer.payload) in
      let key = key_of beyond m in
      elim (ltb msg_size name_offset || not (m.version == 1)) [
        | true ↦ some s
        | false ↦ elim (is_scout m.flags) [
          | true ↦ some (respond_to_scout cavl platform rapidhash s (matches s.topics_by_name key))
          | false ↦ on_gossip s m key transfer.timestamp
        ]
      ]
