-- ===== src/Hint.antt =====
-- The user's hint at a subject-ID, cy_topic_hint of cy/cy.c.
pub mod Search
mod Tests
use cy.Prelude.{
  ℕ, zero, suc, ◌+◌, ◌%◌, Bool, true, false, not, ◌&&◌, Option, none, some, ltb, ◌==◌,
  if◌then◌else◌,
}
use cy.Subject.{u32_mod, total_subject_count, is_pinned, topic_subject_id}
use cy.Index.{Cavl}
use cy.Platform.{Platform}
use cy.Node.{Cy}
use cy.Allocation.{subject_id_of, set_topic, topic_ensure_subscribed}

-- The loop over the eviction counter, on fuel.
unfoldable pub seek : ℕ → ℕ → ℕ → ℕ → Option ℕ
seek zero hash evictions subject_id = none
seek (suc rounds) hash evictions subject_id = elim (topic_subject_id hash evictions == subject_id) [
  | true ↦ some evictions
  | false ↦ seek rounds hash ((evictions + 1) % u32_mod) subject_id
]

module _ (cavl : Cavl) (platform : Platform) where
  open platform use {topic_unsubscribe}

  -- The subscription is deactivated; the topic keeps its flag.
  unfoldable pub deactivate : Cy cavl platform → ℕ → Cy cavl platform
  deactivate s t =
      if (s.topics t).subscribed
      then record s {
        platform_state = topic_unsubscribe t (subject_id_of cavl platform s t) s.platform_state;
      }
      else s

  unfoldable pub takes_hint : Cy cavl platform → ℕ → ℕ → Bool
  takes_hint s t subject_id =
      ltb subject_id total_subject_count
      && not (is_pinned (s.topics t).hash)
      && ((s.topics t).evictions == 0)

  unfoldable pub move_to : Cy cavl platform → ℕ → Option ℕ → Option (Cy cavl platform)
  move_to s t none = none
  move_to s t (some evictions) = some (
      topic_ensure_subscribed cavl platform
        (set_topic cavl platform s t (record (s.topics t) { evictions = evictions })) t)

  -- The topic is none when its pointer is NULL.
  unfoldable pub cy_topic_hint : ℕ → Cy cavl platform → Option ℕ → ℕ → Option (Cy cavl platform)
  cy_topic_hint rounds s none subject_id = some s
  cy_topic_hint rounds s (some t) subject_id = elim (takes_hint s t subject_id) [
    | true ↦
        move_to (deactivate s t) t (seek rounds (s.topics t).hash (s.topics t).evictions subject_id)
    | false ↦ some s
  ]
