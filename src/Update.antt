-- ===== src/Update.antt =====
-- The periodic work of a node, cy_update of cy/cy.c, with cy_ready and the notice of a collision of
-- topic hashes.
pub mod Schedule
mod Tests
use cy.Prelude.{
  ℕ, ◌+◌, Bool, true, false, not, ◌&&◌, ◌||◌, Option, none, some, List, ltb, if◌then◌else◌,
}
use cy.Prelude.Int.{ℤ, pos, ◌+ℤ◌, ◌-ℤ◌, ltb_ℤ}
use cy.Index.{Cavl}
use cy.Platform.{Platform, Err, cy_ok}
use cy.Node.{Cy}
use cy.Allocation.{prioritize_gossip}
use cy.Mortal.{mortal_retire_timed_out, is_some}
use cy.Joining.{cy_now, cy_joined}
use cy.Gossip.{publish_heartbeat_gossip, publish_heartbeat_scout}
use cy.Futures.{retire_timed_out_futures}

-- CY_NODE_ID_INVALID
abbrev pub node_id_invalid : ℕ
node_id_invalid = 0xFFFF

module _ (cavl : Cavl) (platform : Platform) (rapidhash : List ℕ → ℕ)
    (on_future : ℕ → ℕ → Cy cavl platform → Cy cavl platform) where
  open cavl use {min}
  open platform use {node_id_clear}

  -- The delayed handling of a node-ID collision.
  unfoldable pub leave_node_id : Cy cavl platform → ℤ → Cy cavl platform
  leave_node_id s now =
      if s.node_id_collision
      then record s {
        node_id_collision = false;
        node_id = node_id_invalid;
        platform_state = node_id_clear s.platform_state;
        heartbeat_next = now;
      }
      else s

  unfoldable pub is_urgent : Cy cavl platform → ℕ → Bool
  is_urgent s t = ltb 0 (s.topics t).gossip_priority

  -- due_normal || due_urgent
  unfoldable pub is_due : Cy cavl platform → ℕ → ℤ → Bool
  is_due s t now =
      not (ltb_ℤ now s.heartbeat_next)
      || (cy_joined cavl platform rapidhash s
          && not (ltb_ℤ now (s.heartbeat_last +ℤ s.heartbeat_period_min))
          && (is_urgent s t || is_some s.next_scout))

  -- An urgent gossip goes before a scout, and a scout before any other gossip.
  unfoldable pub publish_due : Cy cavl platform → ℕ → Option ℕ → ℤ → Option (Err × Cy cavl platform)
  publish_due s t none now = publish_heartbeat_gossip cavl platform rapidhash s t now
  publish_due s t (some subr) now = elim (is_urgent s t) [
    | true ↦ publish_heartbeat_gossip cavl platform rapidhash s t now
    | false ↦ publish_heartbeat_scout cavl platform rapidhash s subr now
  ]

  -- The index of gossips is never empty: where it is, the source has no behaviour.
  unfoldable pub publish_if_due : Cy cavl platform → Option ℕ → ℤ → Option (Err × Cy cavl platform)
  publish_if_due s none now = none
  publish_if_due s (some t) now = elim (is_due s t now) [
    | true ↦ publish_due s t s.next_scout now
    | false ↦ some (cy_ok, s)
  ]

  unfoldable pub cy_update : ℕ → Cy cavl platform → Option (Err × Cy cavl platform)
  cy_update rounds s =
      let (now, s1) = cy_now cavl platform rapidhash s in
      elim (retire_timed_out_futures cavl platform rapidhash on_future rounds s1 now) [
        | none ↦ none
        | some s2 ↦
            let s3 = leave_node_id (mortal_retire_timed_out cavl platform s2 now) now in
            publish_if_due s3 (min s3.topics_by_gossip_time) now
      ]

  unfoldable pub cy_ready : Cy cavl platform → Bool × Cy cavl platform
  cy_ready s =
      if cy_joined cavl platform rapidhash s
      then (let (now, s1) = cy_now cavl platform rapidhash s in
          (ltb_ℤ (pos 1_000_000) (now -ℤ s1.ts_event), s1))
      else (false, s)

  unfoldable pub cy_notify_topic_hash_collision : Cy cavl platform → Option ℕ → Cy cavl platform
  cy_notify_topic_hash_collision s none = s
  cy_notify_topic_hash_collision s (some t) = prioritize_gossip cavl platform s t 100
