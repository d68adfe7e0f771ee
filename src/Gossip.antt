-- ===== src/Gossip.antt =====
-- Publication of heartbeats, of cy/cy.c: topic_age, publish_heartbeat, publish_heartbeat_gossip,
-- publish_heartbeat_scout.
pub mod Order
mod Tests
use cy.Prelude.{
  ℕ, ◌+◌, ◌-◌, ◌*◌, ◌/◌, ◌%◌, ◌^◌, Bool, true, false, not, Option, none, some, List, [], ◌∷◌, ltb,
  ◌==◌, if◌then◌else◌, length,
}
use cy.Prelude.Int.{ℤ, pos, negsuc, ◌+ℤ◌, ◌-ℤ◌, ◌*ℤ◌, ltb_ℤ}
use cy.Subject.{u32_mod, u64_mod}
use cy.Age.{log2_floor}
use cy.Index.{Cavl}
use cy.Platform.{Platform, Outgoing, Err, cy_ok}
use cy.Node.{Topic, Cy}
use cy.Allocation.{subject_id_of, set_topic, is_empty, update_gossip_order, topic_ensure_subscribed}
use cy.Heartbeat.{
  Heartbeat, flag_publishing, flag_subscribed, flag_receiving, flag_scout, message_bytes,
}
use cy.Joining.{ensure_joined}

abbrev pub mega : ℕ
mega = 1_000_000

-- The quotient by MEGA, truncated towards zero.
unfoldable pub div_mega : ℤ → ℤ
div_mega (pos n) = pos (n / mega)
div_mega (negsuc n) = pos 0 -ℤ pos ((n + 1) / mega)

-- Conversions to uint32_t and int32_t.
unfoldable pub to_u32 : ℤ → ℕ
to_u32 (pos n) = n % u32_mod
to_u32 (negsuc n) = u32_mod - 1 - n % u32_mod

unfoldable pub to_i32 : ℤ → ℤ
to_i32 x = if ltb (to_u32 x) (2 ^ 31) then pos (to_u32 x) else negsuc (u32_mod - 1 - to_u32 x)

module _ (cavl : Cavl) (platform : Platform) (rapidhash : List ℕ → ℕ) where
  open platform use {topic_publish}

  unfoldable pub aged : Topic cavl → ℤ → Topic cavl
  aged topic sec = record topic {
    age = if ltb_ℤ (pos 0) sec then (topic.age + 1) % u64_mod else topic.age;
    ts_aged = topic.ts_aged +ℤ sec *ℤ pos mega;
  }

  unfoldable pub topic_age : Cy cavl platform → ℕ → ℤ → Cy cavl platform
  topic_age s t now =
      set_topic cavl platform s t
        (aged (s.topics t) (to_i32 (div_mega (now -ℤ (s.topics t).ts_aged))))

  unfoldable pub count_transfer : Cy cavl platform → ℕ → Cy cavl platform
  count_transfer s t =
      set_topic cavl platform s t
        (record (s.topics t) { pub_transfer_id = ((s.topics t).pub_transfer_id + 1) % u64_mod })

  -- The call of the platform's topic_publish.
  unfoldable pub transmit : Cy cavl platform → ℕ → ℤ → List (List ℕ) → Err × Cy cavl platform
  transmit s pub_address tx_deadline payload =
      let publisher = s.publishers pub_address in
      let outgoing : Outgoing = record {
        node_id = s.node_id;
        priority = publisher.priority;
        subject_id = subject_id_of cavl platform s publisher.topic;
        transfer_id = (s.topics publisher.topic).pub_transfer_id;
      } in
      let (res, state) = topic_publish outgoing tx_deadline payload s.platform_state in
      (res, record s { platform_state = state })

  -- The part of publish_heartbeat behind ensure_joined.
  unfoldable pub send_heartbeat : Cy cavl platform → ℤ → Heartbeat → Err × Cy cavl platform
  send_heartbeat s now message =
      let filled = record message {
        uptime = to_u32 (div_mega (now -ℤ s.ts_started));
        version = 1;
        uid = s.uid;
      } in
      let (res, sent) = transmit s s.heartbeat_pub (now +ℤ pos mega) (message_bytes filled ∷ []) in
      let s1 = count_transfer sent (s.publishers s.heartbeat_pub).topic in
      (
        res,
        record s1 {
          heartbeat_next = s1.heartbeat_next +ℤ s1.heartbeat_period_max;
          heartbeat_last = now;
        },
      )

  unfoldable pub publish_heartbeat :
      Cy cavl platform → ℤ → Heartbeat → Option (Err × Cy cavl platform)
  publish_heartbeat s now message = elim (ensure_joined cavl platform rapidhash s) [
    | none ↦ none
    | some (res, s1) ↦ elim (res == cy_ok) [
      | true ↦ some (send_heartbeat s1 now message)
      | false ↦ some (res, s1)
    ]
  ]

  unfoldable pub gossip_flags : Topic cavl → ℕ
  gossip_flags topic =
      (if ltb 0 topic.pub_count then flag_publishing else 0)
      + (if is_empty topic.couplings then 0 else flag_subscribed)
      + (if ltb_ℤ topic.ts_received topic.ts_gossiped then 0 else flag_receiving)

  unfoldable pub gossip_message : Topic cavl → Heartbeat
  gossip_message topic = record {
    uptime = 0;
    user_word = 0;
    version = 0;
    uid = 0;
    topic_hash = topic.hash;
    topic_evictions = topic.evictions;
    reserved = 0;
    topic_log_age = log2_floor topic.age;
    flags = gossip_flags topic;
    topic_name_len = length topic.name % 256;
    topic_name = topic.name;
  }

  unfoldable pub publish_heartbeat_gossip :
      Cy cavl platform → ℕ → ℤ → Option (Err × Cy cavl platform)
  publish_heartbeat_gossip s t now =
      let s1 = topic_ensure_subscribed cavl platform (topic_age s t now) t in
      publish_heartbeat (update_gossip_order cavl platform s1 t now 0) now
        (gossip_message (s1.topics t))

  unfoldable pub scout_message : List ℕ → Heartbeat
  scout_message name = record {
    uptime = 0;
    user_word = 0;
    version = 0;
    uid = 0;
    topic_hash = 8185;
    topic_evictions = 0;
    reserved = 0;
    topic_log_age = pos 0;
    flags = flag_scout;
    topic_name_len = length name % 256;
    topic_name = name;
  }

  -- The scout of a subscriber root; it is delisted when the publication succeeded.
  unfoldable pub publish_heartbeat_scout :
      Cy cavl platform → ℕ → ℤ → Option (Err × Cy cavl platform)
  publish_heartbeat_scout s subr now =
      elim (publish_heartbeat s now (scout_message (s.roots subr).name)) [
        | none ↦ none
        | some (res, s1) ↦ some (
          res,
          if res == cy_ok then record s1 { next_scout = (s1.roots subr).next_scout } else s1,
        )
      ]
