-- ===== src/Setup.antt =====
-- The creation of a node, cy_new of cy/cy.c. `s` is the memory before the call.
use cy.Prelude.{
  ℕ, zero, suc, ◌+◌, ◌-◌, ◌/◌, ◌%◌, ◌^◌, true, false, Option, none, some, List, [], ◌∷◌, ◌++◌, ltb,
  leb, ◌==◌, if◌then◌else◌, length,
}
use cy.Prelude.Int.{ℤ, pos, ◌+ℤ◌}
use cy.Names.{topic_name_max}
use cy.Index.{Cavl}
use cy.Platform.{Platform, Err, cy_ok, cy_err_name}
use cy.Node.{Cy}
use cy.Bloom.{bloom64_set, bloom64_purge}
use cy.Joining.{cy_now, random_uint}
use cy.Creation.{big_bang}
use cy.Heartbeat.{heartbeat_size}
use cy.Subscribing.{cy_advertise, cy_subscribe_with_params}
use cy.Update.{node_id_invalid}

-- CY_NAMESPACE_NAME_MAX
abbrev pub namespace_name_max : ℕ
namespace_name_max = topic_name_max - 2

-- CY_CONFIG_HEARTBEAT_TOPIC_NAME
abbrev pub heartbeat_topic_name : List ℕ
heartbeat_topic_name = b'/' ∷ b'@' ∷ b'/' ∷ b'7' ∷ b'5' ∷ b'0' ∷ b'9' ∷ []

unfoldable pub hex_digit : ℕ → ℕ
hex_digit n = if ltb n 10 then b'0' + n else b'a' + (n - 10)

-- %0<count>x of a number below 16 ^ count
unfoldable pub hex : ℕ → ℕ → List ℕ
hex zero n = []
hex (suc count) n = hex count (n / 16) ++ (hex_digit (n % 16) ∷ [])

-- "@/%04x/%04x/%08lx/"
unfoldable pub default_name : ℕ → List ℕ
default_name uid =
    b'@'
    ∷ b'/'
    ∷ (hex 4 (uid / 2 ^ 48 % 2 ^ 16)
        ++ (b'/'
            ∷ (hex 4 (uid / 2 ^ 32 % 2 ^ 16) ++ (b'/' ∷ (hex 8 (uid % 2 ^ 32) ++ (b'/' ∷ []))))))

-- CY_START_DELAY_MIN_us and CY_START_DELAY_MAX_us
abbrev pub start_delay_min : ℕ
start_delay_min = 1_000_000

abbrev pub start_delay_max : ℕ
start_delay_max = 3_000_000

-- CY_TRANSFER_ID_TIMEOUT_DEFAULT_us
abbrev pub transfer_id_timeout_default : ℤ
transfer_id_timeout_default = pos 10_000_000

module _ (cavl : Cavl) (platform : Platform) (rapidhash : List ℕ → ℕ) where
  open cavl use {empty}
  open platform use {State, wkv, node_id_max, node_id_set}

  -- The fields of the object, up to the call of now(); what is not set is zero.
  unfoldable pub init_node : Cy cavl platform → ℕ → ℕ → List ℕ → Cy cavl platform
  init_node s uid node_id namespace = record s {
    namespace = if length namespace == 0 then b'~' ∷ [] else namespace;
    name = default_name uid;
    uid = uid;
    node_id = if leb node_id node_id_max then node_id else node_id_invalid;
    node_id_collision = false;
    mortal_head = none;
    mortal_tail = none;
    topics_by_hash = empty;
    topics_by_subject_id = empty;
    topics_by_gossip_time = empty;
    topics_by_name = wkv.empty;
    subscribers_by_name = wkv.empty;
    subscribers_by_pattern = wkv.empty;
    next_scout = none;
    futures_by_deadline = empty;
    topic_count = 0;
  }

  unfoldable pub init_times : Cy cavl platform → Cy cavl platform
  init_times s =
      let (now, s1) = cy_now cavl platform rapidhash s in
      record s1 {
        ts_started = now;
        mortal_topic_timeout = pos 3_600_000_000;
        node_id_bloom = bloom64_purge s1.node_id_bloom;
        heartbeat_period_max = pos 500_000;
        heartbeat_period_min = pos 5_000;
        heartbeat_next = now;
        heartbeat_last = big_bang;
      }

  -- A node that has to listen first, and one whose node-ID is given.
  unfoldable pub start_anonymous : Cy cavl platform → Err × Cy cavl platform
  start_anonymous s =
      let (delay, s1) = random_uint cavl platform rapidhash s start_delay_min start_delay_max in
      (
        cy_ok,
        record s1 {
          heartbeat_next = s1.heartbeat_next +ℤ pos delay;
          ts_event = s1.ts_started;
          ts_local_event = s1.ts_started;
        },
      )

  unfoldable pub start_with_node_id : Cy cavl platform → Err × Cy cavl platform
  start_with_node_id s =
      let (res, state) = node_id_set s.node_id s.platform_state in
      (
        res,
        record s {
          node_id_bloom = bloom64_set s.node_id_bloom s.node_id;
          platform_state = state;
          ts_event = pos 0;
          ts_local_event = pos 0;
        },
      )

  -- Publisher and subscriber of the heartbeat topic. `on_heartbeat` is the address of the callback.
  unfoldable pub join_heartbeat :
      (depth steps : ℕ) → ℕ → Err × Cy cavl platform → Option (Err × Cy cavl platform)
  join_heartbeat depth steps on_heartbeat (res, s) = elim (res == cy_ok) [
    | false ↦ some (res, s)
    | true ↦
        elim (cy_advertise cavl platform rapidhash depth steps s s.heartbeat_pub
          heartbeat_topic_name 0) [
            | none ↦ none
            | some (res1, s1) ↦ elim (res1 == cy_ok) [
              | false ↦ some (res1, s1)
              | true ↦
                  cy_subscribe_with_params cavl platform rapidhash depth steps s1
                    (some s1.heartbeat_sub) heartbeat_topic_name
                    (record {
                      extent = heartbeat_size;
                      transfer_id_timeout = transfer_id_timeout_default;
                    })
                    (some on_heartbeat)
            ]
          ]
  ]

  unfoldable pub cy_new :
      (depth steps : ℕ) → Cy cavl platform → ℕ → ℕ → ℕ → List ℕ → Option (Err × Cy cavl platform)
  cy_new depth steps s on_heartbeat uid node_id namespace =
      elim (ltb namespace_name_max (length namespace)) [
        | true ↦ some (cy_err_name, s)
        | false ↦
            let s1 = init_times (init_node s uid node_id namespace) in
            join_heartbeat depth steps on_heartbeat
              (if ltb node_id_max s1.node_id then start_anonymous s1 else start_with_node_id s1)
      ]
