-- ===== src/Allocation/Tests.antt =====
-- The properties of topic_allocate at concrete nodes.
use cy.Prelude.{
  ℕ, suc, ◌+◌, ◌*◌, ◌^◌, ◌-◌, ◌<◌, ◌≡◌, refl, true, false, Bool, Option, none, some, List, ◌&&◌, [],
  ◌∷◌, arith, ◌==◌, if◌then◌else◌,
}
use cy.Prelude.Int.{pos}
use cy.Subject.{u32_mod, topic_subject_id}
use cy.Age.{left_wins, log2_floor, count_leading_zeros}
use cy.Index.{list_index}
use cy.Transfer.{no_transfer}
use cy.Wkv.{Wkv, Substitutions}
use cy.Platform.{Platform}
use cy.Node.{Topic, Cy, fresh}
use cy.Allocation.{subject_id_of, topic_allocate}
use cy.Allocation.Rank.{beats, count}
use cy.Allocation.Setting.{Setting, Indexed}
use cy.Allocation.Contest.{Result}
use cy.Allocation.Termination.{topic_allocate_total}
use cy.Allocation.Livelock.{topic_allocate_livelock}

abbrev pub same_bytes : List ℕ → List ℕ → Bool
same_bytes [] [] = true
same_bytes [] (y ∷ ys) = false
same_bytes (x ∷ xs) [] = false
same_bytes (x ∷ xs) (y ∷ ys) = x == y && same_bytes xs ys

abbrev pub look_up : List (List ℕ × Option ℕ) → List ℕ → Option (Option ℕ)
look_up [] k = none
look_up ((j, v) ∷ t) k = if same_bytes j k then some v else look_up t k

abbrev pub without : List (List ℕ × Option ℕ) → List ℕ → List (List ℕ × Option ℕ)
without [] k = []
without ((j, v) ∷ t) k = if same_bytes j k then without t k else (j, v) ∷ without t k

abbrev pub is_absent : Option (Option ℕ) → Bool
is_absent none = true
is_absent (some v) = false

abbrev pub found : Option (Option ℕ) → List (ℕ × Substitutions)
found (some (some v)) = (v, []) ∷ []
found (some none) = []
found none = []

-- An index of names without wild cards, as the list of its keys.
abbrev pub list_names : {S : Type 0} → Wkv S
list_names = record {
  Tree = List (List ℕ × Option ℕ);
  empty = [];
  get = look_up;
  set = λ t k n. (some (if is_absent (look_up t k) then (k, none) ∷ t else t), n);
  put = λ t k v. (k, some v) ∷ t;
  del = λ t k. without t k;
  matches = λ t k. found (look_up t k);
  route = λ t k. found (look_up t k);
  has_substitution_tokens = λ k. false;
}

-- A platform on which every call succeeds; its state counts the subscriptions.
abbrev pub quiet : Platform
quiet = record {
  State = ℕ;
  wkv = list_names;
  now = λ n. (pos 0, n);
  prng = λ n. (7, n);
  mem_alloc = λ size n. (some (n + 100), n + 1);
  mem_free = λ x n. n;
  buffer_release = λ b n. n;
  p2p = λ l i m d b n. (0, n);
  topic_new = λ n. (some (n + 100), n + 1);
  topic_destroy = λ t n. n;
  topic_publish = λ p d b n. (0, n);
  topic_advertise = λ l t e n. n;
  node_id_set = λ i n. (0, n);
  node_id_clear = λ n. n;
  topic_subscribe = λ t i p n. (0, n + 1);
  topic_unsubscribe = λ t i n. n;
  topic_on_subscription_error = λ t e n. n;
  node_id_max = 65534;
  transfer_id_mask = 2 ^ 64 - 1;
}

abbrev pub topic_of : ℕ → ℕ → Topic list_index
topic_of hash age = record {
  name = b'x' ∷ [];
  evictions = 0;
  hash = hash;
  age = age;
  ts_aged = pos 0;
  ts_gossiped = pos 0;
  ts_received = pos 0;
  ts_testified = pos 0;
  gossip_priority = 0;
  mortal_next = none;
  mortal_prev = none;
  futures_by_transfer_id = [];
  pub_transfer_id = 0;
  pub_count = 0;
  couplings = [];
  subscribed = false;
}

-- Topics 1 and 2; the first is in the indexes.
abbrev pub node_on :
    (platform : Platform) → platform.State → (ℕ → Topic list_index) → Cy list_index platform
node_on platform state topics = record {
  platform_state = state;
  topics = topics;
  roots = λ x. record { name = []; is_pattern = false; next_scout = none; subscribers = [] };
  subscribers = λ x. record {
    root = 0;
    params = record { extent = 0; transfer_id_timeout = pos 0 };
    callback = 0;
  };
  publishers = λ x. record { topic = 1; priority = 0 };
  futures = λ x. record {
    publisher = 0;
    state = fresh;
    transfer_id_masked = 0;
    deadline = pos 0;
    last_response = no_transfer;
    callback = none;
  };
  node_id_bloom = record { n_bits = 128; popcount = 0; storage = λ i. 0 };
  namespace = b'~' ∷ [];
  name = [];
  uid = 1;
  node_id = 5;
  ts_started = pos 0;
  ts_event = pos 0;
  ts_local_event = pos 0;
  node_id_collision = false;
  mortal_topic_timeout = pos 3_600_000_000;
  mortal_head = none;
  mortal_tail = none;
  heartbeat_next = pos 0;
  heartbeat_last = pos 0;
  heartbeat_period_max = pos 500_000;
  heartbeat_period_min = pos 5_000;
  heartbeat_pub = 1;
  heartbeat_sub = 1;
  topics_by_name = platform.wkv.empty;
  subscribers_by_name = platform.wkv.empty;
  subscribers_by_pattern = platform.wkv.empty;
  topics_by_hash = 1 ∷ 2 ∷ [];
  topics_by_subject_id = 1 ∷ [];
  topics_by_gossip_time = 1 ∷ 2 ∷ [];
  next_scout = none;
  futures_by_deadline = [];
  topic_count = 1;
}

abbrev pub node_of : (ℕ → Topic list_index) → Cy list_index quiet
node_of topics = node_on quiet 0 topics

-- Two topics whose hashes lead to one subject-ID.
abbrev pub rivals : ℕ → Topic list_index
rivals x = if x == 1 then topic_of 10000 3 else topic_of 16144 900

abbrev pub rival_hash : ℕ → ℕ
rival_hash x = (rivals x).hash

abbrev pub rival_age : ℕ → ℕ
rival_age x = (rivals x).age

-- A pinned topic, 2, whose subject-ID an older topic holds.
abbrev pinned_late : ℕ → Topic list_index
pinned_late x = if x == 1 then topic_of 13522 900 else topic_of 1234 0

abbrev late_hash : ℕ → ℕ
late_hash x = (pinned_late x).hash

abbrev late_age : ℕ → ℕ
late_age x = (pinned_late x).age

pub rivals-Setting : Setting rival_hash (1 ∷ 2 ∷ [])
rivals-Setting = record {
  wide = λ x. ground arith;
  distinct = λ x y hx hy h. ground arith;
  reserved = λ x hx h. ground arith;
  enough = omega arith;
}

pub rivals-Indexed :
    Indexed list_index quiet rival_hash rival_age (1 ∷ 2 ∷ []) (node_of rivals) (1 ∷ [])
rivals-Indexed = record {
  same_hash = λ x. refl;
  same_age = λ x. refl;
  listed = refl;
  sorted = (tt, tt);
  word = λ x. ground arith;
  inside = λ x h. ground arith;
}

late-Indexed :
    Indexed list_index quiet late_hash late_age (1 ∷ 2 ∷ []) (node_of pinned_late) (1 ∷ [])
late-Indexed = record {
  same_hash = λ x. refl;
  same_age = λ x. refl;
  listed = refl;
  sorted = (tt, tt);
  word = λ x. ground arith;
  inside = λ x h. ground arith;
}

older_wins : count (beats rival_hash rival_age 2) (1 ∷ 2 ∷ []) < 2
unfolding count beats left_wins log2_floor count_leading_zeros
older_wins = omega arith

topic_allocate_total_example :
    Result list_index quiet rival_hash rival_age
      (1 ∷ 2 ∷ [])
      rivals-Setting
      (topic_allocate list_index quiet 2 (suc (4 * u32_mod)) (node_of rivals) 2 0 true)
      (node_of rivals)
      2
      0
      (1 ∷ [])
topic_allocate_total_example =
    topic_allocate_total list_index quiet rival_hash rival_age (1 ∷ 2 ∷ []) rivals-Setting 2
      (4 * u32_mod) (omega arith) (node_of rivals) (1 ∷ []) 2 0 true rivals-Indexed refl refl
      (omega arith) older_wins

late_loses : beats late_hash late_age 2 1 ≡ false
unfolding beats left_wins log2_floor count_leading_zeros
late_loses = refl

late_meets : subject_id_of list_index quiet (node_of pinned_late) 1 ≡ late_hash 2
unfolding topic_subject_id
late_meets = refl

topic_allocate_livelock_example :
    topic_allocate list_index quiet 2 (4 * u32_mod) (node_of pinned_late) 2 0 true ≡ none
topic_allocate_livelock_example =
    topic_allocate_livelock list_index quiet late_hash late_age (1 ∷ 2 ∷ []) 2 (4 * u32_mod)
      (node_of pinned_late) (1 ∷ []) 2 1 0 true late-Indexed refl (omega arith) refl (omega arith)
      (omega arith) late_meets late_loses
