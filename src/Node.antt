-- ===== src/Node.antt =====
-- The state of a node, of cy/cy.h, cy/cy_platform.h and cy/cy.c: topics, couplings, subscribers and
-- cy_t. Objects lie at addresses; a pointer that may be NULL is an Option.
use cy.Prelude.{ℕ, Bool, Option, List, ◌≡◌, ◌≢◌, ◌==◌, if◌then◌else◌, arith}
use cy.Prelude.Int.{ℤ}
use cy.Index.{Cavl}
use cy.Transfer.{TransferOwned}
use cy.Platform.{Platform, SubscriptionParams}

-- cy_subscriber_t; the callback is given by its address.
pub record Subscriber : Type 0 where
  pub root : ℕ
  pub params : SubscriptionParams
  pub callback : ℕ

-- cy_subscriber_root_t: the subscribers behind `head` are listed in the order of their `next` links.
pub record SubscriberRoot : Type 0 where
  pub name : List ℕ
  pub is_pattern : Bool
  pub next_scout : Option ℕ
  pub subscribers : List ℕ

-- cy_topic_coupling_t: the root and the substitutions.
pub record Coupling : Type 0 where
  pub root : ℕ
  pub substitutions : List (List ℕ × ℕ)

-- cy_publisher_t
pub record Publisher : Type 0 where
  pub topic : ℕ
  pub priority : ℕ

-- cy_future_state_t
pub data FutureState : Type 0 where
  fresh pending success response_timeout : FutureState

-- cy_future_t; its handles in the two indexes are its address.
pub record Future : Type 0 where
  pub publisher : ℕ
  pub state : FutureState
  pub transfer_id_masked : ℕ
  pub deadline : ℤ
  pub last_response : TransferOwned
  pub callback : Option ℕ

-- cy_bloom64_t: the words of the storage by their index.
pub record Bloom64 : Type 0 where
  pub n_bits : ℕ
  pub popcount : ℕ
  pub storage : ℕ → ℕ

module _ (cavl : Cavl) where
  open cavl use {Tree}

  -- cy_topic_t. The couplings are listed in the order of their `next` links, and the handles of the
  -- topic in the three indexes are its address.
  pub record Topic : Type 0 where
    pub name : List ℕ
    pub evictions : ℕ
    pub hash : ℕ
    pub age : ℕ
    pub ts_aged : ℤ
    pub ts_gossiped : ℤ
    pub ts_received : ℤ
    pub ts_testified : ℤ
    pub gossip_priority : ℕ
    pub mortal_next : Option ℕ
    pub mortal_prev : Option ℕ
    pub futures_by_transfer_id : Tree
    pub pub_transfer_id : ℕ
    pub pub_count : ℕ
    pub couplings : List Coupling
    pub subscribed : Bool

module _ (cavl : Cavl) (platform : Platform) where
  open cavl use {Tree}
  open platform use {State, wkv}
  open wkv use {Tree as NameTree}

  -- cy_t, with the objects that its pointers reach and the state of the platform.
  pub record Cy : Type 0 where
    pub platform_state : State
    pub topics : ℕ → Topic cavl
    pub roots : ℕ → SubscriberRoot
    pub subscribers : ℕ → Subscriber
    pub publishers : ℕ → Publisher
    pub futures : ℕ → Future
    pub node_id_bloom : Bloom64
    pub namespace : List ℕ
    pub name : List ℕ
    pub uid : ℕ
    pub node_id : ℕ
    pub ts_started : ℤ
    pub ts_event : ℤ
    pub ts_local_event : ℤ
    pub node_id_collision : Bool
    pub mortal_topic_timeout : ℤ
    pub mortal_head : Option ℕ
    pub mortal_tail : Option ℕ
    pub heartbeat_next : ℤ
    pub heartbeat_last : ℤ
    pub heartbeat_period_max : ℤ
    pub heartbeat_period_min : ℤ
    pub heartbeat_pub : ℕ
    pub heartbeat_sub : ℕ
    pub topics_by_hash : Tree
    pub topics_by_subject_id : Tree
    pub topics_by_gossip_time : Tree
    pub topics_by_name : NameTree
    pub subscribers_by_name : NameTree
    pub subscribers_by_pattern : NameTree
    pub next_scout : Option ℕ
    pub futures_by_deadline : Tree
    pub topic_count : ℕ

-- Writing one object.
unfoldable pub update {ℓ} : {A : Type ℓ} → (ℕ → A) → ℕ → A → ℕ → A
update f p v q = if q == p then v else f q

pub update_at {ℓ} : {A : Type ℓ} (f : ℕ → A) (p : ℕ) (v : A) → update f p v p ≡ v
unfolding update
update_at f p v = ground arith

pub update_apart {ℓ} : {A : Type ℓ} (f : ℕ → A) (p q : ℕ) (v : A) → q ≢ p → update f p v q ≡ f q
unfolding update
update_apart f p q v apart = ground arith
