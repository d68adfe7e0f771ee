-- ===== src/Platform.antt =====
-- cy/cy_platform.h: the platform layer below Cy, as the calls of cy/cy.c see it. Its functions may
-- read and change a state of their own; the rest of the arguments are what the callers hand over.
use cy.Prelude.{ℕ, Option, List}
use cy.Prelude.Int.{ℤ}
use cy.Transfer.{TransferMetadata, BufferOwned}
use cy.Wkv.{Wkv}

-- cy_err_t: zero is CY_OK.
abbrev pub Err : Type 0
Err = ℕ

abbrev pub cy_ok : Err
cy_ok = 0

abbrev pub cy_err_argument : Err
cy_err_argument = 2

abbrev pub cy_err_memory : Err
cy_err_memory = 3

abbrev pub cy_err_capacity : Err
cy_err_capacity = 4

abbrev pub cy_err_name : Err
cy_err_name = 5

abbrev pub cy_err_media : Err
cy_err_media = 6

-- cy_subscription_params_t
pub record SubscriptionParams : Type 0 where
  pub extent : ℕ
  pub transfer_id_timeout : ℤ

-- What the platform reads of the node, the publisher and the topic to publish a transfer.
pub record Outgoing : Type 0 where
  pub node_id : ℕ
  pub priority : ℕ
  pub subject_id : ℕ
  pub transfer_id : ℕ

-- cy_platform_t, with the index library that works on its allocator. Objects are given by their
-- addresses; the other arguments are what the platform reads of them. `realloc` is split into an
-- allocation of a size, which may fail, and the release of an object; the memory of the Bloom filter
-- that `node_id_bloom` leads to is a part of cy_t here. The node-ID goes to p2p and topic_advertise
-- in front of their arguments.
pub record Platform : Type 1 where
  pub State : Type 0
  pub wkv : Wkv State
  pub now : State → ℤ × State
  pub prng : State → ℕ × State
  pub mem_alloc : ℕ → State → Option ℕ × State
  pub mem_free : ℕ → State → State
  pub buffer_release : BufferOwned → State → State
  pub node_id_set : ℕ → State → Err × State
  pub node_id_clear : State → State
  pub p2p : ℕ → ℕ → TransferMetadata → ℤ → List (List ℕ) → State → Err × State
  pub topic_new : State → Option ℕ × State
  pub topic_destroy : ℕ → State → State
  pub topic_publish : Outgoing → ℤ → List (List ℕ) → State → Err × State
  pub topic_subscribe : ℕ → ℕ → SubscriptionParams → State → Err × State
  pub topic_unsubscribe : ℕ → ℕ → State → State
  pub topic_advertise : ℕ → ℕ → ℕ → State → State
  pub topic_on_subscription_error : Option ℕ → Err → State → State
  pub node_id_max : ℕ
  pub transfer_id_mask : ℕ
