-- ===== src/Udpard.antt =====
-- The calls of libudpard, a library outside this project, that cy_udp_posix/cy_udp_posix.c makes.
use cy.Prelude.{ℕ, ◌≡◌, Option, none, some, List, [], ◌∷◌}
use cy.Prelude.Int.{ℤ}
use cy.Transfer.{TransferMetadata, BufferOwned}
use cy.Platform.{Outgoing}

-- UdpardTxItem: a frame that waits in a queue.
pub record TxItem : Type 0 where
  pub deadline_usec : ℕ
  pub destination_address : ℕ
  pub destination_port : ℕ
  pub dscp : ℕ
  pub payload : List ℕ

-- UdpardMutablePayload: a buffer, by its address and its bytes.
pub record Payload : Type 0 where
  pub address : ℕ
  pub bytes : List ℕ

-- UdpardRxTransfer. The fragments of the payload have the layout of cy_buffer_owned_t.
pub record RxTransfer : Type 0 where
  pub timestamp_usec : ℕ
  pub priority : ℕ
  pub source_node_id : ℕ
  pub transfer_id : ℕ
  pub payload : BufferOwned

abbrev pub head_item : List TxItem → Option TxItem
head_item [] = none
head_item (it ∷ rest) = some it

-- `Memory` is the state of the memory resources that the library is set up with. A result is the
-- code that the call returns. The calls of the RPC dispatcher that are without fail in the library
-- have no code. The frames of a queue leave it in their order: the next one is peeked at, and popped.
pub record Udpard (Memory : Type 0) : Type 1 where
  pub Tx : Type 0
  pub Subscription : Type 0
  pub Dispatcher : Type 0
  pub network_interface_count_max : ℕ
  pub node_id_max : ℕ
  pub node_id_unset : ℕ
  pub error_argument : ℕ
  pub error_memory : ℕ
  pub error_capacity : ℕ
  pub error_anonymous : ℕ
  pub tx_init : ℕ → ℤ × Tx
  pub queue_capacity : Tx → ℕ
  pub set_queue_capacity : ℕ → Tx → Tx
  pub queue_size : Tx → ℕ
  pub tx_publish : Outgoing → ℕ → List ℕ → Tx → Memory → ℤ × Tx × Memory
  pub tx_request : ℕ → ℕ → TransferMetadata → ℕ → List ℕ → Tx → Memory → ℤ × Tx × Memory
  pub tx_peek : Tx → Option TxItem
  pub tx_pop : TxItem → Tx → Tx
  pub tx_free : TxItem → Memory → Memory
  pub no_subscription : Subscription
  pub subscription_init : ℕ → ℕ → ℤ × Subscription
  pub set_transfer_id_timeout : ℕ → Subscription → Subscription
  pub endpoint : Subscription → ℕ × ℕ
  pub subscription_free : Subscription → Memory → Memory
  pub subscription_receive :
      Subscription → ℕ → Payload → ℕ → Memory → ℤ × RxTransfer × Subscription × Memory
  pub no_dispatcher : Dispatcher
  pub dispatcher_init : Dispatcher
  pub dispatcher_start : Dispatcher → ℕ → (ℕ × ℕ) × Dispatcher
  pub dispatcher_listen : Dispatcher → ℕ → ℕ → Dispatcher
  pub dispatcher_cancel : Dispatcher → ℕ → Dispatcher
  pub set_port_timeout : Dispatcher → ℕ → ℕ → Dispatcher
  pub dispatcher_receive :
      Dispatcher → ℕ → Payload → ℕ → Memory → ℤ × RxTransfer × Dispatcher × Memory
  pub fragment_free : BufferOwned → Memory → Memory
  pub items : Tx → List TxItem
  pub peek_lem : (tx : Tx) → tx_peek tx ≡ head_item (items tx)
  pub pop_lem :
      (tx : Tx) (it : TxItem) (rest : List TxItem)
      → items tx ≡ it ∷ rest
      → items (tx_pop it tx) ≡ rest
