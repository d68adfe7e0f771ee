-- ===== src/Posix/Tests.antt =====
-- The node of cy_udp_posix/cy_udp_posix.c on a small system with two interfaces.
use cy.Prelude.{
  ℕ, ◌+◌, ◌*◌, ◌^◌, ◌≤◌, ◌≡◌, ◌≢◌, ◌⊎◌, refl, sym, ◌∙◌, ap, false, none, some, List, [], ◌∷◌,
  length, arith,
}
use cy.Prelude.Int.{pos, ltb_ℤ, ◌-ℤ◌, ◌+ℤ◌}
use cy.Index.{list_index}
use cy.Platform.{cy_ok, cy_err_media}
use cy.Transfer.{TransferOwned}
use cy.Ingest.{Arrival}
use cy.Allocation.Tests.{list_names, node_on, topic_of}
use cy.Udpard.{Udpard, TxItem, RxTransfer, head_item}
use cy.Wrapper.{is_multicast, minus_errno, negated_i16, udp_wrapper_rx_new, would_block}
use cy.Wrapper.Receiving.{
  filter_datagram, is_unwanted, udp_wrapper_rx_init, open_rx, set_up_rx, get_local_iface_index,
  index_in, udp_wrapper_rx_receive,
}
use cy.Wrapper.Tests.{toy_os, toy_socket, toy_datagram}
use cy.Posix.{
  count_allocation, mem_alloc, Memory, Posix, gather_on_stack, for_each, is_valid_ip,
  err_from_udpard, err_from_udp_wrapper, set_posix_topic, set_world, to_u64,
}
use cy.Age.{eq_ℤ}
use cy.Node.{update}
use cy.Posix.Topics.{platform_topic_subscribe, open_sockets, open_topic, close_topic, set_sock_rx}
use cy.Posix.Offload.{offload_queue}
use cy.Posix.Spin.{rx_awaited, tx_awaited}
use cy.Posix.Reading.{socket_of, read_socket}
use cy.Posix.Draining.{Drained, offload_queue-Drained}
use cy.Posix.Bounds.{rx_awaited_bound}
use cy.Posix.Payload.{gather_on_stack-joined}
use cy.Posix.Unread.{Balanced, read_socket-Balanced}
use cy.Posix.Subscribing.{platform_topic_subscribe_failed}
use cy.Posix.Collision.{Left, left, datagram_checked, check_collision-Left}
use cy.Buffers.Gather.{joined}
use cy.Posix.Layer.{g_platform, CyUdp}

abbrev without_first : List TxItem → List TxItem
without_first [] = []
without_first (it ∷ rest) = rest

abbrev empty_transfer : RxTransfer
empty_transfer = record {
  timestamp_usec = 0;
  priority = 0;
  source_node_id = 0;
  transfer_id = 0;
  payload = record { view = none; next = []; origin = none };
}

-- A queue is its capacity with its frames, and nothing is received.
abbrev toy_udpard : Udpard (Memory toy_os)
toy_udpard = record {
  Tx = ℕ × List TxItem;
  Subscription = ℕ;
  Dispatcher = ℕ;
  network_interface_count_max = 2;
  node_id_max = 65534;
  node_id_unset = 65535;
  error_argument = 1;
  error_memory = 2;
  error_capacity = 3;
  error_anonymous = 4;
  tx_init = λ capacity. (pos 0, (capacity, []));
  queue_capacity = λ tx. tx.0;
  set_queue_capacity = λ capacity tx. (capacity, tx.1);
  queue_size = λ tx. length tx.1;
  tx_publish = λ outgoing deadline payload tx m. (pos 1, tx, m);
  tx_request = λ node_id service_id metadata deadline payload tx m. (pos 1, tx, m);
  tx_peek = λ tx. head_item tx.1;
  tx_pop = λ it tx. (tx.0, without_first tx.1);
  tx_free = λ it m. m;
  no_subscription = 0;
  subscription_init = λ subject_id extent. (pos 0, subject_id);
  set_transfer_id_timeout = λ timeout sub. sub;
  endpoint = λ sub. (14 * 2 ^ 28 + sub, 9382);
  subscription_free = λ sub m. m;
  subscription_receive = λ sub ts dgram i m. (pos 0, empty_transfer, sub, m);
  no_dispatcher = 0;
  dispatcher_init = 0;
  dispatcher_start = λ d node_id. ((14 * 2 ^ 28, 9382), d);
  dispatcher_listen = λ d service_id extent. d;
  dispatcher_cancel = λ d service_id. d;
  set_port_timeout = λ d service_id timeout. d;
  dispatcher_receive = λ d ts dgram i m. (pos 0, empty_transfer, d, m);
  fragment_free = λ b m. m;
  items = λ tx. tx.1;
  peek_lem = λ tx. refl;
  pop_lem = λ tx it rest h. ap without_first h;
}

abbrev frame_until : ℕ → TxItem
frame_until deadline = record {
  deadline_usec = deadline;
  destination_address = 14 * 2 ^ 28;
  destination_port = 9382;
  dscp = 0;
  payload = 1 ∷ [];
}

-- Three frames wait on each interface, the second of them too late; two can be sent.
abbrev toy_posix : Posix toy_os toy_udpard
toy_posix = record {
  memory = record { world = 0; allocated_fragments = 3; oom_count = 0 };
  response_extent_with_overhead = 64;
  rpc_rx_dispatcher = 0;
  local_iface_address = λ i. i + 1;
  tx = λ i. record {
    udpard_tx = (8, frame_until 9_000_000 ∷ frame_until 1 ∷ frame_until 9_000_000 ∷ []);
    sock = record { fd = some 3 };
    local_port = 50_001;
    frames_expired = 0;
  };
  rpc_rx = λ i. record { sock = toy_socket 4; oom_count = 0 };
  topics = λ t. record { sub = 5; sock_rx = λ i. udp_wrapper_rx_new; rx_oom_count = 0 };
}

abbrev ToyNode : Type 0
ToyNode = CyUdp list_index toy_os toy_udpard list_names 400

abbrev toy_node : ToyNode
toy_node =
    record (node_on (g_platform toy_os toy_udpard list_names 400) toy_posix (λ t. topic_of t 0)) {
      topic_count = 2;
    }

-- The handlers of errors do nothing.
abbrev no_tx_handler : ℕ → ℕ → ToyNode → ToyNode
no_tx_handler i e s = s

abbrev no_rx_handler : ℕ → ℕ → ℕ → ToyNode → ToyNode
no_rx_handler t i e s = s

abbrev no_future : ℕ → ℕ → ToyNode → ToyNode
no_future future kind s = s

abbrev no_arrival : ℕ → Arrival → ToyNode → TransferOwned → ToyNode × TransferOwned
no_arrival subscriber arrival s transfer = (s, transfer)

abbrev no_hash : List ℕ → ℕ
no_hash name = 0

abbrev toy_frames : List TxItem
toy_frames = frame_until 9_000_000 ∷ frame_until 1 ∷ frame_until 9_000_000 ∷ []

offload_queue-Drained_example :
    Drained list_index toy_os toy_udpard list_names 400 no_tx_handler 1 (pos 5_000_000) toy_frames (
      offload_queue list_index toy_os toy_udpard list_names 400 no_tx_handler 4 1
        (pos 5_000_000)
        toy_node)
offload_queue-Drained_example =
    offload_queue-Drained list_index toy_os toy_udpard list_names 400 no_tx_handler 1
      (pos 5_000_000) (λ e s. refl) toy_frames 4 toy_node refl (omega arith)

rx_awaited_bound_example :
    (length (rx_awaited list_index toy_os toy_udpard list_names 400 no_hash toy_node) ≤ 2 * (2 + 1))
    × (length (tx_awaited list_index toy_os toy_udpard list_names 400 no_hash toy_node) ≤ 2)
rx_awaited_bound_example =
    rx_awaited_bound list_index toy_os toy_udpard list_names 400 no_hash toy_node (omega arith)

gather_on_stack-joined_example :
    gather_on_stack ((1 ∷ 2 ∷ []) ∷ [] ∷ (3 ∷ []) ∷ []) ≡ joined ((1 ∷ 2 ∷ []) ∷ [] ∷ (3 ∷ []) ∷ [])
gather_on_stack-joined_example = gather_on_stack-joined ((1 ∷ 2 ∷ []) ∷ [] ∷ (3 ∷ []) ∷ [])

-- The descriptor 4 has no datagram yet when the buffer was allocated, and has one later.
nothing_yet : ltb_ℤ (pos 0) (udp_wrapper_rx_receive toy_os (toy_socket 4) 2000 1).0.0 ≡ false
unfolding udp_wrapper_rx_receive would_block
nothing_yet = refl

something_later :
    udp_wrapper_rx_receive toy_os (toy_socket 4) 2000 3 ≡ ((pos 1, toy_datagram.bytes), 3)
unfolding udp_wrapper_rx_receive filter_datagram is_unwanted
something_later = refl

read_socket-Balanced_example : Balanced list_index toy_os toy_udpard list_names 400 no_hash 3 (
    read_socket list_index toy_os toy_udpard list_names 400 no_hash no_future no_arrival
      no_rx_handler no_tx_handler 9
      (λ i. 0)
      toy_node
      (pos 5)
      none
      1)
unfolding socket_of mem_alloc count_allocation
read_socket-Balanced_example =
    read_socket-Balanced list_index toy_os toy_udpard list_names 400 no_hash no_future no_arrival
      no_rx_handler no_tx_handler 9 (λ i. 0) (λ t i e s. refl) (λ i e s. refl) toy_node (pos 5) none
      1 (omega arith) (λ address made. nothing_yet)

subscribe_media :
    (platform_topic_subscribe toy_os toy_udpard 1 5
      (record { extent = 9; transfer_id_timeout = pos 0 })
      toy_posix).0
    ≡ cy_err_media
unfolding platform_topic_subscribe open_sockets open_topic close_topic set_sock_rx for_each
    is_valid_ip err_from_udpard err_from_udp_wrapper set_posix_topic set_world udp_wrapper_rx_init
    open_rx set_up_rx is_multicast get_local_iface_index index_in minus_errno negated_i16 to_u64
    eq_ℤ ◌-ℤ◌ ◌+ℤ◌ update
subscribe_media = refl

media_fails : cy_err_media ≢ cy_ok
media_fails = ground arith

toy_subscribe_failed :
    (platform_topic_subscribe toy_os toy_udpard 1 5
      (record { extent = 9; transfer_id_timeout = pos 0 })
      toy_posix).0
    ≢ cy_ok
toy_subscribe_failed h = absurd (media_fails (sym subscribe_media ∙ h))

-- The second topic keeps what it has.
platform_topic_subscribe_failed_example :
    ((((platform_topic_subscribe toy_os toy_udpard 1 5
            (record { extent = 9; transfer_id_timeout = pos 0 })
            toy_posix).1.topics
          1).sock_rx
        0).fd
      ≡ none)
    × ((platform_topic_subscribe toy_os toy_udpard 1 5
            (record { extent = 9; transfer_id_timeout = pos 0 })
            toy_posix).1.topics
          2
        ≡ toy_posix.topics 2)
    × ((platform_topic_subscribe toy_os toy_udpard 1 5
          (record { extent = 9; transfer_id_timeout = pos 0 })
          toy_posix).1.tx
        ≡ toy_posix.tx)
    × ((platform_topic_subscribe toy_os toy_udpard 1 5
          (record { extent = 9; transfer_id_timeout = pos 0 })
          toy_posix).1.rpc_rx
        ≡ toy_posix.rpc_rx)
platform_topic_subscribe_failed_example =
    platform_topic_subscribe_failed toy_os toy_udpard 1 5
      (record { extent = 9; transfer_id_timeout = pos 0 }) toy_posix 0 2 (λ y lt. refl)
      (omega arith) (omega arith) toy_subscribe_failed

-- Every topic has its sockets open.
abbrev open_posix : Posix toy_os toy_udpard
open_posix = record toy_posix {
  topics = λ t. record { sub = 5; sock_rx = λ i. toy_socket 3; rx_oom_count = 0 };
}

check_collision-Left_example :
    ((5 ≡ toy_node.node_id)
      × Left list_index toy_os toy_udpard list_names 400 no_hash no_future no_arrival no_rx_handler
          no_tx_handler
          (left list_index toy_os toy_udpard list_names 400 no_hash no_future no_arrival
            no_rx_handler no_tx_handler
            (datagram_checked list_index toy_os toy_udpard list_names 400 no_hash no_future
              no_arrival no_rx_handler no_tx_handler toy_node 5)
            (pos 9))
          (pos 9))
    ⊎ ((5 ≢ toy_node.node_id)
        × (left list_index toy_os toy_udpard list_names 400 no_hash no_future no_arrival
              no_rx_handler no_tx_handler
              (datagram_checked list_index toy_os toy_udpard list_names 400 no_hash no_future
                no_arrival no_rx_handler no_tx_handler toy_node 5)
              (pos 9)
            ≡ toy_node))
check_collision-Left_example =
    check_collision-Left list_index toy_os toy_udpard list_names 400 no_hash no_future no_arrival
      no_rx_handler no_tx_handler toy_node 5 (pos 9) (omega arith) refl
