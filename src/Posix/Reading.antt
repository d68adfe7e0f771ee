-- ===== src/Posix/Reading.antt =====
-- The receipt of datagrams, of cy_udp_posix/cy_udp_posix.c: make_metadata, ingest_topic_frame,
-- ingest_rpc_frame, read_socket.
use cy.Prelude.{
  ℕ, zero, suc, ◌+◌, ◌*◌, ◌%◌, true, false, not, ◌&&◌, Option, none, some, List, leb, ◌==◌,
  if◌then◌else◌, get_elem?,
}
use cy.Prelude.Int.{ℤ, pos, negsuc, ◌-ℤ◌}
use cy.Subject.{u64_mod}
use cy.Age.{eq_ℤ}
use cy.Index.{Cavl}
use cy.Wkv.{Wkv}
use cy.Transfer.{TransferMetadata, TransferOwned}
use cy.Allocation.{is_empty}
use cy.Joining.{cy_notify_node_id_collision}
use cy.Futures.{cy_ingest_topic_response_transfer}
use cy.Ingest.{Arrival, cy_ingest_topic_transfer}
use cy.Os.{Os}
use cy.Udpard.{Udpard, Payload, RxTransfer}
use cy.Wrapper.{RxSocket}
use cy.Wrapper.Receiving.{udp_wrapper_rx_receive}
use cy.Posix.{
  Memory, Posix, to_u64, to_i64, mem_alloc, mem_free, set_world, set_posix_topic, set_rpc_rx,
  socket_read_buffer_size,
}
use cy.Posix.Layer.{g_platform, CyUdp, with_posix}

unfoldable pub make_metadata : RxTransfer → TransferMetadata
make_metadata tr = record {
  priority = tr.priority;
  remote_node_id = tr.source_node_id;
  transfer_id = tr.transfer_id;
}

-- make_rx_buffer copies the fragments as they are.
unfoldable pub owned_transfer : RxTransfer → TransferOwned
owned_transfer tr = record {
  timestamp = to_i64 tr.timestamp_usec;
  metadata = make_metadata tr;
  payload = tr.payload;
}

-- A byte of the buffer: behind the datagram it is what the memory held before.
abbrev pub byte_or : Option ℕ → ℕ → ℕ
byte_or none stale = stale
byte_or (some byte) stale = byte

unfoldable pub source_node_id_of : List ℕ → (ℕ → ℕ) → ℕ
source_node_id_of bytes stale =
    byte_or (get_elem? bytes 2) (stale 2) + 256 * byte_or (get_elem? bytes 3) (stale 3)

module _ (cavl : Cavl) (os : Os) (udpard : Udpard (Memory os)) (wkv : Wkv (Posix os udpard))
    (topic_size : ℕ) (rapidhash : List ℕ → ℕ) where
  open udpard use {node_id_max, error_memory, subscription_receive, dispatcher_receive}

  abbrev Node : Type 0
  Node = CyUdp cavl os udpard wkv topic_size

  abbrev give : Node → Posix os udpard → Node
  give = with_posix cavl os udpard wkv topic_size

  unfoldable pub count_topic_oom : Node → ℕ → Node
  count_topic_oom s t =
      let topic = s.platform_state.topics t in
      give s (
        set_posix_topic os udpard s.platform_state t
          (record topic { rx_oom_count = (topic.rx_oom_count + 1) % u64_mod }))

  unfoldable pub count_rpc_oom : Node → ℕ → Node
  count_rpc_oom s i =
      let rpc = s.platform_state.rpc_rx i in
      give s (
        set_rpc_rx os udpard s.platform_state i
          (record rpc { oom_count = (rpc.oom_count + 1) % u64_mod }))

  unfoldable pub count_oom : Node → Option ℕ → ℕ → Node
  count_oom s none i = count_rpc_oom s i
  count_oom s (some t) i = count_topic_oom s t

  -- The buffer of the datagram goes back to the allocator.
  unfoldable pub free_buffer : Node → ℕ → Node
  free_buffer s address =
      let p = s.platform_state in give s (record p { memory = mem_free os (some address) p.memory })

  -- The socket of a topic, or the RPC socket of an interface.
  unfoldable pub socket_of : Node → Option ℕ → ℕ → RxSocket
  socket_of s none i = (s.platform_state.rpc_rx i).sock
  socket_of s (some t) i = (s.platform_state.topics t).sock_rx i

  module _ (on_future : ℕ → ℕ → Node → Node)
      (on_arrival : ℕ → Arrival → Node → TransferOwned → Node × TransferOwned)
      -- rx_sock_err_handler and rpc_rx_sock_err_handler, with the error last.
      (on_rx_error : ℕ → ℕ → ℕ → Node → Node) (on_rpc_error : ℕ → ℕ → Node → Node) where
    unfoldable pub ingest_topic_transfer : ℕ → Node → ℕ → ℤ → RxTransfer → Option Node
    ingest_topic_transfer rounds s t er transfer =
        if eq_ℤ er (pos 1)
        then cy_ingest_topic_transfer cavl (g_platform os udpard wkv topic_size) rapidhash
            on_arrival rounds s t (owned_transfer transfer)
        else if eq_ℤ er (pos 0 -ℤ pos error_memory)
        then some (count_topic_oom s t)
        else some s

    unfoldable pub ingest_topic_frame : ℕ → Node → ℕ → ℤ → ℕ → Payload → Option Node
    ingest_topic_frame rounds s t ts i dgram =
        elim (not (is_empty (s.topics t).couplings) && (s.topics t).subscribed) [
          | false ↦ some (free_buffer s dgram.address)
          | true ↦
              let p = s.platform_state in
              let topic = p.topics t in
              let (er, transfer, sub, m) =
                subscription_receive topic.sub (to_u64 ts) dgram i p.memory in
              ingest_topic_transfer rounds
                (give s (
                  set_posix_topic os udpard (record p { memory = m }) t
                    (record topic { sub = sub })))
                t er transfer
        ]

    unfoldable pub ingest_rpc_transfer : Node → ℕ → ℤ → RxTransfer → Node
    ingest_rpc_transfer s i er transfer =
        if eq_ℤ er (pos 1)
        then cy_ingest_topic_response_transfer cavl (g_platform os udpard wkv topic_size) rapidhash
            on_future s (owned_transfer transfer)
        else if eq_ℤ er (pos 0 -ℤ pos error_memory)
        then count_rpc_oom s i
        else s

    -- There is one RPC port, the one of the topic responses.
    unfoldable pub ingest_rpc_frame : Node → ℤ → ℕ → Payload → Node
    ingest_rpc_frame s ts i dgram =
        let p = s.platform_state in
        let (er, transfer, dispatcher, m) =
          dispatcher_receive p.rpc_rx_dispatcher (to_u64 ts) dgram i p.memory in
        ingest_rpc_transfer (give s (record p { rpc_rx_dispatcher = dispatcher; memory = m })) i er
          transfer

    unfoldable pub report_error : Option ℕ → ℕ → ℕ → Node → Node
    report_error none i err_no s = on_rpc_error i err_no s
    report_error (some t) i err_no s = on_rx_error t i err_no s

    -- A datagram of another node with the own node-ID.
    unfoldable pub check_collision : Node → ℕ → Node
    check_collision s src_nid =
        if leb src_nid node_id_max && src_nid == s.node_id
        then cy_notify_node_id_collision cavl (g_platform os udpard wkv topic_size) rapidhash s
        else s

    unfoldable pub ingest_frame : ℕ → Node → ℤ → Option ℕ → ℕ → Payload → Option Node
    ingest_frame rounds s ts none i dgram = some (ingest_rpc_frame s ts i dgram)
    ingest_frame rounds s ts (some t) i dgram = ingest_topic_frame rounds s t ts i dgram

    -- What the result of the receipt leads to; the datagram lies in the buffer at `address`.
    unfoldable pub take_datagram :
        ℕ → (ℕ → ℕ) → Node → ℤ → Option ℕ → ℕ → ℕ → ℤ → List ℕ → Option Node
    take_datagram rounds stale s ts topic i address (negsuc n) bytes =
        some (report_error topic i (n + 1) (free_buffer s address))
    take_datagram rounds stale s ts topic i address (pos zero) bytes = some (free_buffer s address)
    take_datagram rounds stale s ts topic i address (pos (suc n)) bytes =
        ingest_frame rounds (check_collision s (source_node_id_of bytes stale)) ts topic i
          (record { address = address; bytes = bytes })

    -- `stale` is what the buffer held before. The topic is none for an RPC socket.
    unfoldable pub read_socket : ℕ → (ℕ → ℕ) → Node → ℤ → Option ℕ → ℕ → Option Node
    read_socket rounds stale s ts topic i =
        let p = s.platform_state in
        let (buffer, m) = mem_alloc os socket_read_buffer_size p.memory in
        let s1 = give s (record p { memory = m }) in
        elim buffer [
          | none ↦ some (count_oom s1 topic i)
          | some address ↦
              let ((rx_result, bytes), w) =
                udp_wrapper_rx_receive os (socket_of s1 topic i) socket_read_buffer_size m.world in
              take_datagram rounds stale (give s1 (set_world os udpard s1.platform_state w)) ts
                topic i address rx_result bytes
        ]
