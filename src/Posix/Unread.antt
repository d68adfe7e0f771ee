-- ===== src/Posix/Unread.antt =====
-- The buffer of read_socket in cy_udp_posix/cy_udp_posix.c when no datagram is taken.
use cy.Prelude.{
  ℕ, zero, suc, ◌+◌, ◌-◌, ◌%◌, ◌<◌, ◌≡◌, refl, sym, subst, ◌∙◌, false, Option, none, some, List,
  arith,
}
use cy.Prelude.Int.{ℤ, pos, negsuc, ltb_ℤ}
use cy.Subject.{u64_mod}
use cy.Index.{Cavl}
use cy.Wkv.{Wkv}
use cy.Transfer.{TransferOwned}
use cy.Ingest.{Arrival}
use cy.Os.{Os}
use cy.Udpard.{Udpard}
use cy.Wrapper.Receiving.{udp_wrapper_rx_receive}
use cy.Posix.{
  Memory, Posix, mem_alloc, mem_free, count_allocation, set_world, set_posix_topic, set_rpc_rx,
  socket_read_buffer_size,
}
use cy.Posix.Layer.{CyUdp, with_posix}
use cy.Posix.Reading.{
  socket_of, count_oom, count_topic_oom, count_rpc_oom, free_buffer, report_error, take_datagram,
  read_socket,
}

freed : (held n : ℕ) → n < u64_mod → held ≡ (n + 1) % u64_mod → (held + u64_mod - 1) % u64_mod ≡ n
freed held n small h = omega arith

-- The allocator counts a buffer that it gives.
alloc_fragments :
    {os : Os} (m : Memory os) (buffer : Option ℕ)
    → (mem_alloc os socket_read_buffer_size m).0 ≡ buffer
    → (mem_alloc os socket_read_buffer_size m).1.allocated_fragments ≡ (elim buffer [
      | none ↦ m.allocated_fragments
      | some address ↦ (m.allocated_fragments + 1) % u64_mod
    ])
unfolding mem_alloc count_allocation
alloc_fragments m none e = rw e refl
alloc_fragments m (some address) e = rw e refl

module _ (cavl : Cavl) (os : Os) (udpard : Udpard (Memory os)) (wkv : Wkv (Posix os udpard))
    (topic_size : ℕ) (rapidhash : List ℕ → ℕ) where
  abbrev Node : Type 0
  Node = CyUdp cavl os udpard wkv topic_size

  abbrev pub held_fragments : Node → ℕ
  held_fragments s = s.platform_state.memory.allocated_fragments

  abbrev pub Balanced : ℕ → Option Node → Type 0
  Balanced n none = ⊥
  Balanced n (some s1) = held_fragments s1 ≡ n

  count_oom_fragments :
      (s : Node) (topic : Option ℕ) (i : ℕ)
      → held_fragments (count_oom cavl os udpard wkv topic_size rapidhash s topic i)
        ≡ held_fragments s
  unfolding count_oom count_topic_oom count_rpc_oom with_posix set_posix_topic set_rpc_rx
  count_oom_fragments s none i = refl
  count_oom_fragments s (some t) i = refl

  socket_of_memory :
      (s : Node) (topic : Option ℕ) (i : ℕ) (m : Memory os)
      → socket_of cavl os udpard wkv topic_size rapidhash
          (with_posix cavl os udpard wkv topic_size s (record s.platform_state { memory = m }))
          topic
          i
        ≡ socket_of cavl os udpard wkv topic_size rapidhash s topic i
  unfolding socket_of with_posix
  socket_of_memory s none i m = refl
  socket_of_memory s (some t) i m = refl

  module _ (on_future : ℕ → ℕ → Node → Node)
      (on_arrival : ℕ → Arrival → Node → TransferOwned → Node × TransferOwned)
      (on_rx_error : ℕ → ℕ → ℕ → Node → Node) (on_rpc_error : ℕ → ℕ → Node → Node) (rounds : ℕ)
      (stale : ℕ → ℕ)
      (rx_keeps : (t i e : ℕ) (s : Node) → held_fragments (on_rx_error t i e s) ≡ held_fragments s)
      (rpc_keeps : (i e : ℕ) (s : Node)
        → held_fragments (on_rpc_error i e s) ≡ held_fragments s) where
    report_error_fragments :
        (topic : Option ℕ) (i e : ℕ) (s : Node)
        → held_fragments (
            report_error cavl os udpard wkv topic_size rapidhash on_future on_arrival on_rx_error
              on_rpc_error topic i e s)
          ≡ held_fragments s
    unfolding report_error
    report_error_fragments none i e s = rpc_keeps i e s
    report_error_fragments (some t) i e s = rx_keeps t i e s

    -- A buffer that holds no datagram is given back.
    take_datagram_none :
        (n : ℕ) (s : Node) (ts : ℤ) (topic : Option ℕ) (i address : ℕ) (r : ℤ) (bytes : List ℕ)
        → n < u64_mod
        → held_fragments s ≡ (n + 1) % u64_mod
        → ltb_ℤ (pos 0) r ≡ false
        → Balanced n (
            take_datagram cavl os udpard wkv topic_size rapidhash on_future on_arrival on_rx_error
              on_rpc_error rounds stale s ts topic i address r bytes)
    unfolding take_datagram free_buffer mem_free with_posix
    take_datagram_none n s ts topic i address (pos zero) bytes small held nothing =
        freed (held_fragments s) n small held
    take_datagram_none n s ts topic i address (pos (suc k)) bytes small held nothing =
        absurd (ground arith)
    take_datagram_none n s ts topic i address (negsuc k) bytes small held nothing =
        report_error_fragments topic i (k + 1) _ ∙ freed (held_fragments s) n small held

    -- After the call of the allocator.
    read_socket_from :
        (s : Node) (ts : ℤ) (topic : Option ℕ) (i : ℕ) (buffer : Option ℕ)
        → (mem_alloc os socket_read_buffer_size s.platform_state.memory).0 ≡ buffer
        → held_fragments s < u64_mod
        → ((address : ℕ)
            → (mem_alloc os socket_read_buffer_size s.platform_state.memory).0 ≡ some address
            → ltb_ℤ
                (pos 0)
                (udp_wrapper_rx_receive os
                  (socket_of cavl os udpard wkv topic_size rapidhash s topic i)
                  socket_read_buffer_size
                  (mem_alloc os socket_read_buffer_size s.platform_state.memory).1.world).0.0
              ≡ false)
        → Balanced (held_fragments s) (
            read_socket cavl os udpard wkv topic_size rapidhash on_future on_arrival on_rx_error
              on_rpc_error rounds stale s ts topic i)
    unfolding read_socket with_posix set_world
    read_socket_from s ts topic i none e small nothing =
        rw (read_socket, e)
          (count_oom_fragments _ topic i ∙ (alloc_fragments s.platform_state.memory none e))
    read_socket_from s ts topic i (some address) e small nothing =
        rw (read_socket, e)
          (take_datagram_none (held_fragments s) _ ts topic i address _ _ small
            (alloc_fragments s.platform_state.memory (some address) e)
            (subst
              (λ sock.
                ltb_ℤ (pos 0)
                  (udp_wrapper_rx_receive os sock socket_read_buffer_size
                    (mem_alloc os socket_read_buffer_size s.platform_state.memory).1.world).0.0
                ≡ false)
              (sym (socket_of_memory s topic i _)) (nothing address e)))

    -- One call of read_socket, in which no buffer can be allocated, or the one receipt into the
    -- buffer gives nothing: no datagram now, one that is filtered out, or a failure. When the
    -- handlers of errors leave the count of allocated buffers alone, read_socket returns and that
    -- count, which is below 2 ^ 64, is as before.
    pub read_socket-Balanced :
        (s : Node) (ts : ℤ) (topic : Option ℕ) (i : ℕ)
        → held_fragments s < u64_mod
        → ((address : ℕ)
            → (mem_alloc os socket_read_buffer_size s.platform_state.memory).0 ≡ some address
            → ltb_ℤ
                (pos 0)
                (udp_wrapper_rx_receive os
                  (socket_of cavl os udpard wkv topic_size rapidhash s topic i)
                  socket_read_buffer_size
                  (mem_alloc os socket_read_buffer_size s.platform_state.memory).1.world).0.0
              ≡ false)
        → Balanced (held_fragments s) (
            read_socket cavl os udpard wkv topic_size rapidhash on_future on_arrival on_rx_error
              on_rpc_error rounds stale s ts topic i)
    read_socket-Balanced s ts topic i small nothing =
        read_socket_from s ts topic i
          (mem_alloc os socket_read_buffer_size s.platform_state.memory).0 refl small nothing
