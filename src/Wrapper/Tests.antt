-- ===== src/Wrapper/Tests.antt =====
-- The sockets of cy_udp_posix/udp_wrapper.c on a small system.
use cy.Prelude.{
  arith, false, ℕ, ◌+◌, ◌*◌, ◌%◌, ◌^◌, ◌≡◌, ◌≢◌, ◌↔◌, ◌⊎◌, refl, Bool, true, not, ◌&&◌, none, some,
  [], ◌∷◌, ◌==◌, ltb, if◌then◌else◌, length, map,
}
use cy.Prelude.Int.{pos, negsuc}
use cy.Os.{Os, SockOpt, Datagram, Ifaddr, PollFd, ip_add_membership}
use cy.Wrapper.{RxSocket, is_multicast, udp_wrapper_rx_new, udp_wrapper_rx_is_initialized}
use cy.Wrapper.Receiving.{
  get_local_iface_index, index_in, udp_wrapper_rx_init, udp_wrapper_rx_receive,
}
use cy.Wrapper.Opening.{udp_wrapper_rx_init_unfound}
use cy.Wrapper.Receipt.{udp_wrapper_rx_receive-accepts}

-- The interface with the address 2 has no multicast.
abbrev pub joins : SockOpt → Bool
joins (ip_add_membership group address) = not (address == 2)
joins opt = true

abbrev pub toy_datagram : Datagram
toy_datagram = record {
  bytes = 0 ∷ 0 ∷ 5 ∷ 0 ∷ [];
  source_address = 1;
  source_port = 50_000;
  iface_index = some 1;
}

abbrev pub toy_iface : ℕ → Ifaddr
toy_iface address = record { name = b'l' ∷ b'o' ∷ []; address = some address }

-- The state counts the calls that use something up. Two frames can be sent. The datagram reaches
-- the descriptor 4 later than the others.
abbrev pub toy_os : Os
toy_os = record {
  World = ℕ;
  errno = λ w. 11;
  monotonic = λ w. ((pos 5, pos 0), w);
  monotonic_raw_nsec = λ w. (w, w);
  malloc = λ size w. (some (w + 100), w + 1);
  free = λ x w. w;
  socket = λ w. (some (w + 3), w + 1);
  bind = λ fd address port w. (true, w);
  getsockname = λ fd w. (some 50_001, w);
  set_nonblocking = λ fd w. (true, w);
  setsockopt = λ fd opt w. (joins opt, w);
  close = λ fd w. w;
  sendto =
      λ fd payload address port w. if ltb w 2 then (pos (length payload), w + 1) else (negsuc 0, w);
  recvmsg = λ fd size w. if fd == 4 && ltb w 3 then (none, w) else (some toy_datagram, w);
  getifaddrs = λ w. (some (toy_iface 1 ∷ toy_iface 2 ∷ []), w);
  freeifaddrs = λ ifas w. w;
  if_nametoindex = λ name w. (1, w);
  poll = λ fds timeout w. (some (map (λ (f : PollFd). true) fds), w);
  inet_pton = λ address. none;
  einval = 22;
  enomem = 12;
  eio = 5;
  eagain = 11;
  ewouldblock = 11;
}

abbrev pub toy_socket : ℕ → RxSocket
toy_socket fd = record {
  fd = some fd;
  allow_iface_index = 1;
  deny_source_address = 1;
  deny_source_port = 50_001;
}

udp_wrapper_rx_receive-accepts_example :
    ((udp_wrapper_rx_receive toy_os (toy_socket 3) 2000 0).0.0 ≡ pos 1 ↔ (
      (◌≡◌ {A = ℕ} 1 1)
      × ((toy_datagram.source_address ≢ (toy_socket 3).deny_source_address)
          ⊎ (toy_datagram.source_port ≢ (toy_socket 3).deny_source_port))))
    × ((udp_wrapper_rx_receive toy_os (toy_socket 3) 2000 0 ≡ ((pos 1, toy_datagram.bytes), 0))
        ⊎ (udp_wrapper_rx_receive toy_os (toy_socket 3) 2000 0 ≡ ((pos 0, []), 0)))
udp_wrapper_rx_receive-accepts_example =
    udp_wrapper_rx_receive-accepts toy_os (toy_socket 3) 3 2000 1 toy_datagram 0 0 refl refl refl

-- No interface has the address 9, and no call has failed yet.
abbrev quiet_os : Os
quiet_os = record toy_os { errno = λ w. 0 }

unfound : get_local_iface_index quiet_os 9 0 ≡ (0, 0)
unfolding get_local_iface_index index_in
unfound = refl

group_is_multicast : is_multicast (14 * 2 ^ 28) ≡ true
unfolding is_multicast
group_is_multicast = refl

udp_wrapper_rx_init_unfound_example :
    (udp_wrapper_rx_is_initialized
        (udp_wrapper_rx_init quiet_os udp_wrapper_rx_new 9 (14 * 2 ^ 28) 9382 50_001 0).1
      ≡ false)
    × (((udp_wrapper_rx_init quiet_os udp_wrapper_rx_new 9 (14 * 2 ^ 28) 9382 50_001 0).0 ≡ pos 0)
        ↔ (quiet_os.errno 1 % 2 ^ 16 ≡ 0))
udp_wrapper_rx_init_unfound_example =
    udp_wrapper_rx_init_unfound quiet_os udp_wrapper_rx_new 9 (14 * 2 ^ 28) 9382 50_001 3 0 0 1
      (omega arith) group_is_multicast (omega arith) unfound refl
